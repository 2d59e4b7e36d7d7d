-- ===== src/Wire/Safety.antt =====
-- Decoding never panics: every index and slice of `Packet::decode` is in range.
use cockroach_chat.Prelude.{
  ℕ, ◌+◌, ◌≤◌, ◌≡◌, ◌≢◌, List, arith, length, ok, err, panic, ◌>>=◌, ◌>>◌, index_in, slice_in,
  le→ltb, dec_lt, ◌<◌, get_or, take, drop, ◌==◌, refl, Outcome, ◌∷◌, [],
}
use cockroach_chat.Prelude.Bytes.{from_be}
use cockroach_chat.Error.{WireError, short, bad_version}
use cockroach_chat.Wire.{
  need, require, decode_recipient, decode_trailer, decode, assemble, min_header, protocol_version,
}

decode_recipient-ne-panic : (bs : List ℕ) (flags off : ℕ) → decode_recipient bs flags off ≢ panic
unfolding decode_recipient need
decode_recipient-ne-panic bs flags off = ground (arith, slice_in {E = WireError} bs off (off + 8))

decode_trailer-ne-panic : (bs : List ℕ) (off : ℕ) → decode_trailer bs off ≢ panic
unfolding decode_trailer need
decode_trailer-ne-panic bs off =
    let n : ℕ = from_be (get_or bs off 0 ∷ get_or bs (off + 1) 0 ∷ []) in
    ground (
      arith,
      index_in {E = WireError} bs off,
      index_in {E = WireError} bs (off + 1),
      slice_in {E = WireError} bs (off + 2) (off + 2 + n),
      slice_in {E = WireError} bs (off + 2 + n) (off + 2 + n + 64),
    )

-- Past the length check, decoding is the version check, the recipient and the trailer.
pub decode_long :
    (bs : List ℕ)
    → min_header ≤ length bs
    → decode bs ≡ (
        require (get_or bs 0 0 == protocol_version) (bad_version (get_or bs 0 0))
        >> (decode_recipient bs (get_or bs 2 0) 20 >>= λ (recipient, off).
            decode_trailer bs off >>= λ (payload, signature). ok (
              assemble
                (get_or bs 0 0)
                (get_or bs 1 0)
                (get_or bs 2 0)
                (get_or bs 3 0)
                (take 8 (drop 4 bs))
                (take 8 (drop 12 bs))
                recipient
                payload
                signature)))
unfolding decode need
decode_long bs h = rw (
  le→ltb (length bs) (0 + min_header) h,
  index_in {E = WireError} bs 0 (omega arith),
  index_in {E = WireError} bs 1 (omega arith),
  index_in {E = WireError} bs 2 (omega arith),
  index_in {E = WireError} bs 3 (omega arith),
  slice_in {E = WireError} bs 4 12 (omega arith) (omega arith),
  slice_in {E = WireError} bs 12 20 (omega arith) (omega arith),
)

pub decode_short :
    (bs : List ℕ) → length bs < min_header → decode bs ≡ err (short min_header (length bs))
unfolding decode need
decode_short bs h = ground arith

>>=-ne-panic {ℓ κ} :
    {A : Type ℓ} {B : Type κ} (m : Outcome WireError A) (f : A → Outcome WireError B)
    → m ≢ panic
    → ((a : A) → f a ≢ panic)
    → (m >>= f) ≢ panic
>>=-ne-panic (ok a) f hm hf = hf a
>>=-ne-panic (err e) f hm hf = λ h. cc
>>=-ne-panic panic f hm hf = absurd (hm refl)

-- Decoding any sequence of bytes, of any length, returns a packet or an error: it never indexes or
-- slices the buffer out of range.
pub decode-ne-panic : (bs : List ℕ) → decode bs ≢ panic
decode-ne-panic bs = elim (dec_lt (length bs) min_header) [
  | yes h ↦ rw (decode_short bs h) (λ e. cc)
  | no h ↦ rw (decode_long bs (omega arith)) (
      >>=-ne-panic _ _ (λ e. ground arith)
        λ _.
          >>=-ne-panic _ _ (decode_recipient-ne-panic bs (get_or bs 2 0) 20)
            λ r. >>=-ne-panic _ _ (decode_trailer-ne-panic bs r.1) λ t e. cc)
]
