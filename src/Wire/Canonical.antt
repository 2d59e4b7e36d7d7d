-- ===== src/Wire/Canonical.antt =====
-- Encoding inverts decoding: a buffer that is accepted is the only encoding of its packet.
use Prim.Native.Nat.{bit_and}
use cockroach_chat.Prelude.{
  ℕ, ◌+◌, ◌-◌, ◌%◌, ◌^◌, ◌≤◌, ◌<◌, ◌≡◌, refl, sym, ap, ap₂, subst, ◌∙◌, ◌⊎◌, inl, inr, Bool, true,
  false, Option, none, some, List, [], ◌∷◌, ◌++◌, arith, length, ok, err, ◌>>=◌, ◌==◌, take, drop,
  get_or, >>=-eq-ok, Bool-cases, All-take, All-drop, le→ltb, lt→ltb, le→leb, lt→leb, dec_lt,
  length-drop, Outcome, index_in, slice_in, ==_iff,
}
use cockroach_chat.Prelude.Bytes.{
  IsByte, IsBytes, to_be, from_be, to_be-from_be, from_be-lt, IsBytes-get,
}
use mathlib.Core.List.{append-nil}
use cockroach_chat.Error.{WireError, trailing, bad_length, bad_version, short}
use cockroach_chat.Wire.{
  Packet, need, require, decode_recipient, decode_trailer, decode, assemble, effective_flags,
  recipient_bytes, encode, protocol_version, has_recipient, sig_len, min_header,
}
use cockroach_chat.Wire.Types.{flag_restored, flag_reset_again, to_u8-from_u8}
use cockroach_chat.Wire.Cursor.{At-byte, At-part, length-part}
use cockroach_chat.Wire.Roundtrip.{encode_layout}
use cockroach_chat.Wire.Safety.{decode_long, decode_short}

abbrev declared : List ℕ → ℕ → ℕ
declared bs off = from_be (get_or bs off 0 ∷ get_or bs (off + 1) 0 ∷ [])

decode_trailer_short :
    (bs : List ℕ) (off : ℕ)
    → length bs < off + 2
    → decode_trailer bs off ≡ err (short (off + 2) (length bs))
unfolding decode_trailer need
decode_trailer_short bs off h = rw (lt→ltb (length bs) (off + 2) h)

decode_trailer_bad_length :
    (bs : List ℕ) (off : ℕ)
    → off + 2 ≤ length bs
    → length bs < off + 2 + declared bs off + 64
    → decode_trailer bs off ≡ err (bad_length (declared bs off) (length bs - (off + 2)))
unfolding decode_trailer need
decode_trailer_bad_length bs off h k = rw (
  le→ltb (length bs) (off + 2) h,
  index_in {E = WireError} bs off (omega arith),
  index_in {E = WireError} bs (off + 1) (omega arith),
  lt→leb (declared bs off + sig_len) (length bs - (off + 2)) (omega arith),
)

decode_trailer_whole :
    (bs : List ℕ) (off : ℕ)
    → off + 2 + declared bs off + 64 ≤ length bs
    → decode_trailer bs off ≡ (
        require
          (off + 2 + declared bs off + sig_len == length bs)
          (trailing (length bs - (off + 2 + declared bs off + sig_len)))
        >>= λ _. ok (
          take (off + 2 + declared bs off - (off + 2)) (drop (off + 2) bs),
          take
              (off + 2 + declared bs off + sig_len - (off + 2 + declared bs off))
              (drop (off + 2 + declared bs off) bs),
        ))
unfolding decode_trailer need
decode_trailer_whole bs off h = rw (
  le→ltb (length bs) (off + 2) (omega arith),
  index_in {E = WireError} bs off (omega arith),
  index_in {E = WireError} bs (off + 1) (omega arith),
  le→leb (declared bs off + sig_len) (length bs - (off + 2)) (omega arith),
  slice_in {E = WireError} bs (off + 2) (off + 2 + declared bs off) (omega arith) (omega arith),
  slice_in {E = WireError} bs (off + 2 + declared bs off) (off + 2 + declared bs off + sig_len)
      (omega arith) (omega arith),
)

not-err-ok {ℓ κ} :
    {E : Type ℓ} {A : Type κ} {e : E} {a : A} → ¬ (◌≡◌ {A = Outcome E A} (err e) (ok a))
not-err-ok h = cc

ok-injective {ℓ κ} :
    {E : Type ℓ} {A : Type κ} {a b : A} → ◌≡◌ {A = Outcome E A} (ok a) (ok b) → a ≡ b
ok-injective h = cc

require-ok {ℓ} :
    {A : Type ℓ} {a t : A} (b : Bool) (e : WireError)
    → (require b e >>= λ _. ok a) ≡ ok t
    → (b ≡ true) × (a ≡ t)
require-ok true e h = (refl, ground arith)
require-ok false e h = cc

-- What an accepted trailer says of the buffer.
decode_trailer-ok :
    (bs : List ℕ) (off : ℕ) {payload signature : List ℕ}
    → decode_trailer bs off ≡ ok (payload, signature)
    → (off + 2 + declared bs off + 64 ≡ length bs)
      × (payload ≡ take (declared bs off) (drop (off + 2) bs))
      × (signature ≡ take 64 (drop (off + 2 + declared bs off) bs))
decode_trailer-ok bs off {payload} {signature} h = elim (dec_lt (length bs) (off + 2)) [
  | yes s ↦ absurd (not-err-ok (sym (decode_trailer_short bs off s) ∙ h))
  | no s ↦ elim (dec_lt (length bs) (off + 2 + declared bs off + 64)) [
    | yes b ↦ absurd (not-err-ok (sym (decode_trailer_bad_length bs off (omega arith) b) ∙ h))
    | no b ↦
        let e = sym (decode_trailer_whole bs off (omega arith)) ∙ h in
        let (full, read) = require-ok _ _ (sym (decode_trailer_whole bs off (omega arith)) ∙ h) in
        (
          omega (arith, (==_iff (off + 2 + declared bs off + sig_len) (length bs)).0 full),
          sym (ap (λ t. t.0) read)
              ∙ ap (λ k. take k (drop (off + 2) bs)) {x = off + 2 + declared bs off - (off + 2)}
                  {y = declared bs off} (omega arith),
          sym (ap (λ t. t.1) read)
              ∙ ap (λ k. take k (drop (off + 2 + declared bs off) bs))
                  {x = off + 2 + declared bs off + sig_len - (off + 2 + declared bs off)} {y = 64}
                  (omega arith),
        )
  ]
]

-- What an accepted recipient says of the flag and of the buffer.
abbrev RecipientRead : List ℕ → ℕ → ℕ → Option (List ℕ) → ℕ → Type 0
RecipientRead bs flags off recipient next =
    (((bit_and flags has_recipient == 0) ≡ true) × (recipient ≡ none) × (next ≡ off))
    ⊎ (((bit_and flags has_recipient == 0) ≡ false)
        × (recipient ≡ some (take 8 (drop off bs)))
        × (next ≡ off + 8)
        × (off + 8 ≤ length bs))

decode_recipient-ok :
    (bs : List ℕ) (flags off : ℕ) {recipient : Option (List ℕ)} {next : ℕ}
    → decode_recipient bs flags off ≡ ok (recipient, next)
    → RecipientRead bs flags off recipient next
unfolding decode_recipient need
decode_recipient-ok bs flags off h = elim (Bool-cases (bit_and flags has_recipient == 0)) [
  | inl absent ↦ inl (absent, ground arith, ground arith)
  | inr present ↦ elim (dec_lt (length bs) (off + 8)) [
    | yes few ↦ absurd (ground arith)
    | no enough ↦
        let e = slice_in {E = WireError} bs off (off + 8) (omega arith) (omega arith) in
        let same : off + 8 - off ≡ 8 = omega arith in
        inr (present, ground (arith, e, same), ground (arith, e), omega arith)
  ]
]

drop_all : (n : ℕ) (bs : List ℕ) → n ≡ length bs → drop n bs ≡ []
drop_all n bs h = length-zero (drop n bs) (omega (arith, length-drop n bs))
  where
    length-zero : (l : List ℕ) → length l ≡ 0 → l ≡ []
    length-zero [] e = refl
    length-zero (x ∷ l) e = absurd (omega arith)

-- The bytes of an accepted trailer are the encoding of what was read from them.
decode_trailer_bytes :
    (bs : List ℕ) (off : ℕ) {payload signature : List ℕ}
    → IsBytes bs
    → decode_trailer bs off ≡ ok (payload, signature)
    → drop off bs ≡ to_be 2 (length payload % 2 ^ 16) ++ (payload ++ signature)
decode_trailer_bytes bs off {payload} {signature} hb h =
    let n : ℕ = declared bs off in
    let (total, is_payload, is_signature) = decode_trailer-ok bs off h in
    let b0 : get_or bs off 0 < 256 = IsBytes-get bs off hb in
    let b1 : get_or bs (off + 1) 0 < 256 = IsBytes-get bs (off + 1) hb in
    let field : to_be 2 n ≡ get_or bs off 0 ∷ get_or bs (off + 1) 0 ∷ [] =
      to_be-from_be (get_or bs off 0 ∷ get_or bs (off + 1) 0 ∷ []) (b0, (b1, tt)) in
    let small : n < 2 ^ 16 =
      from_be-lt (get_or bs off 0 ∷ get_or bs (off + 1) 0 ∷ []) (b0, (b1, tt)) in
    let size : length payload % 2 ^ 16 ≡ n =
      omega (arith, ap (λ l. length l) is_payload, length-part bs (off + 2) n (omega arith)) in
    (At-byte bs off (omega arith)).drops
    ∙ ap (λ l. get_or bs off 0 ∷ l) ((At-byte bs (off + 1) (omega arith)).drops)
    ∙ ap (λ k. get_or bs off 0 ∷ get_or bs (off + 1) 0 ∷ drop k bs) {x = off + 1 + 1} {y = off + 2}
        (omega arith)
    ∙ ap₂ (λ f l. f ++ l) (sym (ap (to_be 2) size ∙ field))
        ((At-part bs (off + 2) n (omega arith)).drops
          ∙ ap₂ ◌++◌ (sym is_payload) (
              (At-part bs (off + 2 + n) 64 (omega arith)).drops
              ∙ ap₂ ◌++◌ (sym is_signature) (drop_all (off + 2 + n + 64) bs total)
              ∙ append-nil signature))

-- The recipient's bytes and what follows them make up the buffer from `off` on.
recipient_drop :
    (bs : List ℕ) (flags off next : ℕ) (recipient : Option (List ℕ))
    → RecipientRead bs flags off recipient next
    → drop off bs ≡ recipient_bytes recipient ++ drop next bs
unfolding recipient_bytes
recipient_drop bs flags off next recipient (inl (absent, e, n)) = rw (e, n)
recipient_drop bs flags off next recipient (inr (present, e, n, fits)) =
    rw (e, n) ((At-part bs off 8 fits).drops)

-- The flag bit that the encoder derives from the recipient is the one that was read.
recipient_flags :
    (bs : List ℕ) (off next : ℕ) (p : Packet) (flags : ℕ)
    → flags < 256
    → p.flags ≡ bit_and flags 0xfe
    → RecipientRead bs flags off p.recipient next
    → effective_flags p ≡ flags
unfolding effective_flags
recipient_flags bs off next p flags h e r =
    rw e (ground (arith, flag_restored flags h, flag_reset_again flags h, r))

header_bytes :
    (bs : List ℕ)
    → min_header ≤ length bs
    → bs
      ≡ get_or bs 0 0
        ∷ get_or bs 1 0
        ∷ get_or bs 2 0
        ∷ get_or bs 3 0
        ∷ (take 8 (drop 4 bs) ++ (take 8 (drop 12 bs) ++ drop 20 bs))
header_bytes bs h =
    (At-byte bs 0 (omega arith)).drops
    ∙ ap (λ l. get_or bs 0 0 ∷ l)
        ((At-byte bs 1 (omega arith)).drops
          ∙ ap (λ l. get_or bs 1 0 ∷ l)
              ((At-byte bs 2 (omega arith)).drops
                ∙ ap (λ l. get_or bs 2 0 ∷ l)
                    ((At-byte bs 3 (omega arith)).drops
                      ∙ ap (λ l. get_or bs 3 0 ∷ l)
                          ((At-part bs 4 8 (omega arith)).drops
                            ∙ ap (λ l. take 8 (drop 4 bs) ++ l)
                                (At-part bs 12 8 (omega arith)).drops))))

-- The encoding of the packet that decoding puts together, from the facts about its parts.
encode-assemble :
    (bs : List ℕ) (recipient : Option (List ℕ)) (off : ℕ) (payload signature : List ℕ)
    → IsBytes bs
    → min_header ≤ length bs
    → RecipientRead bs (get_or bs 2 0) 20 recipient off
    → decode_trailer bs off ≡ ok (payload, signature)
    → encode (
        assemble
          (get_or bs 0 0)
          (get_or bs 1 0)
          (get_or bs 2 0)
          (get_or bs 3 0)
          (take 8 (drop 4 bs))
          (take 8 (drop 12 bs))
          recipient
          payload
          signature)
      ≡ bs
unfolding assemble
encode-assemble bs recipient off payload signature hb hl r t =
    let p : Packet =
      assemble (get_or bs 0 0) (get_or bs 1 0) (get_or bs 2 0) (get_or bs 3 0) (take 8 (drop 4 bs))
        (take 8 (drop 12 bs)) recipient payload signature in
    let ts : to_be 8 (from_be (take 8 (drop 4 bs))) ≡ take 8 (drop 4 bs) =
      subst (λ w. to_be w (from_be (take 8 (drop 4 bs))) ≡ take 8 (drop 4 bs))
        (length-part bs 4 8 (omega arith))
        (to_be-from_be (take 8 (drop 4 bs))
          (All-take IsByte 8 (drop 4 bs) (All-drop IsByte 4 bs hb))) in
    let tail : recipient_bytes recipient
          ++ (to_be 2 (length payload % 2 ^ 16) ++ (payload ++ signature))
        ≡ drop 20 bs =
      ap (λ l. recipient_bytes recipient ++ l) (sym (decode_trailer_bytes bs off hb t))
      ∙ sym (recipient_drop bs (get_or bs 2 0) 20 off recipient r) in
    encode_layout p
    ∙ ap₂ (λ k l. get_or bs 0 0 ∷ k ∷ effective_flags p ∷ get_or bs 3 0 ∷ l)
        (to_u8-from_u8 (get_or bs 1 0)) (ap₂ (λ a b. a ++ (take 8 (drop 12 bs) ++ b)) ts tail)
    ∙ ap
        (λ f.
          get_or bs 0 0
          ∷ get_or bs 1 0
          ∷ f
          ∷ get_or bs 3 0
          ∷ (take 8 (drop 4 bs) ++ (take 8 (drop 12 bs) ++ drop 20 bs)))
        (recipient_flags bs 20 off p (get_or bs 2 0) (IsBytes-get bs 2 hb) refl r)
    ∙ sym (header_bytes bs hl)

abbrev after_trailer : List ℕ → Option (List ℕ) → List ℕ × List ℕ → Outcome WireError Packet
after_trailer bs recipient t = ok (
    assemble (get_or bs 0 0) (get_or bs 1 0) (get_or bs 2 0) (get_or bs 3 0) (take 8 (drop 4 bs))
      (take 8 (drop 12 bs)) recipient t.0 t.1)

abbrev after_recipient : List ℕ → Option (List ℕ) × ℕ → Outcome WireError Packet
after_recipient bs r = decode_trailer bs r.1 >>= after_trailer bs r.0

-- Only one buffer decodes to a packet: whatever bytes a relay or an attacker sends, if they are
-- accepted then encoding the packet gives exactly those bytes again.
pub encode-decode : (bs : List ℕ) (p : Packet) → IsBytes bs → decode bs ≡ ok p → encode p ≡ bs
encode-decode bs p hb h = elim (dec_lt (length bs) min_header) [
  | yes few ↦ absurd (not-err-ok (sym (decode_short bs few) ∙ h))
  | no enough ↦
      let long : min_header ≤ length bs = omega arith in
      let (_, _, e1) =
        >>=-eq-ok (require (get_or bs 0 0 == protocol_version) (bad_version (get_or bs 0 0)))
          (λ _. decode_recipient bs (get_or bs 2 0) 20 >>= after_recipient bs)
          (sym (decode_long bs long) ∙ h) in
      let (r, e2, e3) =
        >>=-eq-ok (decode_recipient bs (get_or bs 2 0) 20) (after_recipient bs) e1 in
      let (t, e4, e5) = >>=-eq-ok (decode_trailer bs r.1) (after_trailer bs r.0) e3 in
      subst (λ q. encode q ≡ bs) (ok-injective e5)
        (encode-assemble bs r.0 r.1 t.0 t.1 hb long (decode_recipient-ok bs (get_or bs 2 0) 20 e2)
          e4)
]
