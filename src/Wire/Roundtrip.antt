-- ===== src/Wire/Roundtrip.antt =====
-- `Packet::decode` after `Packet::encode`, for a payload that fits its length field and for one that
-- does not.
use Prim.Native.Nat.{bit_and}
use cockroach_chat.Prelude.{
  ℕ, ◌+◌, ◌-◌, ◌/◌, ◌%◌, ◌^◌, ◌≤◌, ◌<◌, ◌≡◌, sym, ap, ap₂, subst, fun_ext, ◌∙◌, Option, none, some,
  List, [], ◌∷◌, ◌++◌, arith, length, ok, err, ◌>>=◌, index, slice, le→ltb, le→leb, ◌==◌, ==_iff,
  length-append, if◌then◌else◌, is_some, take, drop, take-append-drop, length-take, length-drop,
}
use cockroach_chat.Prelude.Bytes.{to_be, from_be, length-to_be, from_be-to_be}
use cockroach_chat.Error.{WireError, trailing}
use cockroach_chat.Wire.{
  Packet, need, require, decode_recipient, decode_trailer, decode, assemble, effective_flags,
  recipient_bytes, write_body, encode, to_u8, protocol_version, has_recipient, sig_len,
}
use cockroach_chat.Wire.Types.{IsEncodable, IsRecipient, effective_flags_lem}
use cockroach_chat.Wire.Cursor.{At, At-length, At-to, At-skip, At-next, At-index, At-slice}
use mathlib.Core.List.{append_assoc, append-nil}

-- The fields in the order of the wire.
pub encode_layout :
    (p : Packet)
    → encode p
      ≡ p.version
        ∷ to_u8 p.msg_type
        ∷ effective_flags p
        ∷ p.ttl
        ∷ (to_be 8 p.timestamp_ms
            ++ (p.sender
                ++ (recipient_bytes p.recipient
                    ++ (to_be 2 (length p.payload % 2 ^ 16) ++ (p.payload ++ p.signature)))))
unfolding encode write_body
encode_layout p = simp append_assoc

-- A trailer whose length field names `payload` is read up to the 64 bytes after it, and `extra`
-- bytes beyond those are an error.
decode_trailer_lem :
    (bs : List ℕ) (off n : ℕ) (payload signature extra : List ℕ)
    → At bs off (to_be 2 n ++ (payload ++ (signature ++ extra)))
    → n ≡ length payload
    → n < 2 ^ 16
    → length signature ≡ 64
    → decode_trailer bs off
      ≡ (require (length extra == 0) (trailing (length extra)) >>= λ _. ok (payload, signature))
unfolding decode_trailer need to_be
decode_trailer_lem bs off n payload signature extra at0 e small hs =
    let at1 = At-next at0 in
    let at2 : At bs (off + 2) (payload ++ (signature ++ extra)) =
      At-to (omega arith) (At-next at1) in
    let at3 : At bs (off + 2 + n) (signature ++ extra) =
      At-to (omega arith) (At-skip payload at2) in
    let total : length bs ≡ off + 2 + n + 64 + length extra =
      omega (arith, At-length at3, length-append signature extra) in
    let read : from_be (n / 256 % 256 ∷ n % 256 ∷ []) ≡ n = from_be-to_be 2 n (omega arith) in
    let same : (off + 2 + n + sig_len == length bs) ≡ (length extra == 0) = ground (arith, total) in
    let left : length bs - (off + 2 + n + sig_len) ≡ length extra = omega (arith, total) in
    rw
      (
        le→ltb (length bs) (off + 2) (omega arith),
        At-index at0,
        At-index at1,
        read,
        le→leb (n + sig_len) (length bs - (off + 2)) (omega arith),
        At-slice (off + 2 + n) payload (signature ++ extra) at2 (omega arith),
        At-slice (off + 2 + n + 64) signature extra at3 (omega arith),
      )
      (ap₂ (λ b k. require b (trailing k) >>= λ _. ok (payload, signature)) same left)

decode_recipient-none :
    (bs : List ℕ) (flags off : ℕ)
    → bit_and flags has_recipient ≡ 0
    → decode_recipient bs flags off ≡ ok (none, off)
unfolding decode_recipient
decode_recipient-none bs flags off h = rw h

decode_recipient-some :
    (bs : List ℕ) (flags off : ℕ) (r rest : List ℕ)
    → bit_and flags has_recipient ≡ 1
    → At bs off (r ++ rest)
    → length r ≡ 8
    → decode_recipient bs flags off ≡ ok (some r, off + 8)
unfolding decode_recipient need
decode_recipient-some bs flags off r rest h at0 hr = rw (
  h,
  le→ltb (length bs) (off + 8) (omega (arith, At-length at0, length-append r rest)),
  At-slice (off + 8) r rest at0 (omega arith),
)

-- The recipient is read back, and what follows it stands at the offset that is returned.
decode_recipient_lem :
    (bs : List ℕ) (flags off : ℕ) (recipient : Option (List ℕ)) (rest : List ℕ)
    → bit_and flags has_recipient ≡ (if is_some recipient then 1 else 0)
    → IsRecipient recipient
    → At bs off (recipient_bytes recipient ++ rest)
    → (next : ℕ) × (decode_recipient bs flags off ≡ ok (recipient, next)) × At bs next rest
unfolding recipient_bytes
decode_recipient_lem bs flags off none rest h v at0 =
    (off, decode_recipient-none bs flags off h, at0)
decode_recipient_lem bs flags off (some r) rest h v at0 = (
  off + 8,
  decode_recipient-some bs flags off r rest h at0 v.0,
  At-to (omega (arith, v.0)) (At-skip r at0),
)

assemble_lem :
    (p : Packet) (payload signature : List ℕ)
    → IsEncodable p
    → assemble p.version
        (to_u8 p.msg_type)
        (effective_flags p)
        p.ttl
        (to_be 8 p.timestamp_ms)
        p.sender
        p.recipient
        payload
        signature
      ≡ record p { payload = payload; signature = signature }
unfolding assemble
assemble_lem p payload signature v = rw (
  v.canonical,
  (effective_flags_lem p v).1,
  from_be-to_be 8 p.timestamp_ms (omega (arith, v.timestamp_u64)),
)

-- Decoding, from what each of its reads returns.
decode_fields :
    (bs : List ℕ) (version kind flags ttl : ℕ) (ts sender : List ℕ) (recipient : Option (List ℕ))
    (off : ℕ)
    → 22 ≤ length bs
    → version ≡ protocol_version
    → index {E = WireError} bs 0 ≡ ok version
    → index {E = WireError} bs 1 ≡ ok kind
    → index {E = WireError} bs 2 ≡ ok flags
    → index {E = WireError} bs 3 ≡ ok ttl
    → slice {E = WireError} bs 4 12 ≡ ok ts
    → slice {E = WireError} bs 12 20 ≡ ok sender
    → decode_recipient bs flags 20 ≡ ok (recipient, off)
    → decode bs ≡ (
        decode_trailer bs off >>= λ (payload, signature).
        ok (assemble version kind flags ttl ts sender recipient payload signature))
unfolding decode need
decode_fields bs version kind flags ttl ts sender recipient off hl hv e0 e1 e2 e3 e4 e5 e6 =
    rw
      (le→ltb (length bs) 22 hl, e0, (==_iff version protocol_version).1 hv, e1, e2, e3, e4, e5, e6)

-- Whatever stands behind the header of `p`, decoding reads the header of `p` and goes on with it.
decode_header_lem :
    (p : Packet) (bs tail : List ℕ)
    → IsEncodable p
    → 2 ≤ length tail
    → bs
      ≡ p.version
        ∷ to_u8 p.msg_type
        ∷ effective_flags p
        ∷ p.ttl
        ∷ (to_be 8 p.timestamp_ms ++ (p.sender ++ (recipient_bytes p.recipient ++ tail)))
    → (off : ℕ) × At bs off tail
      × (decode bs ≡ (
          decode_trailer bs off >>= λ (payload, signature).
          ok (record p { payload = payload; signature = signature })))
decode_header_lem p bs tail v ht e =
    let at0 : At bs 0 _ = record { fits = omega arith; drops = e } in
    let at1 = At-next at0 in
    let at2 = At-next at1 in
    let at3 = At-next at2 in
    let at4 = At-next at3 in
    let at12 : At bs 12 (p.sender ++ (recipient_bytes p.recipient ++ tail)) =
      At-to (omega (arith, length-to_be 8 p.timestamp_ms)) (At-skip (to_be 8 p.timestamp_ms) at4) in
    let at20 : At bs 20 (recipient_bytes p.recipient ++ tail) =
      At-to (omega (arith, v.sender_id.0)) (At-skip p.sender at12) in
    let (off, read, at_tail) =
      decode_recipient_lem bs (effective_flags p) 20 p.recipient tail (effective_flags_lem p v).0
        v.recipient_id at20 in
    (
      off,
      at_tail,
      decode_fields bs p.version (to_u8 p.msg_type) (effective_flags p) p.ttl
            (to_be 8 p.timestamp_ms) p.sender p.recipient off
            (omega (arith, At-length at20, length-append (recipient_bytes p.recipient) tail))
            v.current (At-index at0) (At-index at1) (At-index at2) (At-index at3)
            (At-slice 12 (to_be 8 p.timestamp_ms) _ at4
              (omega (arith, length-to_be 8 p.timestamp_ms)))
            (At-slice 20 p.sender _ at12 (omega (arith, v.sender_id.0))) read
          ∙ ap (λ k. decode_trailer bs off >>= k) (fun_ext (λ t. ap ok (assemble_lem p t.0 t.1 v))),
    )

-- Decoding inverts encoding: of a packet of the current version whose fields lie in the ranges of
-- their types, whose type is written the way it is read, and whose recipient flag is left to the
-- encoder, and whose payload is shorter than 65536 bytes, the packet that comes back is the one
-- that was sent, field by field.
pub decode-encode :
    (p : Packet) → IsEncodable p → length p.payload < 2 ^ 16 → decode (encode p) ≡ ok p
decode-encode p v small =
    let n : ℕ = length p.payload % 2 ^ 16 in
    let tail : List ℕ = to_be 2 n ++ (p.payload ++ p.signature) in
    let (off, at_tail, head) =
      decode_header_lem p (encode p) tail v
        (omega (arith, length-append (to_be 2 n) (p.payload ++ p.signature), length-to_be 2 n))
        (encode_layout p) in
    let at_all : At (encode p) off (to_be 2 n ++ (p.payload ++ (p.signature ++ []))) =
      subst (λ l. At (encode p) off (to_be 2 n ++ (p.payload ++ l))) (sym (append-nil p.signature))
        at_tail in
    head
    ∙ ap
        (λ t.
          t >>= λ (payload, signature). ok (record p { payload = payload; signature = signature }))
        (decode_trailer_lem (encode p) off n p.payload p.signature [] at_all (omega arith)
          (omega arith) v.signature_len)

oversized_trailer :
    (p : Packet) (payload signature : List ℕ) (a b : ℕ)
    → a ≡ b
    → 0 < b
    → ((require (a == 0) (trailing a) >>= λ _. ok (payload, signature)) >>= λ (payload, signature).
        ok (record p { payload = payload; signature = signature }))
      ≡ err (trailing b)
oversized_trailer p payload signature a b e h = ground arith

-- Of a packet of the current version whose fields lie in the ranges of their types, whose type is
-- written the way it is read, and whose recipient flag is left to the encoder, but whose payload
-- has 65536 bytes or more, the length is cut to a `u16`, the buffer is encoded without an error,
-- and every receiver refuses it for the bytes that are left over.
pub decode-encode_oversized :
    (p : Packet)
    → IsEncodable p
    → 2 ^ 16 ≤ length p.payload
    → decode (encode p) ≡ err (trailing (length p.payload - length p.payload % 2 ^ 16))
decode-encode_oversized p v large =
    let n : ℕ = length p.payload % 2 ^ 16 in
    let front : List ℕ = take n p.payload in
    let back : List ℕ = drop n p.payload ++ p.signature in
    let tail : List ℕ = to_be 2 n ++ (p.payload ++ p.signature) in
    let (off, at_tail, head) =
      decode_header_lem p (encode p) tail v
        (omega (arith, length-append (to_be 2 n) (p.payload ++ p.signature), length-to_be 2 n))
        (encode_layout p) in
    let parts : p.payload ++ p.signature ≡ front ++ (take 64 back ++ drop 64 back) =
      ap (λ l. l ++ p.signature) (sym (take-append-drop n p.payload))
      ∙ append_assoc front (drop n p.payload) p.signature
      ∙ ap (λ l. front ++ l) (sym (take-append-drop 64 back)) in
    let back_length : length back ≡ length p.payload - n + 64 = omega (
      arith,
      length-append (drop n p.payload) p.signature,
      length-drop n p.payload,
      v.signature_len,
    ) in
    let extra_length : length (drop 64 back) ≡ length p.payload - n =
      omega (arith, length-drop 64 back, back_length) in
    head
    ∙ ap
        (λ t.
          t >>= λ (payload, signature). ok (record p { payload = payload; signature = signature }))
        (decode_trailer_lem (encode p) off n front (take 64 back) (drop 64 back)
          (subst (λ l. At (encode p) off (to_be 2 n ++ l)) parts at_tail)
          (omega (arith, length-take n p.payload)) (omega arith)
          (omega (arith, length-take 64 back, back_length)))
    ∙ oversized_trailer p front (take 64 back) (length (drop 64 back)) (length p.payload - n)
        extra_length (omega arith)
