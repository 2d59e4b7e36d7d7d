-- ===== src/Wire/Tests.antt =====
-- Runs of the wire format at concrete packets.
use cockroach_chat.Prelude.{
  ℕ, ◌-◌, ◌%◌, ◌^◌, ◌≡◌, ◌≢◌, refl, some, List, [], ◌∷◌, ◌++◌, sym, ap, ◌∙◌, arith, length,
  replicate, length-replicate, ok, err, panic,
}
use cockroach_chat.Prelude.Bytes.{IsBytes, to_be}
use cockroach_chat.Error.{trailing}
use cockroach_chat.Platform.Samples.{repeating}
use cockroach_chat.Wire.{
  Packet, direct_message, from_u8, to_u8, encode, decode, sign, verify, digest,
}
use cockroach_chat.Wire.Types.{IsEncodable}
use cockroach_chat.Wire.Safety.{decode-ne-panic}
use cockroach_chat.Wire.Roundtrip.{decode-encode, decode-encode_oversized}
use cockroach_chat.Wire.Canonical.{encode-decode}
use cockroach_chat.Wire.Signing.{relay_verifies}

-- A direct message as it leaves its author, but for the signature.
abbrev greeting : Packet
greeting = record {
  version = 1;
  msg_type = direct_message;
  ttl = 10;
  flags = 0;
  timestamp_ms = 513;
  sender = 1 ∷ 2 ∷ 3 ∷ 4 ∷ 5 ∷ 6 ∷ 7 ∷ 8 ∷ [];
  recipient = some (9 ∷ 9 ∷ 9 ∷ 9 ∷ 9 ∷ 9 ∷ 9 ∷ 9 ∷ []);
  payload = 104 ∷ 105 ∷ [];
  signature = replicate 64 0;
}

abbrev huge : Packet
huge = record greeting { payload = replicate 65536 7 }

greeting-IsEncodable : IsEncodable greeting
unfolding from_u8 to_u8
greeting-IsEncodable = record {
  current = refl;
  canonical = refl;
  flags_byte = omega arith;
  flags_clear = refl;
  timestamp_u64 = omega arith;
  sender_id = (refl, ground arith);
  recipient_id = (refl, ground arith);
  signature_len = refl;
}

huge-IsEncodable : IsEncodable huge
unfolding from_u8 to_u8
huge-IsEncodable = record {
  current = refl;
  canonical = refl;
  flags_byte = omega arith;
  flags_clear = refl;
  timestamp_u64 = omega arith;
  sender_id = (refl, ground arith);
  recipient_id = (refl, ground arith);
  signature_len = refl;
}

decode-ne-panic_example : decode (1 ∷ 2 ∷ 3 ∷ []) ≢ panic
decode-ne-panic_example = decode-ne-panic (1 ∷ 2 ∷ 3 ∷ [])

decode-encode_example : decode (encode greeting) ≡ ok greeting
decode-encode_example = decode-encode greeting greeting-IsEncodable (omega arith)

decode-encode_oversized_example :
    decode (encode huge) ≡ err (trailing (length huge.payload - length huge.payload % 2 ^ 16))
decode-encode_oversized_example =
    decode-encode_oversized huge huge-IsEncodable (omega (arith, length-replicate {A = ℕ} 65536 7))

-- The greeting as bytes.
abbrev wire_bytes : List ℕ
wire_bytes =
    (1 ∷ 3 ∷ 1 ∷ 10 ∷ 0 ∷ 0 ∷ 0 ∷ 0 ∷ 0 ∷ 0 ∷ 2 ∷ 1 ∷ 1 ∷ 2 ∷ 3 ∷ 4 ∷ 5 ∷ 6 ∷ 7 ∷ 8 ∷ 9 ∷ 9 ∷ 9 ∷ 9
      ∷ 9 ∷ 9 ∷ 9 ∷ 9 ∷ 0 ∷ 2 ∷ 104 ∷ 105 ∷ [])
    ++ replicate 64 0

encodes : encode greeting ≡ wire_bytes
unfolding encode to_u8 to_be
encodes = refl

wire_bytes-IsBytes : IsBytes wire_bytes
wire_bytes-IsBytes = ground arith

decodes : decode wire_bytes ≡ ok greeting
decodes = ap decode (sym encodes) ∙ decode-encode greeting greeting-IsEncodable (omega arith)

encode-decode_example : encode greeting ≡ wire_bytes
encode-decode_example = encode-decode wire_bytes greeting wire_bytes-IsBytes decodes

abbrev signed : Packet
signed = sign repeating greeting 42

abbrev relayed : Packet
relayed = record signed { ttl = 9 }

relay_verifies_example :
    (decode (encode relayed) ≡ ok relayed)
    × (verify repeating relayed (repeating.verifying_key 42) ≡ ok tt)
    × (digest repeating relayed ≡ digest repeating signed)
relay_verifies_example = relay_verifies repeating greeting 42 9 greeting-IsEncodable (omega arith)
