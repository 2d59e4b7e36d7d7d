-- ===== src/Wire/Signing.antt =====
-- Signatures and digests do not depend on the TTL, so that a relay can decrement it.
use cockroach_chat.Prelude.{ℕ, ◌^◌, ◌<◌, ◌≡◌, refl, length, arith, ok, length-take}
use cockroach_chat.Platform.{Crypto}
use cockroach_chat.Wire.{
  Packet, effective_flags, write_body, signed_region, encode, decode, sign, verify, digest,
}
use cockroach_chat.Wire.Types.{IsEncodable}
use cockroach_chat.Wire.Roundtrip.{decode-encode}

module _ (c : Crypto) where
  -- Take a packet of the current version whose fields lie in the ranges of their types, whose type
  -- is written the way it is read, and whose recipient flag is left to the encoder, and whose
  -- payload is shorter than 65536 bytes. When its author has signed it and a relay has written
  -- another TTL, the receiver decodes what the relay sends to that packet, which still verifies
  -- under the key of the author and has the digest that it had when it was signed.
  pub relay_verifies :
      (p : Packet) (key : c.SigningKey) (ttl : ℕ)
      → IsEncodable p
      → length p.payload < 2 ^ 16
      → let q : Packet = sign c p key in
        let r : Packet = record q { ttl = ttl } in
        (decode (encode r) ≡ ok r)
        × (verify c r (c.verifying_key key) ≡ ok tt)
        × (digest c r ≡ digest c q)
  unfolding sign verify signed_region write_body effective_flags digest
  relay_verifies p key ttl v small = (
    decode-encode _
        (record {
          current = v.current;
          canonical = v.canonical;
          flags_byte = v.flags_byte;
          flags_clear = v.flags_clear;
          timestamp_u64 = v.timestamp_u64;
          sender_id = v.sender_id;
          recipient_id = v.recipient_id;
          signature_len = c.length-sign key _;
        })
        small,
    rw (c.verify-sign key (write_body p 0)),
    refl,
  )

  -- A signed packet verifies.
  pub verify-sign :
      (p : Packet) (key : c.SigningKey) → verify c (sign c p key) (c.verifying_key key) ≡ ok tt
  unfolding verify sign signed_region write_body effective_flags
  verify-sign p key = rw (c.verify-sign key (signed_region p)) refl

  -- The TTL is not signed.
  pub verify-ttl :
      (p : Packet) (ttl : ℕ) (vk : c.VerifyingKey)
      → verify c (record p { ttl = ttl }) vk ≡ verify c p vk
  unfolding verify signed_region write_body effective_flags
  verify-ttl p ttl vk = refl

  -- The digest of any packet has eight bytes.
  pub length-digest : (p : Packet) → length (digest c p) ≡ 8
  unfolding digest
  length-digest p = omega (arith, length-take 8 (c.sha256 p.signature), c.length-sha256 p.signature)
