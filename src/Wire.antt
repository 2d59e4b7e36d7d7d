-- ===== src/Wire.antt =====
-- crates/meshcore/src/wire.rs: message types, packets, and their fixed-offset encoding.
-- A byte array is a list of bytes; a panic of an index or a slice is an outcome of its own.
pub mod Types
pub mod Cursor
pub mod Safety
pub mod Roundtrip
pub mod Canonical
pub mod Signing
mod Tests
use Prim.Native.Nat.{bit_and, bit_or}
use cockroach_chat.Prelude.{
  ℕ, ◌+◌, ◌-◌, ◌%◌, ◌^◌, ◌<◌, ◌≡◌, Bool, true, false, Option, none, some, List, [], ◌∷◌, ◌++◌,
  Outcome, ok, err, ◌>>=◌, ◌>>◌, index, slice, length, ltb, leb, ◌==◌, if◌then◌else◌, replicate,
  not, is_some, take,
}
use cockroach_chat.Prelude.Bytes.{to_be, from_be}
use cockroach_chat.Error.{WireError, short, bad_version, bad_length, trailing, bad_signature}
use cockroach_chat.Platform.{Crypto}

abbrev pub protocol_version : ℕ
protocol_version = 1

abbrev pub has_recipient : ℕ
has_recipient = 0x01

abbrev pub sig_len : ℕ
sig_len = 64

abbrev pub min_header : ℕ
min_header = 22

-- `[u8; 8]`
abbrev pub EphId : Type 0
EphId = List ℕ

pub data MsgType : Type 0 where
  announce channel_message direct_message noise_handshake receipt : MsgType
  sync_request sync_response : MsgType
  media_offer media_fetch_request media_chunk media_fetch_ack : MsgType
  unknown : ℕ → MsgType

unfoldable pub from_u8 : ℕ → MsgType
from_u8 b =
    if b == 0x01
    then announce
    else if b == 0x02
    then channel_message
    else if b == 0x03
    then direct_message
    else if b == 0x04
    then noise_handshake
    else if b == 0x05
    then receipt
    else if b == 0x06
    then sync_request
    else if b == 0x07
    then sync_response
    else if b == 0x10
    then media_offer
    else if b == 0x11
    then media_fetch_request
    else if b == 0x12
    then media_chunk
    else if b == 0x13
    then media_fetch_ack
    else unknown b

unfoldable pub to_u8 : MsgType → ℕ
to_u8 announce = 0x01
to_u8 channel_message = 0x02
to_u8 direct_message = 0x03
to_u8 noise_handshake = 0x04
to_u8 receipt = 0x05
to_u8 sync_request = 0x06
to_u8 sync_response = 0x07
to_u8 media_offer = 0x10
to_u8 media_fetch_request = 0x11
to_u8 media_chunk = 0x12
to_u8 media_fetch_ack = 0x13
to_u8 (unknown b) = b

unfoldable pub is_known : MsgType → Bool
is_known (unknown b) = false
is_known announce = true
is_known _ = true

pub record Packet : Type 0 where
  pub version : ℕ
  pub msg_type : MsgType
  pub flags : ℕ
  pub ttl : ℕ
  pub timestamp_ms : ℕ
  pub sender : EphId
  pub recipient : Option EphId
  pub payload : List ℕ
  pub signature : List ℕ

-- `Packet::new`
unfoldable pub new : MsgType → ℕ → ℕ → EphId → Option EphId → List ℕ → Packet
new msg_type ttl timestamp_ms sender recipient payload = record {
  version = protocol_version;
  msg_type = msg_type;
  flags = 0;
  ttl = ttl;
  timestamp_ms = timestamp_ms;
  sender = sender;
  recipient = recipient;
  payload = payload;
  signature = replicate sig_len 0;
}

-- `!HAS_RECIPIENT` on a `u8` is `0xfe`.
unfoldable pub effective_flags : Packet → ℕ
effective_flags p =
    let f = bit_and p.flags 0xfe in if is_some p.recipient then bit_or f has_recipient else f

unfoldable pub recipient_bytes : Option EphId → List ℕ
recipient_bytes none = []
recipient_bytes (some r) = r

-- `write_body`, with the TTL that is written given. A payload's length is cut to a `u16`.
unfoldable pub write_body : Packet → ℕ → List ℕ
unfolding effective_flags recipient_bytes
write_body p ttl =
    p.version
    ∷ to_u8 p.msg_type
    ∷ effective_flags p
    ∷ ttl
    ∷ (to_be 8 p.timestamp_ms
        ++ (p.sender
            ++ (recipient_bytes p.recipient ++ (to_be 2 (length p.payload % 2 ^ 16) ++ p.payload))))

-- The bytes that the signature covers: the TTL is written as zero.
pub signed_region : Packet → List ℕ
unfolding write_body
signed_region p = write_body p 0

unfoldable pub encode : Packet → List ℕ
unfolding write_body
encode p = write_body p p.ttl ++ p.signature

pub need : ℕ → ℕ → ℕ → Outcome WireError (Unit {0})
need off n have = if ltb have (off + n) then err (short (off + n) have) else ok tt

abbrev pub require : Bool → WireError → Outcome WireError (Unit {0})
require true e = ok tt
require false e = err e

-- The recipient, where the flag says that there is one, and the offset after it.
pub decode_recipient : List ℕ → ℕ → ℕ → Outcome WireError (Option EphId × ℕ)
decode_recipient bytes flags off =
    if bit_and flags has_recipient == 0
    then ok (none, off)
    else (do need off 8 (length bytes); r ← slice bytes off (off + 8); ok (some r, off + 8))

-- From the length of the payload to the end of the buffer: payload and signature.
pub decode_trailer : List ℕ → ℕ → Outcome WireError (List ℕ × List ℕ)
decode_trailer bytes off = do
  need off 2 (length bytes)
  hi ← index bytes off
  lo ← index bytes (off + 1)
  let payload_len = from_be (hi ∷ lo ∷ [])
  let start = off + 2
  let remaining = length bytes - start
  require (leb (payload_len + sig_len) remaining) (bad_length payload_len remaining)
  payload ← slice bytes start (start + payload_len)
  signature ← slice bytes (start + payload_len) (start + payload_len + sig_len)
  let last = start + payload_len + sig_len
  require (last == length bytes) (trailing (length bytes - last))
  ok (payload, signature)

-- The packet that decoding returns, from the bytes of its fields.
pub assemble : ℕ → ℕ → ℕ → ℕ → List ℕ → EphId → Option EphId → List ℕ → List ℕ → Packet
assemble version kind flags ttl ts sender recipient payload signature = record {
  version = version;
  msg_type = from_u8 kind;
  flags = bit_and flags 0xfe;
  ttl = ttl;
  timestamp_ms = from_be ts;
  sender = sender;
  recipient = recipient;
  payload = payload;
  signature = signature;
}

pub decode : List ℕ → Outcome WireError Packet
decode bytes = do
  need 0 min_header (length bytes)
  version ← index bytes 0
  require (version == protocol_version) (bad_version version)
  kind ← index bytes 1
  flags ← index bytes 2
  ttl ← index bytes 3
  ts ← slice bytes 4 12
  sender ← slice bytes 12 20
  (recipient, off) ← decode_recipient bytes flags 20
  (payload, signature) ← decode_trailer bytes off
  ok (assemble version kind flags ttl ts sender recipient payload signature)

module _ (c : Crypto) where
  open c use {SigningKey, VerifyingKey}

  unfoldable pub sign : Packet → SigningKey → Packet
  sign p key = record p { signature = c.sign key (signed_region p) }

  unfoldable pub verify : Packet → VerifyingKey → Outcome WireError (Unit {0})
  verify p key = if c.verify key (signed_region p) p.signature then ok tt else err bad_signature

  -- The first 8 bytes of the hash of the signature.
  unfoldable pub digest : Packet → List ℕ
  digest p = take 8 (c.sha256 p.signature)
