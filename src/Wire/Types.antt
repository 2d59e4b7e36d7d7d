-- ===== src/Wire/Types.antt =====
-- The type byte and the flags byte of wire.rs: which values survive encoding, and bit facts by table.
use Prim.Native.Nat.{bit_and, bit_or}
use cockroach_chat.Prelude.{
  ℕ, zero, suc, ◌<◌, ◌^◌, ◌≡◌, refl, ap, ◌∙◌, Bool, true, ◌&&◌, Option, none, some, arith, ◌==◌,
  is_some, if◌then◌else◌, length, List,
}
use cockroach_chat.Prelude.Bytes.{IsBytes}
use cockroach_chat.Wire.{
  MsgType, announce, channel_message, direct_message, noise_handshake, receipt, sync_request,
  sync_response, media_offer, media_fetch_request, media_chunk, media_fetch_ack, unknown, from_u8,
  to_u8, is_known, Packet, protocol_version, effective_flags, has_recipient,
}

-- Every type byte is written back as it was read, known or not.
pub to_u8-from_u8 : (b : ℕ) → to_u8 (from_u8 b) ≡ b
unfolding to_u8 from_u8
to_u8-from_u8 b = ground arith

-- A type is canonical when its byte reads back as that type: `Unknown(1)` is not.
abbrev pub IsCanonical : MsgType → Type 0
IsCanonical t = from_u8 (to_u8 t) ≡ t

-- Every type that decoding produces is canonical.
pub from_u8-IsCanonical : (b : ℕ) → IsCanonical (from_u8 b)
from_u8-IsCanonical b = ap from_u8 (to_u8-from_u8 b)

pub known-IsCanonical : (t : MsgType) → is_known t ≡ true → IsCanonical t
unfolding is_known from_u8 to_u8
known-IsCanonical (unknown b) h = cc
known-IsCanonical announce h = refl
known-IsCanonical channel_message h = refl
known-IsCanonical direct_message h = refl
known-IsCanonical noise_handshake h = refl
known-IsCanonical receipt h = refl
known-IsCanonical sync_request h = refl
known-IsCanonical sync_response h = refl
known-IsCanonical media_offer h = refl
known-IsCanonical media_fetch_request h = refl
known-IsCanonical media_chunk h = refl
known-IsCanonical media_fetch_ack h = refl

-- Whether a test holds of every byte from `n` bytes down.
holds_to : (ℕ → Bool) → ℕ → Bool
holds_to test zero = true
holds_to test (suc last) = holds_to test last && test last

holds_to-at :
    (test : ℕ → Bool) (limit b : ℕ) → b < limit → holds_to test limit ≡ true → test b ≡ true
unfolding holds_to
holds_to-at test (suc last) b below all = ground (arith, holds_to-at test last b)
holds_to-at test zero b below all = absurd (omega arith)

-- What the code does to the flag bit, at one byte.
abbrev flag_facts : ℕ → Bool
flag_facts f =
    (bit_and (bit_and f 0xfe) 1 == 0)
    && (bit_and (bit_or (bit_and f 0xfe) 1) 1 == 1)
    && (bit_and (bit_or (bit_and f 0xfe) 1) 0xfe == bit_and f 0xfe)
    && (bit_and (bit_and f 0xfe) 0xfe == bit_and f 0xfe)
    && ((if bit_and f 1 == 0 then bit_and f 0xfe else bit_or (bit_and f 0xfe) 1) == f)

flag_table : holds_to flag_facts 256 ≡ true
unfolding holds_to
flag_table = refl

flag_facts_lem : (f : ℕ) → f < 256 → flag_facts f ≡ true
flag_facts_lem f h = holds_to-at flag_facts 256 f h flag_table

pub flag_cleared : (f : ℕ) → f < 256 → bit_and (bit_and f 0xfe) 1 ≡ 0
flag_cleared f h = ground (arith, flag_facts_lem f h)

pub flag_set : (f : ℕ) → f < 256 → bit_and (bit_or (bit_and f 0xfe) 1) 1 ≡ 1
flag_set f h = ground (arith, flag_facts_lem f h)

pub flag_reset : (f : ℕ) → f < 256 → bit_and (bit_or (bit_and f 0xfe) 1) 0xfe ≡ bit_and f 0xfe
flag_reset f h = ground (arith, flag_facts_lem f h)

pub flag_reset_again : (f : ℕ) → f < 256 → bit_and (bit_and f 0xfe) 0xfe ≡ bit_and f 0xfe
flag_reset_again f h = ground (arith, flag_facts_lem f h)

pub flag_restored :
    (f : ℕ) → f < 256 → (if bit_and f 1 == 0 then bit_and f 0xfe else bit_or (bit_and f 0xfe) 1) ≡ f
flag_restored f h = ground (arith, flag_facts_lem f h)

abbrev pub IsEphId : List ℕ → Type 0
IsEphId e = (length e ≡ 8) × IsBytes e

abbrev pub IsRecipient : Option (List ℕ) → Type 0
IsRecipient none = Unit
IsRecipient (some r) = IsEphId r

-- What the Rust types of the fields already say, the version that the code writes, a canonical type,
-- and a flag bit that is left to the encoder.
pub record IsEncodable (p : Packet) : Type 0 where
  pub current : p.version ≡ protocol_version
  pub canonical : IsCanonical p.msg_type
  pub flags_byte : p.flags < 256
  pub flags_clear : bit_and p.flags 0xfe ≡ p.flags
  pub timestamp_u64 : p.timestamp_ms < 2 ^ 64
  pub sender_id : IsEphId p.sender
  pub recipient_id : IsRecipient p.recipient
  pub signature_len : length p.signature ≡ 64

-- The flag bit on the wire says whether there is a recipient, and clearing it restores the flags.
pub effective_flags_lem :
    (p : Packet)
    → IsEncodable p
    → (bit_and (effective_flags p) has_recipient ≡ (if is_some p.recipient then 1 else 0))
      × (bit_and (effective_flags p) 0xfe ≡ p.flags)
unfolding effective_flags
effective_flags_lem p v = go p.recipient
  where
    go :
        (r : Option (List ℕ))
        → (bit_and
              (if is_some r then bit_or (bit_and p.flags 0xfe) 1 else bit_and p.flags 0xfe)
              has_recipient
            ≡ (if is_some r then 1 else 0))
          × (bit_and
                (if is_some r then bit_or (bit_and p.flags 0xfe) 1 else bit_and p.flags 0xfe)
                0xfe
              ≡ p.flags)
    go none =
        (flag_cleared p.flags v.flags_byte, flag_reset_again p.flags v.flags_byte ∙ v.flags_clear)
    go (some r) = (flag_set p.flags v.flags_byte, flag_reset p.flags v.flags_byte ∙ v.flags_clear)
