-- ===== src/Platform.antt =====
-- What the program takes from crates that it does not contain: each is a record of operations with
-- the documented laws that the code relies on.
pub mod Samples
use cockroach_chat.Prelude.{
  ℕ, suc, ◌+◌, ◌^◌, ◌<◌, ◌≤◌, ◌≡◌, Bool, true, Option, none, some, List, length, leb, min,
}
use cockroach_chat.Prelude.Bytes.{IsBytes}

-- ed25519-dalek, x25519-dalek and sha2.
pub record Crypto : Type 1 where
  pub SigningKey : Type 0
  pub VerifyingKey : Type 0
  pub verifying_key : SigningKey → VerifyingKey
  pub sign : SigningKey → List ℕ → List ℕ
  pub verify : VerifyingKey → List ℕ → List ℕ → Bool
  pub sha256 : List ℕ → List ℕ
  pub length-sign : (k : SigningKey) (m : List ℕ) → length (sign k m) ≡ 64
  pub IsBytes-sign : (k : SigningKey) (m : List ℕ) → IsBytes (sign k m)
  pub verify-sign : (k : SigningKey) (m : List ℕ) → verify (verifying_key k) m (sign k m) ≡ true
  pub length-sha256 : (m : List ℕ) → length (sha256 m) ≡ 32
  -- `SigningKey::from_bytes`, `VerifyingKey::as_bytes` and `from_bytes`, which refuses bytes that are
  -- no point, and the public half of an X25519 secret.
  pub signing_key : List ℕ → SigningKey
  pub to_bytes : VerifyingKey → List ℕ
  pub from_bytes : List ℕ → Option VerifyingKey
  pub dh_public : List ℕ → List ℕ
  pub length-to_bytes : (v : VerifyingKey) → length (to_bytes v) ≡ 32
  pub from_bytes-to_bytes : (v : VerifyingKey) → from_bytes (to_bytes v) ≡ some v
  pub length-dh_public : (k : List ℕ) → length (dh_public k) ≡ 32

-- lz4_flex: a block decompressor is told how many bytes to expect, and may fail.
pub record Lz4 : Type 0 where
  pub compress : List ℕ → List ℕ
  pub decompress : List ℕ → ℕ → Option (List ℕ)
  pub decompress-compress : (m : List ℕ) → decompress (compress m) (length m) ≡ some m

-- `f64`: IEEE-754 arithmetic. The laws are those of whole numbers up to 2 ^ 53, which are exact, of
-- the minimum, and of adding a zero.
pub record Float : Type 1 where
  pub F : Type 0
  pub of_nat : ℕ → F
  pub add : F → F → F
  pub sub : F → F → F
  pub mul : F → F → F
  pub div : F → F → F
  pub fmin : F → F → F
  pub le : F → F → Bool
  pub lt : F → F → Bool
  pub le_nat : (m n : ℕ) → m ≤ 2 ^ 53 → n ≤ 2 ^ 53 → le (of_nat m) (of_nat n) ≡ leb m n
  pub sub_one : (n : ℕ) → n < 2 ^ 53 → sub (of_nat (suc n)) (of_nat 1) ≡ of_nat n
  pub min_nat : (m n : ℕ) → m ≤ 2 ^ 53 → n ≤ 2 ^ 53 → fmin (of_nat m) (of_nat n) ≡ of_nat (min m n)
  pub add_zero_rate :
      (n a b : ℕ)
      → n ≤ 2 ^ 53
      → a ≤ 2 ^ 53
      → 0 < b
      → b ≤ 2 ^ 53
      → add (of_nat n) (mul (of_nat 0) (div (of_nat a) (of_nat b))) ≡ of_nat n

-- A seeded generator of the rand crate: a uniform draw from [0, 1), and a draw from an inclusive range.
pub record Rng (f : Float) : Type 1 where
  pub R : Type 0
  pub gen : R → f.F × R
  pub gen_range : ℕ → ℕ → R → ℕ × R
  pub gen_lt_one : (r : R) → f.lt (gen r).0 (f.of_nat 1) ≡ true
  pub gen_range_in :
      (lo hi : ℕ) (r : R) → lo ≤ hi → (lo ≤ (gen_range lo hi r).0) × ((gen_range lo hi r).0 ≤ hi)

-- snow: the state of a handshake and of a transport. A call that fails returns `none` and may have
-- changed the state. The counters are those that the crate documents: a message that is written or read
-- moves its own counter by one, and a message that is refused moves none.
pub record Snow : Type 1 where
  pub HandshakeState : Type 0
  pub TransportState : Type 0
  pub build_initiator : List ℕ → Option HandshakeState
  pub build_responder : List ℕ → Option HandshakeState
  pub write_handshake : HandshakeState → HandshakeState × Option (List ℕ)
  pub read_handshake : HandshakeState → List ℕ → HandshakeState × Option (List ℕ)
  pub is_finished : HandshakeState → Bool
  pub into_transport : HandshakeState → Option TransportState
  pub handshake_remote : HandshakeState → Option (List ℕ)
  pub transport_remote : TransportState → Option (List ℕ)
  pub sending_nonce : TransportState → ℕ
  pub receiving_nonce : TransportState → ℕ
  pub set_receiving_nonce : TransportState → ℕ → TransportState
  pub write_message : TransportState → List ℕ → TransportState × Option (List ℕ)
  pub read_message : TransportState → List ℕ → TransportState × Option (List ℕ)
  pub receiving_nonce-set :
      (t : TransportState) (n : ℕ) → receiving_nonce (set_receiving_nonce t n) ≡ n
  pub receiving_nonce-read :
      (t : TransportState) (m : List ℕ) {out : List ℕ}
      → (read_message t m).1 ≡ some out
      → receiving_nonce (read_message t m).0 ≡ receiving_nonce t + 1
  pub sending_nonce-write :
      (t : TransportState) (m : List ℕ) {out : List ℕ}
      → (write_message t m).1 ≡ some out
      → sending_nonce (write_message t m).0 ≡ sending_nonce t + 1

-- The Unicode tables behind `str::trim` and `str::to_lowercase`.
pub record Unicode : Type 0 where
  pub trim : List ℕ → List ℕ
  pub to_lowercase : List ℕ → List ℕ

-- All of these together.
pub record World : Type 1 where
  pub crypto : Crypto
  pub lz4 : Lz4
  pub float : Float
  pub rng : Rng float
  pub snow : Snow
  pub unicode : Unicode
