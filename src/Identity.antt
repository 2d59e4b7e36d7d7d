-- ===== src/Identity.antt =====
-- crates/meshcore/src/identity.rs: keys, the fingerprint, the ephemeral id, and the proof of work.
pub mod Pow
mod Tests
use cockroach_chat.Prelude.{ℕ, List, [], ◌∷◌, ◌++◌, take}
use cockroach_chat.Platform.{Crypto}
use cockroach_chat.Wire.{EphId}

-- `[u8; 32]`
abbrev pub Fingerprint : Type 0
Fingerprint = List ℕ

-- `b"cockroach/dh/v1"`
abbrev pub dh_label : List ℕ
dh_label =
    b'c' ∷ b'o' ∷ b'c' ∷ b'k' ∷ b'r' ∷ b'o' ∷ b'a' ∷ b'c' ∷ b'h' ∷ b'/' ∷ b'd' ∷ b'h' ∷ b'/' ∷ b'v'
    ∷ b'1' ∷ []

-- `b"cockroach/eph/v1"`
abbrev pub eph_label : List ℕ
eph_label =
    b'c' ∷ b'o' ∷ b'c' ∷ b'k' ∷ b'r' ∷ b'o' ∷ b'a' ∷ b'c' ∷ b'h' ∷ b'/' ∷ b'e' ∷ b'p' ∷ b'h' ∷ b'/'
    ∷ b'v' ∷ b'1' ∷ []

module _ (c : Crypto) where
  pub record LocalIdentity : Type 0 where
    pub signing : c.SigningKey
    pub dh_secret : List ℕ
    pub eph_id : EphId

  pub derive : List ℕ → List ℕ → List ℕ
  derive seed label = c.sha256 (seed ++ label)

  -- The overwriting of secrets in memory is not modelled.
  pub from_seed : List ℕ → LocalIdentity
  unfolding derive
  from_seed seed = record {
    signing = c.signing_key seed;
    dh_secret = derive seed dh_label;
    eph_id = take 8 (derive seed eph_label);
  }

  -- The seed is drawn from the operating system.
  pub generate : List ℕ → LocalIdentity
  unfolding from_seed
  generate drawn = from_seed drawn

  pub signing_key : LocalIdentity → c.SigningKey
  signing_key id = id.signing

  pub dh_private_bytes : LocalIdentity → List ℕ
  dh_private_bytes id = id.dh_secret

  pub fingerprint : LocalIdentity → Fingerprint
  fingerprint id = c.sha256 (c.to_bytes (c.verifying_key id.signing))

  pub verifying_key : LocalIdentity → c.VerifyingKey
  verifying_key id = c.verifying_key id.signing

  pub dh_public : LocalIdentity → List ℕ
  dh_public id = c.dh_public id.dh_secret

  -- The generator fills the id with these bytes.
  pub rotate_eph : LocalIdentity → EphId → LocalIdentity
  rotate_eph id drawn = record id { eph_id = drawn }
