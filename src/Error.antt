-- ===== src/Error.antt =====
-- crates/meshcore/src/error.rs: the errors that decoding and reassembly return.
use cockroach_chat.Prelude.{ℕ}

pub data WireError : Type 0 where
  short : ℕ → ℕ → WireError
  bad_version : ℕ → WireError
  bad_length : ℕ → ℕ → WireError
  trailing : ℕ → WireError
  bad_signature : WireError

pub data FragError : Type 0 where
  mtu_too_small : ℕ → FragError
  bad_index : ℕ → ℕ → FragError
  too_large : ℕ → FragError
