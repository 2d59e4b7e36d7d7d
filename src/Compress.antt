-- ===== src/Compress.antt =====
-- crates/meshcore/src/compress.rs: LZ4 framing with a length prefix and a hard cap on the output.
-- An error text is the constructor of its case.
pub mod Bounds
mod Tests
use cockroach_chat.Prelude.{
  ℕ, ◌+◌, ◌%◌, ◌^◌, Option, none, some, List, [], ◌∷◌, ◌++◌, Outcome, ok, err, ◌>>=◌, index, slice,
  length, ltb, ◌==◌, if◌then◌else◌,
}
use cockroach_chat.Prelude.Bytes.{to_be, from_be}
use cockroach_chat.Platform.{Lz4}
use cockroach_chat.Config.{Tunables}

pub data CompressError : Type 0 where
  truncated_prefix : CompressError
  exceeds_cap : ℕ → ℕ → CompressError
  lz4_error : CompressError
  length_mismatch : CompressError

abbrev pub or_lz4_error : Option (List ℕ) → Outcome CompressError (List ℕ)
or_lz4_error none = err lz4_error
or_lz4_error (some out) = ok out

module _ (z : Lz4) {F : Type 0} where
  -- The length is written as a `u32`.
  unfoldable pub maybe_compress : List ℕ → Tunables F → Option (List ℕ)
  maybe_compress input cfg =
      if ltb (length input) cfg.compress_min_bytes
      then none
      else (let out = to_be 4 (length input % 2 ^ 32) ++ z.compress input in
          if ltb (length out) (length input) then some out else none)

  -- The part of `decompress` after the prefix is read.
  decompress_body : List ℕ → ℕ → Tunables F → Outcome CompressError (List ℕ)
  decompress_body input declared cfg =
      if ltb cfg.decompress_max_bytes declared
      then err (exceeds_cap declared cfg.decompress_max_bytes)
      else (do
        body ← slice input 4 (length input)
        out ← or_lz4_error (z.decompress body declared)
        (if length out == declared then ok out else err length_mismatch))

  pub decompress : List ℕ → Tunables F → Outcome CompressError (List ℕ)
  unfolding decompress_body
  decompress input cfg = if ltb (length input) 4 then err truncated_prefix else (do
    b0 ← index input 0
    b1 ← index input 1
    b2 ← index input 2
    b3 ← index input 3
    decompress_body input (from_be (b0 ∷ b1 ∷ b2 ∷ b3 ∷ [])) cfg)
