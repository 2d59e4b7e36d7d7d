-- ===== src/Compress/Bounds.antt =====
-- The zip-bomb defence, the round trip, and where the two sides disagree.
use cockroach_chat.Prelude.{
  ℕ, ◌+◌, ◌-◌, ◌%◌, ◌^◌, ◌≤◌, ◌<◌, ◌≡◌, ◌≢◌, sym, ap, ◌∙◌, some, List, [], ◌∷◌, ◌++◌, ok, err,
  panic, ◌>>=◌, arith, length, ltb, ◌==◌, ==_refl, if◌then◌else◌, index_in, slice_in, le→ltb,
  lt→ltb, length-append, get_or, take, drop, dec_lt, take_all,
}
use cockroach_chat.Prelude.Bytes.{to_be, from_be, length-to_be, from_be-to_be}
use cockroach_chat.Platform.{Lz4}
use cockroach_chat.Config.{Tunables}
use cockroach_chat.Compress.{
  CompressError, exceeds_cap, or_lz4_error, maybe_compress, decompress_body, decompress,
  truncated_prefix, length_mismatch,
}

module _ (z : Lz4) {F : Type 0} (cfg : Tunables F) where
  abbrev declared : List ℕ → ℕ
  declared input =
      from_be (get_or input 0 0 ∷ get_or input 1 0 ∷ get_or input 2 0 ∷ get_or input 3 0 ∷ [])

  decompress_framed :
      (input : List ℕ)
      → 4 ≤ length input
      → decompress z input cfg ≡ decompress_body z input (declared input) cfg
  unfolding decompress
  decompress_framed input h = rw (
    le→ltb (length input) 4 h,
    index_in {E = CompressError} input 0 (omega arith),
    index_in {E = CompressError} input 1 (omega arith),
    index_in {E = CompressError} input 2 (omega arith),
    index_in {E = CompressError} input 3 (omega arith),
  )

  decompress_truncated :
      (input : List ℕ) → length input < 4 → decompress z input cfg ≡ err truncated_prefix
  unfolding decompress
  decompress_truncated input h = rw (lt→ltb (length input) 4 h)

  decompress_body_bound :
      (input : List ℕ) (n : ℕ) {out : List ℕ}
      → decompress_body z input n cfg ≡ ok out
      → length out ≤ cfg.decompress_max_bytes
  unfolding decompress_body
  decompress_body_bound input n h = ground arith

  -- Whatever bytes arrive, and whatever the decompressor does with them, what is accepted is no
  -- longer than the configured cap.
  pub decompress_cap :
      (input out : List ℕ) → decompress z input cfg ≡ ok out → length out ≤ cfg.decompress_max_bytes
  decompress_cap input out h = elim (dec_lt (length input) 4) [
    | yes few ↦ absurd (ground (arith, decompress_truncated input few))
    | no enough ↦
        decompress_body_bound input (declared input)
          (sym (decompress_framed input (omega arith)) ∙ h)
  ]

  decompress_body-ne-panic :
      (input : List ℕ) (n : ℕ) → 4 ≤ length input → decompress_body z input n cfg ≢ panic
  unfolding decompress_body
  decompress_body-ne-panic input n h =
      rw (slice_in {E = CompressError} input 4 (length input) h (omega arith)) (ground arith)

  -- Decompressing any bytes returns a text or an error: no index or slice is out of range.
  pub decompress-ne-panic : (input : List ℕ) → decompress z input cfg ≢ panic
  decompress-ne-panic input = elim (dec_lt (length input) 4) [
    | yes few ↦ rw (decompress_truncated input few) (λ e. cc)
    | no enough ↦
        rw (decompress_framed input (omega arith))
          (decompress_body-ne-panic input (declared input) (omega arith))
  ]

  maybe_compress-some :
      (input : List ℕ) {framed : List ℕ}
      → maybe_compress z input cfg ≡ some framed
      → (framed ≡ to_be 4 (length input % 2 ^ 32) ++ z.compress input)
        × (length framed < length input)
        × (cfg.compress_min_bytes ≤ length input)
  unfolding maybe_compress
  maybe_compress-some input h = ground arith

  declared-frame : (n : ℕ) (body : List ℕ) → n < 2 ^ 32 → declared (to_be 4 n ++ body) ≡ n
  unfolding to_be
  declared-frame n body h = from_be-to_be 4 n (omega arith)

  frame_body :
      (n : ℕ) (body : List ℕ)
      → length (to_be 4 n ++ body) ≡ 4 + length body
      → take (length (to_be 4 n ++ body) - 4) (drop 4 (to_be 4 n ++ body)) ≡ body
  unfolding to_be
  frame_body n body size =
      ap (λ k. take k body) {x = length (to_be 4 n ++ body) - 4} {y = length body}
        (omega (arith, size))
      ∙ take_all body

  decompress_frame :
      (n : ℕ) (body : List ℕ)
      → n < 2 ^ 32
      → decompress z (to_be 4 n ++ body) cfg ≡ (
          if ltb cfg.decompress_max_bytes n
          then err (exceeds_cap n cfg.decompress_max_bytes)
          else (or_lz4_error (z.decompress body n) >>= λ out.
              if length out == n then ok out else err length_mismatch))
  decompress_frame n body h =
      let frame : List ℕ = to_be 4 n ++ body in
      let size : length frame ≡ 4 + length body =
        omega (arith, length-append (to_be 4 n) body, length-to_be 4 n) in
      decompress_framed frame (omega (arith, size))
      ∙ ap (λ k. decompress_body z frame k cfg) (declared-frame n body h)
      ∙ unfold decompress_body in
        rw (
          slice_in {E = CompressError} frame 4 (length frame) (omega (arith, size)) (omega arith),
          frame_body n body size,
        )

  -- Of a text that is at most the cap long, where the cap fits a `u32`, what the sender compresses
  -- is shorter than the text, and the receiver gets the text back.
  pub decompress-maybe_compress :
      (input framed : List ℕ)
      → length input ≤ cfg.decompress_max_bytes
      → cfg.decompress_max_bytes < 2 ^ 32
      → maybe_compress z input cfg ≡ some framed
      → (decompress z framed cfg ≡ ok input) × (length framed < length input)
  decompress-maybe_compress input framed hc hu h =
      let (frame, shorter, _) = maybe_compress-some input h in
      let size : length input % 2 ^ 32 ≡ length input = omega arith in
      (
        ap (λ l. decompress z l cfg) frame
            ∙ ap (λ n. decompress z (to_be 4 n ++ z.compress input) cfg) size
            ∙ decompress_frame (length input) (z.compress input) (omega arith)
            ∙ rw (
              le→ltb cfg.decompress_max_bytes (length input) hc,
              z.decompress-compress input,
              ==_refl (length input),
            ),
        shorter,
      )

  -- A text above the cap, shorter than 4 GiB, that the sender compresses is refused by every
  -- receiver with the same tunables: the sender does not look at the cap.
  pub decompress-maybe_compress_above_cap :
      (input framed : List ℕ)
      → cfg.decompress_max_bytes < length input
      → length input < 2 ^ 32
      → maybe_compress z input cfg ≡ some framed
      → decompress z framed cfg ≡ err (exceeds_cap (length input) cfg.decompress_max_bytes)
  decompress-maybe_compress_above_cap input framed hc hu h =
      let (frame, _, _) = maybe_compress-some input h in
      let size : length input % 2 ^ 32 ≡ length input = omega arith in
      ap (λ l. decompress z l cfg) frame
      ∙ ap (λ n. decompress z (to_be 4 n ++ z.compress input) cfg) size
      ∙ decompress_frame (length input) (z.compress input) hu
      ∙ rw (lt→ltb cfg.decompress_max_bytes (length input) hc)
