-- ===== src/Compress/Tests.antt =====
-- Runs of the compression at concrete texts.
use cockroach_chat.Prelude.{ℕ, ◌≤◌, ◌<◌, ◌≡◌, refl, some, List, arith, length, replicate, ok, err}
use cockroach_chat.Prelude.Bytes.{to_be}
use cockroach_chat.Platform.Samples.{sixty_thousandths, zero_runs}
use cockroach_chat.Config.{Tunables, defaults}
use cockroach_chat.Compress.{maybe_compress, decompress, exceeds_cap}
use cockroach_chat.Compress.Bounds.{
  decompress_cap, decompress-maybe_compress, decompress-maybe_compress_above_cap,
}

-- Tunables under which texts of eight bytes are compressed, and at most sixteen are accepted.
abbrev small : Tunables ℕ
small = record (defaults sixty_thousandths) { compress_min_bytes = 8; decompress_max_bytes = 16 }

abbrev zeros : ℕ → List ℕ
zeros n = replicate n 0

abbrev frame_of : ℕ → List ℕ
frame_of n = to_be 4 n

compresses : maybe_compress zero_runs (zeros 12) small ≡ some (frame_of 12)
unfolding maybe_compress zero_runs defaults to_be
compresses = refl

compresses_long : maybe_compress zero_runs (zeros 20) small ≡ some (frame_of 20)
unfolding maybe_compress zero_runs defaults to_be
compresses_long = refl

decompresses : decompress zero_runs (frame_of 12) small ≡ ok (zeros 12)
unfolding defaults
decompresses =
    (decompress-maybe_compress zero_runs small (zeros 12) (frame_of 12) (omega arith) (omega arith)
      compresses).0

decompress_cap_example : length (zeros 12) ≤ small.decompress_max_bytes
decompress_cap_example = decompress_cap zero_runs small (frame_of 12) (zeros 12) decompresses

decompress-maybe_compress_example :
    (decompress zero_runs (frame_of 12) small ≡ ok (zeros 12))
    × (length (frame_of 12) < length (zeros 12))
decompress-maybe_compress_example =
    decompress-maybe_compress zero_runs small (zeros 12) (frame_of 12) (omega arith) (omega arith)
      compresses

decompress-maybe_compress_above_cap_example :
    decompress zero_runs (frame_of 20) small ≡ err (exceeds_cap (length (zeros 20)) 16)
decompress-maybe_compress_above_cap_example =
    decompress-maybe_compress_above_cap zero_runs small (zeros 20) (frame_of 20) (omega arith)
      (omega arith) compresses_long
