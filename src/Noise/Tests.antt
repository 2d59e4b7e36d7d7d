-- ===== src/Noise/Tests.antt =====
-- A session at concrete values.
use cockroach_chat.Prelude.{ℕ, refl, List, [], ◌∷◌, ◌++◌, true}
use cockroach_chat.Prelude.Bytes.{to_be}
use cockroach_chat.Platform.Samples.{plain}
use cockroach_chat.Noise.{NoiseSession, transport, decrypt}
use cockroach_chat.Noise.Replay.{
  window, Slides, decrypt-Slides, opened_nonces, IsIncreasing, opened_nonces-IsIncreasing,
}

abbrev ready : NoiseSession plain
ready = record { inner = transport (0, 4); initiator = true }

abbrev at_nonce : ℕ → List ℕ
at_nonce n = to_be 8 n ++ (104 ∷ [])

decrypt-Slides_example :
    Slides plain (window plain ready) (at_nonce 6) (decrypt plain ready (at_nonce 6))
decrypt-Slides_example = decrypt-Slides plain ready (at_nonce 6)

opened_nonces-IsIncreasing_example :
    IsIncreasing plain 4
      (opened_nonces plain ready (at_nonce 6 ∷ at_nonce 5 ∷ at_nonce 6 ∷ at_nonce 9 ∷ []))
unfolding window
opened_nonces-IsIncreasing_example =
    opened_nonces-IsIncreasing plain (at_nonce 6 ∷ at_nonce 5 ∷ at_nonce 6 ∷ at_nonce 9 ∷ []) ready
      4 refl
