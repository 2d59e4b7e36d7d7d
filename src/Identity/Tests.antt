-- ===== src/Identity/Tests.antt =====
-- The proof of work at concrete values. The sample hash repeats the length of what it hashes.
use cockroach_chat.Prelude.{ℕ, ◌≡◌, ◌≤◌, refl, [], ◌∷◌, true, some, arith}
use cockroach_chat.Prelude.Bytes.{to_be}
use cockroach_chat.Platform.Samples.{repeating}
use cockroach_chat.Identity.Pow.{verify, mint, good_below, mint_lem}

mint_lem_example :
    (m : ℕ) × (mint repeating 5 (1 ∷ []) 3 ≡ some m)
    × (m ≤ 2)
    × (verify repeating (1 ∷ []) m 3 ≡ true)
    × (good_below repeating (1 ∷ []) 3 m ≡ 0)
unfolding verify to_be
mint_lem_example = mint_lem repeating 5 (1 ∷ []) 3 2 (omega arith) (omega arith) refl
