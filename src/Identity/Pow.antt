-- ===== src/Identity/Pow.antt =====
-- The module `pow` of crates/meshcore/src/identity.rs: a hash with enough leading zero bits.
use cockroach_chat.Prelude.{
  ℕ, zero, suc, ◌+◌, ◌%◌, ◌^◌, ◌≤◌, ◌<◌, ◌≡◌, refl, ap, ◌∙◌, inl, inr, Bool, true, false, Option,
  none, some, List, [], ◌∷◌, ◌++◌, arith, ltb, leb, ◌==◌, if◌then◌else◌, Bool-cases, dec_lt, sym,
}
use cockroach_chat.Prelude.Bytes.{to_be}
use cockroach_chat.Platform.{Crypto}

-- `u8::leading_zeros`
unfoldable pub byte_zeros : ℕ → ℕ
byte_zeros b =
    if b == 0
    then 8
    else if ltb b 2
    then 7
    else if ltb b 4
    then 6
    else if ltb b 8
    then 5
    else if ltb b 16
    then 4
    else if ltb b 32
    then 3
    else if ltb b 64
    then 2
    else if ltb b 128
    then 1
    else 0

unfoldable pub leading_zero_bits : List ℕ → ℕ
unfolding byte_zeros
leading_zero_bits [] = 0
leading_zero_bits (b ∷ bs) =
    let rest = leading_zero_bits bs in if b == 0 then 8 + rest else byte_zeros b

module _ (c : Crypto) where
  unfoldable pub hash : List ℕ → ℕ → List ℕ
  hash pubkey nonce = c.sha256 (pubkey ++ to_be 8 nonce)

  unfoldable pub verify : List ℕ → ℕ → ℕ → Bool
  unfolding hash leading_zero_bits
  verify pubkey nonce bits = leb bits (leading_zero_bits (hash pubkey nonce))

  -- The loop of `mint`, from a nonce on; it is `none` if the fuel runs out.
  pub mint_from : ℕ → List ℕ → ℕ → ℕ → Option ℕ
  unfolding hash leading_zero_bits
  mint_from zero pubkey bits nonce = none
  mint_from (suc fuel) pubkey bits nonce =
      let rest = mint_from fuel pubkey bits ((nonce + 1) % 2 ^ 64) in
      if leb bits (leading_zero_bits (hash pubkey nonce)) then some nonce else rest

  pub mint : ℕ → List ℕ → ℕ → Option ℕ
  unfolding mint_from
  mint fuel pubkey bits = mint_from fuel pubkey bits 0

  -- How many nonces below `n` are good enough.
  pub good_below : List ℕ → ℕ → ℕ → ℕ
  good_below pubkey bits zero = 0
  good_below pubkey bits (suc n) =
      (if verify pubkey n bits then 1 else 0) + good_below pubkey bits n

  mint_from_lem :
      (fuel : ℕ) (pubkey : List ℕ) (bits nonce good : ℕ)
      → nonce ≤ good
      → good < nonce + fuel
      → good < 2 ^ 64
      → verify pubkey good bits ≡ true
      → good_below pubkey bits nonce ≡ 0
      → (m : ℕ) × (mint_from fuel pubkey bits nonce ≡ some m)
        × (m ≤ good)
        × (verify pubkey m bits ≡ true)
        × (good_below pubkey bits m ≡ 0)
  unfolding mint_from verify good_below
  mint_from_lem zero pubkey bits nonce good low high small hits none_yet = absurd (omega arith)
  mint_from_lem (suc fuel) pubkey bits nonce good low high small hits none_yet =
      elim (Bool-cases (verify pubkey nonce bits)) [
        | inl now ↦ rw now (nonce, refl, low, now, none_yet)
        | inr later ↦ elim (dec_lt nonce good) [
          | no at_good ↦
              absurd
                (false-ne-true (sym later ∙ ap (λ k. verify pubkey k bits) (omega arith) ∙ hits))
          | yes before ↦
              let next : (nonce + 1) % 2 ^ 64 ≡ suc nonce = omega arith in
              rw (later, next)
                (mint_from_lem fuel pubkey bits (suc nonce) good (omega arith) (omega arith) small
                  hits (rw later (omega (arith, none_yet))))
        ]
      ]
    where
      false-ne-true : false ≡ true → ⊥
      false-ne-true e = cc

  -- Minting ends: if some nonce is good enough that is a `u64` and lies below the number of rounds, it
  -- returns one that `verify` accepts, and none below it is good enough.
  pub mint_lem :
      (fuel : ℕ) (pubkey : List ℕ) (bits good : ℕ)
      → good < fuel
      → good < 2 ^ 64
      → verify pubkey good bits ≡ true
      → (m : ℕ) × (mint fuel pubkey bits ≡ some m)
        × (m ≤ good)
        × (verify pubkey m bits ≡ true)
        × (good_below pubkey bits m ≡ 0)
  unfolding mint good_below
  mint_lem fuel pubkey bits good high small hits =
      mint_from_lem fuel pubkey bits 0 good (omega arith) (omega arith) small hits refl
