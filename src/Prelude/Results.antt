-- ===== src/Prelude/Results.antt =====
-- What a fallible Rust function does: it returns, it returns an error, or it panics.
-- An index or a slice out of range panics, so that the absence of panics is a theorem.
use Prim.Native.Nat.{ℕ, ◌-◌, ◌≤◌, ◌<◌}
use mathlib.Core.Path.{◌≡◌, refl}
use mathlib.Core.Bool.{◌&&◌}
use mathlib.Core.List.{List}
use native.Mathlib.Omega.{arith}
use cockroach_chat.Prelude.Tests.{le→leb, leb, ltb, if◌then◌else◌}
use cockroach_chat.Prelude.Lists.{length, get_or, take, drop}

pub data Outcome {ℓ κ} (E : Type ℓ) (A : Type κ) : Type (ℓ ⊔ κ) where
  panic : Outcome E A
  err : E → Outcome E A
  ok : A → Outcome E A

-- The `?` operator.
infixl 5 ◌>>=◌ ◌>>◌
abbrev pub ◌>>=◌ {ℓ κ μ} :
    {E : Type ℓ} {A : Type κ} {B : Type μ} → Outcome E A → (A → Outcome E B) → Outcome E B
panic >>= next = panic
err reason >>= next = err reason
ok value >>= next = next value

abbrev pub ◌>>◌ {ℓ κ} : {E : Type ℓ} {B : Type κ} → Outcome E (Unit {0}) → Outcome E B → Outcome E B
m >> k = m >>= λ _. k

-- `bytes[i]`
pub index {ℓ} : {E : Type ℓ} → List ℕ → ℕ → Outcome E ℕ
index bs i = if ltb i (length bs) then ok (get_or bs i 0) else panic

-- `&bytes[a..b]`
pub slice {ℓ} : {E : Type ℓ} → List ℕ → ℕ → ℕ → Outcome E (List ℕ)
slice bs a b = if leb a b && leb b (length bs) then ok (take (b - a) (drop a bs)) else panic

-- An access in range does not panic.
pub index_in {ℓ} :
    {E : Type ℓ} (bs : List ℕ) (i : ℕ) → i < length bs → index {E = E} bs i ≡ ok (get_or bs i 0)
unfolding index
index_in bs i h = ground arith

pub slice_in {ℓ} :
    {E : Type ℓ} (bs : List ℕ) (a b : ℕ)
    → a ≤ b
    → b ≤ length bs
    → slice {E = E} bs a b ≡ ok (take (b - a) (drop a bs))
unfolding slice
slice_in bs a b h k = rw (le→leb a b h, le→leb b (length bs) k)

-- Inversion of a bind that returns.
pub >>=-eq-ok {ℓ κ μ} :
    {E : Type ℓ} {A : Type κ} {B : Type μ} (m : Outcome E A) (next : A → Outcome E B) {out : B}
    → (m >>= next) ≡ ok out
    → (a : A) × (m ≡ ok a) × (next a ≡ ok out)
>>=-eq-ok panic next h = cc
>>=-eq-ok (err reason) next h = cc
>>=-eq-ok (ok value) next h = (value, refl, h)
