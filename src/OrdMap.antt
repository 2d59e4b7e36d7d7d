-- ===== src/OrdMap.antt =====
-- `std::collections::BTreeMap` as a list of entries in key order.  A `HashMap` is the same map: the
-- code reads one by key, and where it walks one the order of the walk is that of the keys.
pub mod Keys
pub mod Laws
pub mod Sorted
pub mod Oldest
pub mod Every
use Prim.Native.Nat.{Ordering}
use cockroach_chat.Prelude.{
  ℕ, ◌≡◌, Bool, true, false, not, Option, none, some, List, [], ◌∷◌, map, if◌then◌else◌, retain,
  length,
}

-- A total order on keys, by comparison.
pub record Ord {ℓ} (K : Type ℓ) : Type ℓ where
  pub cmp : K → K → Ordering
  pub cmp_eq : (a b : K) → cmp a b ≡ Ordering.eq → a ≡ b
  pub cmp_refl : (a : K) → cmp a a ≡ Ordering.eq
  pub cmp_gt : (a b : K) → cmp a b ≡ Ordering.gt → cmp b a ≡ Ordering.lt
  pub cmp_trans :
      (a b c : K) → cmp a b ≡ Ordering.lt → cmp b c ≡ Ordering.lt → cmp a c ≡ Ordering.lt

abbrev pub Map {ℓ κ} : Type ℓ → Type κ → Type (ℓ ⊔ κ)
Map K V = List (K × V)

abbrev pub is_eq : Ordering → Bool
is_eq Ordering.lt = false
is_eq Ordering.eq = true
is_eq Ordering.gt = false

module _ {ℓ} {K : Type ℓ} ⦃o : Ord K⦄ where
  abbrev pub key_eq : K → K → Bool
  key_eq a b = is_eq (o.cmp a b)

  module _ {κ} {V : Type κ} where
    unfoldable pub get : K → Map K V → Option V
    get k [] = none
    get k ((j, v) ∷ m) = let rest = get k m in if key_eq k j then some v else rest

    unfoldable pub contains_key : K → Map K V → Bool
    contains_key k [] = false
    contains_key k ((j, v) ∷ m) = let rest = contains_key k m in if key_eq k j then true else rest

    unfoldable pub insert : K → V → Map K V → Map K V
    insert k v [] = (k, v) ∷ []
    insert k v ((j, w) ∷ m) = elim (o.cmp k j) [
      | Ordering.lt ↦ (k, v) ∷ (j, w) ∷ m
      | Ordering.eq ↦ (k, v) ∷ m
      | Ordering.gt ↦ (j, w) ∷ insert k v m
    ]

    unfoldable pub remove : K → Map K V → Map K V
    remove k [] = []
    remove k ((j, w) ∷ m) = let rest = remove k m in if key_eq k j then rest else (j, w) ∷ rest

    -- `map.get_mut(k)`: the entry's value is replaced where there is one.
    unfoldable pub update : K → (V → V) → Map K V → Map K V
    update k f [] = []
    update k f ((j, w) ∷ m) =
        let rest = update k f m in if key_eq k j then (j, f w) ∷ m else (j, w) ∷ rest
