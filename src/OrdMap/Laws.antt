-- ===== src/OrdMap/Laws.antt =====
-- The laws of the map operations, in the form of a conditional on the keys.
use Prim.Native.Nat.{Ordering}
use cockroach_chat.Prelude.{
  ◌+◌, ◌≤◌, ◌<◌, ◌≡◌, refl, ap, ◌∙◌, ◌≢◌, ◌⊎◌, inl, inr, true, false, none, some, [], ◌∷◌,
  if◌then◌else◌, arith, length, Bool-cases, is_some,
}
use mathlib.Core.Option
use cockroach_chat.OrdMap.{Ord, Map, is_eq, key_eq, get, contains_key, insert, remove, update}

pub Ordering-cases : (c : Ordering) → (c ≡ Ordering.lt) ⊎ (c ≡ Ordering.eq) ⊎ (c ≡ Ordering.gt)
Ordering-cases Ordering.lt = inl refl
Ordering-cases Ordering.eq = inr (inl refl)
Ordering-cases Ordering.gt = inr (inr refl)

is_eq→eq : (c : Ordering) → is_eq c ≡ true → c ≡ Ordering.eq
is_eq→eq Ordering.lt h = cc
is_eq→eq Ordering.eq h = refl
is_eq→eq Ordering.gt h = cc

module _ {ℓ} {K : Type ℓ} ⦃o : Ord K⦄ where
  pub key_eq_refl : (k : K) → key_eq k k ≡ true
  key_eq_refl k = ap is_eq (o.cmp_refl k)

  pub key_eq→eq : (a b : K) → key_eq a b ≡ true → a ≡ b
  key_eq→eq a b h = o.cmp_eq a b (is_eq→eq (o.cmp a b) h)

  pub key_eq_sym : (a b : K) → key_eq a b ≡ key_eq b a
  key_eq_sym a b = elim (Bool-cases (key_eq a b)) [
    | inl e ↦ rw (e, ← key_eq→eq a b e, key_eq_refl a)
    | inr e ↦ elim (Bool-cases (key_eq b a)) [
      | inl e' ↦ cc (e, e', key_eq→eq b a e', key_eq_refl a, ap (key_eq a) (key_eq→eq b a e'))
      | inr e' ↦ rw (e, e')
    ]
  ]

  pub key_eq_ne : (a b : K) → a ≢ b → key_eq a b ≡ false
  key_eq_ne a b h = elim (Bool-cases (key_eq a b)) [
    | inl e ↦ absurd (h (key_eq→eq a b e))
    | inr e ↦ e
  ]

  module _ {κ} {V : Type κ} where
    pub get-insert :
        (k j : K) (v : V) (m : Map K V)
        → get j (insert k v m) ≡ (if key_eq j k then some v else get j m)
    unfolding get insert
    get-insert k j v [] = refl
    get-insert k j v ((i, w) ∷ m) = elim (Ordering-cases (o.cmp k i)) [
      | inl e ↦ rw (e, insert)
      | inr (inl e) ↦ rw (e, insert) (ground (arith, o.cmp_eq k i e, o.cmp_refl k))
      | inr (inr e) ↦
          rw (e, insert)
            (ground (arith, get-insert k j v m, key_eq→eq j i, key_eq→eq j k, e, o.cmp_refl k))
    ]

    pub get-remove :
        (k j : K) (m : Map K V) → get j (remove k m) ≡ (if key_eq j k then none else get j m)
    unfolding get remove
    get-remove k j [] = ground arith
    get-remove k j ((i, w) ∷ m) =
        ground
          (arith, get-remove k j m, key_eq→eq j i, key_eq→eq k i, key_eq→eq j k, key_eq_sym j k)

    pub get-update :
        (k j : K) (f : V → V) (m : Map K V)
        → get j (update k f m) ≡ (if key_eq j k then Option.map f (get j m) else get j m)
    unfolding get update
    get-update k j f [] = ground arith
    get-update k j f ((i, w) ∷ m) =
        ground
          (arith, get-update k j f m, key_eq→eq j i, key_eq→eq k i, key_eq→eq j k, key_eq_sym j k)

    pub contains_key-get : (k : K) (m : Map K V) → contains_key k m ≡ is_some (get k m)
    unfolding get contains_key
    contains_key-get k [] = refl
    contains_key-get k ((j, v) ∷ m) = ground (arith, contains_key-get k m)

    -- A new key adds one entry, a known key adds none.
    pub length-insert : (k : K) (v : V) (m : Map K V) → length (insert k v m) ≤ length m + 1
    unfolding insert
    length-insert k v [] = omega arith
    length-insert k v ((j, w) ∷ m) = ground (arith, length-insert k v m)

    pub length-remove_le : (k : K) (m : Map K V) → length (remove k m) ≤ length m
    unfolding remove
    length-remove_le k [] = omega arith
    length-remove_le k ((j, w) ∷ m) = ground (arith, length-remove_le k m)

    pub length-remove_lt :
        (k : K) (m : Map K V) → contains_key k m ≡ true → length (remove k m) < length m
    unfolding remove contains_key
    length-remove_lt k [] h = cc
    length-remove_lt k ((j, w) ∷ m) h = ground (arith, length-remove_le k m, length-remove_lt k m)

    pub length-update : (k : K) (f : V → V) (m : Map K V) → length (update k f m) ≡ length m
    unfolding update
    length-update k f [] = refl
    length-update k f ((j, w) ∷ m) = ground (arith, length-update k f m)

    pub get-insert_self : (k : K) (v : V) (m : Map K V) → get k (insert k v m) ≡ some v
    get-insert_self k v m = ground (arith, get-insert k k v m, key_eq_refl k)

    pub get-insert_ne : (k j : K) (v : V) (m : Map K V) → j ≢ k → get j (insert k v m) ≡ get j m
    get-insert_ne k j v m h = ground (arith, get-insert k j v m, key_eq_ne j k h)

    pub get-update_self :
        (k : K) (f : V → V) (m : Map K V) → get k (update k f m) ≡ Option.map f (get k m)
    get-update_self k f m = get-update k k f m ∙ rw (key_eq_refl k)
