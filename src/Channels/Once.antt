-- ===== src/Channels/Once.antt =====
-- The digests of a filter ascend, so that each stands in it once.
use cockroach_chat.Prelude.{
  ℕ, ◌≡◌, ◌⊎◌, inl, inr, true, false, List, [], ◌∷◌, All, Bool, Bool-cases, retain, subst, sym,
}
use cockroach_chat.OrdMap.{key_eq}
use cockroach_chat.OrdMap.Keys.{bytes_ord}
use cockroach_chat.OrdMap.Laws.{Ordering-cases, key_eq_refl}
use cockroach_chat.Channels.{
  Digest, SyncFilter, place, sort_unstable, starts_with, dedup, new, missing_from,
}
use cockroach_chat.Channels.Sync.{All-place, All-dedup}
use Prim.Native.Nat.{Ordering}

abbrev IsBelow : Digest → Digest → Type 0
IsBelow x y = bytes_ord.cmp x y ≡ Ordering.lt

abbrev IsAtMost : Digest → Digest → Type 0
IsAtMost x y = IsBelow x y ⊎ (x ≡ y)

-- Each digest comes before all that follow it.
abbrev pub IsAscending : List Digest → Type 0
IsAscending [] = Unit
IsAscending (x ∷ xs) = All (λ y. bytes_ord.cmp x y ≡ Ordering.lt) xs × IsAscending xs

abbrev IsSorted : List Digest → Type 0
IsSorted [] = Unit
IsSorted (x ∷ xs) = All (IsAtMost x) xs × IsSorted xs

IsAtMost-All :
    (x y : Digest) (ys : List Digest) → IsBelow x y → All (IsAtMost y) ys → All (IsAtMost x) ys
IsAtMost-All x y [] h hs = tt
IsAtMost-All x y (z ∷ zs) h (inl yz, hs) =
    (inl (bytes_ord.cmp_trans x y z h yz), IsAtMost-All x y zs h hs)
IsAtMost-All x y (z ∷ zs) h (inr same, hs) =
    (inl (subst (IsBelow x) same h), IsAtMost-All x y zs h hs)

place-IsSorted : (x : Digest) (ys : List Digest) → IsSorted ys → IsSorted (place x ys)
unfolding place
place-IsSorted x [] s = (tt, tt)
place-IsSorted x (y ∷ ys) s = elim (Ordering-cases (bytes_ord.cmp x y)) [
  | inl e ↦ rw (e, place) ((inl e, IsAtMost-All x y ys e s.0), s)
  | inr (inl e) ↦
      let same = bytes_ord.cmp_eq x y e in
      rw (e, place) ((inr same, subst (λ z. All (IsAtMost z) ys) (sym same) s.0), s)
  | inr (inr e) ↦
      rw (e, place)
        (All-place (IsAtMost y) x ys (inl (bytes_ord.cmp_gt x y e)) s.0, place-IsSorted x ys s.1)
]

sort_unstable-IsSorted : (xs : List Digest) → IsSorted (sort_unstable xs)
unfolding sort_unstable
sort_unstable-IsSorted [] = tt
sort_unstable-IsSorted (x ∷ xs) = place-IsSorted x (sort_unstable xs) (sort_unstable-IsSorted xs)

IsBelow-All :
    (x y : Digest) (ys : List Digest) → IsBelow x y → All (IsBelow y) ys → All (IsBelow x) ys
IsBelow-All x y [] h hs = tt
IsBelow-All x y (z ∷ zs) h hs = (bytes_ord.cmp_trans x y z h hs.0, IsBelow-All x y zs h hs.1)

All-IsBelow :
    (x : Digest) (ys : List Digest)
    → starts_with x ys ≡ false
    → All (IsAtMost x) ys
    → IsAscending ys
    → All (IsBelow x) ys
All-IsBelow x [] other hs s = tt
All-IsBelow x (y ∷ ys) other (inl h, hs) s = (h, IsBelow-All x y ys h s.0)
All-IsBelow x (y ∷ ys) other (inr same, hs) s =
    let equal = subst (λ z. key_eq x z ≡ true) same (key_eq_refl x) in absurd cc

dedup-IsAscending : (xs : List Digest) → IsSorted xs → IsAscending (dedup xs)
unfolding dedup
dedup-IsAscending [] s = tt
dedup-IsAscending (x ∷ xs) s = elim (Bool-cases (starts_with x (dedup xs))) [
  | inl e ↦ rw e (dedup-IsAscending xs s.1)
  | inr e ↦
      let rest = dedup-IsAscending xs s.1 in
      rw e (All-IsBelow x (dedup xs) e (All-dedup (IsAtMost x) xs s.0) rest, rest)
]

All-retain :
    (P : Digest → Type 0) (p : Digest → Bool) (xs : List Digest) → All P xs → All P (retain p xs)
All-retain P p [] hs = tt
All-retain P p (x ∷ xs) hs = elim (Bool-cases (p x)) [
  | inl e ↦ rw e (hs.0, All-retain P p xs hs.1)
  | inr e ↦ rw e (All-retain P p xs hs.1)
]

retain-IsAscending :
    (p : Digest → Bool) (xs : List Digest) → IsAscending xs → IsAscending (retain p xs)
retain-IsAscending p [] s = tt
retain-IsAscending p (x ∷ xs) s = elim (Bool-cases (p x)) [
  | inl e ↦ rw e (All-retain (IsBelow x) p xs s.0, retain-IsAscending p xs s.1)
  | inr e ↦ rw e (retain-IsAscending p xs s.1)
]

-- What is missing from another filter ascends, of what a filter is built from.
pub missing_from-IsAscending :
    (channel : List ℕ) (ds : List Digest) (remote : SyncFilter)
    → IsAscending (missing_from (new channel ds) remote)
unfolding missing_from new
missing_from-IsAscending channel ds remote =
    retain-IsAscending _ (new channel ds).digests
      (dedup-IsAscending (sort_unstable ds) (sort_unstable-IsSorted ds))
