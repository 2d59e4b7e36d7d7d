-- ===== src/Channels/Sync.antt =====
-- A filter is the set of its digests, and sending what is missing makes two nodes hold the same.
use cockroach_chat.Prelude.{
  ℕ, ◌≡◌, refl, ◌∙◌, subst, inl, inr, Bool, true, not, ◌&&◌, ◌||◌, List, [], ◌∷◌, ◌++◌, arith,
  Bool-cases, retain, All,
}
use mathlib.Core.List.{Memᴰ}
use mathlib.Core.List.Memᴰ
use cockroach_chat.OrdMap.{key_eq}
use cockroach_chat.OrdMap.Keys.{bytes_ord}
use cockroach_chat.OrdMap.Laws.{Ordering-cases, key_eq→eq, key_eq_refl}
use cockroach_chat.Channels.{
  Digest, SyncFilter, place, sort_unstable, starts_with, dedup, new, contains, missing_from,
}

contains-append :
    (d : Digest) (xs ys : List Digest) → contains d (xs ++ ys) ≡ contains d xs || contains d ys
unfolding contains
contains-append d [] ys = refl
contains-append d (x ∷ xs) ys = ground (arith, contains-append d xs ys)

contains-place : (d x : Digest) (ys : List Digest) → contains d (place x ys) ≡ contains d (x ∷ ys)
unfolding contains place
contains-place d x [] = refl
contains-place d x (y ∷ ys) = elim (Ordering-cases (bytes_ord.cmp x y)) [
  | inl e ↦ rw (e, place) refl
  | inr (inl e) ↦ rw (e, place) refl
  | inr (inr e) ↦ rw (e, place) (ground (arith, contains-place d x ys))
]

contains-sort_unstable :
    (d : Digest) (xs : List Digest) → contains d (sort_unstable xs) ≡ contains d xs
unfolding contains sort_unstable
contains-sort_unstable d [] = refl
contains-sort_unstable d (x ∷ xs) =
    contains-place d x (sort_unstable xs) ∙ ground (arith, contains-sort_unstable d xs)

starts_with-contains :
    (d x : Digest) (ys : List Digest)
    → starts_with x ys ≡ true
    → key_eq d x ≡ true
    → contains d ys ≡ true
unfolding contains
starts_with-contains d x [] s h = cc
starts_with-contains d x (y ∷ ys) s h =
    ground (arith, s, h, key_eq→eq x y, key_eq→eq d x, key_eq_refl y)

contains-dedup : (d : Digest) (xs : List Digest) → contains d (dedup xs) ≡ contains d xs
unfolding contains dedup
contains-dedup d [] = refl
contains-dedup d (x ∷ xs) = elim (Bool-cases (starts_with x (dedup xs))) [
  | inl s ↦ rw s (ground (arith, contains-dedup d xs, starts_with-contains d x (dedup xs) s))
  | inr s ↦ rw s (ground (arith, contains-dedup d xs))
]

contains-retain :
    (d : Digest) (p : Digest → Bool) (xs : List Digest)
    → contains d (retain p xs) ≡ contains d xs && p d
unfolding contains
contains-retain d p [] = refl
contains-retain d p (x ∷ xs) = ground (arith, contains-retain d p xs, key_eq→eq d x)

pub All-place :
    (P : Digest → Type 0) (x : Digest) (ys : List Digest) → P x → All P ys → All P (place x ys)
unfolding place
All-place P x [] h hs = (h, tt)
All-place P x (y ∷ ys) h hs = elim (Ordering-cases (bytes_ord.cmp x y)) [
  | inl e ↦ rw (e, place) (h, hs)
  | inr (inl e) ↦ rw (e, place) (h, hs)
  | inr (inr e) ↦ rw (e, place) (hs.0, All-place P x ys h hs.1)
]

All-sort_unstable : (P : Digest → Type 0) (xs : List Digest) → All P xs → All P (sort_unstable xs)
unfolding sort_unstable
All-sort_unstable P [] hs = tt
All-sort_unstable P (x ∷ xs) hs =
    All-place P x (sort_unstable xs) hs.0 (All-sort_unstable P xs hs.1)

pub All-dedup : (P : Digest → Type 0) (xs : List Digest) → All P xs → All P (dedup xs)
unfolding dedup
All-dedup P [] hs = tt
All-dedup P (x ∷ xs) hs = elim (Bool-cases (starts_with x (dedup xs))) [
  | inl s ↦ rw s (All-dedup P xs hs.1)
  | inr s ↦ rw s (hs.0, All-dedup P xs hs.1)
]

-- What holds for all digests that a filter is built from holds for those in it.
pub All-new :
    (P : Digest → Type 0) (channel : List ℕ) (ds : List Digest)
    → All P ds
    → All P (new channel ds).digests
unfolding new
All-new P channel ds hs = All-dedup P (sort_unstable ds) (All-sort_unstable P ds hs)

-- A filter holds exactly the digests that it is built from.
pub contains-new :
    (channel : List ℕ) (ds : List Digest) (d : Digest)
    → contains d (new channel ds).digests ≡ contains d ds
unfolding new
contains-new channel ds d = contains-dedup d (sort_unstable ds) ∙ contains-sort_unstable d ds

-- What is missing from the remote filter is exactly what this one holds and the remote one does not,
-- and a remote node that adds it to what it holds then has every digest that either held, and no
-- other.
pub missing_from_lem :
    (mine remote : SyncFilter) (d : Digest)
    → (contains d (missing_from mine remote)
        ≡ contains d mine.digests && not (contains d remote.digests))
      × (contains d (new remote.channel (remote.digests ++ missing_from mine remote)).digests
          ≡ contains d mine.digests || contains d remote.digests)
unfolding missing_from
missing_from_lem mine remote d =
    let missing = contains-retain d (λ x. not (contains x remote.digests)) mine.digests in
    (
      missing,
      contains-new remote.channel (remote.digests ++ missing_from mine remote) d
          ∙ contains-append d remote.digests (missing_from mine remote)
          ∙ ground (arith, missing),
    )

pub contains_of_Memᴰ : (d : Digest) (ds : List Digest) → Memᴰ d ds → contains d ds ≡ true
unfolding contains
contains_of_Memᴰ d [] h = absurd (Memᴰ.not-nil h)
contains_of_Memᴰ d (x ∷ xs) (Memᴰ.head e) =
    rw (subst (λ y. key_eq d y ≡ true) e (key_eq_refl d)) refl
contains_of_Memᴰ d (x ∷ xs) (Memᴰ.tail h) = ground (arith, contains_of_Memᴰ d xs h)

pub Memᴰ_of_contains : (d : Digest) (ds : List Digest) → contains d ds ≡ true → Memᴰ d ds
unfolding contains
Memᴰ_of_contains d [] h = absurd cc
Memᴰ_of_contains d (x ∷ xs) h = elim (Bool-cases (key_eq d x)) [
  | inl e ↦ Memᴰ.head (key_eq→eq d x e)
  | inr e ↦ Memᴰ.tail (Memᴰ_of_contains d xs (rw e at h))
]
