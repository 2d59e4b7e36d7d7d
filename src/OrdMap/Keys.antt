-- ===== src/OrdMap/Keys.antt =====
-- The keys of the program's maps: `u64` handles, and byte arrays and strings in lexicographic order.
use Prim.Native.Nat.{compare, Ordering}
use cockroach_chat.Prelude.{ℕ, ◌≡◌, refl, List, [], ◌∷◌, arith}
use cockroach_chat.OrdMap.{Ord}

pub compare_eq : (a b : ℕ) → compare a b ≡ Ordering.eq → a ≡ b
compare_eq a b h = ground arith

pub compare_refl : (a : ℕ) → compare a a ≡ Ordering.eq
compare_refl a = ground arith

pub compare_gt : (a b : ℕ) → compare a b ≡ Ordering.gt → compare b a ≡ Ordering.lt
compare_gt a b h = ground arith

pub compare_trans :
    (a b c : ℕ) → compare a b ≡ Ordering.lt → compare b c ≡ Ordering.lt → compare a c ≡ Ordering.lt
compare_trans a b c h k = ground arith

instance abbrev pub nat_ord : Ord ℕ
nat_ord = record {
  cmp = compare;
  cmp_eq = compare_eq;
  cmp_refl = compare_refl;
  cmp_gt = compare_gt;
  cmp_trans = compare_trans;
}

abbrev or_else : Ordering → Ordering → Ordering
or_else Ordering.lt d = Ordering.lt
or_else Ordering.eq d = d
or_else Ordering.gt d = Ordering.gt

-- `[u8; N]` and `String` compare byte by byte; a prefix comes first.
abbrev pub compare_bytes : List ℕ → List ℕ → Ordering
compare_bytes [] [] = Ordering.eq
compare_bytes [] (y ∷ ys) = Ordering.lt
compare_bytes (x ∷ xs) [] = Ordering.gt
compare_bytes (x ∷ xs) (y ∷ ys) = or_else (compare x y) (compare_bytes xs ys)

pub compare_bytes_eq : (a b : List ℕ) → compare_bytes a b ≡ Ordering.eq → a ≡ b
compare_bytes_eq [] [] h = refl
compare_bytes_eq [] (y ∷ ys) h = cc
compare_bytes_eq (x ∷ xs) [] h = cc
compare_bytes_eq (x ∷ xs) (y ∷ ys) h = ground (arith, compare_eq x y, compare_bytes_eq xs ys)

pub compare_bytes_refl : (a : List ℕ) → compare_bytes a a ≡ Ordering.eq
compare_bytes_refl [] = refl
compare_bytes_refl (x ∷ xs) = rw (compare_refl x) (compare_bytes_refl xs)

pub compare_bytes_gt :
    (a b : List ℕ) → compare_bytes a b ≡ Ordering.gt → compare_bytes b a ≡ Ordering.lt
compare_bytes_gt [] [] h = cc
compare_bytes_gt [] (y ∷ ys) h = cc
compare_bytes_gt (x ∷ xs) [] h = refl
compare_bytes_gt (x ∷ xs) (y ∷ ys) h = ground (arith, compare_bytes_gt xs ys)

pub compare_bytes_trans :
    (a b c : List ℕ)
    → compare_bytes a b ≡ Ordering.lt
    → compare_bytes b c ≡ Ordering.lt
    → compare_bytes a c ≡ Ordering.lt
compare_bytes_trans [] [] c h k = cc
compare_bytes_trans [] (y ∷ ys) [] h k = cc
compare_bytes_trans [] (y ∷ ys) (z ∷ zs) h k = refl
compare_bytes_trans (x ∷ xs) [] c h k = cc
compare_bytes_trans (x ∷ xs) (y ∷ ys) [] h k = cc
compare_bytes_trans (x ∷ xs) (y ∷ ys) (z ∷ zs) h k = ground (arith, compare_bytes_trans xs ys zs)

instance abbrev pub bytes_ord : Ord (List ℕ)
bytes_ord = record {
  cmp = compare_bytes;
  cmp_eq = compare_bytes_eq;
  cmp_refl = compare_bytes_refl;
  cmp_gt = compare_bytes_gt;
  cmp_trans = compare_bytes_trans;
}
