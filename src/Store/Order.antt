-- ===== src/Store/Order.antt =====
-- The sorting and the cutting of histories: the order of time, and the newest entries.
use cockroach_chat.Prelude.{
  ℕ, zero, suc, ◌-◌, ◌≤◌, ◌<◌, ◌≡◌, refl, sym, ap, ◌∙◌, inl, inr, Bool, List, [], ◌∷◌, arith,
  length, ltb, leb, ltb→lt, ltb→le, leb→le, leb→lt, Bool-cases, drop, All, map, retain, length-map,
}
use cockroach_chat.Store.{place, sort_by_key, drop_front, newest}

-- From the oldest to the newest.
abbrev pub IsAscending {ℓ} : {A : Type ℓ} → (A → ℕ) → List A → Type 0
IsAscending key [] = Unit
IsAscending key (x ∷ xs) = All (λ y. key x ≤ key y) xs × IsAscending key xs

All-weaken :
    {A : Type 0} (key : A → ℕ) (m n : ℕ) (xs : List A)
    → m ≤ n
    → All (λ y. n ≤ key y) xs
    → All (λ y. m ≤ key y) xs
All-weaken key m n [] h a = tt
All-weaken key m n (x ∷ xs) h a = (omega (arith, a.0), All-weaken key m n xs h a.1)

module _ {A : Type 0} (key : A → ℕ) where
  place-All :
      (n : ℕ) (x : A) (ys : List A)
      → n ≤ key x
      → All (λ y. n ≤ key y) ys
      → All (λ y. n ≤ key y) (place key x ys)
  unfolding place
  place-All n x [] h a = (h, tt)
  place-All n x (y ∷ ys) h a = elim (Bool-cases (leb (key x) (key y))) [
    | inl e ↦ rw e (h, a)
    | inr e ↦ rw e (a.0, place-All n x ys h a.1)
  ]

  place-IsAscending : (x : A) (ys : List A) → IsAscending key ys → IsAscending key (place key x ys)
  unfolding place
  place-IsAscending x [] s = (tt, tt)
  place-IsAscending x (y ∷ ys) s = elim (Bool-cases (leb (key x) (key y))) [
    | inl e ↦
        let le : key x ≤ key y = leb→le (key x) (key y) e in
        rw e ((le, All-weaken key (key x) (key y) ys le s.0), s)
    | inr e ↦
        let lt : key y < key x = leb→lt (key x) (key y) e in
        rw e (place-All (key y) x ys (omega arith) s.0, place-IsAscending x ys s.1)
  ]

  pub sort_by_key-IsAscending : (xs : List A) → IsAscending key (sort_by_key key xs)
  unfolding sort_by_key
  sort_by_key-IsAscending [] = tt
  sort_by_key-IsAscending (x ∷ xs) = place-IsAscending x _ (sort_by_key-IsAscending xs)

  -- An entry that is older than all others goes to the front.
  place_front : (x : A) (ys : List A) → All (λ y. key x ≤ key y) ys → place key x ys ≡ x ∷ ys
  unfolding place
  place_front x [] a = refl
  place_front x (y ∷ ys) a = ground (arith, a.0)

  -- Sorting what is in order changes nothing.
  pub sort_by_key_ascending : (xs : List A) → IsAscending key xs → sort_by_key key xs ≡ xs
  unfolding sort_by_key
  sort_by_key_ascending [] s = refl
  sort_by_key_ascending (x ∷ xs) s =
      ap (place key x) (sort_by_key_ascending xs s.1) ∙ place_front x xs s.0

  pub drop_front-IsAscending :
      (n : ℕ) (xs : List A) → IsAscending key xs → IsAscending key (drop_front n xs)
  unfolding drop_front
  drop_front-IsAscending n [] s = tt
  drop_front-IsAscending n (x ∷ xs) s = elim (Bool-cases (ltb n (length (x ∷ xs)))) [
    | inl e ↦ rw e (drop_front-IsAscending n xs s.1)
    | inr e ↦ rw e s
  ]

  retain-All :
      (p : A → Bool) (n : ℕ) (xs : List A)
      → All (λ y. n ≤ key y) xs
      → All (λ y. n ≤ key y) (retain p xs)
  retain-All p n [] a = tt
  retain-All p n (x ∷ xs) a = elim (Bool-cases (p x)) [
    | inl e ↦ rw e (a.0, retain-All p n xs a.1)
    | inr e ↦ rw e (retain-All p n xs a.1)
  ]

  pub retain-IsAscending :
      (p : A → Bool) (xs : List A) → IsAscending key xs → IsAscending key (retain p xs)
  retain-IsAscending p [] s = tt
  retain-IsAscending p (x ∷ xs) s = elim (Bool-cases (p x)) [
    | inl e ↦ rw e (retain-All p (key x) xs s.0, retain-IsAscending p xs s.1)
    | inr e ↦ rw e (retain-IsAscending p xs s.1)
  ]

pub length-drop_front : {A : Type 0} (n : ℕ) (xs : List A) → length (drop_front n xs) ≤ n
unfolding drop_front
length-drop_front n [] = omega arith
length-drop_front n (x ∷ xs) = ground (arith, length-drop_front n xs)

newest-drop : {A : Type 0} (n : ℕ) (xs : List A) → newest n xs ≡ drop (length xs - n) xs
unfolding newest
newest-drop n xs = elim (Bool-cases (ltb n (length xs))) [
  | inl e ↦ rw e refl
  | inr e ↦
      let zero_left : length xs - n ≡ 0 = omega (arith, ltb→le n (length xs) e) in
      rw (e, zero_left) refl
]

newest_nil : {A : Type 0} (n : ℕ) → newest {A = A} n [] ≡ []
unfolding newest
newest_nil n = ground arith

-- Removing from the front while there are too many leaves the newest.
pub drop_front-newest : {A : Type 0} (n : ℕ) (xs : List A) → drop_front n xs ≡ newest n xs
unfolding drop_front
drop_front-newest n [] = sym (newest_nil n)
drop_front-newest n (x ∷ xs) = elim (Bool-cases (ltb n (length (x ∷ xs)))) [
  | inl e ↦
      let one_more : length (x ∷ xs) - n ≡ suc (length xs - n) =
        omega (arith, ltb→lt n (length (x ∷ xs)) e) in
      rw e (
        drop_front-newest n xs
        ∙ newest-drop n xs
        ∙ sym (newest-drop n (x ∷ xs) ∙ ap (λ k. drop k (x ∷ xs)) one_more))
  | inr e ↦
      let zero_left : length (x ∷ xs) - n ≡ 0 = omega (arith, ltb→le n (length (x ∷ xs)) e) in
      rw e (sym (newest-drop n (x ∷ xs) ∙ ap (λ k. drop k (x ∷ xs)) zero_left))
]

map-drop : {A B : Type 0} (f : A → B) (n : ℕ) (xs : List A) → map f (drop n xs) ≡ drop n (map f xs)
map-drop f zero xs = refl
map-drop f (suc n) [] = refl
map-drop f (suc n) (x ∷ xs) = map-drop f n xs

pub map-newest :
    {A B : Type 0} (f : A → B) (n : ℕ) (xs : List A) → map f (newest n xs) ≡ newest n (map f xs)
map-newest f n xs =
    ap (map f) (newest-drop n xs)
    ∙ map-drop f (length xs - n) xs
    ∙ ap (λ k. drop (k - n) (map f xs)) (sym (length-map f xs))
    ∙ sym (newest-drop n (map f xs))
