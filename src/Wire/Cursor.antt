-- ===== src/Wire/Cursor.antt =====
-- Reading a buffer from an offset on: what stands there is what `index` and `slice` return.
use cockroach_chat.Prelude.{
  ℕ, zero, suc, ◌+◌, ◌-◌, ◌≤◌, ◌<◌, ◌≡◌, refl, sym, ap, subst, ◌∙◌, List, [], ◌∷◌, ◌++◌, arith,
  length, take, drop, get_or, ok, index, slice, index_in, slice_in, length-append, length-drop,
  length-take, take-length, drop-length, take-append-drop,
}

pub drop_nil {ℓ} : {A : Type ℓ} (n : ℕ) → drop {A = A} n [] ≡ []
drop_nil zero = refl
drop_nil (suc n) = refl

pub drop-drop {ℓ} : {A : Type ℓ} (n m : ℕ) (xs : List A) → drop m (drop n xs) ≡ drop (n + m) xs
drop-drop zero m xs = ap (λ k. drop k xs) {x = m} {y = 0 + m} (omega arith)
drop-drop (suc n) m [] = drop_nil m ∙ sym (drop_nil (suc n + m))
drop-drop (suc n) m (x ∷ xs) =
    drop-drop n m xs ∙ ap (λ k. drop k (x ∷ xs)) {x = suc (n + m)} {y = suc n + m} (omega arith)

drop_cons_get {ℓ} :
    {A : Type ℓ} (n : ℕ) (d : A) (xs : List A)
    → n < length xs
    → drop n xs ≡ get_or xs n d ∷ drop (suc n) xs
drop_cons_get n d [] h = absurd (omega arith)
drop_cons_get zero d (x ∷ xs) h = refl
drop_cons_get (suc n) d (x ∷ xs) h = drop_cons_get n d xs (omega arith)

-- At offset `a` the rest of the buffer is `rest`.
pub record At (bs : List ℕ) (a : ℕ) (rest : List ℕ) : Type 0 where
  pub fits : a ≤ length bs
  pub drops : drop a bs ≡ rest

pub At-start : (bs : List ℕ) → At bs 0 bs
At-start bs = record { fits = omega arith; drops = refl }

pub At-length : {bs : List ℕ} {a : ℕ} {rest : List ℕ} → At bs a rest → length bs ≡ a + length rest
At-length {bs} {a} {rest} h = omega (arith, length-drop a bs, ap (λ l. length l) h.drops, h.fits)

pub At-to : {bs : List ℕ} {a b : ℕ} {rest : List ℕ} → a ≡ b → At bs a rest → At bs b rest
At-to {bs} {a} {b} {rest} e h = subst (λ k. At bs k rest) e h

pub At-skip :
    {bs : List ℕ} {a : ℕ} (mid : List ℕ) {rest : List ℕ}
    → At bs a (mid ++ rest)
    → At bs (a + length mid) rest
At-skip {bs} {a} mid {rest} h = record {
  fits = omega (arith, At-length h, length-append mid rest);
  drops = sym (drop-drop a (length mid) bs) ∙ ap (drop (length mid)) h.drops ∙ drop-length mid rest;
}

pub At-next : {bs : List ℕ} {a x : ℕ} {rest : List ℕ} → At bs a (x ∷ rest) → At bs (a + 1) rest
At-next {bs} {a} {x} {rest} h = At-skip (x ∷ []) h

pub At-index {ℓ} :
    {E : Type ℓ} {bs : List ℕ} {a x : ℕ} {rest : List ℕ}
    → At bs a (x ∷ rest)
    → index {E = E} bs a ≡ ok x
At-index {bs = bs} {a} {x} {rest} h =
    index_in bs a (omega (arith, At-length h))
    ∙ ap (λ l. ok (get_or l 0 0))
        (sym (drop_cons_get a 0 bs (omega (arith, At-length h))) ∙ h.drops)

pub At-slice {ℓ} :
    {E : Type ℓ} {bs : List ℕ} {a : ℕ} (b : ℕ) (mid rest : List ℕ)
    → At bs a (mid ++ rest)
    → b ≡ a + length mid
    → slice {E = E} bs a b ≡ ok mid
At-slice {bs = bs} {a} b mid rest h e =
    slice_in bs a b (omega arith) (omega (arith, At-length h, length-append mid rest))
    ∙ ap ok (
        ap (λ k. take k (drop a bs)) {x = b - a} {y = length mid} (omega arith)
        ∙ ap (take (length mid)) h.drops
        ∙ take-length mid rest)

-- The byte at an offset in range, and a part of the buffer in range.
pub At-byte : (bs : List ℕ) (a : ℕ) → a < length bs → At bs a (get_or bs a 0 ∷ drop (a + 1) bs)
At-byte bs a h = record {
  fits = omega arith;
  drops =
      drop_cons_get a 0 bs h
      ∙ ap (λ k. get_or bs a 0 ∷ drop k bs) {x = suc a} {y = a + 1} (omega arith);
}

pub At-part :
    (bs : List ℕ) (a n : ℕ) → a + n ≤ length bs → At bs a (take n (drop a bs) ++ drop (a + n) bs)
At-part bs a n h = record {
  fits = omega arith;
  drops =
      sym (take-append-drop n (drop a bs)) ∙ ap (λ l. take n (drop a bs) ++ l) (drop-drop a n bs);
}

pub length-part : (bs : List ℕ) (a n : ℕ) → a + n ≤ length bs → length (take n (drop a bs)) ≡ n
length-part bs a n h = omega (arith, length-take n (drop a bs), length-drop a bs)
