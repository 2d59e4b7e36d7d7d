-- ===== src/OrdMap/Sorted.antt =====
-- The keys of a map stand in ascending order, and every operation keeps them so.
use Prim.Native.Nat.{Ordering}
use cockroach_chat.Prelude.{
  ◌≡◌, refl, ap, Option, none, some, inl, inr, Bool, [], ◌∷◌, arith, suc, length, ◌∙◌, retain,
  if◌then◌else◌, Bool-cases, true, sym, subst,
}
use cockroach_chat.OrdMap.{Ord, Map, key_eq, get, insert, remove, update}
use cockroach_chat.OrdMap.Laws.{Ordering-cases, key_eq→eq}

module _ {ℓ κ} {K : Type ℓ} ⦃o : Ord K⦄ {V : Type κ} where
  -- Every key of the map lies above `k`.
  abbrev pub Above : K → Map K V → Type 0
  Above k [] = Unit
  Above k ((j, w) ∷ m) = (o.cmp k j ≡ Ordering.lt) × Above k m

  abbrev pub IsSorted : Map K V → Type 0
  IsSorted [] = Unit
  IsSorted ((k, v) ∷ m) = Above k m × IsSorted m

  pub Above-trans : (k j : K) (m : Map K V) → o.cmp k j ≡ Ordering.lt → Above j m → Above k m
  Above-trans k j [] h a = tt
  Above-trans k j ((i, w) ∷ m) h a = (o.cmp_trans k j i h a.0, Above-trans k j m h a.1)

  Above-insert :
      (k j : K) (v : V) (m : Map K V) → o.cmp k j ≡ Ordering.lt → Above k m → Above k (insert j v m)
  unfolding insert
  Above-insert k j v [] h a = (h, tt)
  Above-insert k j v ((i, w) ∷ m) h a = elim (Ordering-cases (o.cmp j i)) [
    | inl e ↦ rw (e, insert) (h, a)
    | inr (inl e) ↦ rw (e, insert) (h, a.1)
    | inr (inr e) ↦ rw (e, insert) (a.0, Above-insert k j v m h a.1)
  ]

  pub insert-IsSorted : (k : K) (v : V) (m : Map K V) → IsSorted m → IsSorted (insert k v m)
  unfolding insert
  insert-IsSorted k v [] s = (tt, tt)
  insert-IsSorted k v ((j, w) ∷ m) s = elim (Ordering-cases (o.cmp k j)) [
    | inl e ↦ rw (e, insert) ((e, Above-trans k j m e s.0), s)
    | inr (inl e) ↦ rw (e, insert) (rw (o.cmp_eq k j e) s.0, s.1)
    | inr (inr e) ↦
        rw (e, insert) (Above-insert j k v m (o.cmp_gt k j e) s.0, insert-IsSorted k v m s.1)
  ]

  Above-remove : (k j : K) (m : Map K V) → Above k m → Above k (remove j m)
  unfolding remove
  Above-remove k j [] a = tt
  Above-remove k j ((i, w) ∷ m) a = elim (Bool-cases (key_eq j i)) [
    | inl e ↦ rw e (Above-remove k j m a.1)
    | inr e ↦ rw e (a.0, Above-remove k j m a.1)
  ]

  pub remove-IsSorted : (k : K) (m : Map K V) → IsSorted m → IsSorted (remove k m)
  unfolding remove
  remove-IsSorted k [] s = tt
  remove-IsSorted k ((j, w) ∷ m) s = elim (Bool-cases (key_eq k j)) [
    | inl e ↦ rw e (remove-IsSorted k m s.1)
    | inr e ↦ rw e (Above-remove j k m s.0, remove-IsSorted k m s.1)
  ]

  Above-update : (k j : K) (f : V → V) (m : Map K V) → Above k m → Above k (update j f m)
  unfolding update
  Above-update k j f [] a = tt
  Above-update k j f ((i, w) ∷ m) a = elim (Bool-cases (key_eq j i)) [
    | inl e ↦ rw e a
    | inr e ↦ rw e (a.0, Above-update k j f m a.1)
  ]

  pub update-IsSorted : (k : K) (f : V → V) (m : Map K V) → IsSorted m → IsSorted (update k f m)
  unfolding update
  update-IsSorted k f [] s = tt
  update-IsSorted k f ((j, w) ∷ m) s = elim (Bool-cases (key_eq k j)) [
    | inl e ↦ rw e s
    | inr e ↦ rw e (Above-update j k f m s.0, update-IsSorted k f m s.1)
  ]

  pub Above-retain : (k : K) (p : K × V → Bool) (m : Map K V) → Above k m → Above k (retain p m)
  Above-retain k p [] a = tt
  Above-retain k p ((i, w) ∷ m) a = elim (Bool-cases (p (i, w))) [
    | inl e ↦ rw e (a.0, Above-retain k p m a.1)
    | inr e ↦ rw e (Above-retain k p m a.1)
  ]

  pub retain-IsSorted : (p : K × V → Bool) (m : Map K V) → IsSorted m → IsSorted (retain p m)
  retain-IsSorted p [] s = tt
  retain-IsSorted p ((k, v) ∷ m) s = elim (Bool-cases (p (k, v))) [
    | inl e ↦ rw e (Above-retain k p m s.0, retain-IsSorted p m s.1)
    | inr e ↦ rw e (retain-IsSorted p m s.1)
  ]

  -- A key below the whole map is not in it.
  pub get-Above : (k : K) (m : Map K V) → Above k m → get k m ≡ none
  unfolding get
  get-Above k [] a = refl
  get-Above k ((j, w) ∷ m) a = rw (a.0) (get-Above k m a.1)

  pub remove-Above : (k : K) (m : Map K V) → Above k m → remove k m ≡ m
  unfolding remove
  remove-Above k [] a = refl
  remove-Above k ((j, w) ∷ m) a = rw (a.0) (ap (λ l. (j, w) ∷ l) (remove-Above k m a.1))

  -- Keeping the entries that pass a test.
  abbrev pub passing : (K × V → Bool) → K → Option V → Option V
  passing p k none = none
  passing p k (some v) = if p (k, v) then some v else none

  pub get-retain :
      (p : K × V → Bool) (k : K) (m : Map K V)
      → IsSorted m
      → get k (retain p m) ≡ passing p k (get k m)
  unfolding get
  get-retain p k [] s = refl
  get-retain p k ((j, w) ∷ m) s = elim (Bool-cases (key_eq k j)) [
    | inl e ↦ ground (arith, e, key_eq→eq k j e, get-retain p k m s.1, absent e)
    | inr e ↦ ground (arith, e, get-retain p k m s.1)
  ]
    where
      absent : key_eq k j ≡ true → get k m ≡ none
      absent e = get-Above k m (subst (λ x. Above x m) (sym (key_eq→eq k j e)) s.0)

  -- A known key adds no entry.
  pub length-insert_known :
      (k : K) (v : V) (m : Map K V) {w : V}
      → IsSorted m
      → get k m ≡ some w
      → length (insert k v m) ≡ length m
  unfolding insert get
  length-insert_known k v [] s e = absurd (ground (arith, e))
  length-insert_known k v ((j, x) ∷ m) {w} s e = elim (Ordering-cases (o.cmp k j)) [
    | inl c ↦
        let none_there : get k ((j, x) ∷ m) ≡ none =
          get-Above k ((j, x) ∷ m) (c, Above-trans k j m c s.0) in
        absurd (ground (arith, sym none_there ∙ e))
    | inr (inl c) ↦ rw (c, insert)
    | inr (inr c) ↦ rw (c, insert) (ap suc (length-insert_known k v m s.1 (rw c at e)))
  ]
