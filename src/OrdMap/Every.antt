-- ===== src/OrdMap/Every.antt =====
-- A property of every value of a map, through the operations.
use cockroach_chat.Prelude.{
  ℕ, ◌≡◌, subst, inl, inr, Bool, some, [], ◌∷◌, arith, retain, Bool-cases, some_inj,
}
use cockroach_chat.OrdMap.{Ord, Map, key_eq, get, insert, remove}
use cockroach_chat.OrdMap.Laws.{Ordering-cases}
use cockroach_chat.OrdMap.Oldest.{evict_oldest, oldest, oldest_from, remove_found}

module _ {ℓ κ μ} {K : Type ℓ} ⦃o : Ord K⦄ {V : Type κ} (P : V → Type μ) where
  abbrev pub Every : Map K V → Type μ
  Every [] = Unit
  Every ((k, v) ∷ m) = P v × Every m

  pub Every-get : (k : K) (m : Map K V) {v : V} → Every m → get k m ≡ some v → P v
  unfolding get
  Every-get k [] h e = absurd (ground (arith, e))
  Every-get k ((j, w) ∷ m) h e = elim (Bool-cases (key_eq k j)) [
    | inl same ↦ subst P (some_inj (rw same at e)) h.0
    | inr other ↦ Every-get k m h.1 (rw other at e)
  ]

  pub Every-insert : (k : K) (v : V) (m : Map K V) → P v → Every m → Every (insert k v m)
  unfolding insert
  Every-insert k v [] p h = (p, tt)
  Every-insert k v ((j, w) ∷ m) p h = elim (Ordering-cases (o.cmp k j)) [
    | inl e ↦ rw (e, insert) (p, h)
    | inr (inl e) ↦ rw (e, insert) (p, h.1)
    | inr (inr e) ↦ rw (e, insert) (h.0, Every-insert k v m p h.1)
  ]

  pub Every-remove : (k : K) (m : Map K V) → Every m → Every (remove k m)
  unfolding remove
  Every-remove k [] h = tt
  Every-remove k ((j, w) ∷ m) h = elim (Bool-cases (key_eq k j)) [
    | inl e ↦ rw e (Every-remove k m h.1)
    | inr e ↦ rw e (h.0, Every-remove k m h.1)
  ]

  pub Every-retain : (p : K × V → Bool) (m : Map K V) → Every m → Every (retain p m)
  Every-retain p [] h = tt
  Every-retain p ((j, w) ∷ m) h = elim (Bool-cases (p (j, w))) [
    | inl e ↦ rw e (h.0, Every-retain p m h.1)
    | inr e ↦ rw e (Every-retain p m h.1)
  ]

  pub Every-evict_oldest : (time : V → ℕ) (m : Map K V) → Every m → Every (evict_oldest time m)
  unfolding evict_oldest oldest remove_found
  Every-evict_oldest time [] h = tt
  Every-evict_oldest time (e ∷ m) h = Every-remove (oldest_from time e m).0 (e ∷ m) h
