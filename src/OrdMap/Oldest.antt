-- ===== src/OrdMap/Oldest.antt =====
-- `min_by_key` over a map and the eviction that both caches build on it: the first entry in key order
-- whose time is least is removed.
use cockroach_chat.Prelude.{
  ℕ, ◌≤◌, ◌<◌, ◌≡◌, refl, subst, inl, inr, true, Option, none, some, [], ◌∷◌, if◌then◌else◌, arith,
  length, Bool-cases, ltb, ltb→lt, ltb→le, All, some_inj,
}
use cockroach_chat.OrdMap.{Ord, Map, get, contains_key, remove}
use cockroach_chat.OrdMap.Sorted.{IsSorted, remove-IsSorted}
use cockroach_chat.OrdMap.Laws.{length-remove_lt, length-remove_le, key_eq_refl, get-remove}

module _ {ℓ κ} {K : Type ℓ} ⦃o : Ord K⦄ {V : Type κ} (time : V → ℕ) where
  -- The least entry of `best` and the map; `best` wins a tie.
  pub oldest_from : K × V → Map K V → K × V
  oldest_from best [] = best
  oldest_from best (e ∷ m) = oldest_from (if ltb (time e.1) (time best.1) then e else best) m

  unfoldable pub oldest : Map K V → Option (K × V)
  unfolding oldest_from
  oldest [] = none
  oldest (e ∷ m) = some (oldest_from e m)

  unfoldable pub remove_found : Option (K × V) → Map K V → Map K V
  remove_found none m = m
  remove_found (some e) m = remove e.0 m

  unfoldable pub evict_oldest : Map K V → Map K V
  unfolding remove_found
  evict_oldest m = remove_found (oldest m) m

  contains_head : (e : K × V) (m : Map K V) → contains_key e.0 (e ∷ m) ≡ true
  unfolding contains_key
  contains_head e m = rw (key_eq_refl e.0)

  contains_tail :
      (j : K) (e : K × V) (m : Map K V) → contains_key j m ≡ true → contains_key j (e ∷ m) ≡ true
  unfolding contains_key
  contains_tail j e m c = ground (arith, c)

  oldest_from-contains :
      (best : K × V) (m m' : Map K V)
      → contains_key best.0 m' ≡ true
      → ((k : K) → contains_key k m ≡ true → contains_key k m' ≡ true)
      → contains_key (oldest_from best m).0 m' ≡ true
  unfolding oldest_from
  oldest_from-contains best [] m' h sub = h
  oldest_from-contains best (e ∷ m) m' h sub = elim (Bool-cases (ltb (time e.1) (time best.1))) [
    | inl lt ↦
        rw (lt, oldest_from) (oldest_from-contains e m m' (sub e.0 (contains_head e m)) later)
    | inr ge ↦ rw (ge, oldest_from) (oldest_from-contains best m m' h later)
  ]
    where
      later : (j : K) → contains_key j m ≡ true → contains_key j m' ≡ true
      later j c = sub j (contains_tail j e m c)

  -- What is found is an entry of the map.
  pub oldest-contains : (m : Map K V) (e : K × V) → oldest m ≡ some e → contains_key e.0 m ≡ true
  unfolding oldest
  oldest-contains [] e h = cc
  oldest-contains (x ∷ m) e h =
      subst (λ y. contains_key y.0 (x ∷ m) ≡ true) (some_inj h)
        (oldest_from-contains x m (x ∷ m) (contains_head x m) (λ j c. contains_tail j x m c))

  earlier :
      (best e : K × V)
      → let next = if ltb (time e.1) (time best.1) then e else best in
        (time next.1 ≤ time best.1) × (time next.1 ≤ time e.1)
  earlier best e = elim (Bool-cases (ltb (time e.1) (time best.1))) [
    | inl lt ↦ rw lt (omega (arith, ltb→lt (time e.1) (time best.1) lt))
    | inr ge ↦ rw ge (omega (arith, ltb→le (time e.1) (time best.1) ge))
  ]

  oldest_from-least :
      (best : K × V) (m : Map K V)
      → (time (oldest_from best m).1 ≤ time best.1)
        × All (λ e. time (oldest_from best m).1 ≤ time e.1) m
  unfolding oldest_from
  oldest_from-least best [] = (omega arith, tt)
  oldest_from-least best (e ∷ m) =
      let next : K × V = if ltb (time e.1) (time best.1) then e else best in
      let (le_next, rest) = oldest_from-least next m in
      let (le_best, le_entry) = earlier best e in
      (omega (arith, le_next, le_best), (omega (arith, le_next, le_entry), rest))

  -- No entry of the map is older.
  pub oldest-least :
      (m : Map K V) (e : K × V) → oldest m ≡ some e → All (λ x. time e.1 ≤ time x.1) m
  unfolding oldest
  oldest-least [] e h = tt
  oldest-least (x ∷ m) e h =
      subst (λ y. All (λ z. time y.1 ≤ time z.1) (x ∷ m)) (some_inj h) (oldest_from-least x m)

  pub length-evict_oldest_lt : (m : Map K V) → 0 < length m → length (evict_oldest m) < length m
  unfolding evict_oldest oldest remove
  length-evict_oldest_lt [] h = absurd (omega arith)
  length-evict_oldest_lt (e ∷ m) h =
      length-remove_lt (oldest_from e m).0 (e ∷ m) (oldest-contains (e ∷ m) (oldest_from e m) refl)

  -- What is left was there before.
  pub get-evict_oldest :
      (j : K) (m : Map K V) (v : V) → get j (evict_oldest m) ≡ some v → get j m ≡ some v
  unfolding evict_oldest oldest remove_found
  get-evict_oldest j [] v h = h
  get-evict_oldest j (e ∷ m) v h = ground (arith, h, get-remove (oldest_from e m).0 j (e ∷ m))

  pub length-evict_oldest_le : (m : Map K V) → length (evict_oldest m) ≤ length m
  unfolding evict_oldest oldest remove_found
  length-evict_oldest_le [] = omega arith
  length-evict_oldest_le (e ∷ m) = length-remove_le (oldest_from e m).0 (e ∷ m)

  pub evict_oldest-IsSorted : (m : Map K V) → IsSorted m → IsSorted (evict_oldest m)
  unfolding evict_oldest oldest remove_found
  evict_oldest-IsSorted [] s = s
  evict_oldest-IsSorted (e ∷ m) s = remove-IsSorted (oldest_from e m).0 (e ∷ m) s
