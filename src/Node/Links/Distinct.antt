-- ===== src/Node/Links/Distinct.antt =====
-- One link is kept for a peer, the first.
use cockroach_chat.Prelude.{
  ℕ, ◌≡◌, ◌≢◌, refl, ap, sym, ◌∙◌, subst, Bool, true, false, not, Option, none, some, List, [], ◌∷◌,
  inl, inr, arith, if◌then◌else◌, Option-cases, retain, some_inj,
}
use cockroach_chat.Platform.{World}
use cockroach_chat.OrdMap.{Map, key_eq, get, remove}
use cockroach_chat.OrdMap.Keys.{nat_ord, bytes_ord}
use cockroach_chat.OrdMap.Laws.{key_eq→eq, key_eq_ne, key_eq_refl}
use cockroach_chat.OrdMap.Sorted.{IsSorted, update-IsSorted}
use cockroach_chat.Wire.{EphId}
use cockroach_chat.Store.{Fingerprint}
use cockroach_chat.Relay.Scheduler.{LinkId}
use cockroach_chat.Node.Fanout.{LinkState}
use cockroach_chat.Node.State.{MeshNode}
use cockroach_chat.Node.Session.{eph_to_fp}
use cockroach_chat.Node.Links.{
  group, skip_one, redundant_links, remove_all, resolve_one, resolve_all, pending_links,
  close_redundant, dedup_links,
}
use cockroach_chat.Node.Links.Group.{
  IsIn, is_peer, with_peer, ids, ids-group, IsIn-redundant_links, redundant_links-IsIn,
  group-IsSorted, other_than, with_peer-remove, with_peer-get, with_peer-first,
}

-- The first of a list, alone.
abbrev pub first : List ℕ → List ℕ
first [] = []
first (x ∷ xs) = x ∷ []

-- A list without some elements.
minus : List ℕ → List ℕ → List ℕ
minus [] xs = xs
minus (d ∷ ds) xs = minus ds (retain (other_than d) xs)

with_peer-remove_all :
    (fp : Fingerprint) (ds : List LinkId) (links : Map LinkId LinkState)
    → with_peer fp (remove_all ds links) ≡ minus ds (with_peer fp links)
unfolding remove_all minus
with_peer-remove_all fp [] links = refl
with_peer-remove_all fp (d ∷ ds) links =
    with_peer-remove_all fp ds (remove d links) ∙ ap (minus ds) (with_peer-remove fp d links)

IsIn-retain : (i d : ℕ) (xs : List ℕ) → IsIn i (retain (other_than d) xs) → IsIn i xs × (i ≢ d)
IsIn-retain i d [] h = absurd h
IsIn-retain i d (x ∷ xs) h = at (key_eq d x) refl (IsIn-retain i d xs) h
  where
    at :
        (b : Bool)
        → key_eq d x ≡ b
        → (IsIn i (retain (other_than d) xs) → IsIn i xs × (i ≢ d))
        → IsIn i (if not b then x ∷ retain (other_than d) xs else retain (other_than d) xs)
        → IsIn i (x ∷ xs) × (i ≢ d)
    at true e ih h = let (there, ne) = ih h in (inr there, ne)
    at false e ih (inl q) = (inl q, λ r. ground (arith, e, q, r, key_eq_refl d))
    at false e ih (inr later) = let (there, ne) = ih later in (inr there, ne)

minus-first :
    (ds : List ℕ) (h : ℕ) (t : List ℕ)
    → (IsIn h ds → ⊥)
    → ((i : ℕ) → IsIn i t → IsIn i ds)
    → minus ds (h ∷ t) ≡ h ∷ []
unfolding minus
minus-first [] h [] out inside = refl
minus-first [] h (x ∷ t) out inside = absurd (inside x (inl refl))
minus-first (d ∷ ds) h t out inside =
    ap (minus ds) kept ∙ minus-first ds h (retain (other_than d) t) (λ e. out (inr e)) within
  where
    kept : retain (other_than d) (h ∷ t) ≡ h ∷ retain (other_than d) t
    kept = rw (key_eq_ne d h (λ e. out (inl (sym e)))) refl

    within : (i : ℕ) → IsIn i (retain (other_than d) t) → IsIn i ds
    within i e =
        let (there, ne) = IsIn-retain i d t e in
        elim (inside i there) [ inl same ↦ absurd (ne same) | inr later ↦ later ]

minus-nil : (ds : List ℕ) → minus ds [] ≡ []
unfolding minus
minus-nil [] = refl
minus-nil (d ∷ ds) = minus-nil ds

same_peer :
    (p q : Fingerprint) (o : Option Fingerprint) → is_peer p o ≡ true → is_peer q o ≡ true → p ≡ q
same_peer p q none hp hq = cc
same_peer p q (some r) hp hq = key_eq→eq p r hp ∙ sym (key_eq→eq q r hq)

IsIn-skip_one : (i : ℕ) (xs : List ℕ) → IsIn i (skip_one xs) → IsIn i xs
IsIn-skip_one i [] h = h
IsIn-skip_one i (x ∷ xs) h = inr h

-- The first link of a peer is not redundant, and the others are.
redundant_lem :
    (fp : Fingerprint) (links : Map LinkId LinkState)
    → IsSorted links
    → minus (redundant_links (group [] links)) (with_peer fp links) ≡ first (with_peer fp links)
unfolding get
redundant_lem fp links s = by (with_peer fp links) refl
  where
    ds : List LinkId
    ds = redundant_links (group [] links)

    grouped : (q : Fingerprint) → ids q (group [] links) ≡ with_peer q links
    grouped q = ids-group q [] links

    -- Two peers do not share a link.
    one_peer :
        (i : LinkId) (p q : Fingerprint)
        → IsIn i (with_peer p links)
        → IsIn i (with_peer q links)
        → p ≡ q
    one_peer i p q hp hq =
        let (l, found, is) = with_peer-get i p links s hp in
        let (l', found', is') = with_peer-get i q links s hq in
        same_peer p q l.peer_fp is
          (subst (λ k. is_peer q k.peer_fp ≡ true) (some_inj (sym found' ∙ found)) is')

    kept : (h : LinkId) (t : List LinkId) → with_peer fp links ≡ h ∷ t → IsIn h ds → ⊥
    kept h t e r =
        let (q, tail) = redundant_links-IsIn h (group [] links) (group-IsSorted [] links tt) r in
        let tail' = subst (λ xs. IsIn h (skip_one xs)) (grouped q) tail in
        let mine : IsIn h (with_peer fp links) = subst (λ xs. IsIn h xs) (sym e) (inl refl) in
        let same : q ≡ fp = one_peer h q fp (IsIn-skip_one h (with_peer q links) tail') mine in
        let again : IsIn h t =
          subst (λ xs. IsIn h (skip_one xs)) (ap (λ k. with_peer k links) same ∙ e) tail' in
        omega (arith, with_peer-first h h t fp links s e again)

    by : (xs : List ℕ) → with_peer fp links ≡ xs → minus ds xs ≡ first xs
    by [] e = minus-nil ds
    by (h ∷ t) e = minus-first ds h t (kept h t e) (λ i hi.
        IsIn-redundant_links i fp (group [] links)
          (subst (λ xs. IsIn i (skip_one xs)) (sym (grouped fp ∙ e)) hi))

module _ ⦃w : World⦄ where
  links-resolve_one-IsSorted :
      (id : LinkId) (eph : EphId) (n : MeshNode)
      → IsSorted n.links
      → IsSorted (resolve_one id eph n).links
  unfolding resolve_one
  links-resolve_one-IsSorted id eph n s = elim (Option-cases (eph_to_fp eph n)) [
    | inl e ↦ rw (e, resolve_one) s
    | inr (fp, e) ↦ rw (e, resolve_one) (update-IsSorted id _ n.links s)
  ]

  resolve_all-IsSorted :
      (ls : List (LinkId × EphId)) (n : MeshNode)
      → IsSorted n.links
      → IsSorted (resolve_all ls n).links
  unfolding resolve_all
  resolve_all-IsSorted [] n s = s
  resolve_all-IsSorted ((id, eph) ∷ ls) n s =
      resolve_all-IsSorted ls (resolve_one id eph n) (links-resolve_one-IsSorted id eph n s)

  -- The node once the peers of its links are looked up.
  abbrev pub resolved : MeshNode → MeshNode
  resolved n = resolve_all (pending_links n.links) n

  -- If the links stand in the order of their ids, deduplication leaves for every peer, of the links that
  -- are found to reach it, the one with the lowest id and no other.
  pub dedup_links_lem :
      (n : MeshNode) (fp : Fingerprint)
      → IsSorted n.links
      → with_peer fp (dedup_links n).links ≡ first (with_peer fp (resolved n).links)
  unfolding dedup_links close_redundant
  dedup_links_lem n fp s =
      let links = (resolved n).links in
      with_peer-remove_all fp (redundant_links (group [] links)) links
      ∙ redundant_lem fp links (resolve_all-IsSorted (pending_links n.links) n s)
