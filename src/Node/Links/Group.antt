-- ===== src/Node/Links/Group.antt =====
-- The links of node.rs by the peer that they reach, and the redundant ones among them.
use cockroach_chat.Prelude.{
  ℕ, ◌<◌, ◌≡◌, refl, ap, sym, ◌∙◌, subst, Bool, true, false, not, retain, Option, none, some, List,
  [], ◌∷◌, ◌++◌, inl, inr, ◌⊎◌, arith, if◌then◌else◌, Bool-cases, Option-cases,
}
use mathlib.Core.List.{append_assoc, append-nil}
use Prim.Native.Nat.{compare, Ordering}
use cockroach_chat.OrdMap.{Map, key_eq, get, remove}
use cockroach_chat.OrdMap.Keys.{nat_ord, bytes_ord}
use cockroach_chat.OrdMap.Laws.{get-insert, key_eq→eq, key_eq_refl, key_eq_ne}
use cockroach_chat.OrdMap.Sorted.{IsSorted, Above, insert-IsSorted, get-Above}
use cockroach_chat.Store.{Fingerprint, or_default}
use cockroach_chat.Relay.Scheduler.{LinkId}
use cockroach_chat.Node.Fanout.{LinkState}
use cockroach_chat.Node.State.{push_entry}
use cockroach_chat.Node.Links.{group, skip_one, redundant_links}

-- A list has an element.
abbrev pub IsIn : ℕ → List ℕ → Type 0
IsIn i [] = ⊥
IsIn i (x ∷ xs) = (i ≡ x) ⊎ IsIn i xs

abbrev pub is_peer : Fingerprint → Option Fingerprint → Bool
is_peer fp none = false
is_peer fp (some q) = key_eq fp q

abbrev first_or : List ℕ → ℕ
first_or [] = 0
first_or (x ∷ xs) = x

-- The links that reach a peer.
pub with_peer : Fingerprint → Map LinkId LinkState → List LinkId
with_peer fp [] = []
with_peer fp ((id, l) ∷ links) =
    let rest = with_peer fp links in if is_peer fp l.peer_fp then id ∷ rest else rest

abbrev pub ids : Fingerprint → Map Fingerprint (List LinkId) → List LinkId
ids fp m = or_default (get fp m)

ids-push_entry :
    (q fp : Fingerprint) (id : LinkId) (m : Map Fingerprint (List LinkId))
    → ids q (push_entry fp id m) ≡ ids q m ++ (if key_eq q fp then id ∷ [] else [])
unfolding push_entry
ids-push_entry q fp id m = elim (Bool-cases (key_eq q fp)) [
  | inl e ↦
      rw (get-insert fp q (ids fp m ++ (id ∷ [])) m, e)
        (ap (λ k. ids k m ++ (id ∷ [])) (sym (key_eq→eq q fp e)))
  | inr e ↦ rw (get-insert fp q (ids fp m ++ (id ∷ [])) m, e) (sym (append-nil (ids q m)))
]

-- Grouping adds to each peer the links that reach it.
pub ids-group :
    (q : Fingerprint) (acc : Map Fingerprint (List LinkId)) (links : Map LinkId LinkState)
    → ids q (group acc links) ≡ ids q acc ++ with_peer q links
unfolding group with_peer
ids-group q acc [] = sym (append-nil (ids q acc))
ids-group q acc ((id, l) ∷ links) = elim (Option-cases l.peer_fp) [
  | inl e ↦ rw (e, group, with_peer) (ids-group q acc links)
  | inr (fp, e) ↦
      rw (e, group, with_peer)
        (ids-group q (push_entry fp id acc) links
          ∙ ap (λ xs. xs ++ with_peer q links) (ids-push_entry q fp id acc)
          ∙ append_assoc (ids q acc) (if key_eq q fp then id ∷ [] else []) (with_peer q links)
          ∙ ap (λ xs. ids q acc ++ xs) (moved (key_eq q fp)))
]
  where
    moved :
        (b : Bool)
        → (if b then id ∷ [] else []) ++ with_peer q links
          ≡ (if b then id ∷ with_peer q links else with_peer q links)
    moved true = refl
    moved false = refl

IsIn-left : (i : ℕ) (xs ys : List ℕ) → IsIn i xs → IsIn i (xs ++ ys)
IsIn-left i (x ∷ xs) ys (inl e) = inl e
IsIn-left i (x ∷ xs) ys (inr h) = inr (IsIn-left i xs ys h)
IsIn-left i [] ys h = absurd h

IsIn-right : (i : ℕ) (xs ys : List ℕ) → IsIn i ys → IsIn i (xs ++ ys)
IsIn-right i [] ys h = h
IsIn-right i (x ∷ xs) ys h = inr (IsIn-right i xs ys h)

IsIn-append : (i : ℕ) (xs ys : List ℕ) → IsIn i (xs ++ ys) → IsIn i xs ⊎ IsIn i ys
IsIn-append i [] ys h = inr h
IsIn-append i (x ∷ xs) ys (inl e) = inl (inl e)
IsIn-append i (x ∷ xs) ys (inr h) = elim (IsIn-append i xs ys h) [
  | inl l ↦ inl (inr l)
  | inr r ↦ inr r
]

-- All links of a peer but its first are redundant.
pub IsIn-redundant_links :
    (i : ℕ) (q : Fingerprint) (m : Map Fingerprint (List LinkId))
    → IsIn i (skip_one (ids q m))
    → IsIn i (redundant_links m)
unfolding redundant_links get
IsIn-redundant_links i q [] h = h
IsIn-redundant_links i q ((fp, js) ∷ m) h = at (key_eq q fp) (IsIn-redundant_links i q m) h
  where
    at :
        (b : Bool)
        → (IsIn i (skip_one (ids q m)) → IsIn i (redundant_links m))
        → IsIn i (skip_one (or_default (if b then some js else get q m)))
        → IsIn i (skip_one js ++ redundant_links m)
    at true ih h = IsIn-left i (skip_one js) (redundant_links m) h
    at false ih h = IsIn-right i (skip_one js) (redundant_links m) (ih h)

-- Every redundant link is one of a peer's, and not its first.
pub redundant_links-IsIn :
    (i : ℕ) (m : Map Fingerprint (List LinkId))
    → IsSorted m
    → IsIn i (redundant_links m)
    → (q : Fingerprint) × IsIn i (skip_one (ids q m))
unfolding redundant_links get
redundant_links-IsIn i [] s h = absurd h
redundant_links-IsIn i ((fp, js) ∷ m) s h =
    elim (IsIn-append i (skip_one js) (redundant_links m) h) [
      | inl here ↦ (fp, rw (key_eq_refl fp) here)
      | inr later ↦
          let (q, there) = redundant_links-IsIn i m s.1 later in
          elim (Bool-cases (key_eq q fp)) [
            | inr other ↦ (q, rw other there)
            | inl same ↦ absurd (
                subst (λ o. IsIn i (skip_one (or_default o)))
                  (get-Above q m (subst (λ k. Above k m) (sym (key_eq→eq q fp same)) s.0)) there)
          ]
    ]

pub group-IsSorted :
    (acc : Map Fingerprint (List LinkId)) (links : Map LinkId LinkState)
    → IsSorted acc
    → IsSorted (group acc links)
unfolding group push_entry
group-IsSorted acc [] s = s
group-IsSorted acc ((id, l) ∷ links) s = elim (Option-cases l.peer_fp) [
  | inl e ↦ rw (e, group) (group-IsSorted acc links s)
  | inr (fp, e) ↦
      rw (e, group) (group-IsSorted (push_entry fp id acc) links (insert-IsSorted fp _ acc s))
]

-- Removing a link takes it from those of the peer.
abbrev pub other_than : LinkId → LinkId → Bool
other_than d i = not (key_eq d i)

pub with_peer-remove :
    (fp : Fingerprint) (d : LinkId) (links : Map LinkId LinkState)
    → with_peer fp (remove d links) ≡ retain (other_than d) (with_peer fp links)
unfolding with_peer remove
with_peer-remove fp d [] = refl
with_peer-remove fp d ((j, l) ∷ links) = ground (arith, with_peer-remove fp d links)

-- The links of a peer lie above the links before them.
pub with_peer-Above :
    (k i : LinkId) (fp : Fingerprint) (links : Map LinkId LinkState)
    → Above k links
    → IsIn i (with_peer fp links)
    → k < i
unfolding with_peer
with_peer-Above k i fp [] a h = absurd h
with_peer-Above k i fp ((j, l) ∷ links) a h =
    at (is_peer fp l.peer_fp) (with_peer-Above k i fp links a.1) h
  where
    lt_of_compare : (k j i : ℕ) → compare k j ≡ Ordering.lt → i ≡ j → k < i
    lt_of_compare k j i c q = ground (arith, c, q)

    at :
        (b : Bool)
        → (IsIn i (with_peer fp links) → k < i)
        → IsIn i (if b then j ∷ with_peer fp links else with_peer fp links)
        → k < i
    at true ih (inl q) = lt_of_compare k j i a.0 q
    at true ih (inr later) = ih later
    at false ih h = ih h

-- Every link of a peer has its entry.
pub with_peer-get :
    (i : LinkId) (fp : Fingerprint) (links : Map LinkId LinkState)
    → IsSorted links
    → IsIn i (with_peer fp links)
    → (l : LinkState) × (get i links ≡ some l) × (is_peer fp l.peer_fp ≡ true)
unfolding get with_peer
with_peer-get i fp [] s h = absurd h
with_peer-get i fp ((j, k) ∷ links) s h =
    at (is_peer fp k.peer_fp) refl (with_peer-get i fp links s.1) h
  where
    Entry : Map LinkId LinkState → Type 0
    Entry m = (l : LinkState) × (get i m ≡ some l) × (is_peer fp l.peer_fp ≡ true)

    in_tail : IsIn i (with_peer fp links) → Entry links → Entry ((j, k) ∷ links)
    in_tail h (l, found, is) =
        let below : j < i = with_peer-Above j i fp links s.0 h in
        (l, rw (key_eq_ne i j (λ q. absurd (omega (arith, below, q)))) found, is)

    at :
        (b : Bool)
        → is_peer fp k.peer_fp ≡ b
        → (IsIn i (with_peer fp links) → Entry links)
        → IsIn i (if b then j ∷ with_peer fp links else with_peer fp links)
        → Entry ((j, k) ∷ links)
    at true e ih (inl q) = (k, rw (q, key_eq_refl j) refl, e)
    at true e ih (inr later) = in_tail later (ih later)
    at false e ih h = in_tail h (ih h)

-- The first link of a peer lies below its others.
pub with_peer-first :
    (h i : LinkId) (t : List LinkId) (fp : Fingerprint) (links : Map LinkId LinkState)
    → IsSorted links
    → with_peer fp links ≡ h ∷ t
    → IsIn i t
    → h < i
unfolding with_peer
with_peer-first h i t fp [] s e hi = absurd (ground arith)
with_peer-first h i t fp ((j, k) ∷ links) s e hi =
    at (is_peer fp k.peer_fp) (λ e'. with_peer-first h i t fp links s.1 e' hi) e
  where
    at :
        (b : Bool)
        → (with_peer fp links ≡ h ∷ t → h < i)
        → (if b then j ∷ with_peer fp links else with_peer fp links) ≡ h ∷ t
        → h < i
    at true ih e =
        let below : j < i =
          with_peer-Above j i fp links s.0
            (subst (λ xs. IsIn i xs) (sym (ap (λ xs. skip_one xs) e)) hi) in
        omega (arith, below, ap (λ xs. first_or xs) e)
    at false ih e = ih e
