-- ===== src/Relay/Scheduler/Due.antt =====
-- The two passes of `due`, first collecting digests and then removing them one by one, do what one
-- pass over the waiting packets would do.
use Prim.Native.Nat.{Ordering}
use cockroach_chat.Prelude.{
  ℕ, ◌≡◌, refl, ap, ◌∙◌, inl, inr, false, not, Option, none, some, List, [], ◌∷◌, map, arith,
  if◌then◌else◌, Bool-cases, retain, Outcome, ok, err, panic, ◌>>=◌,
}
use cockroach_chat.Clock.{Millis}
use cockroach_chat.OrdMap.{Map, key_eq, get, contains_key, remove}
use cockroach_chat.OrdMap.Keys.{bytes_ord, compare_bytes, compare_bytes_eq, compare_bytes_refl}
use cockroach_chat.OrdMap.Laws.{key_eq_refl}
use cockroach_chat.OrdMap.Sorted.{IsSorted, Above, remove-Above, Above-retain, insert-IsSorted}
use cockroach_chat.Relay.Seen.{Digest, SeenCache}
use cockroach_chat.Relay.Scheduler.{
  LinkId, Pending, DueRelay, RelayScheduler, due_relay, unwrap, is_ready, is_suppressed, release,
  due, schedule,
}
use cockroach_chat.Wire.{Packet}

below_ne : (k d : Digest) → compare_bytes k d ≡ Ordering.lt → key_eq d k ≡ false
below_ne k d h = elim (Bool-cases (key_eq d k)) [
  | inl e ↦ absurd (ground (arith, h, compare_bytes_eq d k, compare_bytes_refl k, e))
  | inr e ↦ e
]

abbrev Released : Type 0
Released = Outcome ⊥ (Map Digest Pending × List DueRelay)

abbrev push_front : Digest × Pending → Map Digest Pending × List DueRelay → Released
push_front e x = ok (e ∷ x.0, x.1)

abbrev then_out : (List DueRelay → List DueRelay) → Map Digest Pending × List DueRelay → Released
then_out g x = ok (x.0, g x.1)

-- An entry may be put in front before or after the rest is released.
in_front :
    (e : Digest × Pending) (o : Option Pending) (r : Released)
    (g : Pending → List DueRelay → List DueRelay)
    → (unwrap o >>= λ q. (r >>= push_front e) >>= then_out (g q))
      ≡ ((unwrap o >>= λ q. r >>= then_out (g q)) >>= push_front e)
in_front e none r g = refl
in_front e (some q) (ok x) g = refl
in_front e (some q) (err x) g = refl
in_front e (some q) panic g = refl

module _ {F : Type 0} (threshold : ℕ) (seen : SeenCache F) where
  -- An entry below every digest of the list stays in front.
  release_skip :
      (k : Digest) (p : Pending) (es m : Map Digest Pending)
      → Above k es
      → release threshold seen (map (λ e. e.0) es) ((k, p) ∷ m)
        ≡ (release threshold seen (map (λ e. e.0) es) m >>= push_front (k, p))
  unfolding release get remove
  release_skip k p [] m a = refl
  release_skip k p ((d, q) ∷ es) m a =
      rw (below_ne k d a.0, release_skip k p es (remove d m) a.1)
        (in_front (k, p) (get d m) (release threshold seen (map (λ e. e.0) es) (remove d m))
          (λ x out. if is_suppressed threshold seen d then out else due_relay x ∷ out))

  abbrev pub released : Map Digest Pending → List DueRelay
  released [] = []
  released ((d, p) ∷ m) =
      if is_suppressed threshold seen d then released m else due_relay p ∷ released m

  release-retain :
      (now : Millis) (m : Map Digest Pending)
      → IsSorted m
      → release threshold seen (map (λ e. e.0) (retain (is_ready now) m)) m
        ≡ ok (retain (λ e. not (is_ready now e)) m, released (retain (is_ready now) m))
  unfolding release get remove
  release-retain now [] s = refl
  release-retain now ((k, p) ∷ m) s = elim (Bool-cases (is_ready now (k, p))) [
    | inl ready ↦ rw (ready, key_eq_refl k, remove-Above k m s.0, release-retain now m s.1)
    | inr later ↦ rw (later) (
        release_skip k p (retain (is_ready now) m) m (Above-retain k (is_ready now) m s.0)
        ∙ ap (λ r. r >>= push_front (k, p)) (release-retain now m s.1))
  ]

module _ {F : Type 0} (s : RelayScheduler F) where
  -- If the waiting packets stand in the order of their digests, `due` does not panic. It takes out
  -- those whose time has come, in that order, leaves exactly the others waiting, and returns of
  -- those it takes out the ones that were heard fewer times than the threshold.
  pub due_lem :
      (now : Millis) (seen : SeenCache F)
      → IsSorted s.pending
      → due s now seen
        ≡ ok (
          record s { pending = retain (λ e. not (is_ready now e)) s.pending },
          released s.cfg.suppression_threshold seen (retain (is_ready now) s.pending),
        )
  unfolding due
  due_lem now seen h = rw (release-retain s.cfg.suppression_threshold seen now s.pending h)

  -- Scheduling keeps the waiting packets in the order of their digests.
  pub schedule-IsSorted :
      (d : Digest) (p : Packet) (link : LinkId) (delay now : Millis)
      → IsSorted s.pending
      → IsSorted (schedule s d p link delay now).pending
  unfolding schedule
  schedule-IsSorted d p link delay now h = elim (Bool-cases (contains_key d s.pending)) [
    | inl old ↦ rw old h
    | inr fresh ↦ rw fresh (insert-IsSorted d _ s.pending h)
  ]
