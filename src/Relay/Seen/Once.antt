-- ===== src/Relay/Seen/Once.antt =====
-- A packet is delivered once: while the cache has room for what it hears, only the first copy of a
-- packet is reported as new.
use cockroach_chat.Prelude.{
  ℕ, ◌+◌, ◌≤◌, ◌<◌, ◌≡◌, refl, inl, inr, Bool, true, false, ◌&&◌, List, [], ◌∷◌, arith, length,
  lt→leb, Option-cases, if◌then◌else◌, is_some,
}
use cockroach_chat.Clock.{Millis}
use cockroach_chat.OrdMap.{get, key_eq}
use cockroach_chat.OrdMap.Keys.{bytes_ord}
use cockroach_chat.OrdMap.Laws.{length-insert, length-update, get-insert, get-update, key_eq→eq}
use cockroach_chat.Relay.Seen.{
  Digest, SeenEntry, SeenCache, hear_again, observe, observe_known, observe_new, make_room,
}
use cockroach_chat.Relay.Seen.Count.{observe_of_some, observe_of_none}

-- How many of a row of observations report `d` as new.
pub deliveries : {F : Type 0} → Digest → SeenCache F → List (Digest × Millis) → ℕ
deliveries d c [] = 0
deliveries d c ((x, t) ∷ es) =
    let (c', o) = observe c x t in (if key_eq d x && o.is_new then 1 else 0) + deliveries d c' es

abbrev knows : {F : Type 0} → SeenCache F → Digest → Bool
knows c d = is_some (get d c.entries)

module _ {F : Type 0} where
  make_room_free :
      (c : SeenCache F) → length c.entries < c.cfg.seen_cache_capacity → make_room c ≡ c.entries
  unfolding make_room
  make_room_free c h = rw (lt→leb c.cfg.seen_cache_capacity (length c.entries) h)

  -- One observation with room to spare, seen from `d`.
  observe_room :
      (c : SeenCache F) (d x : Digest) (t : Millis)
      → length c.entries < c.cfg.seen_cache_capacity
      → let (c', o) = observe c x t in
        (c'.cfg ≡ c.cfg)
        × (length c'.entries ≤ length c.entries + 1)
        × (knows c' d ≡ (if key_eq d x then true else knows c d))
        × (key_eq d x ≡ true → o.is_new ≡ (if knows c d then false else true))
  unfolding observe_known observe_new
  observe_room c d x t room = elim (Option-cases (get x c.entries)) [
    | inl absent ↦
        let fresh : SeenEntry = record { first_seen_ms = t; hear_count = 1 } in
        rw (observe_of_none c x t absent, make_room_free c room)
          (
            refl,
            length-insert x fresh c.entries,
            ground (arith, get-insert x d fresh c.entries),
            λ same. ground (arith, key_eq→eq d x same, absent),
          )
    | inr (e, here) ↦ rw (observe_of_some c x t e here) (
      refl,
      omega (arith, length-update x hear_again c.entries),
      ground (arith, get-update x d hear_again c.entries, key_eq→eq d x, here),
      λ same. ground (arith, key_eq→eq d x same, here),
    )
  ]

  deliveries_bound :
      (d : Digest) (es : List (Digest × Millis)) (c : SeenCache F)
      → length c.entries + length es ≤ c.cfg.seen_cache_capacity
      → deliveries d c es ≤ (if knows c d then 0 else 1)
  unfolding deliveries
  deliveries_bound d [] c h = omega arith
  deliveries_bound d ((x, t) ∷ es) c h =
      let facts = observe_room c d x t (omega arith) in
      ground (arith, facts, deliveries_bound d es (observe c x t).0 (ground (arith, facts)))

  -- In a row of observations that the cache has room for, whatever their order and times, a packet is
  -- reported as new at most once, and not at all if the cache knew it before.
  pub delivered_once :
      (d : Digest) (es : List (Digest × Millis)) (c : SeenCache F)
      → length c.entries + length es ≤ c.cfg.seen_cache_capacity
      → deliveries d c es ≤ (if is_some (get d c.entries) then 0 else 1)
  delivered_once d es c h = deliveries_bound d es c h
