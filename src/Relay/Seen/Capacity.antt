-- ===== src/Relay/Seen/Capacity.antt =====
-- The cache never holds more than its capacity, and its keys stay in order.
use cockroach_chat.Prelude.{
  ◌+◌, ◌≤◌, ◌≡◌, inl, inr, arith, length, leb, leb→lt, Option-cases, Bool-cases, max, dec_lt,
  length-retain,
}
use cockroach_chat.Clock.{Millis}
use cockroach_chat.OrdMap.{get}
use cockroach_chat.OrdMap.Keys.{bytes_ord}
use cockroach_chat.OrdMap.Laws.{length-insert, length-update}
use cockroach_chat.OrdMap.Sorted.{
  IsSorted, insert-IsSorted, update-IsSorted, retain-IsSorted, get-retain, passing,
}
use cockroach_chat.OrdMap.Oldest.{
  length-evict_oldest_lt, length-evict_oldest_le, evict_oldest-IsSorted,
}
use cockroach_chat.Relay.Seen.{
  Digest, SeenEntry, SeenCache, hear_again, observe, observe_known, observe_new, make_room,
  evict_expired, is_live,
}
use cockroach_chat.Relay.Seen.Count.{observe_of_some, observe_of_none}

-- What every operation keeps: the capacity (an observation needs room for one) and the order of keys.
pub record IsValid {F : Type 0} (c : SeenCache F) : Type 0 where
  pub bounded : length c.entries ≤ max c.cfg.seen_cache_capacity 1
  pub sorted : IsSorted c.entries

module _ {F : Type 0} (c : SeenCache F) where
  length-make_room :
      length c.entries ≤ max c.cfg.seen_cache_capacity 1
      → length (make_room c) + 1 ≤ max c.cfg.seen_cache_capacity 1
  unfolding make_room
  length-make_room h = elim (Bool-cases (leb c.cfg.seen_cache_capacity (length c.entries))) [
    | inl full ↦ rw full (elim (dec_lt 0 (length c.entries)) [
      | yes some_entry ↦
          omega (
            arith,
            length-evict_oldest_lt (λ (e : SeenEntry). e.first_seen_ms) c.entries some_entry,
          )
      | no empty ↦
          omega (arith, length-evict_oldest_le (λ (e : SeenEntry). e.first_seen_ms) c.entries)
    ])
    | inr room ↦ rw room (omega (arith, leb→lt c.cfg.seen_cache_capacity (length c.entries) room))
  ]

  make_room-IsSorted : IsSorted c.entries → IsSorted (make_room c)
  unfolding make_room
  make_room-IsSorted s = elim (Bool-cases (leb c.cfg.seen_cache_capacity (length c.entries))) [
    | inl full ↦ rw full (evict_oldest-IsSorted (λ e. e.first_seen_ms) c.entries s)
    | inr room ↦ rw room s
  ]

  -- Observing keeps the cache within its capacity (of at least one entry) and its keys in order.
  pub observe-IsValid : (d : Digest) (now : Millis) → IsValid c → IsValid (observe c d now).0
  unfolding observe_known observe_new
  observe-IsValid d now v = elim (Option-cases (get d c.entries)) [
    | inl absent ↦ rw (observe_of_none c d now absent) (record {
      bounded = omega (
        arith,
        length-insert d (record { first_seen_ms = now; hear_count = 1 }) (make_room c),
        length-make_room v.bounded,
      );
      sorted = insert-IsSorted d _ (make_room c) (make_room-IsSorted v.sorted);
    })
    | inr (e, here) ↦ rw (observe_of_some c d now e here) (record {
      bounded = omega (arith, length-update d hear_again c.entries, v.bounded);
      sorted = update-IsSorted d hear_again c.entries v.sorted;
    })
  ]

  -- Of a cache within its capacity and with its keys in order, expiry keeps exactly the entries
  -- that are younger than the lifetime, with their counts, keeps the cache so, and returns how
  -- many it dropped.
  pub evict_expired_lem :
      (now : Millis)
      → IsValid c
      → let (c', dropped) = evict_expired c now in
        IsValid c'
        × ((d : Digest) → get d c'.entries ≡ passing (is_live c now) d (get d c.entries))
        × (dropped + length c'.entries ≡ length c.entries)
  unfolding evict_expired
  evict_expired_lem now v = (
    record {
      bounded = omega (arith, length-retain (is_live c now) c.entries, v.bounded);
      sorted = retain-IsSorted (is_live c now) c.entries v.sorted;
    },
    λ d. get-retain (is_live c now) d c.entries v.sorted,
    omega (arith, length-retain (is_live c now) c.entries),
  )
