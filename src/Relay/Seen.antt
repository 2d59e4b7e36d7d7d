-- ===== src/Relay/Seen.antt =====
-- `SeenCache` of crates/meshcore/src/relay.rs: the packets that were heard, and how often.
pub mod Count
pub mod Capacity
pub mod Once
use cockroach_chat.Prelude.{
  ℕ, ◌+◌, ◌-◌, ◌^◌, Bool, true, false, Option, none, some, List, [], ◌∷◌, length, ltb, leb,
  if◌then◌else◌, retain, min,
}
use cockroach_chat.Clock.{Millis}
use cockroach_chat.Config.{Tunables}
use cockroach_chat.OrdMap.{Map, get, insert, update}
use cockroach_chat.OrdMap.Keys.{bytes_ord}
use cockroach_chat.OrdMap.Oldest.{evict_oldest}

abbrev pub Digest : Type 0
Digest = List ℕ

pub record Observation : Type 0 where
  pub is_new : Bool
  pub hear_count : ℕ

pub record SeenEntry : Type 0 where
  pub first_seen_ms : Millis
  pub hear_count : ℕ

pub record SeenCache (F : Type 0) : Type 0 where
  pub entries : Map Digest SeenEntry
  pub cfg : Tunables F

abbrev pub u32_max : ℕ
u32_max = 2 ^ 32 - 1

-- `u32::saturating_add(1)` on the counter of an entry.
abbrev pub hear_again : SeenEntry → SeenEntry
hear_again e = record e { hear_count = min (e.hear_count + 1) u32_max }

abbrev pub count_of : Option SeenEntry → ℕ
count_of none = 0
count_of (some e) = e.hear_count

module _ {F : Type 0} where
  unfoldable pub new : Tunables F → SeenCache F
  new cfg = record { entries = []; cfg = cfg }

  unfoldable pub observe_known : SeenCache F → Digest → SeenEntry → SeenCache F × Observation
  observe_known c digest e = (
    record c { entries = update digest hear_again c.entries },
    record { is_new = false; hear_count = (hear_again e).hear_count },
  )

  -- The cache with room for one more entry.
  pub make_room : SeenCache F → Map Digest SeenEntry
  make_room c =
      if leb c.cfg.seen_cache_capacity (length c.entries)
      then evict_oldest (λ e. e.first_seen_ms) c.entries
      else c.entries

  unfoldable pub observe_new : SeenCache F → Digest → Millis → SeenCache F × Observation
  observe_new c digest now = (
    record c {
      entries = insert digest (record { first_seen_ms = now; hear_count = 1 }) (make_room c);
    },
    record { is_new = true; hear_count = 1 },
  )

  unfoldable pub observe : SeenCache F → Digest → Millis → SeenCache F × Observation
  unfolding observe_known observe_new make_room
  observe c digest now = elim (get digest c.entries) [
    | some e ↦ observe_known c digest e
    | none ↦ observe_new c digest now
  ]

  unfoldable pub hear_count : SeenCache F → Digest → ℕ
  hear_count c digest = count_of (get digest c.entries)

  unfoldable pub len : SeenCache F → ℕ
  len c = length c.entries

  pub is_empty : SeenCache F → Bool
  unfolding len
  is_empty c = leb (len c) 0

  -- The entry is no older than the lifetime of an entry.
  abbrev pub is_live : SeenCache F → Millis → Digest × SeenEntry → Bool
  is_live c now e = ltb (now - e.1.first_seen_ms) c.cfg.seen_cache_ttl_ms

  pub evict_expired : SeenCache F → Millis → SeenCache F × ℕ
  evict_expired c now =
      let kept = retain (is_live c now) c.entries in
      (record c { entries = kept }, length c.entries - length kept)
