-- ===== src/Relay/Seen/Count.antt =====
-- What an observation reports, and what it does to the counters.
use mathlib.Core.Option
use cockroach_chat.Prelude.{
  ◌+◌, ◌≤◌, ◌≡◌, refl, ap, ◌∙◌, inl, inr, none, some, arith, Option-cases, min, ◌==◌,
}
use cockroach_chat.Clock.{Millis}
use cockroach_chat.OrdMap.{get, insert, update}
use cockroach_chat.OrdMap.Keys.{bytes_ord}
use cockroach_chat.OrdMap.Laws.{get-insert_self, get-update_self, get-insert, get-update}
use cockroach_chat.OrdMap.Oldest.{get-evict_oldest}
use cockroach_chat.Relay.Seen.{
  Digest, SeenEntry, SeenCache, u32_max, hear_again, observe, observe_known, observe_new, make_room,
  hear_count, count_of,
}

module _ {F : Type 0} (c : SeenCache F) (d : Digest) (now : Millis) where
  pub observe_of_some :
      (e : SeenEntry) → get d c.entries ≡ some e → observe c d now ≡ observe_known c d e
  unfolding observe
  observe_of_some e h = rw (h, observe)

  pub observe_of_none : get d c.entries ≡ none → observe c d now ≡ observe_new c d now
  unfolding observe
  observe_of_none h = rw (h, observe)

-- Every counter of the cache counts at least one observation.
abbrev pub IsCounting : {F : Type 0} → SeenCache F → Type 0
IsCounting c = (d : Digest) (e : SeenEntry) → get d c.entries ≡ some e → 1 ≤ e.hear_count

-- If every counter of the cache is at least one, an observation reports a packet as new exactly
-- when the cache holds no count of it, reports the count including itself (at most the greatest
-- `u32`), and leaves that count in the cache.
pub observe_report :
    {F : Type 0} (c : SeenCache F) (d : Digest) (now : Millis)
    → IsCounting c
    → let (c', o) = observe c d now in
      (o.is_new ≡ (hear_count c d == 0))
      × (o.hear_count ≡ min (hear_count c d + 1) u32_max)
      × (hear_count c' d ≡ o.hear_count)
unfolding hear_count observe_known observe_new
observe_report c d now v = elim (Option-cases (get d c.entries)) [
  | inl absent ↦
      let after : get d (insert d (record { first_seen_ms = now; hear_count = 1 }) (make_room c))
          ≡ some (record { first_seen_ms = now; hear_count = 1 }) =
        get-insert_self d _ (make_room c) in
      rw (observe_of_none c d now absent, absent) (refl, refl, ap count_of after)
  | inr (e, here) ↦
      let once : 1 ≤ e.hear_count = v d e here in
      let after : get d (update d hear_again c.entries) ≡ some (hear_again e) =
        get-update_self d hear_again c.entries ∙ ap (Option.map hear_again) here in
      rw (observe_of_some c d now e here, here) (ground (arith, once), refl, ap count_of after)
]

-- Making room loses an entry and changes none.
pub get-make_room :
    {F : Type 0} (c : SeenCache F) (j : Digest) (e : SeenEntry)
    → get j (make_room c) ≡ some e
    → get j c.entries ≡ some e
unfolding make_room
get-make_room c j e h =
    ground (arith, h, get-evict_oldest (λ (x : SeenEntry). x.first_seen_ms) j c.entries e)

-- Observing keeps every counter at one or more.
pub observe-IsCounting :
    {F : Type 0} (c : SeenCache F) (d : Digest) (now : Millis)
    → IsCounting c
    → IsCounting (observe c d now).0
unfolding observe_known observe_new
observe-IsCounting c d now v = elim (Option-cases (get d c.entries)) [
  | inl absent ↦ rw (observe_of_none c d now absent) λ j e h.
      let fresh : SeenEntry = record { first_seen_ms = now; hear_count = 1 } in
      ground (arith, h, get-insert d j fresh (make_room c), v j e, get-make_room c j e)
  | inr (e₀, here) ↦ rw (observe_of_some c d now e₀ here) λ j e h.
      elim (Option-cases (get j c.entries)) [
        | inl no_entry ↦ absurd (ground (arith, h, get-update d j hear_again c.entries, no_entry))
        | inr (e₁, there) ↦
            let once : 1 ≤ e₁.hear_count = v j e₁ there in
            ground (arith, h, get-update d j hear_again c.entries, there, once)
      ]
]
