-- ===== src/Node/Flood.antt =====
-- Copies of a packet that the seen cache has, a node's own among them, and the packets that are passed on.
use cockroach_chat.Prelude.{
  ℕ, ◌+◌, ◌-◌, ◌≤◌, ◌<◌, ◌≡◌, ◌≢◌, refl, ap, sym, ◌∙◌, true, false, Option, none, some, inl, inr,
  ◌⊎◌, arith, Bool-cases, ok, leb, leb→lt, some_inj, length, is_some,
}
use mathlib.Core.Option
use cockroach_chat.Platform.{World}
use cockroach_chat.Clock.{Millis, now_ms}
use cockroach_chat.OrdMap.{key_eq, get, contains_key}
use cockroach_chat.OrdMap.Keys.{bytes_ord}
use cockroach_chat.OrdMap.Laws.{
  get-insert, get-insert_self, get-update_self, key_eq→eq, contains_key-get,
}
use cockroach_chat.Wire.Signing.{verify-ttl}
use cockroach_chat.Relay.Seen.Count.{observe_of_some, observe_of_none}
use cockroach_chat.Wire.{
  Packet, MsgType, announce, channel_message, direct_message, noise_handshake, receipt,
  sync_request, sync_response, media_offer, media_fetch_request, media_chunk, media_fetch_ack,
  unknown, digest, verify,
}
use cockroach_chat.Relay.Seen.{
  Digest, SeenCache, SeenEntry, observe, observe_known, observe_new, hear_again,
}
use cockroach_chat.Relay.Scheduler.{RelayScheduler, Pending, LinkId, schedule}
use cockroach_chat.Relay.Fanout.{should_relay, relay_delay}
use cockroach_chat.Node.State.{MeshNode}
use cockroach_chat.Node.Session.{flood}
use cockroach_chat.Node.Drive.{relay_later, maybe_relay, tag_neighbour, count_copy, on_packet}

-- A digest that was heard is no news, and one that is observed stays heard.
heard_is_old :
    {F : Type 0} (c : SeenCache F) (d : Digest) (e : SeenEntry) (now : Millis)
    → get d c.entries ≡ some e
    → (observe c d now).1.is_new ≡ false
unfolding observe_known
heard_is_old c d e now h = rw (observe_of_some c d now e h) refl

observe_leaves :
    {F : Type 0} (c : SeenCache F) (d : Digest) (now : Millis) (o : Option SeenEntry)
    → get d c.entries ≡ o
    → (e : SeenEntry) × (get d (observe c d now).0.entries ≡ some e)
unfolding observe_known observe_new
observe_leaves c d now none h = rw (observe_of_none c d now h) (_, get-insert_self d _ _)
observe_leaves c d now (some e) h =
    rw (observe_of_some c d now e h)
      (_, get-update_self d hear_again c.entries ∙ ap (Option.map hear_again) h)

-- What waits after scheduling waited before, or is what was scheduled.
schedule_lem :
    {F : Type 0} (s : RelayScheduler F) (d' : Digest) (x : Packet) (link delay now : ℕ) (d : Digest)
    (p : Pending)
    → get d (schedule s d' x link delay now).pending ≡ some p
    → (get d s.pending ≡ some p) ⊎ ((d ≡ d') × (x ≡ p.packet) × (link ≡ p.exclude_link))
unfolding schedule
schedule_lem s d' x link delay now d p = elim (Bool-cases (contains_key d' s.pending)) [
  | inl old ↦ rw old (λ h. inl h)
  | inr fresh ↦ elim (Bool-cases (key_eq d d')) [
    | inl e ↦
        rw (fresh, get-insert d' d _ s.pending, e)
          (λ h. inr (
            key_eq→eq d d' e,
            ap (λ q. q.packet) (some_inj h),
            ap (λ q. q.exclude_link) (some_inj h),
          ))
    | inr e ↦ rw (fresh, get-insert d' d _ s.pending, e) (λ h. inl h)
  ]
]

module _ ⦃w : World⦄ where
  -- Any packet but a sync request says nothing of the link.
  not_tagged :
      (link : LinkId) (pkt : Packet) (t : MsgType) (n : MeshNode)
      → t ≢ sync_request
      → tag_neighbour link pkt t n ≡ n
  unfolding tag_neighbour
  not_tagged link pkt sync_request n other = absurd (other refl)
  not_tagged link pkt announce n other = refl
  not_tagged link pkt channel_message n other = refl
  not_tagged link pkt noise_handshake n other = refl
  not_tagged link pkt direct_message n other = refl
  not_tagged link pkt receipt n other = refl
  not_tagged link pkt sync_response n other = refl
  not_tagged link pkt media_offer n other = refl
  not_tagged link pkt media_fetch_request n other = refl
  not_tagged link pkt media_chunk n other = refl
  not_tagged link pkt media_fetch_ack n other = refl
  not_tagged link pkt (unknown b) n other = refl

  -- A copy of a packet that was heard, unless it is a sync request, moves nothing but the count of its
  -- copies: it is not handled, not charged to its sender, and not passed on.
  pub copy_is_counted :
      (link : LinkId) (pkt : Packet) (n : MeshNode) (e : SeenEntry)
      → pkt.msg_type ≢ sync_request
      → get (digest w.crypto pkt) n.seen.entries ≡ some e
      → on_packet link (ok pkt) n
        ≡ ok (record n { seen = (observe n.seen (digest w.crypto pkt) (now_ms n.clock)).0 })
  unfolding on_packet count_copy
  copy_is_counted link pkt n e other heard =
      rw
        (
          not_tagged link pkt pkt.msg_type n other,
          heard_is_old n.seen (digest w.crypto pkt) e (now_ms n.clock) heard,
        )
        refl

  pub flood_is_seen :
      (pkt : Packet) (n : MeshNode)
      → contains_key (digest w.crypto pkt) (flood pkt n).seen.entries ≡ true
  unfolding flood
  flood_is_seen pkt n =
      let d = digest w.crypto pkt in
      let (e, heard) = observe_leaves n.seen d (now_ms n.clock) _ refl in
      contains_key-get d (flood pkt n).seen.entries ∙ ap is_some heard

  -- A packet that waits was waiting before, or is the one that arrived with one hop less of at least one,
  -- signed as it was and not to be sent back on its link.
  abbrev pub Lowered : LinkId → Packet → MeshNode → Digest → Pending → Type 0
  Lowered link pkt n d p =
      (get d n.scheduler.pending ≡ some p)
      ⊎ ((p.packet.ttl + 1 ≡ pkt.ttl)
          × (1 ≤ p.packet.ttl)
          × (p.exclude_link ≡ link)
          × (digest w.crypto p.packet ≡ d)
          × (d ≡ digest w.crypto pkt)
          × ((vk : w.crypto.VerifyingKey) → verify w.crypto p.packet vk ≡ verify w.crypto pkt vk))

  relay_later-Lowered :
      (link : LinkId) (pkt : Packet) (delay : ℕ) (n : MeshNode) (d : Digest) (p : Pending)
      → 1 < pkt.ttl
      → get d (relay_later link pkt delay n).scheduler.pending ≡ some p
      → Lowered link pkt n d p
  unfolding relay_later digest
  relay_later-Lowered link pkt delay n d p hops waits =
      elim (schedule_lem n.scheduler _ (record pkt { ttl = pkt.ttl - 1 }) link delay _ d p waits) [
        | inl before ↦ inl before
        | inr (here, this, at_link) ↦ inr (
          omega (arith, hops, ap (λ q. q.ttl) this),
          omega (arith, hops, ap (λ q. q.ttl) this),
          sym at_link,
          ap (digest w.crypto) (sym this) ∙ sym here,
          here,
          λ vk.
              ap (λ q. verify w.crypto q vk) (sym this) ∙ verify-ttl w.crypto pkt (pkt.ttl - 1) vk,
        )
      ]

  -- If a packet is passed on after it arrived, every packet that then waits was waiting before, or is that
  -- packet with one hop less, which are one at least, not to be sent back on its link, with its digest, and
  -- verifying under the keys that it verified under.
  pub maybe_relay-Lowered :
      (link : LinkId) (pkt : Packet) (n : MeshNode) (d : Digest) (p : Pending)
      → get d (maybe_relay link pkt n).scheduler.pending ≡ some p
      → Lowered link pkt n d p
  unfolding maybe_relay
  maybe_relay-Lowered link pkt n d p =
      let (relays, rng) = should_relay w.float w.rng (length n.links) n.cfg n.rng in
      let (delay, rng') = relay_delay w.float w.rng n.cfg rng in
      elim (Bool-cases (leb pkt.ttl 1)) [
        | inl last ↦ rw last (λ h. inl h)
        | inr more ↦ elim (Bool-cases relays) [
          | inr off ↦ rw (more, off) (λ h. inl h)
          | inl on ↦
              rw (more, on)
                (relay_later-Lowered link pkt delay (record n { rng = rng' }) d p
                  (leb→lt pkt.ttl 1 more))
        ]
      ]
