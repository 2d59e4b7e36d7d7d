-- ===== src/Node/Drive.antt =====
-- What drives node.rs: the events of the transport, and the timer.
use cockroach_chat.Prelude.{
  ℕ, ◌+◌, ◌-◌, ◌%◌, ◌^◌, Bool, not, ◌&&◌, none, some, List, [], ◌∷◌, ◌++◌, map, length, leb, ltb,
  if◌then◌else◌, retain, Outcome, ok, err, panic, ◌>>=◌,
}
use cockroach_chat.Clock.{Millis, now_ms}
use cockroach_chat.Platform.{World}
use cockroach_chat.OrdMap.{get, contains_key, insert, remove, update}
use cockroach_chat.OrdMap.Keys.{nat_ord, bytes_ord}
use cockroach_chat.Error.{WireError}
use cockroach_chat.Wire.{
  Packet, MsgType, announce, channel_message, direct_message, noise_handshake, sync_request, decode,
  digest,
}
use cockroach_chat.Store.{Fingerprint}
use cockroach_chat.Frag.{ingest}
use cockroach_chat.Frag
use cockroach_chat.Relay.Seen.{Observation, observe}
use cockroach_chat.Relay.Seen
use cockroach_chat.Relay.Rate.{allow}
use cockroach_chat.Relay.Scheduler.{LinkId, DueRelay, schedule, due}
use cockroach_chat.Relay.Fanout.{should_relay, relay_delay}
use cockroach_chat.Node.Fanout.{broadcast}
use cockroach_chat.Node.State.{
  MeshNode, TransportEvent, link_up, link_down, frame_received, mtu_changed, peer_lost, emit,
  session_ready, sends, dm_handshake_retry_ms, dm_handshake_max_attempts,
}
use cockroach_chat.Node.Session.{Run, unwrap_or, drop_session, begin_handshake}
use cockroach_chat.Node.Handshake.{handle_noise_handshake, handle_direct_message}
use cockroach_chat.Node.Commands.{send_announce}
use cockroach_chat.Node.Links.{note_link_identity}
use cockroach_chat.Node.Inbound.{
  handle_announce, handle_channel, handle_sync_request, send_sync_requests,
}

module _ ⦃w : World⦄ where
  -- The packet with one hop less waits out its delay.
  unfoldable pub relay_later : LinkId → Packet → ℕ → MeshNode → MeshNode
  relay_later arrived_link pkt delay n =
      let lowered = record pkt { ttl = pkt.ttl - 1 } in
      record n {
        scheduler =
            schedule n.scheduler (digest w.crypto lowered) lowered arrived_link delay
              (now_ms n.clock);
      }

  unfoldable pub maybe_relay : LinkId → Packet → MeshNode → MeshNode
  maybe_relay arrived_link pkt n =
      let (relays, rng) = should_relay w.float w.rng (length n.links) n.cfg n.rng in
      let (delay, rng') = relay_delay w.float w.rng n.cfg rng in
      if leb pkt.ttl 1
      then n
      else if relays
      then relay_later arrived_link pkt delay (record n { rng = rng' })
      else record n { rng = rng }

  unfoldable pub dispatch : LinkId → Packet → MsgType → MeshNode → Run
  dispatch link pkt announce n = handle_announce pkt n
  dispatch link pkt channel_message n = handle_channel pkt n
  dispatch link pkt sync_request n = handle_sync_request link pkt n
  dispatch link pkt noise_handshake n = handle_noise_handshake pkt n
  dispatch link pkt direct_message n = ok (handle_direct_message pkt n)
  dispatch link pkt _ n = ok n

  -- A distinct message whose sender is not throttled is handled and relayed.
  unfoldable pub admit_packet : LinkId → Packet → MeshNode → Run
  admit_packet link pkt n =
      let (rate, allowed) = allow w.float n.rate pkt.sender (now_ms n.clock) in
      let charged = record n { rate = rate } in
      if allowed
      then (dispatch link pkt pkt.msg_type charged >>= λ handled. ok (maybe_relay link pkt handled))
      else ok charged

  -- The sender of a sync request is the neighbour on the link.
  unfoldable pub tag_neighbour : LinkId → Packet → MsgType → MeshNode → MeshNode
  tag_neighbour link pkt sync_request n = note_link_identity link pkt.sender n
  tag_neighbour link pkt _ n = n

  unfoldable pub count_copy : LinkId → Packet → MeshNode → Run
  count_copy link pkt n =
      let (seen, obs) = observe n.seen (digest w.crypto pkt) (now_ms n.clock) in
      let counted = record n { seen = seen } in
      if obs.is_new then admit_packet link pkt counted else ok counted

  unfoldable pub on_packet : LinkId → Outcome WireError Packet → MeshNode → Run
  on_packet link (ok pkt) n = count_copy link pkt (tag_neighbour link pkt pkt.msg_type n)
  on_packet link (err e) n = ok n
  on_packet link panic n = panic

  unfoldable pub on_bytes : LinkId → Frag.Reply → MeshNode → Run
  on_bytes link (ok (some bytes)) n = on_packet link (decode bytes) n
  on_bytes link (ok none) n = ok n
  on_bytes link (err e) n = ok n
  on_bytes link panic n = panic

  unfoldable pub on_frame : LinkId → List ℕ → MeshNode → Run
  on_frame link frame n =
      let (reassembler, reply) = ingest n.reassembler frame (now_ms n.clock) in
      on_bytes link reply (record n { reassembler = reassembler })

  unfoldable pub greet : LinkId → ℕ → MeshNode → MeshNode
  greet link mtu n = send_sync_requests link (
      send_announce (record n {
        links = insert link (record { mtu = mtu; peer_eph = none; peer_fp = none }) n.links;
      }))

  unfoldable pub on_transport_event : TransportEvent → MeshNode → Run
  on_transport_event (link_up link mtu peer_hint) n = ok (greet link mtu n)
  on_transport_event (mtu_changed link mtu) n =
      ok (record n { links = update link (λ l. record l { mtu = mtu }) n.links })
  on_transport_event (link_down link) n =
      ok (emit (peer_lost link) (record n { links = remove link n.links }))
  on_transport_event (frame_received link frame) n = on_frame link frame n

  -- A `u64` counts the rebroadcasts.
  unfoldable pub fire : List DueRelay → MeshNode → MeshNode
  fire [] n = n
  fire (d ∷ due_now) n = fire due_now (record n {
    relays_fired = (n.relays_fired + 1) % 2 ^ 64;
    calls = n.calls ++ sends (broadcast w.crypto n.links d.packet (some d.exclude_link));
  })

  -- A handshake with a peer in reach that has gone quiet and has attempts left.
  unfoldable pub is_stalled : Millis → MeshNode → Fingerprint → Bool
  is_stalled now n fp =
      not (session_ready fp n)
      && contains_key fp n.fp_to_eph
      && ltb (unwrap_or 0 (get fp n.handshake_attempts)) dm_handshake_max_attempts
      && leb dm_handshake_retry_ms (now - unwrap_or 0 (get fp n.handshake_last_ms))

  unfoldable pub restart_each : List Fingerprint → MeshNode → MeshNode
  restart_each [] n = n
  restart_each (fp ∷ stalled) n = restart_each stalled (begin_handshake fp (drop_session fp n))

  unfoldable pub retry_stalled_handshakes : Millis → MeshNode → MeshNode
  retry_stalled_handshakes now n =
      restart_each (retain (is_stalled now n) (map (λ e. e.0) n.handshake_attempts)) n

  unfoldable pub evict : Millis → MeshNode → MeshNode
  evict now n = record n {
    seen = (Seen.evict_expired n.seen now).0;
    reassembler = (Frag.evict_expired n.reassembler now).0;
  }

  unfoldable pub tick : MeshNode → Outcome ⊥ (MeshNode × Millis)
  tick n =
      let now = now_ms n.clock in
      due n.scheduler now n.seen >>= λ (scheduler, due_now). ok (
        retry_stalled_handshakes now
            (evict now (fire due_now (record n { scheduler = scheduler }))),
        250,
      )
