-- ===== src/Node/Safety.antt =====
-- Nothing that arrives at a node and no timer makes it panic, breaks its buffers, or changes what its user
-- has said of a peer.
use cockroach_chat.Prelude.{
  ℕ, ◌≡◌, ◌≢◌, refl, ap, subst, sym, ◌∙◌, Bool, true, false, not, none, some, List, [], ◌∷◌,
  if◌then◌else◌, Outcome, ok, err, panic, ◌>>=◌,
}
use cockroach_chat.Clock.{Millis, ManualClock, now_ms}
use cockroach_chat.Config.{Tunables}
use cockroach_chat.Platform.{World}
use cockroach_chat.Error.{WireError}
use cockroach_chat.OrdMap.Sorted.{IsSorted, retain-IsSorted}
use cockroach_chat.OrdMap.Keys.{bytes_ord, nat_ord}
use cockroach_chat.Wire.{
  Packet, MsgType, announce, channel_message, direct_message, noise_handshake, receipt,
  sync_request, sync_response, media_offer, media_fetch_request, media_chunk, media_fetch_ack,
  unknown, digest, decode,
}
use cockroach_chat.Wire.Safety.{decode-ne-panic}
use cockroach_chat.Store.{Fingerprint}
use cockroach_chat.Identity.{LocalIdentity}
use cockroach_chat.Frag.{Reassembler, ingest, evict_expired}
use cockroach_chat.Frag
use cockroach_chat.Frag.Stored.{IsValid, IsSafe}
use cockroach_chat.Frag.Safety.{ingest-IsSafe, evict_expired_safe}
use cockroach_chat.Relay.Scheduler.{LinkId, DueRelay, is_ready}
use cockroach_chat.Relay.Scheduler.Due.{schedule-IsSorted, due_lem}
use cockroach_chat.Relay.Seen.{observe}
use cockroach_chat.Relay.Rate.{allow}
use cockroach_chat.Node.State.{
  MeshNode, TransportEvent, link_up, link_down, frame_received, mtu_changed,
}
use cockroach_chat.Node.Session.{Run, drop_session}
use cockroach_chat.Node.Drive.{
  relay_later, maybe_relay, dispatch, admit_packet, tag_neighbour, count_copy, on_packet, on_bytes,
  on_frame, greet, on_transport_event, fire, restart_each, retry_stalled_handshakes, evict, tick,
}
use cockroach_chat.Node.Keeps.{
  trust, Keeps, Kept, Grows, no_more, then-Grows, stays, elsewhere, emit-Keeps, then-Keeps,
}
use cockroach_chat.Node.Keeps.Session.{begin_handshake-Keeps}
use cockroach_chat.Node.Keeps.Handshake.{handle_noise_handshake-Kept, handle_direct_message-Keeps}
use cockroach_chat.Node.Keeps.Inbound.{
  send_announce-Keeps, note_link_identity-Keeps, handle_announce-Kept, handle_channel-Kept,
  handle_sync_request-Kept, send_sync_requests-Keeps,
}

module _ ⦃w : World⦄ where
  -- The reassembly buffers are within their bounds, and the waiting packets are in order.
  pub record IsSound (n : MeshNode) : Type 0 where
    pub buffers : IsValid n.reassembler
    pub waiting : IsSorted n.scheduler.pending

  abbrev pub settings : MeshNode → LocalIdentity w.crypto × Tunables w.float.F × ManualClock
  settings n = (n.identity, n.cfg, n.clock)

  -- The node after a step is sound, of the same identity, configuration, time and trust, and has the events
  -- from before it first.
  pub record Follows (n n' : MeshNode) : Type 0 where
    pub sound : IsSound n'
    pub fixed : settings n' ≡ settings n
    pub trusted : (fp : Fingerprint) → trust n' fp ≡ trust n fp
    pub grew : Grows n n'

  pub follow_kept : {n m n' : MeshNode} → Follows n m → Keeps m n' → Follows n n'
  follow_kept {n = n} {m = m} {n' = n'} f k = record {
    sound = record {
      buffers = subst IsValid (sym (ap (λ c. c.4) k.core_kept)) f.sound.buffers;
      waiting = subst (λ s. IsSorted s.pending) (sym (ap (λ c. c.3) k.core_kept)) f.sound.waiting;
    };
    fixed = ap (λ c. (c.0, c.1, c.2)) k.core_kept ∙ f.fixed;
    trusted = λ fp. k.trust_kept fp ∙ f.trusted fp;
    grew = then-Grows n m n' f.grew k.grown;
  }

  -- A step that returns, to such a node.
  abbrev pub Steps : MeshNode → Run → Type 0
  Steps n (ok n') = Follows n n'
  Steps n (err e) = ⊥
  Steps n panic = ⊥

  if_Follows :
      {n x y : MeshNode} (b : Bool) → Follows n x → Follows n y → Follows n (if b then x else y)
  if_Follows true fx fy = fx
  if_Follows false fx fy = fy

  relay_later-Follows :
      {n m : MeshNode} (link : LinkId) (pkt : Packet) (delay : ℕ)
      → Follows n m
      → Follows n (relay_later link pkt delay m)
  unfolding relay_later
  relay_later-Follows {m = m} link pkt delay f = record {
    sound = record {
      buffers = f.sound.buffers;
      waiting = schedule-IsSorted m.scheduler _ _ link delay (now_ms m.clock) f.sound.waiting;
    };
    fixed = f.fixed;
    trusted = f.trusted;
    grew = f.grew;
  }

  maybe_relay-Follows :
      {n m : MeshNode} (link : LinkId) (pkt : Packet)
      → Follows n m
      → Follows n (maybe_relay link pkt m)
  unfolding maybe_relay
  maybe_relay-Follows link pkt f = if_Follows _ f (
      if_Follows _ (relay_later-Follows link pkt _ (follow_kept f (elsewhere refl refl refl)))
        (follow_kept f (elsewhere refl refl refl)))

  dispatch-Kept :
      (link : LinkId) (pkt : Packet) (t : MsgType) (n : MeshNode) → Kept n (dispatch link pkt t n)
  unfolding dispatch
  dispatch-Kept link pkt announce n = handle_announce-Kept pkt n
  dispatch-Kept link pkt channel_message n = handle_channel-Kept pkt n
  dispatch-Kept link pkt sync_request n = handle_sync_request-Kept link pkt n
  dispatch-Kept link pkt noise_handshake n = handle_noise_handshake-Kept pkt n
  dispatch-Kept link pkt direct_message n = handle_direct_message-Keeps pkt n
  dispatch-Kept link pkt receipt n = stays n
  dispatch-Kept link pkt sync_response n = stays n
  dispatch-Kept link pkt media_offer n = stays n
  dispatch-Kept link pkt media_fetch_request n = stays n
  dispatch-Kept link pkt media_chunk n = stays n
  dispatch-Kept link pkt media_fetch_ack n = stays n
  dispatch-Kept link pkt (unknown b) n = stays n

  handled_then_relayed :
      {n m : MeshNode} (link : LinkId) (pkt : Packet) (r : Run)
      → Follows n m
      → Kept m r
      → Steps n (r >>= λ handled. ok (maybe_relay link pkt handled))
  handled_then_relayed link pkt (ok h) f k = maybe_relay-Follows link pkt (follow_kept f k)
  handled_then_relayed link pkt (err e) f k = k
  handled_then_relayed link pkt panic f k = k

  if_Steps :
      (n : MeshNode) (b : Bool) (x : Run) (y : MeshNode)
      → Steps n x
      → Follows n y
      → Steps n (if b then x else ok y)
  if_Steps n true x y sx fy = sx
  if_Steps n false x y sx fy = fy

  admit_packet-Steps :
      {n m : MeshNode} (link : LinkId) (pkt : Packet)
      → Follows n m
      → Steps n (admit_packet link pkt m)
  unfolding admit_packet
  admit_packet-Steps {n = n} {m = m} link pkt f =
      let (rate, allowed) = allow w.float m.rate pkt.sender (now_ms m.clock) in
      let charged : MeshNode = record m { rate = rate } in
      let f' = follow_kept {n' = charged} f (elsewhere refl refl refl) in
      let handled : Run = dispatch link pkt pkt.msg_type charged in
      if_Steps n allowed (handled >>= λ h. ok (maybe_relay link pkt h)) charged
        (handled_then_relayed link pkt handled f' (dispatch-Kept link pkt pkt.msg_type charged)) f'

  tag_neighbour-Keeps :
      (link : LinkId) (pkt : Packet) (t : MsgType) (n : MeshNode)
      → Keeps n (tag_neighbour link pkt t n)
  unfolding tag_neighbour
  tag_neighbour-Keeps link pkt sync_request n = note_link_identity-Keeps link pkt.sender n
  tag_neighbour-Keeps link pkt announce n = stays n
  tag_neighbour-Keeps link pkt channel_message n = stays n
  tag_neighbour-Keeps link pkt noise_handshake n = stays n
  tag_neighbour-Keeps link pkt direct_message n = stays n
  tag_neighbour-Keeps link pkt receipt n = stays n
  tag_neighbour-Keeps link pkt sync_response n = stays n
  tag_neighbour-Keeps link pkt media_offer n = stays n
  tag_neighbour-Keeps link pkt media_fetch_request n = stays n
  tag_neighbour-Keeps link pkt media_chunk n = stays n
  tag_neighbour-Keeps link pkt media_fetch_ack n = stays n
  tag_neighbour-Keeps link pkt (unknown b) n = stays n

  count_copy-Steps :
      {n m : MeshNode} (link : LinkId) (pkt : Packet)
      → Follows n m
      → Steps n (count_copy link pkt m)
  unfolding count_copy
  count_copy-Steps {n = n} {m = m} link pkt f =
      let (seen, obs) = observe m.seen (digest w.crypto pkt) (now_ms m.clock) in
      let counted : MeshNode = record m { seen = seen } in
      let f' = follow_kept {n' = counted} f (elsewhere refl refl refl) in
      if_Steps n obs.is_new (admit_packet link pkt counted) counted (admit_packet-Steps link pkt f')
        f'

  on_packet-Steps :
      {n m : MeshNode} (link : LinkId) (o : Outcome WireError Packet)
      → o ≢ panic
      → Follows n m
      → Steps n (on_packet link o m)
  unfolding on_packet
  on_packet-Steps {m = m} link (ok pkt) safe f =
      count_copy-Steps link pkt (follow_kept f (tag_neighbour-Keeps link pkt pkt.msg_type m))
  on_packet-Steps link (err e) safe f = f
  on_packet-Steps link panic safe f = absurd (safe refl)

  on_bytes-Steps :
      {n m : MeshNode} (link : LinkId) (limit : ℕ) (reply : Frag.Reply)
      → IsSafe limit reply
      → Follows n m
      → Steps n (on_bytes link reply m)
  unfolding on_bytes
  on_bytes-Steps link limit (ok (some bytes)) safe f =
      on_packet-Steps link (decode bytes) (decode-ne-panic bytes) f
  on_bytes-Steps link limit (ok none) safe f = f
  on_bytes-Steps link limit (err e) safe f = f
  on_bytes-Steps link limit panic safe f = absurd safe

  on_frame-Steps :
      (link : LinkId) (frame : List ℕ) (n : MeshNode) → IsSound n → Steps n (on_frame link frame n)
  unfolding on_frame
  on_frame-Steps link frame n s =
      let (valid, safe) = ingest-IsSafe n.reassembler frame (now_ms n.clock) s.buffers in
      on_bytes-Steps link _ (ingest n.reassembler frame (now_ms n.clock)).1 safe (record {
        sound = record { buffers = valid; waiting = s.waiting };
        fixed = refl;
        trusted = λ fp. refl;
        grew = no_more refl;
      })

  -- Of a sound node, no event of the transport makes it panic, whatever a frame holds: it returns, the
  -- node is sound again, and its identity, its configuration, its clock, and for every peer the
  -- verification and the petname are those from before; events are only added.
  pub on_transport_event-Steps :
      (ev : TransportEvent) (n : MeshNode) → IsSound n → Steps n (on_transport_event ev n)
  unfolding on_transport_event greet
  on_transport_event-Steps ev n s = by ev
    where
      here : Follows n n
      here = record { sound = s; fixed = refl; trusted = λ fp. refl; grew = no_more refl }

      by : (ev : TransportEvent) → Steps n (on_transport_event ev n)
      by (link_up link mtu hint) = follow_kept here (
          then-Keeps (elsewhere refl refl refl)
            (then-Keeps (send_announce-Keeps _) (send_sync_requests-Keeps link _)))
      by (mtu_changed link mtu) = follow_kept here (elsewhere refl refl refl)
      by (link_down link) =
          follow_kept here (then-Keeps (elsewhere refl refl refl) (emit-Keeps _ _))
      by (frame_received link frame) = on_frame-Steps link frame n s

  fire-Keeps : (ds : List DueRelay) (n : MeshNode) → Keeps n (fire ds n)
  unfolding fire
  fire-Keeps [] n = stays n
  fire-Keeps (d ∷ ds) n = then-Keeps (elsewhere refl refl refl) (fire-Keeps ds _)

  restart_each-Keeps : (fps : List Fingerprint) (n : MeshNode) → Keeps n (restart_each fps n)
  unfolding restart_each drop_session
  restart_each-Keeps [] n = stays n
  restart_each-Keeps (fp ∷ fps) n =
      then-Keeps (elsewhere refl refl refl)
        (then-Keeps (begin_handshake-Keeps fp (drop_session fp n)) (restart_each-Keeps fps _))

  retry_stalled_handshakes-Keeps :
      (now : Millis) (n : MeshNode) → Keeps n (retry_stalled_handshakes now n)
  unfolding retry_stalled_handshakes
  retry_stalled_handshakes-Keeps now n = restart_each-Keeps _ n

  evict-Follows : {n m : MeshNode} (now : Millis) → Follows n m → Follows n (evict now m)
  unfolding evict
  evict-Follows {m = m} now f = record {
    sound = record {
      buffers = (evict_expired_safe m.reassembler now f.sound.buffers).0;
      waiting = f.sound.waiting;
    };
    fixed = f.fixed;
    trusted = f.trusted;
    grew = f.grew;
  }

  -- A timer of a sound node does not panic: the node that it leaves is sound, with the identity, the
  -- configuration, the clock and the trust from before, and asks to be woken after 250 milliseconds.
  pub tick-Follows :
      (n : MeshNode) → IsSound n → (n' : MeshNode) × (tick n ≡ ok (n', 250)) × Follows n n'
  unfolding tick
  tick-Follows n s =
      let now = now_ms n.clock in
      let out = due_lem n.scheduler now n.seen s.waiting in
      let waiting' = retain-IsSorted (λ e. not (is_ready now e)) n.scheduler.pending s.waiting in
      rw out (
        _,
        refl,
        follow_kept
            (evict-Follows now (
              follow_kept
                (record {
                  sound = record { buffers = s.buffers; waiting = waiting' };
                  fixed = refl;
                  trusted = λ fp. refl;
                  grew = no_more refl;
                })
                (fire-Keeps _ _)))
            (retry_stalled_handshakes-Keeps now _),
      )
