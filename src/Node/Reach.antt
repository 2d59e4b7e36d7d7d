-- ===== src/Node/Reach.antt =====
-- The node of node.rs as a state machine: the steps that it takes, and what holds of every node that it
-- reaches.
use cockroach_chat.Prelude.{ℕ, ◌≡◌, refl, ap, subst, sym, ◌∙◌, List, Option, none, some, arith, ok}
use cockroach_chat.Clock.{Millis, ManualClock}
use cockroach_chat.Config.{Tunables}
use cockroach_chat.Platform.{World}
use cockroach_chat.OrdMap.{contains_key}
use cockroach_chat.OrdMap.Keys.{bytes_ord}
use cockroach_chat.OrdMap.Sorted.{IsSorted}
use cockroach_chat.Store.{MemoryStore, Fingerprint, Name, PeerRecord, get_peer}
use cockroach_chat.Identity.{LocalIdentity}
use cockroach_chat.Frag.Stored.{IsValid}
use cockroach_chat.Frag
use cockroach_chat.Relay.Scheduler
use cockroach_chat.Node.State.{
  MeshNode, TransportEvent, new, take_events, reset_relays_fired, session_ready,
}
use cockroach_chat.Node.Session.{flood}
use cockroach_chat.Node.Commands.{
  join_channel, send_channel_message, keep_own, send_announce, send_dm, verify_peer, unverify_peer,
  unverified, drop_peer_session_state, forget_peer, start_dm_session, set_petname, panic_wipe,
}
use cockroach_chat.Node.Drive.{on_transport_event, tick}
use cockroach_chat.Node.Keeps.{Keeps, core, stays, emit-Keeps, if_Keeps}
use cockroach_chat.Node.Keeps.Session.{begin_handshake-Keeps, try_send_verify_notice-Keeps}
use cockroach_chat.Node.Keeps.Inbound.{send_announce-Keeps, send_dm-Keeps}
use cockroach_chat.Node.Safety.{IsSound, Follows, Steps, on_transport_event-Steps, tick-Follows}

module _ ⦃w : World⦄ where
  -- The node with another time on its clock.
  abbrev pub at : Millis → MeshNode → MeshNode
  at t n = record n { clock = record { now = t } }

  -- One step of a node: time passes, the transport or the timer calls it, or its user does.
  pub data Step : MeshNode → MeshNode → Type 0 where
    time : (n : MeshNode) (t : Millis) → Step n (at t n)
    event : (n n' : MeshNode) (ev : TransportEvent) → on_transport_event ev n ≡ ok n' → Step n n'
    timer : (n n' : MeshNode) (wake : Millis) → tick n ≡ ok (n', wake) → Step n n'
    joins : (n : MeshNode) (name : Name) → Step n (join_channel name n)
    posts :
        (n : MeshNode) (name : Name) (text : List ℕ) → Step n (send_channel_message name text n).0
    announces : (n : MeshNode) → Step n (send_announce n)
    writes : (n : MeshNode) (fp : Fingerprint) (text : List ℕ) → Step n (send_dm fp text n)
    verifies : (n : MeshNode) (fp : Fingerprint) → Step n (verify_peer fp n)
    unverifies : (n : MeshNode) (fp : Fingerprint) → Step n (unverify_peer fp n)
    forgets : (n : MeshNode) (fp : Fingerprint) → Step n (forget_peer fp n)
    connects : (n : MeshNode) (fp : Fingerprint) → Step n (start_dm_session fp n)
    names : (n : MeshNode) (fp : Fingerprint) (name : Name) → Step n (set_petname fp name n)
    wipes : (n : MeshNode) → Step n (panic_wipe n)
    drains : (n : MeshNode) → Step n (take_events n).0
    resets : (n : MeshNode) → Step n (reset_relays_fired n)

  -- The nodes that are reached from a new one.
  pub data Reached : MeshNode → Type 0 where
    starts :
        (identity : LocalIdentity w.crypto) (cfg : Tunables w.float.F) (clock : ManualClock)
        (store : MemoryStore) (nickname : Name) (rng : w.rng.R)
        → Reached (new identity cfg clock store nickname rng)
    steps : {n n' : MeshNode} → Reached n → Step n n' → Reached n'

  IsSound-core : {n n' : MeshNode} → core n' ≡ core n → IsSound n → IsSound n'
  IsSound-core k s = record {
    buffers = subst IsValid (sym (ap (λ c. c.4) k)) s.buffers;
    waiting = subst (λ c. IsSorted c.pending) (sym (ap (λ c. c.3) k)) s.waiting;
  }

  core-verify_peer : (fp : Fingerprint) (n : MeshNode) → core (verify_peer fp n) ≡ core n
  unfolding verify_peer
  core-verify_peer fp n = (try_send_verify_notice-Keeps fp _).core_kept

  core-unverified : (o : Option PeerRecord) (n : MeshNode) → core (unverified o n) ≡ core n
  unfolding unverified
  core-unverified none n = refl
  core-unverified (some p) n = refl

  core-unverify_peer : (fp : Fingerprint) (n : MeshNode) → core (unverify_peer fp n) ≡ core n
  unfolding unverify_peer drop_peer_session_state
  core-unverify_peer fp n = core-unverified (get_peer n.store fp) n

  start_dm_session-Keeps : (fp : Fingerprint) (n : MeshNode) → Keeps n (start_dm_session fp n)
  unfolding start_dm_session
  start_dm_session-Keeps fp n = if_Keeps (session_ready fp n) (emit-Keeps _ n) (
      if_Keeps (contains_key fp n.fp_to_eph)
        (if_Keeps (contains_key fp n.noise_sessions) (stays n) (begin_handshake-Keeps fp n))
        (stays n))

  new-IsSound :
      (identity : LocalIdentity w.crypto) (cfg : Tunables w.float.F) (clock : ManualClock)
      (store : MemoryStore) (nickname : Name) (rng : w.rng.R)
      → IsSound (new identity cfg clock store nickname rng)
  unfolding new Frag.new Scheduler.new
  new-IsSound identity cfg clock store nickname rng = record {
    buffers = record { bounded = omega arith; sorted = tt; partial = tt };
    waiting = tt;
  }

  step-IsSound : {n n' : MeshNode} → IsSound n → Step n n' → IsSound n'
  unfolding join_channel send_channel_message keep_own flood forget_peer drop_peer_session_state
      set_petname panic_wipe take_events reset_relays_fired
  step-IsSound s (time n t) = record { buffers = s.buffers; waiting = s.waiting }
  step-IsSound s (event n n' ev e) = (subst (Steps n) e (on_transport_event-Steps ev n s)).sound
  step-IsSound s (timer n n' wake e) =
      let (m, ran, f) = tick-Follows n s in subst IsSound (cc (sym ran ∙ e)) f.sound
  step-IsSound s (joins n name) = IsSound-core refl s
  step-IsSound s (posts n name text) = IsSound-core refl s
  step-IsSound s (announces n) = IsSound-core (send_announce-Keeps n).core_kept s
  step-IsSound s (writes n fp text) = IsSound-core (send_dm-Keeps fp text n).core_kept s
  step-IsSound s (verifies n fp) = IsSound-core (core-verify_peer fp n) s
  step-IsSound s (unverifies n fp) = IsSound-core (core-unverify_peer fp n) s
  step-IsSound s (forgets n fp) = IsSound-core refl s
  step-IsSound s (connects n fp) = IsSound-core (start_dm_session-Keeps fp n).core_kept s
  step-IsSound s (names n fp name) = IsSound-core refl s
  step-IsSound s (wipes n) = IsSound-core refl s
  step-IsSound s (drains n) = IsSound-core refl s
  step-IsSound s (resets n) = IsSound-core refl s

  pub Reached-IsSound : {n : MeshNode} → Reached n → IsSound n
  Reached-IsSound (starts identity cfg clock store nickname rng) =
      new-IsSound identity cfg clock store nickname rng
  Reached-IsSound (steps r s) = step-IsSound (Reached-IsSound r) s

  -- Whatever the transport, the timer, the clock and the user have done since a node was new, in whatever
  -- order, it does not panic on any event or on the timer: both return, change neither its identity,
  -- its configuration and its clock nor what its user has said of any peer, and lose no event.
  pub Reached-Steps :
      (n : MeshNode)
      → Reached n
      → (ev : TransportEvent)
      → Steps n (on_transport_event ev n)
        × ((n' : MeshNode) × (tick n ≡ ok (n', 250)) × Follows n n')
  Reached-Steps n r ev =
      let s = Reached-IsSound r in (on_transport_event-Steps ev n s, tick-Follows n s)
