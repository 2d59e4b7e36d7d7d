-- ===== src/Node/Erasure.antt =====
-- What a node still knows after a wipe.
use cockroach_chat.Prelude.{
  ℕ, ◌≡◌, refl, sym, ap, ◌∙◌, Bool, true, false, if◌then◌else◌, none, List, [],
}
use cockroach_chat.Platform.{World}
use cockroach_chat.Clock.{Millis, ManualClock}
use cockroach_chat.Config.{Tunables}
use cockroach_chat.Identity.{LocalIdentity}
use cockroach_chat.Frag.{Reassembler}
use cockroach_chat.Relay.Seen.{SeenCache}
use cockroach_chat.Relay.Rate.{RateLimiter}
use cockroach_chat.Relay.Scheduler.{LinkId, RelayScheduler}
use cockroach_chat.Node.Fanout.{LinkState}
use cockroach_chat.OrdMap.{Map, get, contains_key}
use cockroach_chat.OrdMap.Keys.{bytes_ord}
use cockroach_chat.Wire.{Packet}
use cockroach_chat.Store.{Name, Fingerprint, put_dm, queue_envelope}
use cockroach_chat.Store
use cockroach_chat.Store.Wipe.{IsBlank, panic_wipe-IsBlank}
use cockroach_chat.Node.State.{MeshNode, Call, Keys, take_events, session_ready}
use cockroach_chat.Node.Session.{keep_dm, eph_to_fp}
use cockroach_chat.Node.Commands.{send_dm, route_dm, hold_for_later, start_dm_session, panic_wipe}
use cockroach_chat.Node.Handshake.{handle_direct_message, is_for_us}
use cockroach_chat.Node.Inbound.{sender_key}
use cockroach_chat.Node.Keeps.{trust}

module _ ⦃w : World⦄ where
  -- No query of the store finds anything, no peer is trusted, no sender is known by a key, there is no
  -- session and no event, and what is written to a peer only waits.
  pub record IsErased (n : MeshNode) : Type 0 where
    pub blank : IsBlank n.store
    pub no_trust : (fp : Fingerprint) → trust n fp ≡ (false, none)
    pub no_session : (fp : Fingerprint) → session_ready fp n ≡ false
    pub no_key : (pkt : Packet) → sender_key pkt n ≡ none
    pub no_event : (take_events n).1 ≡ []
    pub silent : (fp : Fingerprint) (text : List ℕ) → (send_dm fp text n).calls ≡ n.calls
    pub unreachable : (fp : Fingerprint) → start_dm_session fp n ≡ n
    pub deaf : (pkt : Packet) → handle_direct_message pkt n ≡ n

  -- What a wipe does not touch.
  abbrev pub Kept : Type 0
  Kept =
      LocalIdentity w.crypto
      × Tunables w.float.F
      × List Call
      × ManualClock
      × (ℕ × Millis × Millis × ℕ)
      × SeenCache w.float.F
      × RateLimiter w.float.F
      × RelayScheduler w.float.F
      × Reassembler w.float.F
      × w.rng.R
      × Map LinkId LinkState
      × Keys Name
      × Name
      × ℕ

  abbrev pub kept : MeshNode → Kept
  kept n = (
    n.identity,
    n.cfg,
    n.calls,
    n.clock,
    (
      n.store.history_max, n.store.history_ms, n.store.envelope_ttl_ms,
      n.store.envelope_max_per_peer,
    ),
    n.seen,
    n.rate,
    n.scheduler,
    n.reassembler,
    n.rng,
    n.links,
    n.subscribed,
    n.nickname,
    n.relays_fired,
  )

  -- The node that has what is kept, and nothing else.
  abbrev bare : Kept → MeshNode
  bare
        (
          identity, cfg, calls, clock, bounds, seen, rate, scheduler, reassembler, rng, links,
          subscribed, nickname, fired,
        ) =
      record {
        identity = identity;
        cfg = cfg;
        calls = calls;
        clock = clock;
        store = Store.new bounds.0 bounds.1 bounds.2 bounds.3;
        seen = seen;
        rate = rate;
        scheduler = scheduler;
        reassembler = reassembler;
        rng = rng;
        links = links;
        eph_keys = [];
        subscribed = subscribed;
        events = [];
        nickname = nickname;
        relays_fired = fired;
        noise_sessions = [];
        pending_dms = [];
        fp_to_eph = [];
        peer_static_dh = [];
        pending_inbound_dms = [];
        handshake_last_ms = [];
        handshake_attempts = [];
        resync_pending = [];
        notice_pending = [];
      }

  panic_wipe-bare : (n : MeshNode) → panic_wipe n ≡ bare (kept n)
  unfolding panic_wipe Store.panic_wipe Store.new
  panic_wipe-bare n = refl

  silenced : (n : MeshNode) → IsErased (panic_wipe n)
  unfolding panic_wipe session_ready sender_key take_events send_dm route_dm hold_for_later keep_dm
      start_dm_session handle_direct_message eph_to_fp get contains_key Store.panic_wipe
  silenced n = record {
    blank = panic_wipe-IsBlank n.store;
    no_trust = λ fp. refl;
    no_session = λ fp. refl;
    no_key = λ pkt. refl;
    no_event = refl;
    silent = λ fp text. refl;
    unreachable = λ fp. refl;
    deaf = λ pkt. either (is_for_us pkt (panic_wipe n)) (panic_wipe n);
  }
    where
      either : (b : Bool) (m : MeshNode) → (if b then m else m) ≡ m
      either true m = refl
      either false m = refl

  -- Two nodes that agree on their identity, tunables, clock, links, channels, nickname and generator,
  -- the bounds of the store, and what is in the seen cache, the rate limiter, the scheduler and the
  -- reassembler, and that have made the same calls and fired as many relays, are the same after a wipe,
  -- whatever messages, peers, keys, sessions, handshakes and events each had: nothing of these is left
  -- for any later call to show. In the node that is left every query of the store finds nothing, no peer
  -- is trusted, no sender is known by a key, and there is no session and no event; a message that is
  -- then written to a peer is sent nowhere, no session is begun, and no direct message is taken.
  pub panic_wipe-IsErased :
      (n m : MeshNode) → kept n ≡ kept m → (panic_wipe n ≡ panic_wipe m) × IsErased (panic_wipe n)
  panic_wipe-IsErased n m same =
      (panic_wipe-bare n ∙ ap bare same ∙ sym (panic_wipe-bare m), silenced n)
