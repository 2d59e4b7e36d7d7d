-- ===== src/Node/State.antt =====
-- The state of `MeshNode` in crates/meshcore/src/node.rs, its constants and the calls that only read.
-- The node is taken at the clock that is advanced by hand, the store in memory, and a transport that
-- records its calls. The crates that it uses are those of `w`.
use cockroach_chat.Prelude.{
  ℕ, Bool, false, Option, none, some, List, [], ◌∷◌, ◌++◌, map, length, ◌==◌, if◌then◌else◌,
}
use cockroach_chat.Clock.{Millis, ManualClock}
use cockroach_chat.Config.{Tunables}
use cockroach_chat.Platform.{World}
use cockroach_chat.OrdMap.{Map, get, insert}
use cockroach_chat.OrdMap.Keys.{bytes_ord}
use cockroach_chat.Wire.{EphId}
use cockroach_chat.Store.{MemoryStore, Fingerprint, Name, or_default}
use cockroach_chat.Relay.Seen.{SeenCache}
use cockroach_chat.Relay.Seen
use cockroach_chat.Relay.Rate.{RateLimiter}
use cockroach_chat.Relay.Rate
use cockroach_chat.Relay.Scheduler.{RelayScheduler, LinkId}
use cockroach_chat.Relay.Scheduler
use cockroach_chat.Frag.{Reassembler}
use cockroach_chat.Frag
use cockroach_chat.Identity.{LocalIdentity}
use cockroach_chat.Identity
use cockroach_chat.Noise.{NoiseSession}
use cockroach_chat.Noise
use cockroach_chat.Node.Fanout.{LinkState, Sent}

pub data MeshEvent : Type 0 where
  message_received :
      (channel : Name) (sender : EphId) (body : List ℕ) (timestamp_ms : ℕ) (verified : Bool)
      → MeshEvent
  peer_appeared : (fingerprint : Fingerprint) (eph : EphId) (petname : Option Name) → MeshEvent
  dm_received : (sender_fp : Fingerprint) (from_eph : EphId) (text : List ℕ) (kind : ℕ) → MeshEvent
  dm_session : (peer_fp : Fingerprint) (verified : Bool) → MeshEvent
  peer_key_changed : (peer_fp : Fingerprint) → MeshEvent
  peer_lost : (link : LinkId) → MeshEvent
  stats : (links seen pending_relays : ℕ) → MeshEvent

-- What the transport is told.
pub data Call : Type 0 where
  send : LinkId → List ℕ → Call
  close : LinkId → Call

pub data TransportEvent : Type 0 where
  link_up : (link : LinkId) (mtu : ℕ) (peer_hint : Option (List ℕ)) → TransportEvent
  link_down : (link : LinkId) → TransportEvent
  frame_received : (link : LinkId) (frame : List ℕ) → TransportEvent
  mtu_changed : (link : LinkId) (mtu : ℕ) → TransportEvent

abbrev pub dm_handshake_retry_ms : Millis
dm_handshake_retry_ms = 2000

abbrev pub dm_handshake_max_attempts : ℕ
dm_handshake_max_attempts = 12

abbrev pub dm_kind_text : ℕ
dm_kind_text = 0

abbrev pub dm_kind_verify_notice : ℕ
dm_kind_verify_notice = 1

abbrev pub dm_kind_verify_ack : ℕ
dm_kind_verify_ack = 2

abbrev pub dm_kind_key_changed : ℕ
dm_kind_key_changed = 3

abbrev pub resync_handshake_threshold : ℕ
resync_handshake_threshold = 2

-- `"#general"`
abbrev pub default_channel : Name
default_channel = b'#' ∷ b'g' ∷ b'e' ∷ b'n' ∷ b'e' ∷ b'r' ∷ b'a' ∷ b'l' ∷ []

-- `trim_start_matches('#')`
pub trim_hashes : Name → Name
trim_hashes [] = []
trim_hashes (b ∷ bs) = let rest = trim_hashes bs in if b == b'#' then rest else b ∷ bs

-- A set of keys.
abbrev pub Keys : Type 0 → Type 0
Keys K = Map K (Unit {0})

-- `entry(k).or_default().push(a)`
unfoldable pub push_entry :
    {A : Type 0} → List ℕ → A → Map (List ℕ) (List A) → Map (List ℕ) (List A)
push_entry k a m = insert k (or_default (get k m) ++ (a ∷ [])) m

module _ ⦃w : World⦄ where
  pub normalize : Name → Name
  unfolding trim_hashes
  normalize name = b'#' ∷ w.unicode.to_lowercase (trim_hashes (w.unicode.trim name))

  pub record MeshNode : Type 0 where
    pub identity : LocalIdentity w.crypto
    pub cfg : Tunables w.float.F
    pub calls : List Call
    pub clock : ManualClock
    pub store : MemoryStore
    pub seen : SeenCache w.float.F
    pub rate : RateLimiter w.float.F
    pub scheduler : RelayScheduler w.float.F
    pub reassembler : Reassembler w.float.F
    pub rng : w.rng.R
    pub links : Map LinkId LinkState
    pub eph_keys : Map EphId (List ℕ)
    pub subscribed : Keys Name
    pub events : List MeshEvent
    pub nickname : Name
    pub relays_fired : ℕ
    pub noise_sessions : Map Fingerprint (NoiseSession w.snow)
    pub pending_dms : Map Fingerprint (List (List ℕ))
    pub fp_to_eph : Map Fingerprint EphId
    pub peer_static_dh : Map Fingerprint (List ℕ)
    pub pending_inbound_dms : Map Fingerprint (List (List ℕ))
    pub handshake_last_ms : Map Fingerprint Millis
    pub handshake_attempts : Map Fingerprint ℕ
    pub resync_pending : Map Fingerprint ℕ
    pub notice_pending : Keys Fingerprint

  -- The generator is the one that is seeded with the last argument of the source.
  unfoldable pub new :
      LocalIdentity w.crypto
      → Tunables w.float.F
      → ManualClock
      → MemoryStore
      → Name
      → w.rng.R
      → MeshNode
  new identity cfg clock store nickname rng = record {
    identity = identity;
    cfg = cfg;
    calls = [];
    clock = clock;
    store = store;
    seen = Seen.new cfg;
    rate = Rate.new w.float cfg;
    scheduler = Scheduler.new cfg;
    reassembler = Frag.new cfg;
    rng = rng;
    links = [];
    eph_keys = [];
    subscribed = insert default_channel tt [];
    events = [];
    nickname = nickname;
    relays_fired = 0;
    noise_sessions = [];
    pending_dms = [];
    fp_to_eph = [];
    peer_static_dh = [];
    pending_inbound_dms = [];
    handshake_last_ms = [];
    handshake_attempts = [];
    resync_pending = [];
    notice_pending = [];
  }

  unfoldable pub eph_id : MeshNode → EphId
  eph_id n = n.identity.eph_id

  pub fingerprint : MeshNode → Fingerprint
  fingerprint n = Identity.fingerprint w.crypto n.identity

  pub link_count : MeshNode → ℕ
  link_count n = length n.links

  unfoldable pub reset_relays_fired : MeshNode → MeshNode
  reset_relays_fired n = record n { relays_fired = 0 }

  unfoldable pub take_events : MeshNode → MeshNode × List MeshEvent
  take_events n = (record n { events = [] }, n.events)

  unfoldable pub emit : MeshEvent → MeshNode → MeshNode
  emit e n = record n { events = n.events ++ (e ∷ []) }

  -- The session is there and ready.
  unfoldable pub session_ready : Fingerprint → MeshNode → Bool
  session_ready fp n = elim (get fp n.noise_sessions) [
    | some s ↦ Noise.is_ready w.snow s
    | none ↦ false
  ]

  abbrev pub sends : List Sent → List Call
  sends sent = map (λ s. send s.0 s.1) sent
