-- ===== src/Store.antt =====
-- crates/meshcore/src/store.rs: the store in memory. Strings are their bytes, a set of digests is a map
-- to the unit type, and the trait is implemented by these functions.
pub mod Order
pub mod Queue
pub mod Threads
pub mod Index
pub mod Lookup
pub mod Wipe
pub mod Peers
mod Tests
use cockroach_chat.Prelude.{
  ℕ, ◌+◌, ◌-◌, Bool, true, false, not, ◌&&◌, Option, none, some, List, [], ◌∷◌, ◌++◌, map, length,
  ltb, leb, ◌==◌, if◌then◌else◌, retain, drop, is_some,
}
use cockroach_chat.Clock.{Millis}
use cockroach_chat.Wire.{EphId}
use cockroach_chat.OrdMap.{Map, key_eq, get, contains_key, insert, remove, update}
use cockroach_chat.OrdMap.Keys.{bytes_ord}

-- The hash of a peer's verifying key, `[u8; 32]`.
abbrev pub Fingerprint : Type 0
Fingerprint = List ℕ

abbrev pub Digest : Type 0
Digest = List ℕ

abbrev pub Name : Type 0
Name = List ℕ

pub record StoredMessage : Type 0 where
  pub digest : Digest
  pub channel : Name
  pub sender : EphId
  pub timestamp_ms : ℕ
  pub body : List ℕ
  pub raw : List ℕ

pub record PeerRecord : Type 0 where
  pub fingerprint : Fingerprint
  pub petname : Option Name
  pub verified : Bool
  pub last_eph : EphId
  pub last_seen_ms : Millis

pub record StoredDm : Type 0 where
  pub peer : Fingerprint
  pub mine : Bool
  pub timestamp_ms : ℕ
  pub body : List ℕ

pub record Envelope : Type 0 where
  pub packet_bytes : List ℕ
  pub queued_ms : Millis

pub is_control_dm : List ℕ → Bool
is_control_dm (kind ∷ []) = leb 1 kind && leb kind 3
is_control_dm _ = false

pub record MemoryStore : Type 0 where
  pub channels : Map Name (List StoredMessage)
  pub digests : Map Digest (Unit {0})
  pub peers : Map Fingerprint PeerRecord
  pub dms : Map Fingerprint (List StoredDm)
  pub envelopes : Map Fingerprint (List Envelope)
  pub history_max : ℕ
  pub history_ms : Millis
  pub envelope_ttl_ms : Millis
  pub envelope_max_per_peer : ℕ

unfoldable pub new : ℕ → Millis → Millis → ℕ → MemoryStore
new history_max history_ms envelope_ttl_ms envelope_max_per_peer = record {
  channels = [];
  digests = [];
  peers = [];
  dms = [];
  envelopes = [];
  history_max = history_max;
  history_ms = history_ms;
  envelope_ttl_ms = envelope_ttl_ms;
  envelope_max_per_peer = envelope_max_per_peer;
}

-- `unwrap_or_default` on a list.
abbrev pub or_default {ℓ} : {A : Type ℓ} → Option (List A) → List A
or_default none = []
or_default (some xs) = xs

-- `sort_by_key`, which is stable.
pub place {ℓ} : {A : Type ℓ} → (A → ℕ) → A → List A → List A
place key x [] = x ∷ []
place key x (y ∷ ys) =
    let rest = place key x ys in if leb (key x) (key y) then x ∷ y ∷ ys else y ∷ rest

pub sort_by_key {ℓ} : {A : Type ℓ} → (A → ℕ) → List A → List A
unfolding place
sort_by_key key [] = []
sort_by_key key (x ∷ xs) = place key x (sort_by_key key xs)

-- `while xs.len() > max { xs.remove(0); }`
pub drop_front {ℓ} : {A : Type ℓ} → ℕ → List A → List A
drop_front max [] = []
drop_front max (x ∷ xs) =
    let rest = drop_front max xs in if ltb max (length (x ∷ xs)) then rest else x ∷ xs

-- The same loop over messages, which also forgets their digests.
pub drop_oldest :
    ℕ → List StoredMessage → Map Digest (Unit {0}) → List StoredMessage × Map Digest (Unit {0})
drop_oldest max [] digests = ([], digests)
drop_oldest max (m ∷ ms) digests =
    let rest = drop_oldest max ms (remove m.digest digests) in
    if ltb max (length (m ∷ ms)) then rest else (m ∷ ms, digests)

-- The last `limit` entries, by `split_off`.
pub newest {ℓ} : {A : Type ℓ} → ℕ → List A → List A
newest limit v = if ltb limit (length v) then drop (length v - limit) v else v

-- The messages of a channel that are young enough, if there is an age limit.
pub unexpired : MemoryStore → Millis → List StoredMessage → List StoredMessage
unexpired s now ms =
    if ltb 0 s.history_ms then retain (λ m. ltb (now - m.timestamp_ms) s.history_ms) ms else ms

pub prune_channel : MemoryStore → Name → Millis → MemoryStore
unfolding drop_oldest unexpired
prune_channel s channel now = elim (get channel s.channels) [
  | some msgs ↦
      let (kept, digests) = drop_oldest s.history_max (unexpired s now msgs) s.digests in
      record s { channels = insert channel kept s.channels; digests = digests }
  | none ↦ s
]

-- The store with one more message at the end of its channel, and the channel sorted.
pub add_message : MemoryStore → StoredMessage → MemoryStore
unfolding sort_by_key
add_message s msg =
    let pushed =
      insert msg.channel (or_default (get msg.channel s.channels) ++ (msg ∷ [])) s.channels in
    record s {
      channels = update msg.channel (sort_by_key (λ m. m.timestamp_ms)) pushed;
      digests = insert msg.digest tt s.digests;
    }

pub put_channel_message : MemoryStore → StoredMessage → MemoryStore
unfolding add_message prune_channel
put_channel_message s msg =
    if contains_key msg.digest s.digests
    then s
    else prune_channel (add_message s msg) msg.channel msg.timestamp_ms

pub has_message : MemoryStore → Digest → Bool
has_message s digest = contains_key digest s.digests

pub channel_history : MemoryStore → Name → ℕ → List StoredMessage
unfolding newest sort_by_key
channel_history s channel limit =
    newest limit (sort_by_key (λ m. m.timestamp_ms) (or_default (get channel s.channels)))

unfoldable pub channel_digests : MemoryStore → Name → List Digest
channel_digests s channel = map (λ m. m.digest) (or_default (get channel s.channels))

-- `find` over the messages of one channel, then of the others.
pub find_message : Digest → List StoredMessage → Option StoredMessage
find_message digest [] = none
find_message digest (m ∷ ms) =
    let rest = find_message digest ms in if key_eq m.digest digest then some m else rest

pub find_in_channels : Digest → Map Name (List StoredMessage) → Option StoredMessage
unfolding find_message
find_in_channels digest [] = none
find_in_channels digest ((name, ms) ∷ channels) = elim (find_message digest ms) [
  | some m ↦ some m
  | none ↦ find_in_channels digest channels
]

pub message_by_digest : MemoryStore → Digest → Option StoredMessage
unfolding find_in_channels
message_by_digest s digest = find_in_channels digest s.channels

unfoldable pub upsert_peer : MemoryStore → PeerRecord → MemoryStore
upsert_peer s peer = record s { peers = insert peer.fingerprint peer s.peers }

unfoldable pub get_peer : MemoryStore → Fingerprint → Option PeerRecord
get_peer s fp = get fp s.peers

pub list_peers : MemoryStore → List PeerRecord
list_peers s = map (λ e. e.1) s.peers

unfoldable pub put_dm : MemoryStore → StoredDm → MemoryStore
unfolding drop_front sort_by_key
put_dm s dm =
    let thread = sort_by_key (λ d. d.timestamp_ms) (or_default (get dm.peer s.dms) ++ (dm ∷ [])) in
    record s { dms = insert dm.peer (drop_front s.history_max thread) s.dms }

pub dm_history : MemoryStore → Fingerprint → ℕ → List StoredDm
unfolding newest sort_by_key
dm_history s peer limit =
    newest limit (sort_by_key (λ d. d.timestamp_ms) (or_default (get peer s.dms)))

-- An envelope that is still to be delivered.
abbrev pub is_fresh : MemoryStore → Millis → Envelope → Bool
is_fresh s now e = ltb (now - e.queued_ms) s.envelope_ttl_ms

unfoldable pub queue_envelope : MemoryStore → Fingerprint → List ℕ → Millis → MemoryStore
unfolding drop_front
queue_envelope s recipient packet_bytes now =
    let live = retain (is_fresh s now) (or_default (get recipient s.envelopes)) in
    let queue = live ++ (record { packet_bytes = packet_bytes; queued_ms = now } ∷ []) in
    record s { envelopes = insert recipient (drop_front s.envelope_max_per_peer queue) s.envelopes }

unfoldable pub take_envelopes : MemoryStore → Fingerprint → MemoryStore × List (List ℕ)
take_envelopes s recipient = (
  record s { envelopes = remove recipient s.envelopes },
  map (λ e. e.packet_bytes) (or_default (get recipient s.envelopes)),
)

unfoldable pub delete_peer : MemoryStore → Fingerprint → MemoryStore
delete_peer s fp = record s { peers = remove fp s.peers }

unfoldable pub delete_dms : MemoryStore → Fingerprint → Bool → MemoryStore
unfolding is_control_dm
delete_dms s fp only_control =
    if only_control
    then record s { dms = update fp (retain (λ d. not (is_control_dm d.body))) s.dms }
    else record s { dms = remove fp s.dms }

unfoldable pub panic_wipe : MemoryStore → MemoryStore
panic_wipe s = record s { channels = []; digests = []; peers = []; dms = []; envelopes = [] }
