-- ===== src/Node/Tests.antt =====
-- A node at concrete values.
use cockroach_chat.Prelude.{
  arith, length, ok, err, panic, ℕ, ◌↔◌, ◌≤◌, map, ◌≡◌, ◌⊎◌, refl, true, false, none, some, List,
  [], ◌∷◌, ◌++◌, replicate, if◌then◌else◌,
}
use cockroach_chat.Prelude.Bytes.{to_be}
use cockroach_chat.Compress.{maybe_compress}
use cockroach_chat.Node.Payload.{encode_channel}
use cockroach_chat.Relay.Rate
use cockroach_chat.Relay.Rate.{allow, admit, take_token, refill, bucket_of, refill_rate_per_ms}
use cockroach_chat.Relay.Seen
use cockroach_chat.Text.{from_utf8_lossy}
use cockroach_chat.Clock.{now_ms}
use cockroach_chat.Config.{defaults}
use cockroach_chat.OrdMap.{key_eq, get, insert, contains_key}
use cockroach_chat.OrdMap.Keys.{nat_ord, bytes_ord}
use cockroach_chat.Platform.Samples.{small_world, sixty_thousandths, IsBytes-replicate}
use cockroach_chat.Identity.{LocalIdentity}
use cockroach_chat.Store
use cockroach_chat.Store.{Fingerprint, StoredMessage, channel_digests}
use cockroach_chat.Channels.Once.{IsAscending}
use mathlib.Core.List.{Memᴰ}
use cockroach_chat.Store.Index.{IsIndexed, copies, count, known}
use cockroach_chat.OrdMap.Laws.{key_eq_sym, key_eq→eq}
use cockroach_chat.Node.Originals.{messages, room, originals}
use cockroach_chat.Node.Sync.{handle_sync_request_lem}
use cockroach_chat.Wire.{
  Packet, channel_message, verify, digest, encode, write_body, effective_flags, recipient_bytes,
  sign,
}
use cockroach_chat.Wire
use cockroach_chat.Relay.Scheduler.{Pending, schedule}
use cockroach_chat.Noise.{transport}
use cockroach_chat.Node.State.{
  sends, MeshNode, new, frame_received, message_received, default_channel, eph_id,
}
use cockroach_chat.Node.Session.{originate, flood, finish_session}
use cockroach_chat.Node.Commands.{
  channel_packet, verify_peer, unverify_peer, set_petname, forget_peer, petname_of, panic_wipe,
}
use cockroach_chat.Node.Inbound.{handle_sync_request, sync_packet, handle_channel, sender_key}
use cockroach_chat.Node.Drive.{on_transport_event, tick, maybe_relay, relay_later}
use cockroach_chat.Relay.Fanout.{should_relay, rebroadcast_probability, relay_delay}
use cockroach_chat.Relay.Scheduler
use cockroach_chat.Node.Keeps.{trust}
use cockroach_chat.Node.Safety.{Follows, Steps}
use cockroach_chat.Node.Reach.{starts, Reached-Steps}
use cockroach_chat.Node.Trust.{IsKeyed, commands_set_trust}
use cockroach_chat.Node.Attribution.{Receives, handle_channel-Receives, forged_is_dropped}
use cockroach_chat.Node.Binding.{Binds, Drops, finish_session-Binds}
use cockroach_chat.Node.Flood.{Lowered, maybe_relay-Lowered}
use cockroach_chat.Node.Frames.{feed, message_crosses_link}
use cockroach_chat.Node.Links.{dedup_links}
use cockroach_chat.Node.Links.Group.{with_peer}
use cockroach_chat.Node.Links.Distinct.{first, resolved, dedup_links_lem}
use cockroach_chat.Node.Payload.{encode_channel}
use cockroach_chat.Compress.{maybe_compress}
use cockroach_chat.Frag.{split}
use cockroach_chat.Frag
use cockroach_chat.Relay.Seen
use cockroach_chat.Relay.Rate.{allow}
use cockroach_chat.Relay.Rate
use cockroach_chat.Node.Erasure.{IsErased, panic_wipe-IsErased}

abbrev alice : LocalIdentity small_world.crypto
alice = record { signing = 5; dh_secret = replicate 32 3; eph_id = replicate 8 2 }

abbrev a_node : MeshNode
a_node =
    new alice (defaults sixty_thousandths) (record { now = 1000 }) (Store.new 10 0 1000 5) (97 ∷ [])
      0

-- A frame of a whole packet that is too short.
Reached-Steps_example :
    Steps a_node (on_transport_event (frame_received 7 (1 ∷ 1 ∷ 2 ∷ [])) a_node)
    × ((n' : MeshNode) × (tick a_node ≡ ok (n', 250)) × Follows a_node n')
Reached-Steps_example =
    Reached-Steps a_node
      (starts alice (defaults sixty_thousandths) (record { now = 1000 }) (Store.new 10 0 1000 5)
        (97 ∷ []) 0)
      (frame_received 7 (1 ∷ 1 ∷ 2 ∷ []))

abbrev bob : Fingerprint
bob = replicate 32 9

nobody_known : IsKeyed a_node bob
unfolding get new Store.new
nobody_known p h = cc

commands_set_trust_example :
    (trust (verify_peer bob a_node) bob
      ≡ (if key_eq bob bob then (true, (trust a_node bob).1) else trust a_node bob))
    × (trust (unverify_peer bob a_node) bob
        ≡ (if key_eq bob bob then (false, (trust a_node bob).1) else trust a_node bob))
    × (trust (set_petname bob (98 ∷ []) a_node) bob ≡ (
        if key_eq bob bob then ((trust a_node bob).0, petname_of (98 ∷ [])) else trust a_node bob))
    × (trust (forget_peer bob a_node) bob
        ≡ (if key_eq bob bob then (false, none) else trust a_node bob))
commands_set_trust_example = commands_set_trust a_node bob (98 ∷ []) nobody_known bob

-- A message on `#a` that says `hi`, signed by nobody.
abbrev a_packet : Packet
a_packet = Wire.new channel_message 5 1000 (replicate 8 4) none (0 ∷ 2 ∷ 35 ∷ 97 ∷ 104 ∷ 105 ∷ [])

handle_channel-Receives_example :
    (n' : MeshNode) × (handle_channel a_packet a_node ≡ ok n') × Receives a_packet a_node n'
handle_channel-Receives_example = handle_channel-Receives a_packet a_node

-- The sender is known by the key 6.
abbrev knowing : MeshNode
knowing = record a_node { eph_keys = insert (replicate 8 4) (replicate 32 6) [] }

forged_is_dropped_example : handle_channel a_packet knowing ≡ ok knowing
unfolding sender_key get insert verify Wire.new
forged_is_dropped_example = forged_is_dropped a_packet knowing 6 refl refl

abbrev with_session : MeshNode
with_session = record a_node {
  noise_sessions = insert bob (record { inner = transport (0, 0); initiator = true }) [];
}

finish_session-Binds_example :
    Binds bob with_session (finish_session bob with_session)
    ⊎ Drops bob with_session (finish_session bob with_session)
finish_session-Binds_example = finish_session-Binds bob with_session

-- A node that has sent a packet, later and with fewer links.
abbrev after_sending : MeshNode
after_sending = record (flood a_packet a_node) { links = []; relays_fired = 4 }

-- Nodes that differ in what a wipe erases.
abbrev with_secrets : MeshNode
with_secrets = record with_session {
  pending_dms = (bob, (104 ∷ []) ∷ []) ∷ [];
  peer_static_dh = (bob, replicate 32 7) ∷ [];
  notice_pending = (bob, tt) ∷ [];
}

panic_wipe-IsErased_example :
    (panic_wipe with_secrets ≡ panic_wipe a_node) × IsErased (panic_wipe with_secrets)
panic_wipe-IsErased_example = panic_wipe-IsErased with_secrets a_node refl

abbrev a_digest : List ℕ
a_digest = replicate 8 64

abbrev lowered : Pending
lowered = record { packet = record a_packet { ttl = 4 }; send_at_ms = 1011; exclude_link = 7 }

maybe_relay-Lowered_example : Lowered 7 a_packet a_node a_digest lowered
unfolding maybe_relay relay_later should_relay rebroadcast_probability relay_delay schedule digest
    get insert contains_key Wire.new new Scheduler.new defaults now_ms
maybe_relay-Lowered_example = maybe_relay-Lowered 7 a_packet a_node a_digest lowered refl

-- `#general`, and a node that is on it and knows the other.
abbrev general : List ℕ
general = default_channel

abbrev hearer : MeshNode
hearer = record a_node { eph_keys = insert (replicate 8 2) (replicate 32 5) [] }

abbrev sent : Packet
sent = channel_packet general (104 ∷ 105 ∷ []) a_node

-- The frames of that message for a link that carries few bytes: there are more than 16.
abbrev pieces : List (List ℕ)
pieces = elim (split (encode sent) (digest small_world.crypto sent) 19) [
  | ok frames ↦ frames
  | err e ↦ []
  | panic ↦ []
]

cuts : split (encode sent) (digest small_world.crypto sent) 19 ≡ ok pieces
unfolding split encode write_body effective_flags recipient_bytes to_be channel_packet originate
    sign Wire.new new encode_channel maybe_compress defaults eph_id
cuts = refl

many_pieces : 17 ≤ length pieces
unfolding split encode write_body effective_flags recipient_bytes to_be channel_packet originate
    sign Wire.new new encode_channel maybe_compress defaults eph_id
many_pieces = omega arith

message_crosses_link_example :
    (b' : MeshNode) × (feed 7 pieces hearer ≡ ok b')
    × (b'.events
        ≡ hearer.events
          ++ (message_received general (replicate 8 2) (104 ∷ 105 ∷ []) 1000 true ∷ []))
unfolding new Frag.new Seen.new Rate.new defaults now_ms eph_id get insert contains_key sender_key
    encode write_body effective_flags recipient_bytes to_be channel_packet originate sign Wire.new
    encode_channel maybe_compress allow admit take_token refill bucket_of refill_rate_per_ms
    from_utf8_lossy
message_crosses_link_example =
    message_crosses_link a_node hearer 7 general (104 ∷ 105 ∷ []) 19 pieces cuts refl (omega arith)
      refl (omega arith) (omega arith) refl refl (omega arith) (omega arith)
      (refl, IsBytes-replicate 8 2 (omega arith)) (omega arith) refl refl refl refl

-- Two links that reach one peer, of which the second is dropped.
abbrev twice : MeshNode
twice = record a_node {
  links =
      (3, record { mtu = 182; peer_eph = some (replicate 8 4); peer_fp = some bob })
      ∷ (8, record { mtu = 182; peer_eph = some (replicate 8 4); peer_fp = some bob })
      ∷ [];
}

dedup_links_lem_example :
    with_peer bob (dedup_links twice).links ≡ first (with_peer bob (resolved twice).links)
dedup_links_lem_example = dedup_links_lem twice bob ((refl, tt), (tt, tt))

-- Two messages of `#general`, and nodes that keep one and both.
abbrev message : ℕ → StoredMessage
message i = record {
  digest = replicate 8 i;
  channel = general;
  sender = replicate 8 2;
  timestamp_ms = i;
  body = 104 ∷ [];
  raw = 1 ∷ i ∷ [];
}

abbrev keeping : List StoredMessage → MeshNode
keeping ms = record a_node {
  store = record a_node.store {
    channels = (general, ms) ∷ [];
    digests = (replicate 8 1, tt) ∷ (replicate 8 2, tt) ∷ [];
  };
}

both-IsIndexed : IsIndexed (keeping (message 1 ∷ message 2 ∷ [])).store
unfolding copies count contains_key
both-IsIndexed = record { sorted = (tt, tt); indexed = λ d. one_copy d }
  where
    one_copy :
        (d : List ℕ)
        → copies d (keeping (message 1 ∷ message 2 ∷ [])).store.channels
          ≤ known d (keeping (message 1 ∷ message 2 ∷ [])).store.digests
    one_copy d = ground (
      arith,
      key_eq_sym (replicate 8 1) d,
      key_eq_sym (replicate 8 2) d,
      key_eq→eq (replicate 8 1) d,
      key_eq→eq d (replicate 8 2),
    )

handle_sync_request_lem_example :
    let a : MeshNode = keeping (message 1 ∷ []) in
    let b : MeshNode = keeping (message 1 ∷ message 2 ∷ []) in
    (asked : List StoredMessage) × (handle_sync_request 7 (sync_packet general a) b
      ≡ ok (record b { calls = b.calls ++ sends (originals 7 (room 7 b) asked) }))
    × ((m : StoredMessage)
        → Memᴰ m asked ↔ (
            Memᴰ m (messages b general)
            × (Memᴰ m.digest (map (λ x. x.digest) (messages a general)) → ⊥)))
    × IsAscending (map (λ m. m.digest) asked)
unfolding get from_utf8_lossy new
handle_sync_request_lem_example =
    handle_sync_request_lem (keeping (message 1 ∷ [])) (keeping (message 1 ∷ message 2 ∷ [])) 7
      general (omega arith) refl (refl, tt) both-IsIndexed
