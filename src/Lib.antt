-- ===== src/Lib.antt =====
-- A verification library of cockroach-chat, a chat over a mesh of Bluetooth links. Modelled is the core
-- crate, crates/meshcore/src: the node, from what its transport, its timer and its user call to what it
-- sends, and every part that it is made of.
--
-- How the parts interact. An author builds a packet (wire.rs) with the TTL that config.rs gives its
-- type, compresses the body (compress.rs), signs and encodes it, and splits the bytes into the frames
-- that a link can carry (frag.rs). A receiver puts the frames together again, decodes the packet,
-- asks the seen cache whether it is new and the rate limiter whether its sender may speak, handles it
-- by its type, and hands a copy to the scheduler, which rebroadcasts it unless enough other copies were
-- heard meanwhile (relay.rs). A handler keeps messages, peers and envelopes in a store (store.rs),
-- answers what a neighbour lacks of a channel (channels.rs), learns the keys that an announce is signed
-- by (identity.rs), and drives one Noise session for each peer (noise.rs). The node (node.rs) owns all
-- of these and is called with the events of a transport (transport.rs); time comes from a clock
-- (clock.rs).
--
-- Which file models which part:
--   Clock     crates/meshcore/src/clock.rs: ManualClock.new, now_ms, advance, set
--   Config    crates/meshcore/src/config.rs: Tunables, its defaults, origin_ttl
--   Error     crates/meshcore/src/error.rs: WireError, FragError
--   Wire      crates/meshcore/src/wire.rs: MsgType, Packet, encode, decode, sign, verify, digest
--   Compress  crates/meshcore/src/compress.rs: maybe_compress, decompress
--   Frag      crates/meshcore/src/frag.rs: split, Reassembler.ingest, evict_expired
--   Relay     crates/meshcore/src/relay.rs: SeenCache (Relay/Seen), RateLimiter (Relay/Rate),
--             RelayScheduler (Relay/Scheduler), the coin and the jitter (Relay/Fanout)
--   Store     crates/meshcore/src/store.rs: MemoryStore, all operations of the trait Store
--   Channels  crates/meshcore/src/channels.rs: SyncFilter.new, missing_from (normalize is in Node/State)
--   Identity  crates/meshcore/src/identity.rs: LocalIdentity; the proof of work (Identity/Pow)
--   Noise     crates/meshcore/src/noise.rs: NoiseSession; its window of counters (Noise/Replay)
--   Node      crates/meshcore/src/node.rs and transport.rs:
--     State      MeshNode, MeshEvent, TransportEvent, the constants, and the calls that only read
--     Payload    the codecs of payloads
--     Fanout     broadcast, send_on_link, send_bytes
--     Session    send_directed, the handshakes that the node begins, and what goes over a session
--     Handshake  handle_noise_handshake, handle_direct_message
--     Commands   what the user calls: send_channel_message, send_dm, verify_peer, panic_wipe and others
--     Links      note_link_identity, dedup_links
--     Inbound    handle_announce, handle_channel, handle_sync_request, send_sync_requests
--     Drive      on_transport_event, on_frame, maybe_relay, tick, retry_stalled_handshakes
--     Keeps, Safety, Reach, Trust, Attribution, Binding, Flood, Erasure, Delivery, Frames, Originals,
--                Sync, Links/Group,
--                Links/Distinct: the proofs about the node
--   Text      strings as UTF-8 bytes, with the lossy decoding of the standard library
--   OrdMap    the maps: ordered association lists, with the laws that the proofs use
--   Platform  other crates, as records of operations with their documented laws: Crypto (ed25519-dalek,
--             x25519-dalek and sha2), Lz4 (lz4_flex), Float (f64), Rng (rand), Snow (snow), Unicode (the
--             tables of the standard library), and World, which is all of them
--   Prelude   numbers, lists, bytes, and the results of fallible code
--
-- State is passed explicitly: an operation takes a record and returns the new one with its result. The
-- node is taken at the clock that is advanced by hand, the store in memory, and a transport whose calls
-- are recorded in order. A byte array is a list of numbers, and the ranges of the Rust types are
-- hypotheses where they matter. A result is a value, an error, or a panic, which is what an index, a
-- slice or an unwrap out of range gives. Machine integers keep their wrap-around or saturation. A hash
-- map is an ordered one, since the code does not depend on the order of its entries, but where it takes
-- the minimum (of two entries of one age, the model evicts the one with the lesser key) and where it
-- walks the stalled handshakes (the model takes them in the order of the fingerprints).
--
-- The chunks of a buffer are cut, and its text is read, on fuel: the length of the buffer, which is
-- enough since each step takes at least one byte off. The search for a proof of work has the number of
-- its rounds as fuel. All other recursion is on lists.
--
-- Not modelled: the text of errors; the key generation of the operating system and the overwriting of
-- secrets in memory; the SQL store, whose behaviour is that of the database; the bindings for the mobile
-- apps; and the simulator, which drives nodes for measurements.
pub mod Prelude
pub mod OrdMap
pub mod Error
pub mod Platform
pub mod Wire
pub mod Clock
pub mod Config
pub mod Compress
pub mod Relay
pub mod Store
pub mod Channels
pub mod Text
pub mod Noise
pub mod Identity
pub mod Node
pub mod Frag
