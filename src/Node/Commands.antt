-- ===== src/Node/Commands.antt =====
-- The commands of node.rs: what the user asks of it.
use cockroach_chat.Prelude.{
  ℕ, Bool, true, false, Option, none, some, List, [], ◌∷◌, length, if◌then◌else◌,
}
use cockroach_chat.Clock.{now_ms}
use cockroach_chat.Config.{origin_ttl}
use cockroach_chat.Platform.{World}
use cockroach_chat.OrdMap.{contains_key, insert, remove}
use cockroach_chat.OrdMap.Keys.{bytes_ord}
use cockroach_chat.Wire.{Packet, announce, channel_message, encode, digest}
use cockroach_chat.Store.{
  Fingerprint, Name, Digest, PeerRecord, StoredMessage, put_channel_message, queue_envelope,
  get_peer, upsert_peer, delete_peer, delete_dms,
}
use cockroach_chat.Store
use cockroach_chat.Identity.{verifying_key, dh_public}
use cockroach_chat.Node.State.{
  MeshNode, normalize, emit, dm_session, session_ready, eph_id, push_entry, dm_kind_text,
}
use cockroach_chat.Node.Payload.{encode_announce, encode_channel}
use cockroach_chat.Node.Session.{
  unwrap_or, originate, flood, encrypt_and_send_dm, keep_dm, begin_handshake,
  try_send_verify_notice,
}

abbrev pub petname_of : Name → Option Name
petname_of [] = none
petname_of (b ∷ bs) = some (b ∷ bs)

abbrev pub verified_of : Option PeerRecord → Bool
verified_of none = false
verified_of (some p) = p.verified

abbrev pub petname_in : Option PeerRecord → Option Name
petname_in none = none
petname_in (some p) = p.petname

module _ ⦃w : World⦄ where
  unfoldable pub join_channel : Name → MeshNode → MeshNode
  join_channel name n = record n { subscribed = insert (normalize name) tt n.subscribed }

  unfoldable pub channel_packet : Name → List ℕ → MeshNode → Packet
  channel_packet channel text n =
      originate channel_message (origin_ttl n.cfg channel_message (length n.links)) none
        (encode_channel w.lz4 n.cfg channel text) n

  unfoldable pub keep_own : Name → List ℕ → Packet → MeshNode → MeshNode
  keep_own channel text pkt n = record n {
    store = put_channel_message n.store (record {
      digest = digest w.crypto pkt;
      channel = channel;
      sender = eph_id n;
      timestamp_ms = now_ms n.clock;
      body = text;
      raw = encode pkt;
    });
  }

  unfoldable pub send_channel_message : Name → List ℕ → MeshNode → MeshNode × Digest
  send_channel_message name text n =
      let channel = normalize name in
      let joined = record n { subscribed = insert channel tt n.subscribed } in
      let pkt = channel_packet channel text joined in
      (flood pkt (keep_own channel text pkt joined), digest w.crypto pkt)

  unfoldable pub announce_packet : MeshNode → Packet
  announce_packet n =
      originate announce (origin_ttl n.cfg announce (length n.links)) none
        (encode_announce (w.crypto.to_bytes (verifying_key w.crypto n.identity))
          (dh_public w.crypto n.identity) n.nickname)
        n

  -- The method `announce`.
  unfoldable pub send_announce : MeshNode → MeshNode
  send_announce n = flood (announce_packet n) n

  -- A message to a peer that is not known to be near waits in the store.
  unfoldable pub hold_for_later : Fingerprint → List ℕ → MeshNode → MeshNode
  hold_for_later fp text n = record n { store = queue_envelope n.store fp text (now_ms n.clock) }

  unfoldable pub restart_retries : Fingerprint → MeshNode → MeshNode
  restart_retries fp n = record n {
    handshake_attempts = remove fp n.handshake_attempts;
    handshake_last_ms = remove fp n.handshake_last_ms;
  }

  unfoldable pub queue_dm : Fingerprint → List ℕ → MeshNode → MeshNode
  queue_dm fp text n =
      let queued = record n { pending_dms = push_entry fp text n.pending_dms } in
      if contains_key fp n.noise_sessions
      then restart_retries fp queued
      else begin_handshake fp queued

  unfoldable pub route_dm : Fingerprint → List ℕ → MeshNode → MeshNode
  route_dm fp text n =
      if session_ready fp n
      then encrypt_and_send_dm fp dm_kind_text text n
      else if contains_key fp n.fp_to_eph
      then queue_dm fp text n
      else hold_for_later fp text n

  unfoldable pub send_dm : Fingerprint → List ℕ → MeshNode → MeshNode
  send_dm fp text n = route_dm fp text (keep_dm fp true text n)

  -- A peer that is not in the store.
  unfoldable pub stranger : Fingerprint → MeshNode → PeerRecord
  stranger fp n = record {
    fingerprint = fp;
    petname = none;
    verified = false;
    last_eph = 0 ∷ 0 ∷ 0 ∷ 0 ∷ 0 ∷ 0 ∷ 0 ∷ 0 ∷ [];
    last_seen_ms = now_ms n.clock;
  }

  unfoldable pub peer_or_new : Fingerprint → MeshNode → PeerRecord
  peer_or_new fp n = unwrap_or (stranger fp n) (get_peer n.store fp)

  unfoldable pub verify_peer : Fingerprint → MeshNode → MeshNode
  verify_peer fp n =
      let known = upsert_peer n.store (record (peer_or_new fp n) { verified = true }) in
      try_send_verify_notice fp (record n {
        store = delete_dms known fp true;
        notice_pending = insert fp tt n.notice_pending;
      })

  unfoldable pub drop_peer_session_state : Fingerprint → MeshNode → MeshNode
  drop_peer_session_state fp n = record n {
    noise_sessions = remove fp n.noise_sessions;
    pending_dms = remove fp n.pending_dms;
    pending_inbound_dms = remove fp n.pending_inbound_dms;
    handshake_last_ms = remove fp n.handshake_last_ms;
    handshake_attempts = remove fp n.handshake_attempts;
    resync_pending = remove fp n.resync_pending;
    notice_pending = remove fp n.notice_pending;
  }

  unfoldable pub unverified : Option PeerRecord → MeshNode → MeshNode
  unverified none n = n
  unverified (some p) n = record n { store = upsert_peer n.store (record p { verified = false }) }

  unfoldable pub unverify_peer : Fingerprint → MeshNode → MeshNode
  unverify_peer fp n =
      let lowered = unverified (get_peer n.store fp) n in
      drop_peer_session_state fp (record lowered { store = delete_dms lowered.store fp true })

  unfoldable pub forget_peer : Fingerprint → MeshNode → MeshNode
  forget_peer fp n =
      let dropped =
        drop_peer_session_state fp
          (record n { store = delete_peer (delete_dms n.store fp false) fp }) in
      record dropped { fp_to_eph = remove fp dropped.fp_to_eph }

  unfoldable pub start_dm_session : Fingerprint → MeshNode → MeshNode
  start_dm_session fp n =
      if session_ready fp n
      then emit (dm_session fp true) n
      else if contains_key fp n.fp_to_eph
      then (if contains_key fp n.noise_sessions then n else begin_handshake fp n)
      else n

  unfoldable pub set_petname : Fingerprint → Name → MeshNode → MeshNode
  set_petname fp name n = record n {
    store = upsert_peer n.store (record (peer_or_new fp n) { petname = petname_of name });
  }

  unfoldable pub peer_verified : MeshNode → Fingerprint → Bool
  peer_verified n fp = verified_of (get_peer n.store fp)

  unfoldable pub peer_petname : MeshNode → Fingerprint → Option Name
  peer_petname n fp = petname_in (get_peer n.store fp)

  unfoldable pub panic_wipe : MeshNode → MeshNode
  panic_wipe n = record n {
    store = Store.panic_wipe n.store;
    eph_keys = [];
    noise_sessions = [];
    pending_dms = [];
    fp_to_eph = [];
    peer_static_dh = [];
    pending_inbound_dms = [];
    handshake_last_ms = [];
    handshake_attempts = [];
    resync_pending = [];
    notice_pending = [];
    events = [];
  }
