-- ===== src/Node/Inbound.antt =====
-- The packets that arrive at node.rs, but for those of a session: announces, channel messages, and
-- requests for what is missing.
use cockroach_chat.Prelude.{
  ℕ, Bool, true, false, not, ◌&&◌, Option, none, some, List, [], ◌∷◌, ◌++◌, length, ◌==◌,
  if◌then◌else◌, Outcome, ok, err, panic, is_some,
}
use cockroach_chat.Platform.{World}
use cockroach_chat.Text.{from_utf8_lossy}
use cockroach_chat.OrdMap.{key_eq, get, contains_key, insert}
use cockroach_chat.OrdMap.Keys.{nat_ord, bytes_ord}
use cockroach_chat.Error.{WireError}
use cockroach_chat.Wire.{Packet, sync_request, verify, digest, encode}
use cockroach_chat.Store.{
  Fingerprint, Name, Digest, get_peer, upsert_peer, take_envelopes, put_channel_message,
  channel_digests, message_by_digest,
}
use cockroach_chat.Channels.{SyncFilter, missing_from}
use cockroach_chat.Channels
use cockroach_chat.Relay.Scheduler.{LinkId}
use cockroach_chat.Node.Fanout.{Sent, send_bytes, send_on_link, link_mtu}
use cockroach_chat.Node.Payload.{
  Announce, Parsed, decode_announce, decode_channel, decode_sync, encode_sync,
}
use cockroach_chat.Node.State.{
  MeshNode, Keys, message_received, peer_appeared, peer_key_changed, emit, sends,
  dm_kind_key_changed,
}
use cockroach_chat.Node.Session.{Run, keep_dm, originate}
use cockroach_chat.Node.Commands.{send_dm, verified_of, petname_in, petname_of}
use cockroach_chat.Node.Links.{dedup_links}

-- `is_ok`; verifying a signature does not panic.
abbrev pub is_ok : Outcome WireError (Unit {0}) → Bool
is_ok (ok u) = true
is_ok (err e) = false
is_ok panic = false

-- The key was known, and is another one now.
abbrev pub differs : Option (List ℕ) → List ℕ → Bool
differs none dh = false
differs (some prev) dh = not (key_eq prev dh)

module _ ⦃w : World⦄ where
  -- `let Some(a) = parsed else { return }`
  unfoldable pub when_parsed : {A : Type 0} → Parsed A → MeshNode → (A → Run) → Run
  when_parsed (ok a) n then_do = then_do a
  when_parsed (err e) n then_do = ok n
  when_parsed panic n then_do = panic

  unfoldable pub note_key_change : Fingerprint → Option (List ℕ) → List ℕ → MeshNode → MeshNode
  note_key_change fp prev_dh dh n =
      if differs prev_dh dh && is_some (get_peer n.store fp)
      then emit (peer_key_changed fp) (keep_dm fp false (dm_kind_key_changed ∷ []) n)
      else n

  -- The peer is kept with what the user has set for it.
  unfoldable pub refresh_peer : Fingerprint → Packet → MeshNode → MeshNode
  refresh_peer fp pkt n =
      let existing = get_peer n.store fp in
      record n {
        store = upsert_peer n.store (record {
          fingerprint = fp;
          petname = petname_in existing;
          verified = verified_of existing;
          last_eph = pkt.sender;
          last_seen_ms = pkt.timestamp_ms;
        });
      }

  -- The keys of the announce are learned.
  unfoldable pub learn_keys : Fingerprint → Packet → Announce → MeshNode → MeshNode
  learn_keys fp pkt a n = note_key_change fp (get fp n.peer_static_dh) a.dh (record n {
    eph_keys = insert pkt.sender a.ed n.eph_keys;
    fp_to_eph = insert fp pkt.sender n.fp_to_eph;
    peer_static_dh = insert fp a.dh n.peer_static_dh;
  })

  unfoldable pub send_held : Fingerprint → List (List ℕ) → MeshNode → MeshNode
  send_held fp [] n = n
  send_held fp (bytes ∷ held) n = send_held fp held (send_dm fp (from_utf8_lossy bytes) n)

  unfoldable pub release_held : Fingerprint → MeshNode → MeshNode
  release_held fp n =
      let (store, held) = take_envelopes n.store fp in
      send_held fp held (record n { store = store })

  unfoldable pub welcome : Fingerprint → Packet → Announce → MeshNode → MeshNode
  welcome fp pkt a n = release_held fp (
      dedup_links (
        emit (peer_appeared fp pkt.sender (petname_of a.nick))
          (refresh_peer fp pkt (learn_keys fp pkt a n))))

  abbrev pub is_signed_by : Option w.crypto.VerifyingKey → Packet → Bool
  is_signed_by none pkt = false
  is_signed_by (some vk) pkt = is_ok (verify w.crypto pkt vk)

  unfoldable pub handle_announce : Packet → MeshNode → Run
  handle_announce pkt n = when_parsed (decode_announce pkt.payload) n λ a.
      if is_signed_by (w.crypto.from_bytes a.ed) pkt
      then ok (welcome (w.crypto.sha256 a.ed) pkt a n)
      else ok n

  -- The key that the sender is known by.
  unfoldable pub sender_key : Packet → MeshNode → Option w.crypto.VerifyingKey
  sender_key pkt n = elim (get pkt.sender n.eph_keys) [
    | some pk ↦ w.crypto.from_bytes pk
    | none ↦ none
  ]

  unfoldable pub keep_message : Packet → Name → List ℕ → MeshNode → MeshNode
  keep_message pkt channel text n = record n {
    store = put_channel_message n.store (record {
      digest = digest w.crypto pkt;
      channel = channel;
      sender = pkt.sender;
      timestamp_ms = pkt.timestamp_ms;
      body = text;
      raw = encode pkt;
    });
  }

  unfoldable pub accept_message : Packet → Name → List ℕ → Bool → MeshNode → MeshNode
  accept_message pkt channel text verified n =
      let kept = keep_message pkt channel text n in
      if contains_key channel kept.subscribed
      then emit (message_received channel pkt.sender text pkt.timestamp_ms verified) kept
      else kept

  -- A sender with a known key must have signed the message.
  unfoldable pub attribute :
      Option w.crypto.VerifyingKey → Packet → Name → List ℕ → MeshNode → MeshNode
  attribute none pkt channel text n = accept_message pkt channel text false n
  attribute (some vk) pkt channel text n =
      if is_ok (verify w.crypto pkt vk) then accept_message pkt channel text true n else n

  unfoldable pub handle_channel : Packet → MeshNode → Run
  handle_channel pkt n =
      when_parsed (decode_channel w.lz4 n.cfg pkt.payload) n
        λ (channel, text). ok (attribute (sender_key pkt n) pkt channel text n)

  -- The original bytes of a message that is missing, where the store has them.
  unfoldable pub resend : LinkId → Digest → MeshNode → List Sent
  resend link d n = elim (message_by_digest n.store d) [
    | none ↦ []
    | some m ↦
        if length m.raw == 0
        then []
        else send_bytes link m.raw d (link_mtu n.cfg (get link n.links))
  ]

  unfoldable pub resend_all : LinkId → List Digest → MeshNode → MeshNode
  resend_all link [] n = n
  resend_all link (d ∷ missing) n =
      resend_all link missing (record n { calls = n.calls ++ sends (resend link d n) })

  unfoldable pub answer_sync : LinkId → SyncFilter → MeshNode → MeshNode
  answer_sync link remote n =
      let mine = Channels.new remote.channel (channel_digests n.store remote.channel) in
      resend_all link (missing_from mine remote) n

  unfoldable pub handle_sync_request : LinkId → Packet → MeshNode → Run
  handle_sync_request link pkt n =
      when_parsed (decode_sync pkt.payload) n λ remote. ok (answer_sync link remote n)

  -- One hop: only the neighbour answers.
  unfoldable pub sync_packet : Name → MeshNode → Packet
  sync_packet channel n =
      originate sync_request 1 none
        (encode_sync (Channels.new channel (channel_digests n.store channel))) n

  unfoldable pub request_each : LinkId → Keys Name → MeshNode → MeshNode
  request_each link [] n = n
  request_each link ((channel, u) ∷ channels) n = request_each link channels (record n {
    calls = n.calls ++ sends (send_on_link w.crypto n.cfg n.links link (sync_packet channel n));
  })

  unfoldable pub send_sync_requests : LinkId → MeshNode → MeshNode
  send_sync_requests link n = request_each link n.subscribed n
