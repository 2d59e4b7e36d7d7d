-- ===== src/Node/Keeps/Inbound.antt =====
-- The other packets that arrive, what they make the node send, and the links: all leave the core of the
-- node and the trust in peers alone.
use cockroach_chat.Prelude.{
  ℕ, ◌≡◌, ◌≢◌, refl, ap, sym, ◌∙◌, Bool, true, false, Option, none, some, List, [], ◌∷◌, inl, inr,
  if◌then◌else◌, Bool-cases, ok, err, panic,
}
use cockroach_chat.Platform.{World}
use cockroach_chat.OrdMap.{Map, key_eq, get, insert}
use cockroach_chat.OrdMap.Keys.{bytes_ord}
use cockroach_chat.OrdMap.Laws.{get-insert, key_eq→eq}
use cockroach_chat.Wire.{Packet, EphId, verify}
use cockroach_chat.Store.{
  Fingerprint, Name, Digest, PeerRecord, upsert_peer, get_peer, queue_envelope, take_envelopes,
}
use cockroach_chat.Store.Peers.{peers-put_channel_message}
use cockroach_chat.Relay.Scheduler.{LinkId}
use cockroach_chat.Node.Payload.{Announce, Parsed, decode_announce, decode_channel, decode_sync}
use cockroach_chat.Node.Payload.Safety.{payloads-ne-panic}
use cockroach_chat.Node.State.{MeshNode, Keys}
use cockroach_chat.Node.Session.{Run, eph_to_fp}
use cockroach_chat.Node.Commands.{
  restart_retries, queue_dm, hold_for_later, route_dm, send_dm, send_announce, announce_packet,
}
use cockroach_chat.Node.Links.{
  resolve_one, resolve_all, close_redundant, dedup_links, note_link_identity, pending_links,
}
use cockroach_chat.Node.Inbound.{
  when_parsed, note_key_change, refresh_peer, learn_keys, send_held, release_held, welcome,
  is_signed_by, handle_announce, sender_key, keep_message, accept_message, attribute,
  handle_channel, resend_all, answer_sync, handle_sync_request, request_each, send_sync_requests,
  is_ok,
}
use cockroach_chat.Node.Keeps.{
  trust_of, Keeps, Kept, stays, no_more, elsewhere, emit-Keeps, then-Keeps, if_Keeps, option-Keeps,
}
use cockroach_chat.Node.Keeps.Session.{
  flood-Keeps, begin_handshake-Keeps, encrypt_and_send_dm-Keeps, keep_dm-Keeps,
}

-- A record that says what the map's own says changes nothing.
trust_of-insert :
    (q fp : Fingerprint) (r : PeerRecord) (m : Map Fingerprint PeerRecord)
    → trust_of (some r) ≡ trust_of (get fp m)
    → trust_of (get q (insert fp r m)) ≡ trust_of (get q m)
trust_of-insert q fp r m same = elim (Bool-cases (key_eq q fp)) [
  | inl e ↦
      rw (get-insert fp q r m, e) (same ∙ ap (λ k. trust_of (get k m)) (sym (key_eq→eq q fp e)))
  | inr e ↦ rw (get-insert fp q r m, e) refl
]

module _ ⦃w : World⦄ where
  queue_dm-Keeps : (fp : Fingerprint) (text : List ℕ) (n : MeshNode) → Keeps n (queue_dm fp text n)
  unfolding queue_dm restart_retries
  queue_dm-Keeps fp text n =
      if_Keeps _ (elsewhere refl refl refl)
        (then-Keeps (elsewhere refl refl refl) (begin_handshake-Keeps fp _))

  route_dm-Keeps : (fp : Fingerprint) (text : List ℕ) (n : MeshNode) → Keeps n (route_dm fp text n)
  unfolding route_dm hold_for_later queue_envelope
  route_dm-Keeps fp text n =
      if_Keeps _ (encrypt_and_send_dm-Keeps fp _ text n)
        (if_Keeps _ (queue_dm-Keeps fp text n) (elsewhere refl refl refl))

  pub send_dm-Keeps :
      (fp : Fingerprint) (text : List ℕ) (n : MeshNode) → Keeps n (send_dm fp text n)
  unfolding send_dm
  send_dm-Keeps fp text n = then-Keeps (keep_dm-Keeps fp true text n) (route_dm-Keeps fp text _)

  pub send_announce-Keeps : (n : MeshNode) → Keeps n (send_announce n)
  unfolding send_announce
  send_announce-Keeps n = flood-Keeps (announce_packet n) n

  resolve_one-Keeps : (id : LinkId) (eph : EphId) (n : MeshNode) → Keeps n (resolve_one id eph n)
  unfolding resolve_one
  resolve_one-Keeps id eph n =
      option-Keeps (eph_to_fp eph n) (stays n) (λ fp. elsewhere refl refl refl)

  resolve_all-Keeps : (ls : List (LinkId × EphId)) (n : MeshNode) → Keeps n (resolve_all ls n)
  unfolding resolve_all
  resolve_all-Keeps [] n = stays n
  resolve_all-Keeps ((id, eph) ∷ ls) n =
      then-Keeps (resolve_one-Keeps id eph n) (resolve_all-Keeps ls _)

  pub dedup_links-Keeps : (n : MeshNode) → Keeps n (dedup_links n)
  unfolding dedup_links close_redundant
  dedup_links-Keeps n =
      then-Keeps (resolve_all-Keeps (pending_links n.links) n) (elsewhere refl refl refl)

  pub note_link_identity-Keeps :
      (link : LinkId) (eph : EphId) (n : MeshNode) → Keeps n (note_link_identity link eph n)
  unfolding note_link_identity
  note_link_identity-Keeps link eph n = then-Keeps (elsewhere refl refl refl) (dedup_links-Keeps _)

  note_key_change-Keeps :
      (fp : Fingerprint) (prev : Option (List ℕ)) (dh : List ℕ) (n : MeshNode)
      → Keeps n (note_key_change fp prev dh n)
  unfolding note_key_change
  note_key_change-Keeps fp prev dh n =
      if_Keeps _ (then-Keeps (keep_dm-Keeps fp false (3 ∷ []) n) (emit-Keeps _ _)) (stays n)

  refresh_peer-Keeps :
      (fp : Fingerprint) (pkt : Packet) (n : MeshNode) → Keeps n (refresh_peer fp pkt n)
  unfolding refresh_peer upsert_peer get_peer
  refresh_peer-Keeps fp pkt n = record {
    core_kept = refl;
    trust_kept = λ q. trust_of-insert q fp _ n.store.peers refl;
    grown = no_more refl;
  }

  send_held-Keeps :
      (fp : Fingerprint) (held : List (List ℕ)) (n : MeshNode) → Keeps n (send_held fp held n)
  unfolding send_held
  send_held-Keeps fp [] n = stays n
  send_held-Keeps fp (bytes ∷ held) n =
      then-Keeps (send_dm-Keeps fp _ n) (send_held-Keeps fp held _)

  release_held-Keeps : (fp : Fingerprint) (n : MeshNode) → Keeps n (release_held fp n)
  unfolding release_held take_envelopes
  release_held-Keeps fp n = then-Keeps (elsewhere refl refl refl) (send_held-Keeps fp _ _)

  learn_keys-Keeps :
      (fp : Fingerprint) (pkt : Packet) (a : Announce) (n : MeshNode)
      → Keeps n (learn_keys fp pkt a n)
  unfolding learn_keys
  learn_keys-Keeps fp pkt a n =
      then-Keeps (elsewhere refl refl refl) (note_key_change-Keeps fp _ a.dh _)

  welcome-Keeps :
      (fp : Fingerprint) (pkt : Packet) (a : Announce) (n : MeshNode) → Keeps n (welcome fp pkt a n)
  unfolding welcome
  welcome-Keeps fp pkt a n = then-Keeps (learn_keys-Keeps fp pkt a n) (
      then-Keeps (refresh_peer-Keeps fp pkt _)
        (then-Keeps (emit-Keeps _ _) (then-Keeps (dedup_links-Keeps _) (release_held-Keeps fp _))))

  when_parsed-Kept :
      {A : Type 0} (n : MeshNode) (p : Parsed A) (next : A → Run)
      → p ≢ panic
      → ((a : A) → Kept n (next a))
      → Kept n (when_parsed p n next)
  unfolding when_parsed
  when_parsed-Kept n (ok a) next safe k = k a
  when_parsed-Kept n (err e) next safe k = stays n
  when_parsed-Kept n panic next safe k = absurd (safe refl)

  pub handle_announce-Kept : (pkt : Packet) (n : MeshNode) → Kept n (handle_announce pkt n)
  unfolding handle_announce
  handle_announce-Kept pkt n =
      when_parsed-Kept n (decode_announce pkt.payload) _
        (payloads-ne-panic w.lz4 n.cfg pkt.payload).0
        (λ a. checked a (is_signed_by (w.crypto.from_bytes a.ed) pkt))
    where
      checked :
          (a : Announce) (b : Bool)
          → Kept n (if b then ok (welcome (w.crypto.sha256 a.ed) pkt a n) else ok n)
      checked a true = welcome-Keeps (w.crypto.sha256 a.ed) pkt a n
      checked a false = stays n

  keep_message-Keeps :
      (pkt : Packet) (channel : Name) (text : List ℕ) (n : MeshNode)
      → Keeps n (keep_message pkt channel text n)
  unfolding keep_message
  keep_message-Keeps pkt channel text n = elsewhere refl (peers-put_channel_message n.store _) refl

  accept_message-Keeps :
      (pkt : Packet) (channel : Name) (text : List ℕ) (verified : Bool) (n : MeshNode)
      → Keeps n (accept_message pkt channel text verified n)
  unfolding accept_message
  accept_message-Keeps pkt channel text verified n =
      let kept = keep_message-Keeps pkt channel text n in
      if_Keeps _ (then-Keeps kept (emit-Keeps _ _)) kept

  attribute-Keeps :
      (key : Option w.crypto.VerifyingKey) (pkt : Packet) (channel : Name) (text : List ℕ)
      (n : MeshNode)
      → Keeps n (attribute key pkt channel text n)
  unfolding attribute
  attribute-Keeps none pkt channel text n = accept_message-Keeps pkt channel text false n
  attribute-Keeps (some vk) pkt channel text n =
      if_Keeps (is_ok (verify w.crypto pkt vk)) (accept_message-Keeps pkt channel text true n)
        (stays n)

  pub handle_channel-Kept : (pkt : Packet) (n : MeshNode) → Kept n (handle_channel pkt n)
  unfolding handle_channel
  handle_channel-Kept pkt n =
      when_parsed-Kept n (decode_channel w.lz4 n.cfg pkt.payload) _
        (payloads-ne-panic w.lz4 n.cfg pkt.payload).1
        (λ a. attribute-Keeps (sender_key pkt n) pkt a.0 a.1 n)

  resend_all-Keeps :
      (link : LinkId) (ds : List Digest) (n : MeshNode) → Keeps n (resend_all link ds n)
  unfolding resend_all
  resend_all-Keeps link [] n = stays n
  resend_all-Keeps link (d ∷ ds) n =
      then-Keeps (elsewhere refl refl refl) (resend_all-Keeps link ds _)

  pub handle_sync_request-Kept :
      (link : LinkId) (pkt : Packet) (n : MeshNode) → Kept n (handle_sync_request link pkt n)
  unfolding handle_sync_request answer_sync
  handle_sync_request-Kept link pkt n =
      when_parsed-Kept n (decode_sync pkt.payload) _ (payloads-ne-panic w.lz4 n.cfg pkt.payload).2
        (λ remote. resend_all-Keeps link _ n)

  request_each-Keeps :
      (link : LinkId) (names : Keys Name) (n : MeshNode) → Keeps n (request_each link names n)
  unfolding request_each
  request_each-Keeps link [] n = stays n
  request_each-Keeps link ((name, u) ∷ names) n =
      then-Keeps (elsewhere refl refl refl) (request_each-Keeps link names _)

  pub send_sync_requests-Keeps :
      (link : LinkId) (n : MeshNode) → Keeps n (send_sync_requests link n)
  unfolding send_sync_requests
  send_sync_requests-Keeps link n = request_each-Keeps link n.subscribed n
