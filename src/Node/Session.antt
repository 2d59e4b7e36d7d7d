-- ===== src/Node/Session.antt =====
-- The direct messages of node.rs: how a directed packet is sent, the handshake of a session, and what
-- is sent and received over it. An `unwrap` that fails is the outcome `panic`.
use cockroach_chat.Prelude.{
  ℕ, ◌+◌, ◌%◌, ◌^◌, Bool, true, false, ◌&&◌, Option, none, some, List, [], ◌∷◌, ◌++◌, length, leb,
  ◌==◌, if◌then◌else◌, Outcome, ok, ◌>>=◌, inl, inr,
}
use mathlib.Core.Option
use cockroach_chat.Clock.{now_ms}
use cockroach_chat.Config.{origin_ttl}
use cockroach_chat.Platform.{World}
use cockroach_chat.Text.{from_utf8_lossy}
use cockroach_chat.OrdMap.{key_eq, get, contains_key, insert, remove}
use cockroach_chat.OrdMap.Keys.{bytes_ord}
use cockroach_chat.Wire.{EphId, Packet, MsgType, direct_message, noise_handshake, sign, digest}
use cockroach_chat.Wire
use cockroach_chat.Store.{Fingerprint, or_default, put_dm}
use cockroach_chat.Relay.Seen.{observe}
use cockroach_chat.Relay.Scheduler.{unwrap}
use cockroach_chat.Noise.{NoiseSession, Reply}
use cockroach_chat.Noise
use cockroach_chat.Node.Fanout.{broadcast}
use cockroach_chat.Node.State.{
  MeshNode, dm_session, dm_received, emit, session_ready, sends, eph_id, dm_kind_text,
  dm_kind_verify_notice, dm_kind_verify_ack,
}

-- `.copied().unwrap_or(d)`
abbrev pub unwrap_or : {A : Type 0} → A → Option A → A
unwrap_or d none = d
unwrap_or d (some a) = a

-- The two keys are there and equal.
abbrev pub same_key : Option (List ℕ) → Option (List ℕ) → Bool
same_key (some remote) (some known) = key_eq remote known
same_key (some remote) none = false
same_key none known = false

module _ ⦃w : World⦄ where
  abbrev pub Run : Type 0
  Run = Outcome ⊥ MeshNode

  -- A packet of this node's own, signed.
  unfoldable pub originate : MsgType → ℕ → Option EphId → List ℕ → MeshNode → Packet
  originate msg_type ttl recipient payload n =
      sign w.crypto (Wire.new msg_type ttl (now_ms n.clock) (eph_id n) recipient payload)
        n.identity.signing

  -- The packet is marked as seen, and sent on every link.
  unfoldable pub flood : Packet → MeshNode → MeshNode
  flood pkt n = record n {
    seen = (observe n.seen (digest w.crypto pkt) (now_ms n.clock)).0;
    calls = n.calls ++ sends (broadcast w.crypto n.links pkt none);
  }

  unfoldable pub send_directed : MsgType → Fingerprint → List ℕ → MeshNode → MeshNode
  send_directed msg_type peer_fp payload n = elim (get peer_fp n.fp_to_eph) [
    | none ↦ n
    | some recipient ↦
        flood
          (originate msg_type (origin_ttl n.cfg msg_type (length n.links)) (some recipient) payload
            n)
          n
  ]

  unfoldable pub eph_to_fp : EphId → MeshNode → Option Fingerprint
  eph_to_fp eph n = Option.map w.crypto.sha256 (get eph n.eph_keys)

  unfoldable pub put_session : Fingerprint → NoiseSession w.snow → MeshNode → MeshNode
  put_session fp s n = record n { noise_sessions = insert fp s n.noise_sessions }

  unfoldable pub drop_session : Fingerprint → MeshNode → MeshNode
  drop_session fp n = record n { noise_sessions = remove fp n.noise_sessions }

  -- The time of the last progress, and one more attempt, a `u32`.
  unfoldable pub count_attempt : Fingerprint → MeshNode → MeshNode
  count_attempt fp n = record n {
    handshake_last_ms = insert fp (now_ms n.clock) n.handshake_last_ms;
    handshake_attempts =
        insert fp ((unwrap_or 0 (get fp n.handshake_attempts) + 1) % 2 ^ 32) n.handshake_attempts;
  }

  unfoldable pub send_first : Fingerprint → Reply w.snow (List ℕ) → MeshNode → MeshNode
  send_first fp (session, inl e) n = n
  send_first fp (session, inr msg) n =
      count_attempt fp (send_directed noise_handshake fp msg (put_session fp session n))

  unfoldable pub begin_handshake : Fingerprint → MeshNode → MeshNode
  begin_handshake fp n = elim (Noise.new_initiator w.snow n.identity.dh_secret) [
    | inl e ↦ n
    | inr session ↦ send_first fp (Noise.write_handshake w.snow session) n
  ]

  unfoldable pub send_encrypted : Fingerprint → Reply w.snow (List ℕ) → MeshNode → MeshNode
  send_encrypted fp (session, inl e) n = put_session fp session n
  send_encrypted fp (session, inr ciphertext) n =
      send_directed direct_message fp ciphertext (put_session fp session n)

  unfoldable pub encrypt_and_send_dm : Fingerprint → ℕ → List ℕ → MeshNode → MeshNode
  encrypt_and_send_dm fp kind body n = elim (get fp n.noise_sessions) [
    | none ↦ n
    | some session ↦ send_encrypted fp (Noise.encrypt w.snow session (kind ∷ body)) n
  ]

  unfoldable pub keep_dm : Fingerprint → Bool → List ℕ → MeshNode → MeshNode
  keep_dm fp mine body n = record n {
    store =
        put_dm n.store
          (record { peer = fp; mine = mine; timestamp_ms = now_ms n.clock; body = body });
  }

  unfoldable pub send_control_dm : Fingerprint → ℕ → MeshNode → MeshNode
  send_control_dm fp kind n = encrypt_and_send_dm fp kind [] (keep_dm fp true (kind ∷ []) n)

  unfoldable pub try_send_verify_notice : Fingerprint → MeshNode → MeshNode
  try_send_verify_notice fp n =
      if session_ready fp n && contains_key fp n.notice_pending
      then send_control_dm fp dm_kind_verify_notice
          (record n { notice_pending = remove fp n.notice_pending })
      else n

  -- The kind and the body of a plaintext. What does not look framed is text.
  pub unframe : List ℕ → ℕ × List ℕ
  unframe [] = (dm_kind_text, [])
  unframe (k ∷ rest) = if leb k dm_kind_verify_ack then (k, rest) else (dm_kind_text, k ∷ rest)

  -- A direct message that was opened is kept and surfaced; a verify-notice is answered.
  unfoldable pub deliver : Fingerprint → ℕ → List ℕ → MeshNode → MeshNode
  deliver fp kind body n =
      let is_text = kind == dm_kind_text in
      let kept = keep_dm fp false (if is_text then body else kind ∷ []) n in
      let surfaced =
        emit
          (dm_received fp (unwrap_or (0 ∷ 0 ∷ 0 ∷ 0 ∷ 0 ∷ 0 ∷ 0 ∷ 0 ∷ []) (get fp kept.fp_to_eph))
            (if is_text then from_utf8_lossy body else []) kind)
          kept in
      if kind == dm_kind_verify_notice
      then send_control_dm fp dm_kind_verify_ack surfaced
      else surfaced

  unfoldable pub receive_opened : Fingerprint → Reply w.snow (List ℕ) → MeshNode → MeshNode
  receive_opened fp (session, inl e) n = put_session fp session n
  receive_opened fp (session, inr plaintext) n =
      deliver fp (unframe plaintext).0 (unframe plaintext).1 (record n {
        noise_sessions = insert fp session n.noise_sessions;
        resync_pending = remove fp n.resync_pending;
      })

  unfoldable pub decrypt_and_emit : Fingerprint → List ℕ → MeshNode → MeshNode
  decrypt_and_emit fp ciphertext n = elim (get fp n.noise_sessions) [
    | none ↦ n
    | some session ↦ receive_opened fp (Noise.decrypt w.snow session ciphertext) n
  ]

  -- The messages that were queued during the handshake.
  unfoldable pub send_queued : Fingerprint → List (List ℕ) → MeshNode → MeshNode
  send_queued fp [] n = n
  send_queued fp (text ∷ pending) n =
      send_queued fp pending (encrypt_and_send_dm fp dm_kind_text text n)

  -- The messages that overtook the end of the handshake.
  unfoldable pub open_queued : Fingerprint → List (List ℕ) → MeshNode → MeshNode
  open_queued fp [] n = n
  open_queued fp (ct ∷ inbound) n = open_queued fp inbound (decrypt_and_emit fp ct n)

  abbrev pub session_remote : Option (NoiseSession w.snow) → Option (List ℕ)
  session_remote none = none
  session_remote (some s) = Noise.remote_static w.snow s

  -- The key at the other end of the session is the key that the peer announced.
  unfoldable pub is_bound : Fingerprint → MeshNode → Bool
  is_bound fp n = same_key (session_remote (get fp n.noise_sessions)) (get fp n.peer_static_dh)

  unfoldable pub reject_session : Fingerprint → MeshNode → MeshNode
  reject_session fp n = emit (dm_session fp false) (record n {
    noise_sessions = remove fp n.noise_sessions;
    pending_dms = remove fp n.pending_dms;
    handshake_last_ms = remove fp n.handshake_last_ms;
    handshake_attempts = remove fp n.handshake_attempts;
  })

  unfoldable pub accept_session : Fingerprint → MeshNode → MeshNode
  accept_session fp n = emit (dm_session fp true) (record n {
    handshake_last_ms = remove fp n.handshake_last_ms;
    handshake_attempts = remove fp n.handshake_attempts;
    resync_pending = remove fp n.resync_pending;
  })

  unfoldable pub flush_outbound : Fingerprint → MeshNode → MeshNode
  flush_outbound fp n =
      send_queued fp (or_default (get fp n.pending_dms))
        (record n { pending_dms = remove fp n.pending_dms })

  unfoldable pub flush_inbound : Fingerprint → MeshNode → MeshNode
  flush_inbound fp n =
      open_queued fp (or_default (get fp n.pending_inbound_dms))
        (record n { pending_inbound_dms = remove fp n.pending_inbound_dms })

  unfoldable pub finish_session : Fingerprint → MeshNode → MeshNode
  finish_session fp n =
      if is_bound fp n
      then flush_inbound fp (flush_outbound fp (try_send_verify_notice fp (accept_session fp n)))
      else reject_session fp n

  unfoldable pub finish_if_ready : Fingerprint → MeshNode → MeshNode
  finish_if_ready fp n = if session_ready fp n then finish_session fp n else n

  unfoldable pub answer : Fingerprint → Reply w.snow (List ℕ) → MeshNode → MeshNode
  answer fp (session, inl e) n = drop_session fp n
  answer fp (session, inr msg) n =
      finish_if_ready fp (send_directed noise_handshake fp msg (put_session fp session n))

  unfoldable pub advance_handshake : Fingerprint → MeshNode → Run
  advance_handshake fp n = unwrap (get fp n.noise_sessions) >>= λ session. ok (
      if Noise.is_ready w.snow session
      then finish_if_ready fp n
      else answer fp (Noise.write_handshake w.snow session) n)
