-- ===== src/Node/Handshake.antt =====
-- The packets of a session that arrive at node.rs: handshakes and direct messages.
use cockroach_chat.Prelude.{
  ℕ, ◌+◌, ◌%◌, ◌^◌, Bool, true, false, ◌&&◌, Option, none, some, List, [], ◌∷◌, ◌++◌, length, ltb,
  ◌==◌, if◌then◌else◌, ok, ◌>>=◌, inl, inr,
}
use Prim.Native.Nat.{Ordering}
use cockroach_chat.Clock.{now_ms}
use cockroach_chat.Platform.{World}
use cockroach_chat.OrdMap.{key_eq, get, contains_key, insert, remove}
use cockroach_chat.OrdMap.Keys.{bytes_ord}
use cockroach_chat.Wire.{Packet, EphId}
use cockroach_chat.Store.{Fingerprint, or_default}
use cockroach_chat.Relay.Scheduler.{unwrap}
use cockroach_chat.Noise.{NoiseSession, NoiseError, Reply, Fallible}
use cockroach_chat.Noise
use cockroach_chat.Node.State.{
  MeshNode, session_ready, eph_id, fingerprint, resync_handshake_threshold,
}
use cockroach_chat.Node.Session.{
  Run, unwrap_or, eph_to_fp, drop_session, begin_handshake, advance_handshake, decrypt_and_emit,
}

-- The length of the first message of a handshake.
abbrev pub xx_msg1_len : ℕ
xx_msg1_len = 32

-- `a < b` on byte arrays.
abbrev pub is_less : Ordering → Bool
is_less Ordering.lt = true
is_less Ordering.eq = false
is_less Ordering.gt = false

abbrev pub is_some_of : Option EphId → EphId → Bool
is_some_of none e = false
is_some_of (some r) e = key_eq r e

module _ ⦃w : World⦄ where
  -- A node, and whether the handler goes on.
  abbrev pub Guarded : Type 0
  Guarded = MeshNode × Bool

  unfoldable pub when_going : Guarded → (MeshNode → Run) → Run
  when_going (n, going) then_do = if going then then_do n else ok n

  unfoldable pub is_for_us : Packet → MeshNode → Bool
  is_for_us pkt n = is_some_of pkt.recipient (eph_id n)

  -- One more fresh handshake against a live session, a `u8`; at the threshold the session is dropped.
  unfoldable pub resync : Fingerprint → MeshNode → Guarded
  resync fp n =
      let tries = (unwrap_or 0 (get fp n.resync_pending) + 1) % 2 ^ 8 in
      let counted = insert fp tries n.resync_pending in
      if session_ready fp n
      then (if ltb tries resync_handshake_threshold
          then (record n { resync_pending = counted }, false)
          else (
            record n {
              resync_pending = remove fp counted;
              noise_sessions = remove fp n.noise_sessions;
            },
            true,
          ))
      else (n, true)

  -- A session that this node began and that is still in its handshake.
  unfoldable pub is_initiating : Option (NoiseSession w.snow) → Bool
  is_initiating none = false
  is_initiating (some s) = Noise.is_handshaking w.snow s && s.initiator

  -- Of two nodes that began at once, the one with the lower fingerprint goes on.
  unfoldable pub yield_on_glare : Fingerprint → List ℕ → MeshNode → Guarded
  yield_on_glare fp payload n =
      if (length payload == xx_msg1_len) && is_initiating (get fp n.noise_sessions)
      then (if is_less (bytes_ord.cmp (fingerprint n) fp)
          then (n, false)
          else (drop_session fp n, true))
      else (n, true)

  -- `handshake_attempts.entry(fp).or_insert(0)`, and the time.
  unfoldable pub respond : Fingerprint → Fallible (NoiseSession w.snow) → MeshNode → Guarded
  respond fp (inl e) n = (n, false)
  respond fp (inr s) n = (
    record n {
      noise_sessions = insert fp s n.noise_sessions;
      handshake_last_ms = insert fp (now_ms n.clock) n.handshake_last_ms;
      handshake_attempts =
          insert fp (unwrap_or 0 (get fp n.handshake_attempts)) n.handshake_attempts;
    },
    true,
  )

  unfoldable pub ensure_session : Fingerprint → MeshNode → Guarded
  ensure_session fp n =
      if contains_key fp n.noise_sessions
      then (n, true)
      else respond fp (Noise.new_responder w.snow n.identity.dh_secret) n

  unfoldable pub after_reading : Fingerprint → Reply w.snow (Unit {0}) → MeshNode → Run
  after_reading fp (s, inl e) n = ok (drop_session fp n)
  after_reading fp (s, inr u) n = advance_handshake fp (record n {
    noise_sessions = insert fp s n.noise_sessions;
    handshake_last_ms = insert fp (now_ms n.clock) n.handshake_last_ms;
  })

  unfoldable pub read_into : Fingerprint → List ℕ → MeshNode → Run
  read_into fp payload n = unwrap (get fp n.noise_sessions) >>= λ session.
      after_reading fp (Noise.read_handshake w.snow session payload) n

  unfoldable pub handshake_from : Fingerprint → List ℕ → MeshNode → Run
  handshake_from fp payload n = when_going (resync fp n) λ n1.
      when_going (yield_on_glare fp payload n1)
        λ n2. when_going (ensure_session fp n2) λ n3. read_into fp payload n3

  unfoldable pub handle_noise_handshake : Packet → MeshNode → Run
  handle_noise_handshake pkt n =
      if is_for_us pkt n
      then elim (eph_to_fp pkt.sender n) [ none ↦ ok n | some fp ↦ handshake_from fp pkt.payload n ]
      else ok n

  -- A message before the session is ready: at most 32 are held for a peer.
  unfoldable pub hold_inbound : Fingerprint → List ℕ → MeshNode → MeshNode
  hold_inbound fp payload n =
      let buf = or_default (get fp n.pending_inbound_dms) in
      record n {
        pending_inbound_dms =
            insert fp (if ltb (length buf) 32 then buf ++ (payload ∷ []) else buf)
              n.pending_inbound_dms;
      }

  unfoldable pub begin_if_absent : Fingerprint → MeshNode → MeshNode
  begin_if_absent fp n = if contains_key fp n.noise_sessions then n else begin_handshake fp n

  unfoldable pub dm_from : Fingerprint → List ℕ → MeshNode → MeshNode
  dm_from fp payload n =
      if session_ready fp n
      then decrypt_and_emit fp payload n
      else begin_if_absent fp (hold_inbound fp payload n)

  unfoldable pub handle_direct_message : Packet → MeshNode → MeshNode
  handle_direct_message pkt n =
      if is_for_us pkt n
      then elim (eph_to_fp pkt.sender n) [ none ↦ n | some fp ↦ dm_from fp pkt.payload n ]
      else n
