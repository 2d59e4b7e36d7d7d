-- ===== src/Node/Keeps/Session.antt =====
-- Sessions leave the core of the node and the trust in peers alone.
use cockroach_chat.Prelude.{
  ℕ, refl, Bool, true, false, List, [], ◌∷◌, inl, inr, if◌then◌else◌, ◌==◌,
}
use cockroach_chat.Platform.{World}
use cockroach_chat.OrdMap.{get}
use cockroach_chat.OrdMap.Keys.{bytes_ord}
use cockroach_chat.Wire.{Packet, MsgType}
use cockroach_chat.Store.{Fingerprint, put_dm}
use cockroach_chat.Noise.{NoiseSession, Reply}
use cockroach_chat.Noise
use cockroach_chat.Node.State.{MeshNode}
use cockroach_chat.Node.Session.{
  flood, send_directed, put_session, drop_session, count_attempt, send_first, begin_handshake,
  send_encrypted, encrypt_and_send_dm, keep_dm, send_control_dm, try_send_verify_notice, deliver,
  receive_opened, decrypt_and_emit, send_queued, open_queued, is_bound, reject_session,
  accept_session, flush_outbound, flush_inbound, finish_session, finish_if_ready, answer,
}
use cockroach_chat.Node.Keeps.{
  Keeps, stays, elsewhere, emit-Keeps, then-Keeps, if_Keeps, option-Keeps,
}

module _ ⦃w : World⦄ where
  pub flood-Keeps : (pkt : Packet) (n : MeshNode) → Keeps n (flood pkt n)
  unfolding flood
  flood-Keeps pkt n = elsewhere refl refl refl

  pub send_directed-Keeps :
      (t : MsgType) (fp : Fingerprint) (payload : List ℕ) (n : MeshNode)
      → Keeps n (send_directed t fp payload n)
  unfolding send_directed
  send_directed-Keeps t fp payload n =
      option-Keeps (get fp n.fp_to_eph) (stays n) (λ recipient. flood-Keeps _ n)

  send_first-Keeps :
      (fp : Fingerprint) (r : Reply w.snow (List ℕ)) (n : MeshNode) → Keeps n (send_first fp r n)
  unfolding send_first put_session count_attempt
  send_first-Keeps fp (session, inl e) n = stays n
  send_first-Keeps fp (session, inr msg) n = then-Keeps (elsewhere refl refl refl) (
      then-Keeps (send_directed-Keeps _ fp msg (put_session fp session n))
        (elsewhere refl refl refl))

  pub begin_handshake-Keeps : (fp : Fingerprint) (n : MeshNode) → Keeps n (begin_handshake fp n)
  unfolding begin_handshake
  begin_handshake-Keeps fp n =
      elim (Noise.new_initiator w.snow n.identity.dh_secret)
        as (λ x. Keeps n (elim x [
          | inl e ↦ n
          | inr session ↦ send_first fp (Noise.write_handshake w.snow session) n
        ])) [ inl e ↦ stays n | inr session ↦ send_first-Keeps fp _ n ]

  send_encrypted-Keeps :
      (fp : Fingerprint) (r : Reply w.snow (List ℕ)) (n : MeshNode)
      → Keeps n (send_encrypted fp r n)
  unfolding send_encrypted put_session
  send_encrypted-Keeps fp (session, inl e) n = elsewhere refl refl refl
  send_encrypted-Keeps fp (session, inr c) n =
      then-Keeps (elsewhere refl refl refl) (send_directed-Keeps _ fp c (put_session fp session n))

  pub encrypt_and_send_dm-Keeps :
      (fp : Fingerprint) (kind : ℕ) (body : List ℕ) (n : MeshNode)
      → Keeps n (encrypt_and_send_dm fp kind body n)
  unfolding encrypt_and_send_dm
  encrypt_and_send_dm-Keeps fp kind body n =
      option-Keeps (get fp n.noise_sessions) (stays n) (λ session. send_encrypted-Keeps fp _ n)

  pub keep_dm-Keeps :
      (fp : Fingerprint) (mine : Bool) (body : List ℕ) (n : MeshNode)
      → Keeps n (keep_dm fp mine body n)
  unfolding keep_dm put_dm
  keep_dm-Keeps fp mine body n = elsewhere refl refl refl

  send_control_dm-Keeps :
      (fp : Fingerprint) (kind : ℕ) (n : MeshNode) → Keeps n (send_control_dm fp kind n)
  unfolding send_control_dm
  send_control_dm-Keeps fp kind n =
      then-Keeps (keep_dm-Keeps fp true (kind ∷ []) n) (encrypt_and_send_dm-Keeps fp kind [] _)

  pub try_send_verify_notice-Keeps :
      (fp : Fingerprint) (n : MeshNode) → Keeps n (try_send_verify_notice fp n)
  unfolding try_send_verify_notice
  try_send_verify_notice-Keeps fp n =
      if_Keeps _ (then-Keeps (elsewhere refl refl refl) (send_control_dm-Keeps fp _ _)) (stays n)

  deliver-Keeps :
      (fp : Fingerprint) (kind : ℕ) (body : List ℕ) (n : MeshNode)
      → Keeps n (deliver fp kind body n)
  unfolding deliver
  deliver-Keeps fp kind body n =
      let kept =
        then-Keeps (keep_dm-Keeps fp false (if kind == 0 then body else kind ∷ []) n)
          (emit-Keeps _ _) in
      if_Keeps (kind == 1) (then-Keeps kept (send_control_dm-Keeps fp 2 _)) kept

  receive_opened-Keeps :
      (fp : Fingerprint) (r : Reply w.snow (List ℕ)) (n : MeshNode)
      → Keeps n (receive_opened fp r n)
  unfolding receive_opened put_session
  receive_opened-Keeps fp (session, inl e) n = elsewhere refl refl refl
  receive_opened-Keeps fp (session, inr plaintext) n =
      then-Keeps (elsewhere refl refl refl) (deliver-Keeps fp _ _ _)

  pub decrypt_and_emit-Keeps :
      (fp : Fingerprint) (ct : List ℕ) (n : MeshNode) → Keeps n (decrypt_and_emit fp ct n)
  unfolding decrypt_and_emit
  decrypt_and_emit-Keeps fp ct n =
      option-Keeps (get fp n.noise_sessions) (stays n) (λ session. receive_opened-Keeps fp _ n)

  send_queued-Keeps :
      (fp : Fingerprint) (pending : List (List ℕ)) (n : MeshNode)
      → Keeps n (send_queued fp pending n)
  unfolding send_queued
  send_queued-Keeps fp [] n = stays n
  send_queued-Keeps fp (text ∷ pending) n =
      then-Keeps (encrypt_and_send_dm-Keeps fp _ text n) (send_queued-Keeps fp pending _)

  open_queued-Keeps :
      (fp : Fingerprint) (inbound : List (List ℕ)) (n : MeshNode)
      → Keeps n (open_queued fp inbound n)
  unfolding open_queued
  open_queued-Keeps fp [] n = stays n
  open_queued-Keeps fp (ct ∷ inbound) n =
      then-Keeps (decrypt_and_emit-Keeps fp ct n) (open_queued-Keeps fp inbound _)

  flush_outbound-Keeps : (fp : Fingerprint) (n : MeshNode) → Keeps n (flush_outbound fp n)
  unfolding flush_outbound
  flush_outbound-Keeps fp n = then-Keeps (elsewhere refl refl refl) (send_queued-Keeps fp _ _)

  flush_inbound-Keeps : (fp : Fingerprint) (n : MeshNode) → Keeps n (flush_inbound fp n)
  unfolding flush_inbound
  flush_inbound-Keeps fp n = then-Keeps (elsewhere refl refl refl) (open_queued-Keeps fp _ _)

  pub accept_session-Keeps : (fp : Fingerprint) (n : MeshNode) → Keeps n (accept_session fp n)
  unfolding accept_session
  accept_session-Keeps fp n = then-Keeps (elsewhere refl refl refl) (emit-Keeps _ _)

  reject_session-Keeps : (fp : Fingerprint) (n : MeshNode) → Keeps n (reject_session fp n)
  unfolding reject_session
  reject_session-Keeps fp n = then-Keeps (elsewhere refl refl refl) (emit-Keeps _ _)

  -- What follows once a session is accepted.
  pub flush-Keeps :
      (fp : Fingerprint) (n : MeshNode)
      → Keeps n (flush_inbound fp (flush_outbound fp (try_send_verify_notice fp n)))
  flush-Keeps fp n =
      then-Keeps (try_send_verify_notice-Keeps fp n)
        (then-Keeps (flush_outbound-Keeps fp _) (flush_inbound-Keeps fp _))

  finish_session-Keeps : (fp : Fingerprint) (n : MeshNode) → Keeps n (finish_session fp n)
  unfolding finish_session
  finish_session-Keeps fp n =
      if_Keeps (is_bound fp n)
        (then-Keeps (accept_session-Keeps fp n) (flush-Keeps fp (accept_session fp n)))
        (reject_session-Keeps fp n)

  pub finish_if_ready-Keeps : (fp : Fingerprint) (n : MeshNode) → Keeps n (finish_if_ready fp n)
  unfolding finish_if_ready
  finish_if_ready-Keeps fp n = if_Keeps _ (finish_session-Keeps fp n) (stays n)

  pub answer-Keeps :
      (fp : Fingerprint) (r : Reply w.snow (List ℕ)) (n : MeshNode) → Keeps n (answer fp r n)
  unfolding answer put_session drop_session
  answer-Keeps fp (session, inl e) n = elsewhere refl refl refl
  answer-Keeps fp (session, inr msg) n = then-Keeps (elsewhere refl refl refl) (
      then-Keeps (send_directed-Keeps _ fp msg (put_session fp session n))
        (finish_if_ready-Keeps fp _))
