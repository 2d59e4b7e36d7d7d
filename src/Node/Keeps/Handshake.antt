-- ===== src/Node/Keeps/Handshake.antt =====
-- The handshakes and the direct messages that arrive: they return, and leave the core of the node and
-- the trust in peers alone.
use cockroach_chat.Prelude.{
  ℕ, ◌≡◌, refl, Bool, true, false, Option, none, some, List, inl, inr, if◌then◌else◌, Bool-cases,
  ok, is_some, sym, ◌∙◌,
}
use cockroach_chat.Platform.{World}
use cockroach_chat.OrdMap.{get, contains_key}
use cockroach_chat.OrdMap.Keys.{bytes_ord}
use cockroach_chat.OrdMap.Laws.{contains_key-get, get-insert_self}
use cockroach_chat.Wire.{Packet}
use cockroach_chat.Store.{Fingerprint}
use cockroach_chat.Noise.{NoiseSession, Reply, Fallible}
use cockroach_chat.Noise
use cockroach_chat.Node.State.{MeshNode}
use cockroach_chat.Node.Session.{Run, advance_handshake, drop_session, eph_to_fp}
use cockroach_chat.Node.Handshake.{
  Guarded, when_going, resync, yield_on_glare, respond, ensure_session, after_reading, read_into,
  handshake_from, handle_noise_handshake, is_for_us, hold_inbound, begin_if_absent, dm_from,
  handle_direct_message,
}
use cockroach_chat.Node.Keeps.{
  Keeps, Kept, stays, elsewhere, then-Keeps, then-Kept, if_Keeps, option-Keeps,
}
use cockroach_chat.Node.Keeps.Session.{
  begin_handshake-Keeps, decrypt_and_emit-Keeps, finish_if_ready-Keeps, answer-Keeps,
}

module _ ⦃w : World⦄ where
  going-Kept :
      {n : MeshNode} (g : Guarded) (next : MeshNode → Run)
      → Keeps n g.0
      → (g.1 ≡ true → Kept g.0 (next g.0))
      → Kept n (when_going g next)
  unfolding when_going
  going-Kept (m, true) next k kn = then-Kept (next m) k (kn refl)
  going-Kept (m, false) next k kn = k

  if_guarded :
      {n : MeshNode} (b : Bool) (x y : Guarded)
      → Keeps n x.0
      → Keeps n y.0
      → Keeps n (if b then x else y).0
  if_guarded true x y kx ky = kx
  if_guarded false x y kx ky = ky

  resync-Keeps : (fp : Fingerprint) (n : MeshNode) → Keeps n (resync fp n).0
  unfolding resync
  resync-Keeps fp n =
      if_guarded _ _ _ (if_guarded _ _ _ (elsewhere refl refl refl) (elsewhere refl refl refl))
        (stays n)

  yield_on_glare-Keeps :
      (fp : Fingerprint) (payload : List ℕ) (n : MeshNode) → Keeps n (yield_on_glare fp payload n).0
  unfolding yield_on_glare drop_session
  yield_on_glare-Keeps fp payload n =
      if_guarded _ _ _ (if_guarded _ _ _ (stays n) (elsewhere refl refl refl)) (stays n)

  respond-Keeps :
      (fp : Fingerprint) (r : Fallible (NoiseSession w.snow)) (n : MeshNode)
      → Keeps n (respond fp r n).0
  unfolding respond
  respond-Keeps fp (inl e) n = stays n
  respond-Keeps fp (inr s) n = elsewhere refl refl refl

  ensure_session-Keeps : (fp : Fingerprint) (n : MeshNode) → Keeps n (ensure_session fp n).0
  unfolding ensure_session
  ensure_session-Keeps fp n = if_guarded _ _ _ (stays n) (respond-Keeps fp _ n)

  -- A session is there.
  abbrev HasSession : Fingerprint → MeshNode → Type 0
  HasSession fp n = (s : NoiseSession w.snow) × (get fp n.noise_sessions ≡ some s)

  respond-HasSession :
      (fp : Fingerprint) (r : Fallible (NoiseSession w.snow)) (n : MeshNode)
      → (respond fp r n).1 ≡ true
      → HasSession fp (respond fp r n).0
  unfolding respond
  respond-HasSession fp (inl e) n going = cc
  respond-HasSession fp (inr s) n going = (s, get-insert_self fp s n.noise_sessions)

  is_some→eq : {A : Type 0} (o : Option A) → is_some o ≡ true → (a : A) × (o ≡ some a)
  is_some→eq none h = cc
  is_some→eq (some a) h = (a, refl)

  ensure_session-HasSession :
      (fp : Fingerprint) (n : MeshNode)
      → (ensure_session fp n).1 ≡ true
      → HasSession fp (ensure_session fp n).0
  unfolding ensure_session
  ensure_session-HasSession fp n = elim (Bool-cases (contains_key fp n.noise_sessions)) [
    | inl there ↦ rw there (λ going.
        is_some→eq (get fp n.noise_sessions) (sym (contains_key-get fp n.noise_sessions) ∙ there))
    | inr absent ↦ rw absent (respond-HasSession fp _ n)
  ]

  advance_handshake-Kept :
      (fp : Fingerprint) (n : MeshNode) → HasSession fp n → Kept n (advance_handshake fp n)
  unfolding advance_handshake
  advance_handshake-Kept fp n (s, there) =
      rw there
        (if_Keeps (Noise.is_ready w.snow s) (finish_if_ready-Keeps fp n) (answer-Keeps fp _ n))

  after_reading-Kept :
      (fp : Fingerprint) (r : Reply w.snow (Unit {0})) (n : MeshNode)
      → Kept n (after_reading fp r n)
  unfolding after_reading drop_session
  after_reading-Kept fp (s, inl e) n = elsewhere refl refl refl
  after_reading-Kept fp (s, inr u) n =
      then-Kept (advance_handshake fp _) (elsewhere refl refl refl)
        (advance_handshake-Kept fp _ (s, get-insert_self fp s n.noise_sessions))

  read_into-Kept :
      (fp : Fingerprint) (payload : List ℕ) (n : MeshNode)
      → HasSession fp n
      → Kept n (read_into fp payload n)
  unfolding read_into
  read_into-Kept fp payload n (s, there) =
      rw there (after_reading-Kept fp (Noise.read_handshake w.snow s payload) n)

  handshake_from-Kept :
      (fp : Fingerprint) (payload : List ℕ) (n : MeshNode) → Kept n (handshake_from fp payload n)
  unfolding handshake_from
  handshake_from-Kept fp payload n = going-Kept (resync fp n) _ (resync-Keeps fp n) λ h1.
      let n1 = (resync fp n).0 in
      going-Kept (yield_on_glare fp payload n1) _ (yield_on_glare-Keeps fp payload n1) λ h2.
        let n2 = (yield_on_glare fp payload n1).0 in
        going-Kept (ensure_session fp n2) _ (ensure_session-Keeps fp n2)
          λ h3. read_into-Kept fp payload _ (ensure_session-HasSession fp n2 h3)

  pub handle_noise_handshake-Kept :
      (pkt : Packet) (n : MeshNode) → Kept n (handle_noise_handshake pkt n)
  unfolding handle_noise_handshake
  handle_noise_handshake-Kept pkt n = elim (Bool-cases (is_for_us pkt n)) [
    | inr other ↦ rw other (stays n)
    | inl ours ↦ rw ours (from_sender (eph_to_fp pkt.sender n))
  ]
    where
      from_sender :
          (o : Option Fingerprint)
          → Kept n (elim o [ none ↦ ok n | some fp ↦ handshake_from fp pkt.payload n ])
      from_sender none = stays n
      from_sender (some fp) = handshake_from-Kept fp pkt.payload n

  dm_from-Keeps :
      (fp : Fingerprint) (payload : List ℕ) (n : MeshNode) → Keeps n (dm_from fp payload n)
  unfolding dm_from hold_inbound begin_if_absent
  dm_from-Keeps fp payload n = if_Keeps _ (decrypt_and_emit-Keeps fp payload n) (
      then-Keeps (elsewhere refl refl refl)
        (if_Keeps _ (stays (hold_inbound fp payload n)) (begin_handshake-Keeps fp _)))

  pub handle_direct_message-Keeps :
      (pkt : Packet) (n : MeshNode) → Keeps n (handle_direct_message pkt n)
  unfolding handle_direct_message
  handle_direct_message-Keeps pkt n =
      if_Keeps (is_for_us pkt n)
        (option-Keeps (eph_to_fp pkt.sender n) (stays n) (λ fp. dm_from-Keeps fp pkt.payload n))
        (stays n)
