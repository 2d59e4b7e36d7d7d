-- ===== src/Noise.antt =====
-- crates/meshcore/src/noise.rs: one Noise session with a peer, over the state machine of snow. An error
-- text is the constructor of its case.
pub mod Replay
mod Tests
use cockroach_chat.Prelude.{
  ℕ, Bool, true, false, Option, none, some, List, [], ◌∷◌, ◌++◌, length, ltb, ◌==◌, if◌then◌else◌,
  take, drop, ◌⊎◌, inl, inr,
}
use cockroach_chat.Prelude.Bytes.{to_be, from_be}
use cockroach_chat.Platform.{Snow}

pub data NoiseError : Type 0 where
  snow_error write_after_handshake read_after_handshake : NoiseError
  encrypt_before_ready decrypt_before_ready too_short replayed : NoiseError

abbrev pub Fallible : Type 0 → Type 0
Fallible A = NoiseError ⊎ A

module _ (s : Snow) where
  open s use {HandshakeState, TransportState}

  pub data Inner : Type 0 where
    handshake : HandshakeState → Inner
    transport : TransportState → Inner
    poisoned : Inner

  pub record NoiseSession : Type 0 where
    pub inner : Inner
    pub initiator : Bool

  abbrev pub Reply : Type 0 → Type 0
  Reply A = NoiseSession × Fallible A

  pub started : Bool → Option HandshakeState → Fallible NoiseSession
  started initiator none = inl snow_error
  started initiator (some hs) = inr (record { inner = handshake hs; initiator = initiator })

  pub new_initiator : List ℕ → Fallible NoiseSession
  unfolding started
  new_initiator local_private = started true (s.build_initiator local_private)

  pub new_responder : List ℕ → Fallible NoiseSession
  unfolding started
  new_responder local_private = started false (s.build_responder local_private)

  pub is_transport : Inner → Bool
  is_transport (transport ts) = true
  is_transport (handshake hs) = false
  is_transport poisoned = false

  pub is_handshake : Inner → Bool
  is_handshake (handshake hs) = true
  is_handshake (transport ts) = false
  is_handshake poisoned = false

  pub is_ready : NoiseSession → Bool
  unfolding is_transport
  is_ready n = is_transport n.inner

  pub is_handshaking : NoiseSession → Bool
  unfolding is_handshake
  is_handshaking n = is_handshake n.inner

  pub inner_remote : Inner → Option (List ℕ)
  inner_remote (handshake hs) = s.handshake_remote hs
  inner_remote (transport ts) = s.transport_remote ts
  inner_remote poisoned = none

  pub of_32_bytes : Option (List ℕ) → Option (List ℕ)
  of_32_bytes none = none
  of_32_bytes (some rs) = if length rs == 32 then some rs else none

  pub remote_static : NoiseSession → Option (List ℕ)
  unfolding inner_remote of_32_bytes
  remote_static n = of_32_bytes (inner_remote n.inner)

  -- A handshake that could not be turned into a transport leaves the session poisoned.
  pub enter_transport : NoiseSession → Option TransportState → Reply (Unit {0})
  enter_transport n none = (record n { inner = poisoned }, inl snow_error)
  enter_transport n (some ts) = (record n { inner = transport ts }, inr tt)

  pub transition : NoiseSession → Inner → Reply (Unit {0})
  unfolding enter_transport
  transition n (handshake hs) =
      if s.is_finished hs then enter_transport n (s.into_transport hs) else (n, inr tt)
  transition n (transport ts) = (n, inr tt)
  transition n poisoned = (n, inr tt)

  pub maybe_transition : NoiseSession → Reply (Unit {0})
  unfolding transition
  maybe_transition n = transition n n.inner

  -- `maybe_transition()?; Ok(a)`
  pub returning : {A : Type 0} → A → Reply (Unit {0}) → Reply A
  returning a (n, inr u) = (n, inr a)
  returning a (n, inl e) = (n, inl e)

  pub after_write : NoiseSession → HandshakeState × Option (List ℕ) → Reply (List ℕ)
  unfolding maybe_transition returning
  after_write n (hs, none) = (record n { inner = handshake hs }, inl snow_error)
  after_write n (hs, some msg) =
      returning msg (maybe_transition (record n { inner = handshake hs }))

  pub write_inner : NoiseSession → Inner → Reply (List ℕ)
  unfolding after_write
  write_inner n (handshake hs) = after_write n (s.write_handshake hs)
  write_inner n (transport ts) = (n, inl write_after_handshake)
  write_inner n poisoned = (n, inl write_after_handshake)

  pub write_handshake : NoiseSession → Reply (List ℕ)
  unfolding write_inner
  write_handshake n = write_inner n n.inner

  pub after_read : NoiseSession → HandshakeState × Option (List ℕ) → Reply (Unit {0})
  unfolding maybe_transition
  after_read n (hs, none) = (record n { inner = handshake hs }, inl snow_error)
  after_read n (hs, some payload) = maybe_transition (record n { inner = handshake hs })

  pub read_inner : NoiseSession → Inner → List ℕ → Reply (Unit {0})
  unfolding after_read
  read_inner n (handshake hs) msg = after_read n (s.read_handshake hs msg)
  read_inner n (transport ts) msg = (n, inl read_after_handshake)
  read_inner n poisoned msg = (n, inl read_after_handshake)

  pub read_handshake : NoiseSession → List ℕ → Reply (Unit {0})
  unfolding read_inner
  read_handshake n msg = read_inner n n.inner msg

  -- The counter goes before the ciphertext, as a `u64`.
  pub sealed : NoiseSession → ℕ → TransportState × Option (List ℕ) → Reply (List ℕ)
  sealed n nonce (ts, none) = (record n { inner = transport ts }, inl snow_error)
  sealed n nonce (ts, some out) = (record n { inner = transport ts }, inr (to_be 8 nonce ++ out))

  pub encrypt_inner : NoiseSession → Inner → List ℕ → Reply (List ℕ)
  unfolding sealed
  encrypt_inner n (transport ts) plaintext =
      sealed n (s.sending_nonce ts) (s.write_message ts plaintext)
  encrypt_inner n (handshake hs) plaintext = (n, inl encrypt_before_ready)
  encrypt_inner n poisoned plaintext = (n, inl encrypt_before_ready)

  pub encrypt : NoiseSession → List ℕ → Reply (List ℕ)
  unfolding encrypt_inner
  encrypt n plaintext = encrypt_inner n n.inner plaintext

  -- A message that is refused must not move the window.
  pub opened : NoiseSession → ℕ → TransportState × Option (List ℕ) → Reply (List ℕ)
  opened n expected (ts, some out) = (record n { inner = transport ts }, inr out)
  opened n expected (ts, none) =
      (record n { inner = transport (s.set_receiving_nonce ts expected) }, inl snow_error)

  pub open_payload : NoiseSession → TransportState → List ℕ → Reply (List ℕ)
  unfolding opened
  open_payload n ts payload =
      if ltb (length payload) 8
      then (n, inl too_short)
      else if ltb (from_be (take 8 payload)) (s.receiving_nonce ts)
      then (n, inl replayed)
      else opened n (s.receiving_nonce ts)
          (s.read_message (s.set_receiving_nonce ts (from_be (take 8 payload))) (drop 8 payload))

  pub decrypt_inner : NoiseSession → Inner → List ℕ → Reply (List ℕ)
  unfolding open_payload
  decrypt_inner n (transport ts) payload = open_payload n ts payload
  decrypt_inner n (handshake hs) payload = (n, inl decrypt_before_ready)
  decrypt_inner n poisoned payload = (n, inl decrypt_before_ready)

  pub decrypt : NoiseSession → List ℕ → Reply (List ℕ)
  unfolding decrypt_inner
  decrypt n payload = decrypt_inner n n.inner payload
