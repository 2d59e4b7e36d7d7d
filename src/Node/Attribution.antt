-- ===== src/Node/Attribution.antt =====
-- Whose message a channel message is, for the node that receives it.
use cockroach_chat.Prelude.{
  ℕ, ◌≡◌, ◌≢◌, refl, Bool, true, false, Option, none, some, List, [], ◌∷◌, ◌++◌, inl, inr, ◌⊎◌,
  Bool-cases, Outcome, ok, err, panic,
}
use cockroach_chat.Platform.{World}
use cockroach_chat.OrdMap.{contains_key}
use cockroach_chat.OrdMap.Keys.{bytes_ord}
use cockroach_chat.Error.{bad_signature}
use cockroach_chat.Wire.{Packet, verify}
use cockroach_chat.Store.{Name}
use cockroach_chat.Node.Payload.{Parsed, decode_channel}
use cockroach_chat.Node.Payload.Safety.{payloads-ne-panic}
use cockroach_chat.Node.State.{MeshNode, MeshEvent, message_received, emit}
use cockroach_chat.Node.Inbound.{
  when_parsed, is_ok, sender_key, keep_message, accept_message, attribute, handle_channel,
}

module _ ⦃w : World⦄ where
  -- What the flag of a message says: it is signed by the key that its sender is known by, or no key of
  -- the sender is known.
  abbrev pub Attributed : Packet → MeshNode → Bool → Type 0
  Attributed pkt n true =
      (vk : w.crypto.VerifyingKey) × (sender_key pkt n ≡ some vk) × (verify w.crypto pkt vk ≡ ok tt)
  Attributed pkt n false = sender_key pkt n ≡ none

  abbrev pub event_of : Packet → Name → List ℕ → Bool → MeshEvent
  event_of pkt channel text verified =
      message_received channel pkt.sender text pkt.timestamp_ms verified

  -- The message is surfaced, on a channel that the node is on.
  abbrev pub Surfaces : Packet → MeshNode → MeshNode → Type 0
  Surfaces pkt n n' =
      (channel : Name) × (text : List ℕ) × (verified : Bool) × (n'.events
        ≡ n.events ++ (event_of pkt channel text verified ∷ []))
      × (contains_key channel n.subscribed ≡ true)
      × Attributed pkt n verified

  -- It sends nothing, and surfaces the message or nothing.
  abbrev pub Receives : Packet → MeshNode → MeshNode → Type 0
  Receives pkt n n' = (n'.calls ≡ n.calls) × ((n'.events ≡ n.events) ⊎ Surfaces pkt n n')

  accept_message-Receives :
      (pkt : Packet) (channel : Name) (text : List ℕ) (verified : Bool) (n : MeshNode)
      → Attributed pkt n verified
      → Receives pkt n (accept_message pkt channel text verified n)
  unfolding accept_message keep_message emit
  accept_message-Receives pkt channel text verified n a =
      elim (Bool-cases (contains_key channel n.subscribed)) [
        | inl on ↦ rw on (refl, inr (channel, text, verified, refl, on, a))
        | inr off ↦ rw off (refl, inl refl)
      ]

  is_ok→eq : (o : Outcome _ (Unit {0})) → is_ok o ≡ true → o ≡ ok tt
  is_ok→eq (ok u) h = refl
  is_ok→eq (err e) h = cc
  is_ok→eq panic h = cc

  attribute-Receives :
      (key : Option w.crypto.VerifyingKey) (pkt : Packet) (channel : Name) (text : List ℕ)
      (n : MeshNode)
      → sender_key pkt n ≡ key
      → Receives pkt n (attribute key pkt channel text n)
  unfolding attribute
  attribute-Receives none pkt channel text n e = accept_message-Receives pkt channel text false n e
  attribute-Receives (some vk) pkt channel text n e =
      elim (Bool-cases (is_ok (verify w.crypto pkt vk))) [
        | inl good ↦ rw good (
            accept_message-Receives pkt channel text true n
              (vk, e, is_ok→eq (verify w.crypto pkt vk) good))
        | inr bad ↦ rw bad (refl, inl refl)
      ]

  -- Whatever packet is taken for a channel message, its handler returns and sends nothing. It surfaces at
  -- most one message, with the packet's sender and time, on a channel that the node is on; one that it
  -- calls verified is signed by the key that the sender is known by, and of the sender of one that it does
  -- not call verified no key is known.
  pub handle_channel-Receives :
      (pkt : Packet) (n : MeshNode)
      → (n' : MeshNode) × (handle_channel pkt n ≡ ok n') × Receives pkt n n'
  unfolding handle_channel when_parsed attribute
  handle_channel-Receives pkt n =
      parsed (decode_channel w.lz4 n.cfg pkt.payload) (payloads-ne-panic w.lz4 n.cfg pkt.payload).1
    where
      parsed :
          (p : Parsed (List ℕ × List ℕ))
          → p ≢ panic
          → (n' : MeshNode) × (when_parsed p n
                (λ (channel, text). ok (attribute (sender_key pkt n) pkt channel text n))
              ≡ ok n')
            × Receives pkt n n'
      parsed (ok (channel, text)) safe =
          (_, refl, attribute-Receives (sender_key pkt n) pkt channel text n refl)
      parsed (err e) safe = (n, refl, (refl, inl refl))
      parsed panic safe = absurd (safe refl)

  -- A packet whose sender the node knows by a key, but that this key has not signed, changes nothing of the
  -- node when it is taken for a channel message, whatever its payload.
  pub forged_is_dropped :
      (pkt : Packet) (n : MeshNode) (vk : w.crypto.VerifyingKey)
      → sender_key pkt n ≡ some vk
      → verify w.crypto pkt vk ≡ err bad_signature
      → handle_channel pkt n ≡ ok n
  unfolding handle_channel when_parsed attribute
  forged_is_dropped pkt n vk known bad = rw known (
      dropped (decode_channel w.lz4 n.cfg pkt.payload)
        (payloads-ne-panic w.lz4 n.cfg pkt.payload).1)
    where
      dropped :
          (p : Parsed (List ℕ × List ℕ))
          → p ≢ panic
          → when_parsed p n (λ (channel, text). ok (attribute (some vk) pkt channel text n)) ≡ ok n
      dropped (ok (channel, text)) safe = rw bad refl
      dropped (err e) safe = refl
      dropped panic safe = absurd (safe refl)
