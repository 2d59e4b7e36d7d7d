-- ===== src/Node/Delivery.antt =====
-- A channel message that one node sends is surfaced by another that receives it.
use cockroach_chat.Prelude.{
  ℕ, ◌^◌, ◌≤◌, ◌<◌, ◌≡◌, refl, ap, ◌∙◌, true, none, some, List, [], ◌∷◌, ◌++◌, inl, inr, arith,
  length, Bool-cases, leb, ok, ◌>>=◌,
}
use cockroach_chat.Platform.{World}
use cockroach_chat.Clock.{ManualClock, now_ms}
use cockroach_chat.Frag.{Reassembler}
use cockroach_chat.OrdMap.{get, contains_key}
use cockroach_chat.OrdMap.Keys.{bytes_ord}
use cockroach_chat.Wire.{
  Packet, MsgType, channel_message, encode, decode, digest, verify, sign, effective_flags,
}
use cockroach_chat.Wire
use cockroach_chat.Wire.Types.{IsEncodable, IsEphId}
use cockroach_chat.Wire.Roundtrip.{decode-encode}
use cockroach_chat.Wire.Signing.{verify-sign}
use cockroach_chat.Store.{Name}
use cockroach_chat.Relay.Seen.{observe, observe_new}
use cockroach_chat.Relay.Seen.Count.{observe_of_none}
use cockroach_chat.Relay.Rate.{allow}
use cockroach_chat.Relay.Scheduler.{LinkId}
use cockroach_chat.Relay.Fanout.{should_relay}
use cockroach_chat.Node.Payload.{encode_channel, decode_channel}
use cockroach_chat.Node.Payload.Roundtrip.{decode_channel-encode_channel}
use cockroach_chat.Text.{IsText}
use cockroach_chat.Node.State.{MeshNode, MeshEvent, message_received, emit, eph_id}
use cockroach_chat.Node.Session.{Run, originate}
use cockroach_chat.Node.Commands.{channel_packet}
use cockroach_chat.Node.Inbound.{
  when_parsed, sender_key, keep_message, accept_message, attribute, handle_channel,
}
use cockroach_chat.Node.Drive.{
  relay_later, maybe_relay, dispatch, admit_packet, tag_neighbour, count_copy, on_packet, on_bytes,
}

module _ ⦃w : World⦄ where
  -- What passing a packet on leaves alone.
  abbrev pub Rest : Type 0
  Rest = List MeshEvent × Reassembler w.float.F × ManualClock

  abbrev pub rest_of : MeshNode → Rest
  rest_of n = (n.events, n.reassembler, n.clock)

  rest_of-maybe_relay :
      (link : LinkId) (pkt : Packet) (n : MeshNode) → rest_of (maybe_relay link pkt n) ≡ rest_of n
  unfolding maybe_relay relay_later
  rest_of-maybe_relay link pkt n =
      let relays = (should_relay w.float w.rng (length n.links) n.cfg n.rng).0 in
      elim (Bool-cases (leb pkt.ttl 1)) [
        | inl e ↦ rw e refl
        | inr e ↦ elim (Bool-cases relays) [ inl on ↦ rw (e, on) refl | inr off ↦ rw (e, off) refl ]
      ]

  -- A message that is signed by the known key of its sender is surfaced on its channel.
  handle_channel_known :
      (pkt : Packet) (n : MeshNode) (channel : Name) (text : List ℕ) (vk : w.crypto.VerifyingKey)
      → decode_channel w.lz4 n.cfg pkt.payload ≡ ok (channel, text)
      → sender_key pkt n ≡ some vk
      → verify w.crypto pkt vk ≡ ok tt
      → contains_key channel n.subscribed ≡ true
      → (n' : MeshNode) × (handle_channel pkt n ≡ ok n')
        × (rest_of n' ≡ (
          n.events ++ (message_received channel pkt.sender text pkt.timestamp_ms true ∷ []),
          n.reassembler,
          n.clock,
        ))
  unfolding handle_channel when_parsed attribute accept_message keep_message emit
  handle_channel_known pkt n channel text vk parsed known signed on =
      rw (parsed, known, signed, on) (_, refl, refl)

  untagged :
      (link : LinkId) (pkt : Packet) (n : MeshNode)
      → pkt.msg_type ≡ channel_message
      → tag_neighbour link pkt pkt.msg_type n ≡ n
  unfolding tag_neighbour
  untagged link pkt n kind = ap (λ t. tag_neighbour link pkt t n) kind

  dispatched :
      (link : LinkId) (pkt : Packet) (n : MeshNode)
      → pkt.msg_type ≡ channel_message
      → dispatch link pkt pkt.msg_type n ≡ handle_channel pkt n
  unfolding dispatch
  dispatched link pkt n kind = ap (λ t. dispatch link pkt t n) kind

  counted_new :
      (link : LinkId) (pkt : Packet) (n : MeshNode)
      → get (digest w.crypto pkt) n.seen.entries ≡ none
      → count_copy link pkt n
        ≡ admit_packet link pkt
            (record n { seen = (observe n.seen (digest w.crypto pkt) (now_ms n.clock)).0 })
  unfolding count_copy observe_new
  counted_new link pkt n fresh =
      let new : (observe n.seen (digest w.crypto pkt) (now_ms n.clock)).1.is_new ≡ true =
        ap (λ o. o.1.is_new)
          (observe_of_none n.seen (digest w.crypto pkt) (now_ms n.clock) fresh) in
      rw new refl

  -- What follows the handler of a packet.
  abbrev relayed : LinkId → Packet → Run → Run
  relayed link pkt r = r >>= λ handled. ok (maybe_relay link pkt handled)

  admitted :
      (link : LinkId) (pkt : Packet) (n : MeshNode)
      → (allow w.float n.rate pkt.sender (now_ms n.clock)).1 ≡ true
      → admit_packet link pkt n
        ≡ relayed link pkt (
            dispatch link pkt pkt.msg_type
              (record n { rate = (allow w.float n.rate pkt.sender (now_ms n.clock)).0 }))
  unfolding admit_packet
  admitted link pkt n allowed = rw allowed refl

  -- A new channel message from a sender that is not throttled is handled.
  on_packet_new :
      (link : LinkId) (pkt : Packet) (n : MeshNode) (channel : Name) (text : List ℕ)
      (vk : w.crypto.VerifyingKey)
      → pkt.msg_type ≡ channel_message
      → get (digest w.crypto pkt) n.seen.entries ≡ none
      → (allow w.float n.rate pkt.sender (now_ms n.clock)).1 ≡ true
      → decode_channel w.lz4 n.cfg pkt.payload ≡ ok (channel, text)
      → sender_key pkt n ≡ some vk
      → verify w.crypto pkt vk ≡ ok tt
      → contains_key channel n.subscribed ≡ true
      → (n' : MeshNode) × (on_packet link (ok pkt) n ≡ ok n')
        × (rest_of n' ≡ (
          n.events ++ (message_received channel pkt.sender text pkt.timestamp_ms true ∷ []),
          n.reassembler,
          n.clock,
        ))
  unfolding on_packet sender_key
  on_packet_new link pkt n channel text vk kind fresh allowed parsed known signed on =
      let counted : MeshNode = record n {
        seen = (observe n.seen (digest w.crypto pkt) (now_ms n.clock)).0;
      } in
      let charged : MeshNode = record counted {
        rate = (allow w.float n.rate pkt.sender (now_ms n.clock)).0;
      } in
      let (n', handled, events) =
        handle_channel_known pkt charged channel text vk parsed known signed on in
      (
        maybe_relay link pkt n',
        ap (count_copy link pkt) (untagged link pkt n kind)
            ∙ counted_new link pkt n fresh
            ∙ admitted link pkt counted allowed
            ∙ ap (relayed link pkt) (dispatched link pkt charged kind ∙ handled),
        rest_of-maybe_relay link pkt n' ∙ events,
      )

  -- The packet of a channel message is one that a receiver can decode.
  channel_packet-IsEncodable :
      (channel : Name) (text : List ℕ) (a : MeshNode)
      → IsEphId (eph_id a)
      → now_ms a.clock < 2 ^ 64
      → IsEncodable (channel_packet channel text a)
  unfolding channel_packet originate sign Wire.new Wire.from_u8 Wire.to_u8
  channel_packet-IsEncodable channel text a id now = record {
    current = refl;
    canonical = refl;
    flags_byte = omega arith;
    flags_clear = refl;
    timestamp_u64 = now;
    sender_id = id;
    recipient_id = tt;
    signature_len = w.crypto.length-sign a.identity.signing _;
  }

  -- A node that gets the bytes of another's channel message surfaces the message, with its text, its
  -- sender and its time, as verified, if both have the same tunables and their cap fits a `u32`, the
  -- channel's name is a text of at most 255 bytes and the message a text within the cap, the payload is
  -- shorter than 65536 bytes, the sender has an ephemeral id of eight bytes and a `u64` clock, and the
  -- receiver is on the channel, knows the sender by its key, does not throttle it, and has not heard the
  -- packet.
  pub message_is_delivered :
      (a b : MeshNode) (link : LinkId) (channel : Name) (text : List ℕ)
      → a.cfg ≡ b.cfg
      → b.cfg.decompress_max_bytes < 2 ^ 32
      → length channel ≤ 255
      → IsText channel
      → IsText text
      → length text ≤ b.cfg.decompress_max_bytes
      → length (encode_channel w.lz4 a.cfg channel text) < 2 ^ 16
      → IsEphId (eph_id a)
      → now_ms a.clock < 2 ^ 64
      → contains_key channel b.subscribed ≡ true
      → sender_key (channel_packet channel text a) b
        ≡ some (w.crypto.verifying_key a.identity.signing)
      → (allow w.float b.rate (eph_id a) (now_ms b.clock)).1 ≡ true
      → get (digest w.crypto (channel_packet channel text a)) b.seen.entries ≡ none
      → (b' : MeshNode) × (on_bytes link (ok (some (encode (channel_packet channel text a)))) b
          ≡ ok b')
        × (rest_of b' ≡ (
          b.events ++ (message_received channel (eph_id a) text (now_ms a.clock) true ∷ []),
          b.reassembler,
          b.clock,
        ))
  unfolding now_ms on_bytes channel_packet originate sign Wire.new
  message_is_delivered a b link channel text same cap small name_text body_text fits short id now on
        known allowed fresh =
      rw
        (decode-encode (channel_packet channel text a)
          (channel_packet-IsEncodable channel text a id now) short)
        (on_packet_new link (channel_packet channel text a) b channel text
          (w.crypto.verifying_key a.identity.signing) refl fresh allowed
          (ap (λ c. decode_channel w.lz4 b.cfg (encode_channel w.lz4 c channel text)) same
            ∙ decode_channel-encode_channel w.lz4 b.cfg channel text small name_text body_text fits
                cap)
          known (verify-sign w.crypto (Wire.new channel_message _ _ _ none _) a.identity.signing)
          on)
