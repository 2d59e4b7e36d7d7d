-- ===== src/Node/Frames.antt =====
-- The frames of a packet, from the link of one node to the events of another.
use cockroach_chat.Prelude.{
  ℕ, ◌^◌, ◌≤◌, ◌<◌, ◌≡◌, refl, ap, sym, ◌∙◌, subst, true, none, some, List, [], ◌∷◌, ◌++◌, arith,
  length, max, ok, err, panic, ◌>>=◌,
}
use cockroach_chat.Platform.{World}
use cockroach_chat.Clock.{now_ms}
use cockroach_chat.Text.{IsText}
use cockroach_chat.OrdMap.{get, contains_key}
use cockroach_chat.OrdMap.Keys.{bytes_ord}
use cockroach_chat.Wire.{encode, digest}
use cockroach_chat.Wire.Types.{IsEphId}
use cockroach_chat.Wire.Signing.{length-digest}
use cockroach_chat.Store.{Name}
use cockroach_chat.Frag.{Reassembler, ingest, split}
use cockroach_chat.Frag
use cockroach_chat.Frag.Stored.{IsValid, IsSafe}
use cockroach_chat.Frag.Safety.{ingest-IsSafe}
use cockroach_chat.Frag.Roundtrip.{out_of, packets, packets-split}
use cockroach_chat.Relay.Rate.{allow}
use cockroach_chat.Relay.Scheduler.{LinkId}
use cockroach_chat.Node.Payload.{encode_channel}
use cockroach_chat.Node.State.{MeshNode, MeshEvent, message_received, eph_id}
use cockroach_chat.Node.Session.{Run}
use cockroach_chat.Node.Commands.{channel_packet}
use cockroach_chat.Node.Inbound.{sender_key}
use cockroach_chat.Node.Drive.{on_bytes, on_frame}
use cockroach_chat.Node.Delivery.{rest_of, message_is_delivered}

module _ ⦃w : World⦄ where
  -- A node gets the frames of a link, one after the other.
  pub feed : LinkId → List (List ℕ) → MeshNode → Run
  feed link [] n = ok n
  feed link (f ∷ fs) n = on_frame link f n >>= λ n'. feed link fs n'

  abbrev with_buffers : Reassembler w.float.F → MeshNode → MeshNode
  with_buffers r n = record n { reassembler = r }

  -- What a frame does, by what the reassembler replies.
  on_frame-reply :
      (link : LinkId) (f : List ℕ) (n : MeshNode) (reply : Frag.Reply)
      → (ingest n.reassembler f (now_ms n.clock)).1 ≡ reply
      → on_frame link f n
        ≡ on_bytes link reply (with_buffers (ingest n.reassembler f (now_ms n.clock)).0 n)
  unfolding on_frame
  on_frame-reply link f n reply is =
      ap (λ x. on_bytes link x (with_buffers (ingest n.reassembler f (now_ms n.clock)).0 n)) is

  then_feed : LinkId → List (List ℕ) → Run → Run
  then_feed link fs r = r >>= λ n'. feed link fs n'

  -- Frames that complete no packet surface nothing.
  feed_nothing :
      (link : LinkId) (fs : List (List ℕ)) (n : MeshNode)
      → IsValid n.reassembler
      → packets n.reassembler fs (now_ms n.clock) ≡ []
      → (n' : MeshNode) × (feed link fs n ≡ ok n') × (n'.events ≡ n.events)
  unfolding feed packets out_of then_feed on_bytes
  feed_nothing link [] n v e = (n, refl, refl)
  feed_nothing link (f ∷ fs) n v e =
      let now = now_ms n.clock in
      let (valid, safe) = ingest-IsSafe n.reassembler f now v in
      let r = (ingest n.reassembler f now).0 in
      by (ingest n.reassembler f now).1 refl safe (feed_nothing link fs (with_buffers r n) valid) e
    where
      by :
          (reply : Frag.Reply)
          → (ingest n.reassembler f (now_ms n.clock)).1 ≡ reply
          → IsSafe (max n.reassembler.cfg.reassembly_max_bytes (length f)) reply
          → let r = (ingest n.reassembler f (now_ms n.clock)).0 in
            (packets r fs (now_ms n.clock) ≡ []
              → (n' : MeshNode) × (feed link fs (with_buffers r n) ≡ ok n')
                × (n'.events ≡ n.events))
            → out_of reply ++ packets r fs (now_ms n.clock) ≡ []
            → (n' : MeshNode) × (then_feed link fs (on_frame link f n) ≡ ok n')
              × (n'.events ≡ n.events)
      by (ok (some out)) is safe ih e = cc
      by (ok none) is safe ih e =
          let (n', ran, events) = ih e in
          (n', ap (then_feed link fs) (on_frame-reply link f n (ok none) is) ∙ ran, events)
      by (err x) is safe ih e =
          let (n', ran, events) = ih e in
          (n', ap (then_feed link fs) (on_frame-reply link f n (err x) is) ∙ ran, events)
      by panic is safe ih e = absurd safe

  -- The packet's bytes are handled with these events, whatever the buffers hold.
  abbrev Handles : LinkId → List ℕ → List MeshEvent → MeshNode → Type 0
  Handles link bytes es n =
      (r : Reassembler w.float.F)
      → (n' : MeshNode) × (on_bytes link (ok (some bytes)) (with_buffers r n) ≡ ok n')
        × (rest_of n' ≡ (es, r, n.clock))

  -- Frames that complete one packet surface what it does.
  feed_one :
      (link : LinkId) (bytes : List ℕ) (es : List MeshEvent) (fs : List (List ℕ)) (n : MeshNode)
      → IsValid n.reassembler
      → packets n.reassembler fs (now_ms n.clock) ≡ bytes ∷ []
      → Handles link bytes es n
      → (n' : MeshNode) × (feed link fs n ≡ ok n') × (n'.events ≡ es)
  unfolding feed packets out_of then_feed on_bytes
  feed_one link bytes es [] n v e handles = absurd (ground arith)
  feed_one link bytes es (f ∷ fs) n v e handles =
      let now = now_ms n.clock in
      let (valid, safe) = ingest-IsSafe n.reassembler f now v in
      let r = (ingest n.reassembler f now).0 in
      by (ingest n.reassembler f now).1 refl safe valid
        (λ e'. feed_one link bytes es fs (with_buffers r n) valid e' handles) e
    where
      by :
          (reply : Frag.Reply)
          → (ingest n.reassembler f (now_ms n.clock)).1 ≡ reply
          → IsSafe (max n.reassembler.cfg.reassembly_max_bytes (length f)) reply
          → let r = (ingest n.reassembler f (now_ms n.clock)).0 in
            IsValid r
            → (packets r fs (now_ms n.clock) ≡ bytes ∷ []
                → (n' : MeshNode) × (feed link fs (with_buffers r n) ≡ ok n') × (n'.events ≡ es))
            → out_of reply ++ packets r fs (now_ms n.clock) ≡ bytes ∷ []
            → (n' : MeshNode) × (then_feed link fs (on_frame link f n) ≡ ok n') × (n'.events ≡ es)
      by (ok (some out)) is safe valid ih e =
          let r = (ingest n.reassembler f (now_ms n.clock)).0 in
          let (m, handled, rest) = handles r in
          let same : out ≡ bytes = cc in
          let none_left : packets r fs (now_ms n.clock) ≡ [] = cc in
          let (n', ran, events) =
            feed_nothing link fs m (subst IsValid (sym (ap (λ x. x.1) rest)) valid)
              (ap (λ x. packets x.1 fs (now_ms x.2)) rest ∙ none_left) in
          (
            n',
            ap (then_feed link fs) (
                  on_frame-reply link f n (ok (some out)) is
                  ∙ ap (λ b. on_bytes link (ok (some b)) (with_buffers r n)) same
                  ∙ handled)
                ∙ ran,
            events ∙ ap (λ x. x.0) rest,
          )
      by (ok none) is safe valid ih e =
          let (n', ran, events) = ih e in
          (n', ap (then_feed link fs) (on_frame-reply link f n (ok none) is) ∙ ran, events)
      by (err x) is safe valid ih e =
          let (n', ran, events) = ih e in
          (n', ap (then_feed link fs) (on_frame-reply link f n (err x) is) ∙ ran, events)
      by panic is safe valid ih e = absurd safe

  -- A channel message goes from one node to another: if `b` gets, all at one time, the frames that the
  -- packet of `a` is split into for a link, and has no other message in flight, it surfaces the message,
  -- with its text, its sender and its time, as verified, into however many frames the packet was split: no
  -- cap of 16 fragments for a link, which docs/protocol.md and docs/threat-model.md name, is applied. Both
  -- have the same tunables, with caps that the
  -- message and its packet keep to and that fit a `u32`; the channel's name and the message are texts, the
  -- name of at most 255 bytes; the payload is shorter than 65536 bytes; `a` has an ephemeral id of eight
  -- bytes and a `u64` clock; and `b` is on the channel, knows `a` by its key, does not throttle it, and has
  -- not heard the packet.
  pub message_crosses_link :
      (a b : MeshNode) (link : LinkId) (channel : Name) (text : List ℕ) (mtu : ℕ)
      (frames : List (List ℕ))
      → split
          (encode (channel_packet channel text a))
          (digest w.crypto (channel_packet channel text a))
          mtu
        ≡ ok frames
      → b.reassembler ≡ Frag.new b.cfg
      → length (encode (channel_packet channel text a)) ≤ b.cfg.reassembly_max_bytes
      → a.cfg ≡ b.cfg
      → b.cfg.decompress_max_bytes < 2 ^ 32
      → length channel ≤ 255
      → IsText channel
      → IsText text
      → length text ≤ b.cfg.decompress_max_bytes
      → length (encode_channel w.lz4 a.cfg channel text) < 2 ^ 16
      → IsEphId (eph_id a)
      → now_ms a.clock < 2 ^ 64
      → contains_key channel b.subscribed ≡ true
      → sender_key (channel_packet channel text a) b
        ≡ some (w.crypto.verifying_key a.identity.signing)
      → (allow w.float b.rate (eph_id a) (now_ms b.clock)).1 ≡ true
      → get (digest w.crypto (channel_packet channel text a)) b.seen.entries ≡ none
      → (b' : MeshNode) × (feed link frames b ≡ ok b')
        × (b'.events
            ≡ b.events ++ (message_received channel (eph_id a) text (now_ms a.clock) true ∷ []))
  unfolding sender_key Frag.new
  message_crosses_link a b link channel text mtu frames cut idle room same cap small name_text
        body_text fits short id now on known allowed fresh =
      feed_one link (encode (channel_packet channel text a)) _ frames b
        (subst IsValid (sym idle) (record { bounded = omega arith; sorted = tt; partial = tt }))
        (ap (λ r. packets r frames (now_ms b.clock)) idle
          ∙ packets-split b.cfg (encode (channel_packet channel text a))
              (digest w.crypto (channel_packet channel text a)) mtu frames (now_ms b.clock)
              (length-digest w.crypto (channel_packet channel text a)) room cut)
        (λ r.
          message_is_delivered a (with_buffers r b) link channel text same cap small name_text
            body_text fits short id now on known allowed fresh)
