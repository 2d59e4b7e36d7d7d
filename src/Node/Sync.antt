-- ===== src/Node/Sync.antt =====
-- Synchronisation in node.rs: what a neighbour sends in answer to send_sync_requests.
use cockroach_chat.Prelude.{
  ◌≤◌, ◌≡◌, ◌↔◌, refl, sym, ap, ap₂, subst, arith, some_inj, ◌∙◌, inl, inr, true, false, not, ◌&&◌,
  List, [], ◌∷◌, ◌++◌, map, length, Bool-cases, ok,
}
use cockroach_chat.Platform.{World}
use cockroach_chat.Text.{IsText}
use mathlib.Core.List.{Memᴰ}
use mathlib.Core.List.Memᴰ
use cockroach_chat.OrdMap.Keys.{nat_ord, bytes_ord}
use cockroach_chat.Store.{Name, Digest, StoredMessage, channel_digests}
use cockroach_chat.Store.Index.{IsIndexed}
use cockroach_chat.Store.Lookup.{message_by_digest_lem}
use cockroach_chat.Wire
use cockroach_chat.Channels.{SyncFilter, contains, missing_from}
use cockroach_chat.Channels
use cockroach_chat.Channels.Sync.{
  All-new, contains-new, missing_from_lem, contains_of_Memᴰ, Memᴰ_of_contains,
}
use cockroach_chat.Channels.Once.{IsAscending, missing_from-IsAscending}
use cockroach_chat.Relay.Scheduler.{LinkId}
use cockroach_chat.Node.Payload.Roundtrip.{IsDigests, decode_sync-encode_sync}
use cockroach_chat.Node.State.{MeshNode, sends}
use cockroach_chat.Node.Originals.{
  messages, room, originals, resent, resend_all_lem, resent-originals,
}
use cockroach_chat.Node.Session.{originate}
use cockroach_chat.Node.Inbound.{when_parsed, answer_sync, handle_sync_request, sync_packet}

module _ ⦃w : World⦄ where
  -- The kept messages of some digests.
  recall :
      (n : MeshNode) (channel : Name) (ds : List Digest)
      → ((d : Digest)
          → Memᴰ d ds
          → (m : StoredMessage) × Memᴰ m (messages n channel) × (m.digest ≡ d))
      → (ms : List StoredMessage) × (map (λ m. m.digest) ms ≡ ds)
        × ((m : StoredMessage) → Memᴰ m ms → Memᴰ m (messages n channel))
  recall n channel [] known = ([], refl, λ m h. absurd (Memᴰ.not-nil h))
  recall n channel (d ∷ ds) known =
      let (m, kept, e) = known d (Memᴰ.head refl) in
      let (ms, es, all_kept) = recall n channel ds (λ d' h. known d' (Memᴰ.tail h)) in
      (
        m ∷ ms,
        ap₂ (λ x xs. x ∷ xs) e es,
        λ x h. elim (Memᴰ.cases_cons h) [
          | inl same ↦ Memᴰ.cast same kept
          | inr later ↦ all_kept x later
        ],
      )

  -- A digest that is asked for is that of a message that is kept.
  known_of_asked :
      (n : MeshNode) (channel : Name) (remote : SyncFilter) (d : Digest)
      → Memᴰ d (missing_from (Channels.new channel (channel_digests n.store channel)) remote)
      → (m : StoredMessage) × Memᴰ m (messages n channel) × (m.digest ≡ d)
  unfolding channel_digests
  known_of_asked n channel remote d h =
      let mine = Channels.new channel (channel_digests n.store channel) in
      let here : contains d (channel_digests n.store channel) ≡ true = ground (
        arith,
        contains_of_Memᴰ d (missing_from mine remote) h,
        (missing_from_lem mine remote d).0,
        contains-new channel (channel_digests n.store channel) d,
      ) in
      Memᴰ.of_map (λ m. m.digest) (messages n channel)
        (Memᴰ_of_contains d (channel_digests n.store channel) here)

  -- The messages whose digests are asked for, by what a filter says of these.
  asked_iff :
      (b : MeshNode) (channel : Name) (held ds : List Digest) (asked : List StoredMessage)
      → IsIndexed b.store
      → map (λ m. m.digest) asked ≡ ds
      → ((m : StoredMessage) → Memᴰ m asked → Memᴰ m (messages b channel))
      → ((d : Digest)
          → contains d ds ≡ contains d (channel_digests b.store channel) && not (contains d held))
      → (m : StoredMessage)
      → Memᴰ m asked ↔ (Memᴰ m (messages b channel) × (Memᴰ m.digest held → ⊥))
  unfolding channel_digests
  asked_iff b channel held ds asked v same kept differs m = (
    λ h. (kept m h, λ at_a. not_both h (contains_of_Memᴰ m.digest held at_a)),
    λ (here, free). elim (Bool-cases (contains m.digest held)) [
      | inl at_a ↦ absurd (free (Memᴰ_of_contains m.digest held at_a))
      | inr lacks ↦ the_one here lacks
    ],
  )
    where
      not_both : Memᴰ m asked → contains m.digest held ≡ true → ⊥
      not_both h at_a =
          let wanted =
            contains_of_Memᴰ m.digest ds
              (subst (Memᴰ m.digest) same (Memᴰ.map (λ x. x.digest) h)) in
          ground (arith, wanted, at_a, differs m.digest)

      the_one : Memᴰ m (messages b channel) → contains m.digest held ≡ false → Memᴰ m asked
      the_one here lacks =
          let stored =
            contains_of_Memᴰ m.digest (channel_digests b.store channel)
              (Memᴰ.map (λ x. x.digest) here) in
          let wanted : contains m.digest ds ≡ true =
            ground (arith, stored, lacks, differs m.digest) in
          let (x, at_x, e) =
            Memᴰ.of_map (λ y. y.digest) asked
              (subst (Memᴰ m.digest) (sym same) (Memᴰ_of_contains m.digest ds wanted)) in
          let one = (message_by_digest_lem b.store m.digest m v).1 (channel, here, refl) in
          let two = (message_by_digest_lem b.store m.digest x v).1 (channel, kept x at_x, e) in
          Memᴰ.cast (some_inj (sym one ∙ two)) at_x

  -- A node `b` whose messages are indexed and that gets the request of `a` to synchronise a channel sends
  -- the original bytes of certain messages in frames, where it kept them and they can be split, on the
  -- link that the request came by, to its capacity, and after its earlier calls; it changes nothing else.
  -- These are exactly the messages of the channel that `b` keeps and of which `a` keeps none with the same
  -- digest, each once and in the order of their digests. The channel's name is a text of at most 255
  -- bytes, and the digests that `a` keeps of it have 8 bytes.
  pub handle_sync_request_lem :
      (a b : MeshNode) (link : LinkId) (channel : Name)
      → length channel ≤ 255
      → IsText channel
      → IsDigests (map (λ m. m.digest) (messages a channel))
      → IsIndexed b.store
      → (asked : List StoredMessage) × (handle_sync_request link (sync_packet channel a) b
          ≡ ok (record b { calls = b.calls ++ sends (originals link (room link b) asked) }))
        × ((m : StoredMessage)
            → Memᴰ m asked ↔ (
                Memᴰ m (messages b channel)
                × (Memᴰ m.digest (map (λ x. x.digest) (messages a channel)) → ⊥)))
        × IsAscending (map (λ m. m.digest) asked)
  unfolding handle_sync_request when_parsed answer_sync sync_packet originate Wire.sign Wire.new
      Channels.new channel_digests
  handle_sync_request_lem a b link channel small name_text sized v =
      let held = Channels.new channel (channel_digests a.store channel) in
      let remote = Channels.new channel held.digests in
      let mine = Channels.new channel (channel_digests b.store channel) in
      let (asked, same, kept) =
        recall b channel (missing_from mine remote) (known_of_asked b channel remote) in
      let differs : (d : Digest)
          → contains d (missing_from mine remote)
            ≡ contains d (channel_digests b.store channel)
              && not (contains d (channel_digests a.store channel)) =
        λ d.
          (missing_from_lem mine remote d).0
          ∙ ap₂ (λ x y. x && not y) (contains-new channel (channel_digests b.store channel) d)
              (contains-new channel held.digests d
                ∙ contains-new channel (channel_digests a.store channel) d) in
      (
        asked,
        ap (λ parsed. when_parsed parsed b (λ r. ok (answer_sync link r b)))
              (decode_sync-encode_sync held small name_text
                (All-new (λ d. length d ≡ 8) channel (channel_digests a.store channel) sized))
            ∙ ap ok (
                resend_all_lem link (missing_from mine remote) b b.calls
                ∙ ap (λ sent. record b { calls = b.calls ++ sends sent })
                    (ap (λ ds. resent link ds b) (sym same)
                      ∙ resent-originals link b channel asked v kept)),
        asked_iff b channel (channel_digests a.store channel) (missing_from mine remote) asked v
            same kept differs,
        subst IsAscending (sym same)
            (missing_from-IsAscending channel (channel_digests b.store channel) remote),
      )
