-- ===== src/Store/Queue.antt =====
-- Envelopes for a peer that is away are handed out once, the newest of those that have not expired.
use cockroach_chat.Prelude.{
  map-append, ℕ, ◌≡◌, ◌≢◌, refl, ap, ◌∙◌, Option, none, List, [], ◌∷◌, ◌++◌, map, retain,
}
use cockroach_chat.Clock.{Millis}
use cockroach_chat.OrdMap.{get, insert, remove}
use cockroach_chat.OrdMap.Keys.{bytes_ord}
use cockroach_chat.OrdMap.Laws.{get-insert_self, get-insert_ne, get-remove, key_eq_refl, key_eq_ne}
use cockroach_chat.Store.{
  MemoryStore, Envelope, Fingerprint, queue_envelope, take_envelopes, drop_front, newest,
  or_default, is_fresh,
}
use cockroach_chat.Store.Order.{drop_front-newest, map-newest}

-- The packets that wait for a peer and have not expired.
abbrev pub waiting : MemoryStore → Fingerprint → Millis → List (List ℕ)
waiting s recipient now =
    map (λ e. e.packet_bytes) (retain (is_fresh s now) (or_default (get recipient s.envelopes)))

-- Of what is queued for a peer, the next taking hands out, in order, the newest of the packets that
-- had not expired and of the one just queued, up to the configured number; a second taking hands
-- out nothing; and another peer gets what it would have got.
pub take-queue_envelope :
    (s : MemoryStore) (recipient other : Fingerprint) (packet_bytes : List ℕ) (now : Millis)
    → other ≢ recipient
    → let s' = queue_envelope s recipient packet_bytes now in
      let (s'', out) = take_envelopes s' recipient in
      (out ≡ newest s.envelope_max_per_peer (waiting s recipient now ++ (packet_bytes ∷ [])))
      × ((take_envelopes s'' recipient).1 ≡ [])
      × ((take_envelopes s'' other).1 ≡ (take_envelopes s other).1)
unfolding take_envelopes queue_envelope
take-queue_envelope s recipient other packet_bytes now distinct =
    let live : List Envelope = retain (is_fresh s now) (or_default (get recipient s.envelopes)) in
    let added : Envelope = record { packet_bytes = packet_bytes; queued_ms = now } in
    let queue : List Envelope = drop_front s.envelope_max_per_peer (live ++ (added ∷ [])) in
    let bytes_of : Envelope → List ℕ = λ e. e.packet_bytes in
    let held : Option (List Envelope) → List (List ℕ) = λ q. map bytes_of (or_default q) in
    let map' = insert recipient queue s.envelopes in
    (
      ap held (get-insert_self recipient queue s.envelopes)
          ∙ ap (map bytes_of) (drop_front-newest s.envelope_max_per_peer (live ++ (added ∷ [])))
          ∙ map-newest bytes_of s.envelope_max_per_peer (live ++ (added ∷ []))
          ∙ ap (newest s.envelope_max_per_peer) (map-append bytes_of live (added ∷ [])),
      ap held (gone recipient map'),
      ap held (
          kept recipient other map' distinct
          ∙ get-insert_ne recipient other queue s.envelopes distinct),
    )
  where
    gone : (k : Fingerprint) (m : List (Fingerprint × List Envelope)) → get k (remove k m) ≡ none
    gone k m = get-remove k k m ∙ rw (key_eq_refl k) refl

    kept :
        (k j : Fingerprint) (m : List (Fingerprint × List Envelope))
        → j ≢ k
        → get j (remove k m) ≡ get j m
    kept k j m h = get-remove k j m ∙ rw (key_eq_ne j k h) refl
