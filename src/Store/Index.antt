-- ===== src/Store/Index.antt =====
-- The set of digests indexes the messages: none is stored twice, or unknown to it.
use cockroach_chat.Prelude.{
  ℕ, ◌+◌, ◌≤◌, ◌≡◌, refl, ◌∙◌, inl, inr, Bool, false, some, List, [], ◌∷◌, ◌++◌, arith, length, ltb,
  leb, if◌then◌else◌, Bool-cases, Option-cases, retain,
}
use cockroach_chat.Clock.{Millis}
use cockroach_chat.OrdMap.{Map, key_eq, get, contains_key, insert, remove, update}
use cockroach_chat.OrdMap.Keys.{bytes_ord}
use cockroach_chat.OrdMap.Laws.{
  Ordering-cases, contains_key-get, get-insert, get-remove, key_eq_sym, key_eq→eq,
}
use cockroach_chat.OrdMap.Sorted.{
  IsSorted, Above-trans, get-Above, insert-IsSorted, update-IsSorted,
}
use cockroach_chat.Store.{
  MemoryStore, StoredMessage, Digest, Name, put_channel_message, add_message, prune_channel,
  unexpired, drop_oldest, place, sort_by_key, or_default,
}

-- How many messages of a channel, and of all channels, have a digest.
unfoldable pub count : Digest → List StoredMessage → ℕ
count d [] = 0
count d (m ∷ ms) = (if key_eq m.digest d then 1 else 0) + count d ms

unfoldable pub copies : Digest → Map Name (List StoredMessage) → ℕ
unfolding count
copies d [] = 0
copies d ((name, ms) ∷ channels) = count d ms + copies d channels

abbrev pub known : Digest → Map Digest (Unit {0}) → ℕ
known d digests = if contains_key d digests then 1 else 0

-- Each digest that is known belongs to at most one message of all channels, and one that is not to
-- none.
pub record IsIndexed (s : MemoryStore) : Type 0 where
  pub sorted : IsSorted s.channels
  pub indexed : (d : Digest) → copies d s.channels ≤ known d s.digests

count-append :
    (d : Digest) (xs ys : List StoredMessage) → count d (xs ++ ys) ≡ count d xs + count d ys
unfolding count
count-append d [] ys = omega arith
count-append d (x ∷ xs) ys = omega (arith, count-append d xs ys)

abbrev time : StoredMessage → ℕ
time m = m.timestamp_ms

count-place :
    (d : Digest) (x : StoredMessage) (ys : List StoredMessage)
    → count d (place time x ys) ≡ count d (x ∷ ys)
unfolding count place
count-place d x [] = refl
count-place d x (y ∷ ys) = elim (Bool-cases (leb (time x) (time y))) [
  | inl e ↦ rw e refl
  | inr e ↦ rw e (omega (arith, count-place d x ys))
]

count-sort_by_key :
    (d : Digest) (xs : List StoredMessage) → count d (sort_by_key time xs) ≡ count d xs
unfolding count sort_by_key
count-sort_by_key d [] = refl
count-sort_by_key d (x ∷ xs) =
    count-place d x (sort_by_key time xs) ∙ omega (arith, count-sort_by_key d xs)

count-retain :
    (d : Digest) (p : StoredMessage → Bool) (xs : List StoredMessage)
    → count d (retain p xs) ≤ count d xs
unfolding count
count-retain d p [] = omega arith
count-retain d p (x ∷ xs) = ground (arith, count-retain d p xs)

count-unexpired :
    (d : Digest) (s : MemoryStore) (now : Millis) (xs : List StoredMessage)
    → count d (unexpired s now xs) ≤ count d xs
unfolding unexpired
count-unexpired d s now xs = elim (Bool-cases (ltb 0 s.history_ms)) [
  | inl e ↦ rw e (count-retain d _ xs)
  | inr e ↦ rw e (omega arith)
]

-- Putting a list in the place of a channel's messages.
copies-insert :
    (d : Digest) (c : Name) (v : List StoredMessage) (m : Map Name (List StoredMessage))
    → IsSorted m
    → copies d (insert c v m) + count d (or_default (get c m)) ≡ copies d m + count d v
unfolding copies count insert get
copies-insert d c v [] s = omega arith
copies-insert d c v ((j, w) ∷ m) s = elim (Ordering-cases (bytes_ord.cmp c j)) [
  | inl e ↦ rw (e, insert, get-Above c m (Above-trans c j m e s.0)) (omega arith)
  | inr (inl e) ↦ rw (e, insert) (omega arith)
  | inr (inr e) ↦ rw (e, insert) (omega (arith, copies-insert d c v m s.1))
]

copies-update :
    (d : Digest) (c : Name) (m : Map Name (List StoredMessage))
    → copies d (update c (sort_by_key time) m) ≡ copies d m
unfolding copies update
copies-update d c [] = refl
copies-update d c ((j, w) ∷ m) = elim (Bool-cases (key_eq c j)) [
  | inl e ↦ rw e (omega (arith, count-sort_by_key d w))
  | inr e ↦ rw e (omega (arith, copies-update d c m))
]

known-remove :
    (d k : Digest) (digests : Map Digest (Unit {0}))
    → known d (remove k digests) ≡ (if key_eq k d then 0 else known d digests)
known-remove d k digests = ground (
  arith,
  contains_key-get d (remove k digests),
  contains_key-get d digests,
  get-remove k d digests,
  key_eq_sym d k,
)

known-insert :
    (d k : Digest) (digests : Map Digest (Unit {0}))
    → known d (insert k tt digests) ≡ (if key_eq k d then 1 else known d digests)
known-insert d k digests = ground (
  arith,
  contains_key-get d (insert k tt digests),
  contains_key-get d digests,
  get-insert k d tt digests,
  key_eq_sym d k,
)

-- Dropping the oldest messages, beside messages of other channels that `others` counts.
drop_oldest-indexed :
    (others : Digest → ℕ) (n : ℕ) (ms : List StoredMessage) (digests : Map Digest (Unit {0}))
    → ((d : Digest) → count d ms + others d ≤ known d digests)
    → (d : Digest)
    → let (kept, left) = drop_oldest n ms digests in count d kept + others d ≤ known d left
unfolding drop_oldest count
drop_oldest-indexed others n [] digests h d = h d
drop_oldest-indexed others n (m ∷ ms) digests h d = elim (Bool-cases (ltb n (length (m ∷ ms)))) [
  | inl e ↦ rw e (
      drop_oldest-indexed others n ms (remove m.digest digests)
        (λ x. ground (arith, h x, known-remove x m.digest digests)) d)
  | inr e ↦ rw e (h d)
]

add_message-IsIndexed :
    (s : MemoryStore) (msg : StoredMessage)
    → IsIndexed s
    → contains_key msg.digest s.digests ≡ false
    → IsIndexed (add_message s msg)
unfolding add_message count
add_message-IsIndexed s msg v absent =
    let old : List StoredMessage = or_default (get msg.channel s.channels) in
    let pushed : Map Name (List StoredMessage) =
      insert msg.channel (old ++ (msg ∷ [])) s.channels in
    record {
      sorted =
          update-IsSorted msg.channel (sort_by_key time) pushed
            (insert-IsSorted msg.channel (old ++ (msg ∷ [])) s.channels v.sorted);
      indexed = λ d.
          let more : copies d pushed ≡ copies d s.channels + count d (msg ∷ []) = omega (
            arith,
            copies-insert d msg.channel (old ++ (msg ∷ [])) s.channels v.sorted,
            count-append d old (msg ∷ []),
          ) in
          one_more d (copies-update d msg.channel pushed ∙ more);
    }
  where
    one_more :
        (d : Digest) {n : ℕ}
        → n ≡ copies d s.channels + count d (msg ∷ [])
        → n ≤ known d (insert msg.digest tt s.digests)
    one_more d e =
        ground (
          arith,
          e,
          known-insert d msg.digest s.digests,
          v.indexed d,
          key_eq→eq msg.digest d,
          absent,
        )

prune_channel-IsIndexed :
    (s : MemoryStore) (channel : Name) (now : Millis)
    → IsIndexed s
    → IsIndexed (prune_channel s channel now)
unfolding prune_channel count
prune_channel-IsIndexed s channel now v = elim (Option-cases (get channel s.channels)) [
  | inl none_there ↦ rw (none_there, prune_channel) v
  | inr (msgs, there) ↦
      let young : List StoredMessage = unexpired s now msgs in
      let kept : List StoredMessage = (drop_oldest s.history_max young s.digests).0 in
      let others : Digest → ℕ = λ d. copies d (insert channel [] s.channels) in
      let split : (d : Digest) → others d + count d msgs ≡ copies d s.channels =
        λ d. rest_of d [] msgs there ∙ omega (arith, count_nil d) in
      let bound : (d : Digest) → count d young + others d ≤ known d s.digests =
        λ d. omega (arith, count-unexpired d s now msgs, split d, v.indexed d) in
      rw (there, prune_channel)
        (record {
          sorted = insert-IsSorted channel kept s.channels v.sorted;
          indexed = λ d. omega (
            arith,
            rest_of d kept msgs there,
            split d,
            drop_oldest-indexed others s.history_max young s.digests bound d,
          );
        })
]
  where
    count_nil : (d : Digest) → count d [] ≡ 0
    count_nil d = refl

    rest_of :
        (d : Digest) (w msgs : List StoredMessage)
        → get channel s.channels ≡ some msgs
        → copies d (insert channel w s.channels) + count d msgs ≡ copies d s.channels + count d w
    rest_of d w msgs there = rw there at (copies-insert d channel w s.channels v.sorted)

-- Storing a message keeps the index: in all channels together at most one message has a digest, and
-- none has one that `has_message` denies, whatever expires and whatever is pushed out.
pub put_channel_message-IsIndexed :
    (s : MemoryStore) (msg : StoredMessage) → IsIndexed s → IsIndexed (put_channel_message s msg)
unfolding put_channel_message
put_channel_message-IsIndexed s msg v = elim (Bool-cases (contains_key msg.digest s.digests)) [
  | inl old ↦ rw old v
  | inr fresh ↦ rw fresh (
      prune_channel-IsIndexed (add_message s msg) msg.channel msg.timestamp_ms
        (add_message-IsIndexed s msg v fresh))
]
