-- ===== src/Store/Lookup.antt =====
-- What the store finds by a digest: the message that is kept with it, and no other.
use cockroach_chat.Prelude.{
  ◌≤◌, ◌≡◌, true, some_inj, refl, sym, ap, subst, ◌∙◌, ◌↔◌, inl, inr, none, some, List, [], ◌∷◌,
  arith, Bool-cases, Option-cases,
}
use mathlib.Core.List.{Memᴰ}
use mathlib.Core.List.Memᴰ
use cockroach_chat.OrdMap.{Map, key_eq, get}
use cockroach_chat.OrdMap.Keys.{bytes_ord}
use cockroach_chat.OrdMap.Laws.{key_eq→eq, key_eq_refl}
use cockroach_chat.OrdMap.Sorted.{IsSorted, get-Above}
use cockroach_chat.Store.{
  MemoryStore, StoredMessage, Digest, Name, or_default, message_by_digest, find_in_channels,
  find_message,
}
use cockroach_chat.Store.Index.{IsIndexed, count, copies}

-- A message that is kept in a channel.
abbrev pub IsKept : StoredMessage → Name → Map Name (List StoredMessage) → Type 0
IsKept m c channels = Memᴰ m (or_default (get c channels))

same_digest : (d : Digest) (x m : StoredMessage) → m.digest ≡ d → m ≡ x → key_eq x.digest d ≡ true
same_digest d x m e same =
    subst (λ y. key_eq y.digest d ≡ true) same
      (subst (λ k. key_eq m.digest k ≡ true) e (key_eq_refl m.digest))

count_of_Memᴰ :
    (d : Digest) (ms : List StoredMessage) (m : StoredMessage)
    → m.digest ≡ d
    → Memᴰ m ms
    → 1 ≤ count d ms
unfolding count
count_of_Memᴰ d [] m e h = absurd (Memᴰ.not-nil h)
count_of_Memᴰ d (x ∷ xs) m e (Memᴰ.head same) =
    let here = same_digest d x m e same in rw here (omega arith)
count_of_Memᴰ d (x ∷ xs) m e (Memᴰ.tail h) = omega (arith, count_of_Memᴰ d xs m e h)

copies_of_IsKept :
    (d : Digest) (channels : Map Name (List StoredMessage)) (c : Name) (m : StoredMessage)
    → m.digest ≡ d
    → IsKept m c channels
    → 1 ≤ copies d channels
unfolding copies get
copies_of_IsKept d [] c m e h = absurd (Memᴰ.not-nil h)
copies_of_IsKept d ((j, ms) ∷ channels) c m e h = elim (Bool-cases (key_eq c j)) [
  | inl here ↦ omega (arith, count_of_Memᴰ d ms m e (rw here at h))
  | inr later ↦ omega (arith, copies_of_IsKept d channels c m e (rw later at h))
]

find_message-some :
    (d : Digest) (ms : List StoredMessage) (m : StoredMessage)
    → find_message d ms ≡ some m
    → Memᴰ m ms × (m.digest ≡ d)
unfolding find_message
find_message-some d [] m h = absurd cc
find_message-some d (x ∷ xs) m h = elim (Bool-cases (key_eq x.digest d)) [
  | inl here ↦
      let same : m ≡ x = sym (some_inj (rw here at h)) in
      (Memᴰ.head same, ap (λ y. y.digest) same ∙ key_eq→eq x.digest d here)
  | inr later ↦ let (kept, e) = find_message-some d xs m (rw later at h) in (Memᴰ.tail kept, e)
]

find_message_of_Memᴰ :
    (d : Digest) (ms : List StoredMessage) (m : StoredMessage)
    → m.digest ≡ d
    → count d ms ≤ 1
    → Memᴰ m ms
    → find_message d ms ≡ some m
unfolding find_message count
find_message_of_Memᴰ d [] m e once h = absurd (Memᴰ.not-nil h)
find_message_of_Memᴰ d (x ∷ xs) m e once (Memᴰ.head same) =
    let here = same_digest d x m e same in rw here (ap some (sym same))
find_message_of_Memᴰ d (x ∷ xs) m e once (Memᴰ.tail h) = elim (Bool-cases (key_eq x.digest d)) [
  | inl here ↦ absurd (omega (arith, count_of_Memᴰ d xs m e h, rw here at once))
  | inr later ↦ rw later (find_message_of_Memᴰ d xs m e (omega (arith, rw later at once)) h)
]

find_message-none :
    (d : Digest) (ms : List StoredMessage) → count d ms ≡ 0 → find_message d ms ≡ none
unfolding find_message count
find_message-none d [] h = refl
find_message-none d (m ∷ ms) h = ground (arith, h, find_message-none d ms)

find_in_channels-some :
    (d : Digest) (channels : Map Name (List StoredMessage)) (m : StoredMessage)
    → IsSorted channels
    → find_in_channels d channels ≡ some m
    → (c : Name) × IsKept m c channels × (m.digest ≡ d)
unfolding find_in_channels get
find_in_channels-some d [] m s h = absurd cc
find_in_channels-some d ((j, ms) ∷ channels) m s h = elim (Option-cases (find_message d ms)) [
  | inl absent ↦
      let (c, kept, e) =
        find_in_channels-some d channels m s.1 (rw (absent, find_in_channels) at h) in
      (
        c,
        elim (Bool-cases (key_eq c j)) [
          | inl here ↦
              let gone : get c channels ≡ none =
                rw (key_eq→eq c j here) (get-Above j channels s.0) in
              absurd (Memᴰ.not-nil (rw gone at kept))
          | inr later ↦ rw later kept
        ],
        e,
      )
  | inr (x, there) ↦
      let same : x ≡ m = some_inj (rw (there, find_in_channels) at h) in
      let (kept, e) = find_message-some d ms x there in
      (j, rw (key_eq_refl j) (subst (λ y. Memᴰ y ms) same kept), ap (λ y. y.digest) (sym same) ∙ e)
]

find_in_channels_of_IsKept :
    (d : Digest) (channels : Map Name (List StoredMessage)) (c : Name) (m : StoredMessage)
    → m.digest ≡ d
    → copies d channels ≤ 1
    → IsKept m c channels
    → find_in_channels d channels ≡ some m
unfolding find_in_channels copies get
find_in_channels_of_IsKept d [] c m e once h = absurd (Memᴰ.not-nil h)
find_in_channels_of_IsKept d ((j, ms) ∷ channels) c m e once h = elim (Bool-cases (key_eq c j)) [
  | inl here ↦
      rw (find_message_of_Memᴰ d ms m e (omega (arith, once)) (rw here at h), find_in_channels) refl
  | inr later ↦
      let kept : IsKept m c channels = rw later at h in
      let other =
        find_message-none d ms (omega (arith, once, copies_of_IsKept d channels c m e kept)) in
      rw (other, find_in_channels)
        (find_in_channels_of_IsKept d channels c m e (omega (arith, once)) kept)
]

-- If the messages are indexed, a digest finds a message exactly when the message has this digest and is
-- kept in some channel.
pub message_by_digest_lem :
    (s : MemoryStore) (d : Digest) (m : StoredMessage)
    → IsIndexed s
    → (message_by_digest s d ≡ some m) ↔ ((c : Name) × IsKept m c s.channels × (m.digest ≡ d))
unfolding message_by_digest
message_by_digest_lem s d m v = (
  find_in_channels-some d s.channels m v.sorted,
  λ (c, kept, e). find_in_channels_of_IsKept d s.channels c m e (ground (arith, v.indexed d)) kept,
)
