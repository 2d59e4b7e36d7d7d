-- ===== src/Channels.antt =====
-- crates/meshcore/src/channels.rs: the digests that a node holds for a channel, and which of them
-- another node lacks. A name is its bytes.
pub mod Sync
pub mod Once
mod Tests
use cockroach_chat.Prelude.{ℕ, Bool, true, false, not, List, [], ◌∷◌, if◌then◌else◌, retain}
use cockroach_chat.OrdMap.{key_eq}
use cockroach_chat.OrdMap.Keys.{bytes_ord}
use Prim.Native.Nat.{Ordering}

abbrev pub Digest : Type 0
Digest = List ℕ

pub record SyncFilter : Type 0 where
  pub channel : List ℕ
  pub digests : List Digest

-- `sort_unstable`: equal digests are the same bytes, so that their order does not show.
pub place : Digest → List Digest → List Digest
place x [] = x ∷ []
place x (y ∷ ys) =
    let rest = place x ys in
    elim (bytes_ord.cmp x y) [
      | Ordering.lt ↦ x ∷ y ∷ ys
      | Ordering.eq ↦ x ∷ y ∷ ys
      | Ordering.gt ↦ y ∷ rest
    ]

pub sort_unstable : List Digest → List Digest
unfolding place
sort_unstable [] = []
sort_unstable (x ∷ xs) = place x (sort_unstable xs)

abbrev pub starts_with : Digest → List Digest → Bool
starts_with x [] = false
starts_with x (y ∷ ys) = key_eq x y

-- One of each row of equal digests.
pub dedup : List Digest → List Digest
dedup [] = []
dedup (x ∷ xs) = let rest = dedup xs in if starts_with x rest then rest else x ∷ rest

unfoldable pub new : List ℕ → List Digest → SyncFilter
unfolding sort_unstable dedup
new channel digests = record { channel = channel; digests = dedup (sort_unstable digests) }

-- `HashSet::contains`
pub contains : Digest → List Digest → Bool
contains d [] = false
contains d (x ∷ xs) = let rest = contains d xs in if key_eq d x then true else rest

pub missing_from : SyncFilter → SyncFilter → List Digest
unfolding contains
missing_from mine remote = retain (λ d. not (contains d remote.digests)) mine.digests
