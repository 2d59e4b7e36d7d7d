-- ===== src/Channels/Tests.antt =====
-- Runs of the filters.
use cockroach_chat.Prelude.{◌≡◌, not, ◌&&◌, ◌||◌, [], ◌∷◌, ◌++◌}
use cockroach_chat.Channels.{SyncFilter, new, contains, missing_from}
use cockroach_chat.Channels.Sync.{missing_from_lem}

abbrev ours : SyncFilter
ours = record { channel = 35 ∷ []; digests = (1 ∷ []) ∷ (2 ∷ []) ∷ [] }

abbrev theirs : SyncFilter
theirs = record { channel = 35 ∷ []; digests = (2 ∷ []) ∷ (5 ∷ []) ∷ [] }

missing_from_lem_example :
    (contains (1 ∷ []) (missing_from ours theirs)
      ≡ contains (1 ∷ []) ours.digests && not (contains (1 ∷ []) theirs.digests))
    × (contains (1 ∷ []) (new theirs.channel (theirs.digests ++ missing_from ours theirs)).digests
        ≡ contains (1 ∷ []) ours.digests || contains (1 ∷ []) theirs.digests)
missing_from_lem_example = missing_from_lem ours theirs (1 ∷ [])
