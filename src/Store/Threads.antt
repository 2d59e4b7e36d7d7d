-- ===== src/Store/Threads.antt =====
-- Threads of direct messages: in order, bounded, and apart from each other.
use cockroach_chat.Prelude.{ℕ, ◌≤◌, ◌≡◌, ◌≢◌, ap, ◌∙◌, Option, List, [], ◌∷◌, ◌++◌, length}
use cockroach_chat.OrdMap.{get}
use cockroach_chat.OrdMap.Keys.{bytes_ord}
use cockroach_chat.OrdMap.Laws.{get-insert_self, get-insert_ne}
use cockroach_chat.OrdMap.Every.{Every, Every-insert}
use cockroach_chat.Store.{
  MemoryStore, StoredDm, Fingerprint, put_dm, dm_history, sort_by_key, drop_front, newest,
  or_default,
}
use cockroach_chat.Store.Order.{
  IsAscending, sort_by_key-IsAscending, sort_by_key_ascending, drop_front-IsAscending,
  drop_front-newest, length-drop_front,
}

abbrev dm_time : StoredDm → ℕ
dm_time d = d.timestamp_ms

-- A thread that is no longer than the history may be, from its oldest message to its newest.
abbrev pub IsThread : ℕ → List StoredDm → Type 0
IsThread n thread = (length thread ≤ n) × IsAscending dm_time thread

-- Storing a direct message keeps every thread bounded and in the order of time.
pub put_dm-IsThread :
    (s : MemoryStore) (dm : StoredDm)
    → Every (IsThread s.history_max) s.dms
    → Every (IsThread s.history_max) (put_dm s dm).dms
unfolding put_dm
put_dm-IsThread s dm h =
    let sorted : List StoredDm =
      sort_by_key dm_time (or_default (get dm.peer s.dms) ++ (dm ∷ [])) in
    Every-insert (IsThread s.history_max) dm.peer (drop_front s.history_max sorted) s.dms
      (
        length-drop_front s.history_max sorted,
        drop_front-IsAscending dm_time s.history_max sorted
            (sort_by_key-IsAscending dm_time (or_default (get dm.peer s.dms) ++ (dm ∷ []))),
      )
      h

-- After a direct message is stored, the history of its peer is the newest of the old thread and that
-- message in the order of time, within the bound of the store and the limit of the caller, and the
-- history of another peer is what it was.
pub dm_history-put_dm :
    (s : MemoryStore) (dm : StoredDm) (other : Fingerprint) (limit : ℕ)
    → other ≢ dm.peer
    → (dm_history (put_dm s dm) dm.peer limit
        ≡ newest limit (
            newest s.history_max
              (sort_by_key dm_time (or_default (get dm.peer s.dms) ++ (dm ∷ [])))))
      × (dm_history (put_dm s dm) other limit ≡ dm_history s other limit)
unfolding put_dm dm_history
dm_history-put_dm s dm other limit distinct =
    let sorted : List StoredDm =
      sort_by_key dm_time (or_default (get dm.peer s.dms) ++ (dm ∷ [])) in
    let cut : List StoredDm = drop_front s.history_max sorted in
    let shown : Option (List StoredDm) → List StoredDm =
      λ t. newest limit (sort_by_key dm_time (or_default t)) in
    (
      ap shown (get-insert_self dm.peer cut s.dms)
          ∙ ap (newest limit) (
              sort_by_key_ascending dm_time cut (
                drop_front-IsAscending dm_time s.history_max sorted
                  (sort_by_key-IsAscending dm_time (or_default (get dm.peer s.dms) ++ (dm ∷ []))))
              ∙ drop_front-newest s.history_max sorted),
      ap shown (get-insert_ne dm.peer other cut s.dms distinct),
    )
