-- ===== src/Store/Tests.antt =====
-- Runs of the store at concrete states.
use cockroach_chat.Prelude.{
  ℕ, ◌≤◌, ◌≡◌, ◌↔◌, refl, true, false, some, none, List, [], ◌∷◌, ◌++◌, arith, if◌then◌else◌,
}
use cockroach_chat.OrdMap.{get, contains_key, insert, update}
use cockroach_chat.OrdMap.Keys.{bytes_ord}
use cockroach_chat.OrdMap.Every.{Every}
use cockroach_chat.OrdMap.Laws.{key_eq_sym}
use cockroach_chat.Store.{
  MemoryStore, Name, StoredMessage, StoredDm, new, put_channel_message, add_message, prune_channel,
  unexpired, drop_oldest, place, sort_by_key, has_message, message_by_digest, find_in_channels,
  find_message, put_dm, dm_history, queue_envelope, take_envelopes, newest, or_default,
}
use cockroach_chat.Store.Index.{IsIndexed, copies, count, put_channel_message-IsIndexed}
use cockroach_chat.Store.Lookup.{IsKept, message_by_digest_lem}
use cockroach_chat.Store.Queue.{waiting, take-queue_envelope}
use cockroach_chat.Store.Threads.{IsThread, dm_history-put_dm}

abbrev general : List ℕ
general = 35 ∷ 103 ∷ []

abbrev message : ℕ → ℕ → StoredMessage
message id t = record {
  digest = id ∷ [];
  channel = general;
  sender = 1 ∷ [];
  timestamp_ms = t;
  body = 104 ∷ [];
  raw = [];
}

-- A store with one message, one direct message and one envelope.
abbrev in_use : MemoryStore
in_use = record (new 2 100 50 1) {
  channels = (general, message 1 10 ∷ []) ∷ [];
  digests = (1 ∷ [], tt) ∷ [];
  dms =
      (7 ∷ [], record { peer = 7 ∷ []; mine = true; timestamp_ms = 9; body = 104 ∷ [] } ∷ []) ∷ [];
  envelopes = (7 ∷ [], record { packet_bytes = 5 ∷ []; queued_ms = 3 } ∷ []) ∷ [];
}

in_use-IsIndexed : IsIndexed in_use
unfolding copies count new contains_key
in_use-IsIndexed = record { sorted = (tt, tt); indexed = λ d. one_copy d }
  where
    one_copy :
        (d : List ℕ) → copies d in_use.channels ≤ (if contains_key d in_use.digests then 1 else 0)
    one_copy d = ground (arith, key_eq_sym (1 ∷ []) d)

put_channel_message-IsIndexed_example : IsIndexed (put_channel_message in_use (message 2 12))
put_channel_message-IsIndexed_example =
    put_channel_message-IsIndexed in_use (message 2 12) in_use-IsIndexed

message_by_digest_lem_example :
    (message_by_digest in_use (1 ∷ []) ≡ some (message 1 10))
    ↔ ((c : Name) × IsKept (message 1 10) c in_use.channels × ((message 1 10).digest ≡ 1 ∷ []))
message_by_digest_lem_example =
    message_by_digest_lem in_use (1 ∷ []) (message 1 10) in_use-IsIndexed

in_use-IsThread : Every (IsThread in_use.history_max) in_use.dms
unfolding new
in_use-IsThread = ((omega arith, (tt, tt)), tt)

abbrev reply : StoredDm
reply = record { peer = 7 ∷ []; mine = false; timestamp_ms = 11; body = 105 ∷ [] }

dm_history-put_dm_example :
    (dm_history (put_dm in_use reply) (7 ∷ []) 5
      ≡ newest 5 (
          newest in_use.history_max (
            sort_by_key
              (λ d. d.timestamp_ms)
              (or_default (get (7 ∷ []) in_use.dms) ++ (reply ∷ [])))))
    × (dm_history (put_dm in_use reply) (8 ∷ []) 5 ≡ dm_history in_use (8 ∷ []) 5)
dm_history-put_dm_example = dm_history-put_dm in_use reply (8 ∷ []) 5 (λ e. ground arith)

take-queue_envelope_example :
    ((take_envelopes (queue_envelope in_use (7 ∷ []) (6 ∷ []) 20) (7 ∷ [])).1
      ≡ newest in_use.envelope_max_per_peer (waiting in_use (7 ∷ []) 20 ++ ((6 ∷ []) ∷ [])))
    × ((take_envelopes
          (take_envelopes (queue_envelope in_use (7 ∷ []) (6 ∷ []) 20) (7 ∷ [])).0
          (7 ∷ [])).1
        ≡ [])
    × ((take_envelopes
          (take_envelopes (queue_envelope in_use (7 ∷ []) (6 ∷ []) 20) (7 ∷ [])).0
          (8 ∷ [])).1
        ≡ (take_envelopes in_use (8 ∷ [])).1)
take-queue_envelope_example =
    take-queue_envelope in_use (7 ∷ []) (8 ∷ []) (6 ∷ []) 20 (λ e. ground arith)

-- A message that has expired is gone, but its digest stays known.
abbrev later : MemoryStore
later = put_channel_message in_use (message 2 500)

expired_is_known : (has_message later (1 ∷ []) ≡ true) × (message_by_digest later (1 ∷ []) ≡ none)
unfolding has_message message_by_digest find_in_channels find_message put_channel_message
    add_message prune_channel unexpired drop_oldest sort_by_key place get insert update contains_key
    new
expired_is_known = (refl, refl)
