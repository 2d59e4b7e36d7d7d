-- ===== src/Store/Peers.antt =====
-- Messages do not touch the peers of the store.
use cockroach_chat.Prelude.{◌≡◌, refl, arith, inl, inr, Bool-cases}
use cockroach_chat.OrdMap.{contains_key}
use cockroach_chat.OrdMap.Keys.{bytes_ord}
use cockroach_chat.Clock.{Millis}
use cockroach_chat.Store.{
  MemoryStore, StoredMessage, Name, prune_channel, add_message, put_channel_message,
}

peers-prune_channel :
    (s : MemoryStore) (channel : Name) (now : Millis)
    → (prune_channel s channel now).peers ≡ s.peers
unfolding prune_channel
peers-prune_channel s channel now = ground arith

pub peers-put_channel_message :
    (s : MemoryStore) (m : StoredMessage) → (put_channel_message s m).peers ≡ s.peers
unfolding put_channel_message add_message
peers-put_channel_message s m = elim (Bool-cases (contains_key m.digest s.digests)) [
  | inl known ↦ rw known refl
  | inr fresh ↦ rw fresh (peers-prune_channel (add_message s m) m.channel m.timestamp_ms)
]
