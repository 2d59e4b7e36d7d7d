-- ===== src/Store/Wipe.antt =====
-- After a wipe the store answers every question as an empty one does.
use cockroach_chat.Prelude.{ℕ, ◌≡◌, refl, arith, false, none, []}
use cockroach_chat.OrdMap.{get, contains_key}
use cockroach_chat.OrdMap.Keys.{bytes_ord}
use cockroach_chat.Store.{
  MemoryStore, Digest, Name, Fingerprint, has_message, channel_history, channel_digests,
  message_by_digest, get_peer, list_peers, dm_history, take_envelopes, panic_wipe,
}

-- A store whose every query finds nothing.
pub record IsBlank (s : MemoryStore) : Type 0 where
  pub no_digest : (d : Digest) → has_message s d ≡ false
  pub no_message : (d : Digest) → message_by_digest s d ≡ none
  pub no_history : (c : Name) (limit : ℕ) → channel_history s c limit ≡ []
  pub no_channel_digest : (c : Name) → channel_digests s c ≡ []
  pub no_peer : (fp : Fingerprint) → get_peer s fp ≡ none
  pub no_peers : list_peers s ≡ []
  pub no_dm : (fp : Fingerprint) (limit : ℕ) → dm_history s fp limit ≡ []
  pub no_envelope : (fp : Fingerprint) → (take_envelopes s fp).1 ≡ []

-- A wipe leaves nothing: no digest, message, history, peer, direct message or envelope is found after
-- it, whatever the store held and whatever is asked.
pub panic_wipe-IsBlank : (s : MemoryStore) → IsBlank (panic_wipe s)
unfolding panic_wipe has_message message_by_digest channel_history channel_digests get_peer
    list_peers dm_history take_envelopes contains_key get
panic_wipe-IsBlank s = record {
  no_digest = λ d. refl;
  no_message = λ d. refl;
  no_history = λ c limit. ground arith;
  no_channel_digest = λ c. refl;
  no_peer = λ fp. refl;
  no_peers = refl;
  no_dm = λ fp limit. ground arith;
  no_envelope = λ fp. refl;
}
