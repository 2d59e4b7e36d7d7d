-- ===== src/Node/Binding.antt =====
-- A session that is surfaced as ready is one with the key that the peer announced.
use cockroach_chat.Prelude.{
  ℕ, ◌≡◌, refl, ap, ◌∙◌, true, false, Option, none, some, List, [], ◌∷◌, ◌++◌, inl, inr, ◌⊎◌,
  Bool-cases,
}
use mathlib.Core.List.{append_assoc}
use cockroach_chat.Platform.{World}
use cockroach_chat.OrdMap.{get, remove}
use cockroach_chat.OrdMap.Keys.{bytes_ord}
use cockroach_chat.OrdMap.Laws.{get-remove, key_eq_refl, key_eq→eq}
use cockroach_chat.Store.{Fingerprint}
use cockroach_chat.Node.State.{MeshNode, MeshEvent, dm_session, emit}
use cockroach_chat.Node.Session.{
  same_key, session_remote, is_bound, reject_session, accept_session, finish_session,
}
use cockroach_chat.Node.Keeps.Session.{flush-Keeps}

same_key→eq :
    (a b : Option (List ℕ)) → same_key a b ≡ true → (k : List ℕ) × (a ≡ some k) × (b ≡ some k)
same_key→eq (some a) (some b) h = (b, ap some (key_eq→eq a b h), refl)
same_key→eq (some a) none h = cc
same_key→eq none b h = cc

get-remove_self : {A : Type 0} (k : List ℕ) (m : List (List ℕ × A)) → get k (remove k m) ≡ none
get-remove_self k m = rw (get-remove k k m, key_eq_refl k) refl

module _ ⦃w : World⦄ where
  -- The session's remote key is the announced one, and the session is surfaced as verified before
  -- anything else is.
  abbrev pub Binds : Fingerprint → MeshNode → MeshNode → Type 0
  Binds fp n n' =
      ((key : List ℕ) × (session_remote (get fp n.noise_sessions) ≡ some key)
        × (get fp n.peer_static_dh ≡ some key))
      × ((more : List MeshEvent) × (n'.events ≡ n.events ++ (dm_session fp true ∷ more)))

  -- The session and what was queued for it are gone, nothing is sent, and the rejection is surfaced.
  abbrev pub Drops : Fingerprint → MeshNode → MeshNode → Type 0
  Drops fp n n' =
      (get fp n'.noise_sessions ≡ none)
      × (get fp n'.pending_dms ≡ none)
      × (n'.calls ≡ n.calls)
      × (n'.events ≡ n.events ++ (dm_session fp false ∷ []))

  reject_session-Drops : (fp : Fingerprint) (n : MeshNode) → Drops fp n (reject_session fp n)
  unfolding reject_session emit
  reject_session-Drops fp n =
      (get-remove_self fp n.noise_sessions, get-remove_self fp n.pending_dms, refl, refl)

  -- When the handshake with a peer is over, either the key at the other end is the one that the peer
  -- announced, and the session is surfaced as verified before what it brings, or the session and the
  -- messages queued for it are dropped, nothing is sent, and it is surfaced as not verified.
  pub finish_session-Binds :
      (fp : Fingerprint) (n : MeshNode)
      → Binds fp n (finish_session fp n) ⊎ Drops fp n (finish_session fp n)
  unfolding finish_session is_bound accept_session emit
  finish_session-Binds fp n = elim (Bool-cases (is_bound fp n)) [
    | inr other ↦ rw other (inr (reject_session-Drops fp n))
    | inl bound ↦
        let (more, e) = (flush-Keeps fp (accept_session fp n)).grown in
        rw bound (
          inl (
            same_key→eq (session_remote (get fp n.noise_sessions)) (get fp n.peer_static_dh) bound,
            (more, e ∙ append_assoc n.events (dm_session fp true ∷ []) more),
          ))
  ]
