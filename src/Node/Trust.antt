-- ===== src/Node/Trust.antt =====
-- What the commands of node.rs do to what the user has said of a peer.
use cockroach_chat.Prelude.{
  ◌≡◌, refl, ap, sym, ◌∙◌, Bool, true, false, Option, none, some, inl, inr, if◌then◌else◌,
  Bool-cases,
}
use cockroach_chat.Platform.{World}
use cockroach_chat.OrdMap.{Map, key_eq, get, insert, remove}
use cockroach_chat.OrdMap.Keys.{bytes_ord}
use cockroach_chat.OrdMap.Laws.{get-insert, get-remove, key_eq→eq}
use cockroach_chat.Store.{
  MemoryStore, Fingerprint, Name, PeerRecord, get_peer, upsert_peer, delete_peer, delete_dms,
}
use cockroach_chat.Node.State.{MeshNode}
use cockroach_chat.Node.Session.{unwrap_or}
use cockroach_chat.Node.Commands.{
  stranger, petname_in, petname_of, peer_or_new, verify_peer, unverified, unverify_peer,
  forget_peer, drop_peer_session_state, set_petname,
}
use cockroach_chat.Node.Keeps.{trust, trust_of}
use cockroach_chat.Node.Keeps.Session.{try_send_verify_notice-Keeps}

-- The trust in the peer `q` after the record of `fp` was replaced.
trust_of-replaced :
    (q fp : Fingerprint) (r : PeerRecord) (m : Map Fingerprint PeerRecord)
    → trust_of (get q (insert fp r m))
      ≡ (if key_eq q fp then trust_of (some r) else trust_of (get q m))
trust_of-replaced q fp r m = elim (Bool-cases (key_eq q fp)) [
  | inl e ↦ rw (get-insert fp q r m, e) refl
  | inr e ↦ rw (get-insert fp q r m, e) refl
]

-- `if key_eq q fp then c else t`, where the case of `fp` itself may be read at `q`.
at_key :
    {A : Type 0} (q fp : Fingerprint) (f : Fingerprint → A) (t : A)
    → (if key_eq q fp then f fp else t) ≡ (if key_eq q fp then f q else t)
at_key q fp f t = elim (Bool-cases (key_eq q fp)) [
  | inl e ↦ rw e (ap f (sym (key_eq→eq q fp e)))
  | inr e ↦ rw e refl
]

module _ ⦃w : World⦄ where
  delete_dms_peers :
      (s : MemoryStore) (fp : Fingerprint) (b : Bool) → (delete_dms s fp b).peers ≡ s.peers
  unfolding delete_dms
  delete_dms_peers s fp true = refl
  delete_dms_peers s fp false = refl

  -- The store keeps the peer under its own fingerprint.
  abbrev pub IsKeyed : MeshNode → Fingerprint → Type 0
  IsKeyed n fp = (p : PeerRecord) → get fp n.store.peers ≡ some p → p.fingerprint ≡ fp

  -- The record of a peer has its fingerprint, and says what is said of it.
  peer_or_new_lem :
      (fp : Fingerprint) (n : MeshNode)
      → IsKeyed n fp
      → ((peer_or_new fp n).fingerprint ≡ fp) × (trust_of (some (peer_or_new fp n)) ≡ trust n fp)
  unfolding peer_or_new stranger get_peer
  peer_or_new_lem fp n keyed = by (get fp n.store.peers) keyed
    where
      by :
          (o : Option PeerRecord)
          → ((p : PeerRecord) → o ≡ some p → p.fingerprint ≡ fp)
          → ((unwrap_or (stranger fp n) o).fingerprint ≡ fp)
            × (trust_of (some (unwrap_or (stranger fp n) o)) ≡ trust_of o)
      by none k = (refl, refl)
      by (some p) k = (k p refl, refl)

  trust-verify_peer :
      (n : MeshNode) (fp q : Fingerprint)
      → IsKeyed n fp
      → trust (verify_peer fp n) q ≡ (if key_eq q fp then (true, (trust n q).1) else trust n q)
  unfolding verify_peer upsert_peer
  trust-verify_peer n fp q keyed =
      let (name, same) = peer_or_new_lem fp n keyed in
      let peer : PeerRecord = record (peer_or_new fp n) { verified = true } in
      (try_send_verify_notice-Keeps fp _).trust_kept q
      ∙ ap (λ m. trust_of (get q m)) (delete_dms_peers (upsert_peer n.store peer) fp true)
      ∙ ap (λ k. trust_of (get q (insert k peer n.store.peers))) name
      ∙ trust_of-replaced q fp peer n.store.peers
      ∙ ap (λ t. if key_eq q fp then (true, t) else trust n q) (ap (λ t. t.1) same)
      ∙ at_key q fp (λ k. (true, (trust n k).1)) (trust n q)

  trust-set_petname :
      (n : MeshNode) (fp q : Fingerprint) (name : Name)
      → IsKeyed n fp
      → trust (set_petname fp name n) q
        ≡ (if key_eq q fp then ((trust n q).0, petname_of name) else trust n q)
  unfolding set_petname upsert_peer
  trust-set_petname n fp q name keyed =
      let (own, same) = peer_or_new_lem fp n keyed in
      let peer : PeerRecord = record (peer_or_new fp n) { petname = petname_of name } in
      ap (λ k. trust_of (get q (insert k peer n.store.peers))) own
      ∙ trust_of-replaced q fp peer n.store.peers
      ∙ ap (λ t. if key_eq q fp then (t, petname_of name) else trust n q) (ap (λ t. t.0) same)
      ∙ at_key q fp (λ k. ((trust n k).0, petname_of name)) (trust n q)

  trust-unverified :
      (n : MeshNode) (fp q : Fingerprint) (o : Option PeerRecord)
      → get fp n.store.peers ≡ o
      → ((p : PeerRecord) → o ≡ some p → p.fingerprint ≡ fp)
      → trust (unverified o n) q ≡ (if key_eq q fp then (false, (trust n q).1) else trust n q)
  unfolding unverified upsert_peer
  trust-unverified n fp q none absent keyed = elim (Bool-cases (key_eq q fp)) [
    | inl e ↦ rw (e, key_eq→eq q fp e, absent) refl
    | inr e ↦ rw e refl
  ]
  trust-unverified n fp q (some p) there keyed =
      let peer : PeerRecord = record p { verified = false } in
      ap (λ k. trust_of (get q (insert k peer n.store.peers))) (keyed p refl)
      ∙ trust_of-replaced q fp peer n.store.peers
      ∙ ap (λ t. if key_eq q fp then (false, t) else trust n q) (sym (ap petname_in there))
      ∙ at_key q fp (λ k. (false, (trust n k).1)) (trust n q)

  trust-unverify_peer :
      (n : MeshNode) (fp q : Fingerprint)
      → IsKeyed n fp
      → trust (unverify_peer fp n) q ≡ (if key_eq q fp then (false, (trust n q).1) else trust n q)
  unfolding unverify_peer drop_peer_session_state get_peer
  trust-unverify_peer n fp q keyed =
      ap (λ m. trust_of (get q m)) (delete_dms_peers _ fp true)
      ∙ trust-unverified n fp q (get fp n.store.peers) refl keyed

  trust-forget_peer :
      (n : MeshNode) (fp q : Fingerprint)
      → trust (forget_peer fp n) q ≡ (if key_eq q fp then (false, none) else trust n q)
  unfolding forget_peer drop_peer_session_state delete_peer
  trust-forget_peer n fp q =
      ap (λ m. trust_of (get q (remove fp m))) (delete_dms_peers n.store fp false) ∙ removed
    where
      removed :
          trust_of (get q (remove fp n.store.peers))
          ≡ (if key_eq q fp then (false, none) else trust n q)
      removed = elim (Bool-cases (key_eq q fp)) [
        | inl e ↦ rw (get-remove fp q n.store.peers, e) refl
        | inr e ↦ rw (get-remove fp q n.store.peers, e) refl
      ]

  -- What the user says of a peer that the store keeps under its own fingerprint is what the node then
  -- knows of it, and of no other peer is anything changed: verifying and unverifying set the verification
  -- and keep the petname, naming sets the petname and keeps the verification, and forgetting drops both.
  pub commands_set_trust :
      (n : MeshNode) (fp : Fingerprint) (name : Name)
      → IsKeyed n fp
      → (q : Fingerprint)
      → (trust (verify_peer fp n) q ≡ (if key_eq q fp then (true, (trust n q).1) else trust n q))
        × (trust (unverify_peer fp n) q
            ≡ (if key_eq q fp then (false, (trust n q).1) else trust n q))
        × (trust (set_petname fp name n) q
            ≡ (if key_eq q fp then ((trust n q).0, petname_of name) else trust n q))
        × (trust (forget_peer fp n) q ≡ (if key_eq q fp then (false, none) else trust n q))
  commands_set_trust n fp name keyed q = (
    trust-verify_peer n fp q keyed,
    trust-unverify_peer n fp q keyed,
    trust-set_petname n fp q name keyed,
    trust-forget_peer n fp q,
  )
