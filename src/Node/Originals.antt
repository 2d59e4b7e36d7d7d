-- ===== src/Node/Originals.antt =====
-- The messages of the store as handle_sync_request of node.rs sends them.
use cockroach_chat.Prelude.{
  ℕ, ◌≡◌, refl, sym, ap, ap₂, ◌∙◌, map-append, inl, inr, Option, none, some, List, [], ◌∷◌, ◌++◌,
  map, length, ◌==◌, if◌then◌else◌, Bool-cases, Outcome, ok, err, panic,
}
use cockroach_chat.Platform.{World}
use mathlib.Core.List.{append_assoc, append-nil}
use mathlib.Core.List.{Memᴰ}
use cockroach_chat.OrdMap.{get}
use cockroach_chat.OrdMap.Keys.{nat_ord, bytes_ord}
use cockroach_chat.Error.{FragError}
use cockroach_chat.Frag.{split}
use cockroach_chat.Store.{Name, Digest, StoredMessage, message_by_digest, or_default}
use cockroach_chat.Store.Index.{IsIndexed}
use cockroach_chat.Store.Lookup.{message_by_digest_lem}
use cockroach_chat.Relay.Scheduler.{LinkId}
use cockroach_chat.Node.Fanout.{LinkState, Sent, on_link, send_bytes, link_mtu}
use cockroach_chat.Node.State.{MeshNode, Call, sends}
use cockroach_chat.Node.Inbound.{resend, resend_all}

module _ ⦃w : World⦄ where
  pub resent : LinkId → List Digest → MeshNode → List Sent
  resent link [] n = []
  resent link (d ∷ ds) n = resend link d n ++ resent link ds n

  pub resend_all_lem :
      (link : LinkId) (ds : List Digest) (n : MeshNode) (calls : List Call)
      → resend_all link ds (record n { calls = calls })
        ≡ record n { calls = calls ++ sends (resent link ds n) }
  unfolding resend_all resent resend
  resend_all_lem link [] n calls = ap (λ cs. record n { calls = cs }) (sym (append-nil calls))
  resend_all_lem link (d ∷ ds) n calls =
      resend_all_lem link ds n (calls ++ sends (resend link d n))
      ∙ ap (λ cs. record n { calls = cs })
          (append_assoc calls (sends (resend link d n)) (sends (resent link ds n))
            ∙ ap (λ cs. calls ++ cs)
                (sym (map-append (λ s. Call.send s.0 s.1) (resend link d n) (resent link ds n))))

  -- The messages that a node keeps of a channel.
  abbrev pub messages : MeshNode → Name → List StoredMessage
  messages n channel = or_default (get channel n.store.channels)

  -- What fits a frame of a link, known or not.
  abbrev pub room : LinkId → MeshNode → ℕ
  room link n = elim (get link n.links) [ none ↦ n.cfg.default_mtu | some l ↦ l.mtu ]

  -- A message goes out as the frames of its original bytes, if these were kept and can be split.
  abbrev pub original : LinkId → ℕ → StoredMessage → List Sent
  original link mtu m = if length m.raw == 0 then [] else (elim (split m.raw m.digest mtu) [
    | ok frames ↦ map (λ f. (link, f)) frames
    | err e ↦ []
    | panic ↦ []
  ])

  pub originals : LinkId → ℕ → List StoredMessage → List Sent
  originals link mtu [] = []
  originals link mtu (m ∷ ms) = original link mtu m ++ originals link mtu ms

  link_mtu-room : (link : LinkId) (n : MeshNode) → link_mtu n.cfg (get link n.links) ≡ room link n
  unfolding link_mtu
  link_mtu-room link n = by (get link n.links)
    where
      by :
          (l : Option LinkState)
          → link_mtu n.cfg l ≡ (elim l [ none ↦ n.cfg.default_mtu | some l' ↦ l'.mtu ])
      by none = refl
      by (some l) = refl

  resend_found :
      (link : LinkId) (n : MeshNode) (m : StoredMessage)
      → message_by_digest n.store m.digest ≡ some m
      → resend link m.digest n ≡ (
          if length m.raw == 0
          then []
          else send_bytes link m.raw m.digest (link_mtu n.cfg (get link n.links)))
  unfolding resend
  resend_found link n m found = rw (found, resend) refl

  resent_one :
      (link : LinkId) (n : MeshNode) (m : StoredMessage)
      → message_by_digest n.store m.digest ≡ some m
      → resend link m.digest n ≡ original link (room link n) m
  unfolding send_bytes on_link
  resent_one link n m found = resend_found link n m found ∙ (elim (Bool-cases (length m.raw == 0)) [
    | inl gone ↦ rw gone refl
    | inr there ↦ rw there (
        ap (λ mtu. send_bytes link m.raw m.digest mtu) (link_mtu-room link n)
        ∙ by (split m.raw m.digest (room link n)))
  ])
    where
      by :
          (r : Outcome FragError (List (List ℕ)))
          → on_link link r
            ≡ (elim r [ ok frames ↦ map (λ f. (link, f)) frames | err e ↦ [] | panic ↦ [] ])
      by (ok frames) = refl
      by (err e) = refl
      by panic = refl

  pub resent-originals :
      (link : LinkId) (n : MeshNode) (channel : Name) (ms : List StoredMessage)
      → IsIndexed n.store
      → ((m : StoredMessage) → Memᴰ m ms → Memᴰ m (messages n channel))
      → resent link (map (λ m. m.digest) ms) n ≡ originals link (room link n) ms
  unfolding resent originals
  resent-originals link n channel [] v kept = refl
  resent-originals link n channel (m ∷ ms) v kept =
      ap₂ (λ xs ys. xs ++ ys)
        (resent_one link n m
          ((message_by_digest_lem n.store m.digest m v).1 (channel, kept m (Memᴰ.head refl), refl)))
        (resent-originals link n channel ms v (λ x h. kept x (Memᴰ.tail h)))
