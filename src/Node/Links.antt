-- ===== src/Node/Links.antt =====
-- The links of node.rs: which peer a link reaches, and that one link is kept for a peer.
pub mod Group
pub mod Distinct
use cockroach_chat.Prelude.{
  Bool, false, Option, none, some, List, [], ◌∷◌, ◌++◌, map, if◌then◌else◌,
}
use cockroach_chat.Platform.{World}
use cockroach_chat.OrdMap.{Map, key_eq, update, remove}
use cockroach_chat.OrdMap.Keys.{nat_ord, bytes_ord}
use cockroach_chat.Wire.{EphId}
use cockroach_chat.Store.{Fingerprint}
use cockroach_chat.Relay.Scheduler.{LinkId}
use cockroach_chat.Node.State.{MeshNode, close, push_entry}
use cockroach_chat.Node.Session.{eph_to_fp}
use cockroach_chat.Node.Fanout.{LinkState}

abbrev pub is_tagged : Option EphId → EphId → Bool
is_tagged none eph = false
is_tagged (some e) eph = key_eq e eph

-- A link whose ephemeral id has changed has no known peer.
unfoldable pub tag_link : EphId → LinkState → LinkState
tag_link eph l =
    if is_tagged l.peer_eph eph then l else record l { peer_eph = some eph; peer_fp = none }

-- What `dedup_links` looks up for a link: its ephemeral id, if its peer is not known.
unfoldable pub unresolved : LinkState → Option EphId
unresolved l = elim l.peer_fp [ some fp ↦ none | none ↦ l.peer_eph ]

unfoldable pub pending_links : Map LinkId LinkState → List (LinkId × EphId)
pending_links [] = []
pending_links ((id, l) ∷ links) =
    let rest = pending_links links in
    elim (unresolved l) [ some eph ↦ (id, eph) ∷ rest | none ↦ rest ]

-- The links of each peer, in the order of their ids.
unfoldable pub group :
    Map Fingerprint (List LinkId) → Map LinkId LinkState → Map Fingerprint (List LinkId)
group by_fp [] = by_fp
group by_fp ((id, l) ∷ links) = elim l.peer_fp [
  | some fp ↦ group (push_entry fp id by_fp) links
  | none ↦ group by_fp links
]

-- `skip(1)`
abbrev pub skip_one : List LinkId → List LinkId
skip_one [] = []
skip_one (id ∷ ids) = ids

unfoldable pub redundant_links : Map Fingerprint (List LinkId) → List LinkId
redundant_links [] = []
redundant_links ((fp, ids) ∷ by_fp) = skip_one ids ++ redundant_links by_fp

unfoldable pub remove_all : List LinkId → Map LinkId LinkState → Map LinkId LinkState
remove_all [] links = links
remove_all (id ∷ ids) links = remove_all ids (remove id links)

module _ ⦃w : World⦄ where
  unfoldable pub resolve_one : LinkId → EphId → MeshNode → MeshNode
  resolve_one id eph n = elim (eph_to_fp eph n) [
    | some fp ↦ record n { links = update id (λ l. record l { peer_fp = some fp }) n.links }
    | none ↦ n
  ]

  unfoldable pub resolve_all : List (LinkId × EphId) → MeshNode → MeshNode
  resolve_all [] n = n
  resolve_all ((id, eph) ∷ pending) n = resolve_all pending (resolve_one id eph n)

  unfoldable pub close_redundant : MeshNode → MeshNode
  close_redundant n =
      let redundant = redundant_links (group [] n.links) in
      record n { links = remove_all redundant n.links; calls = n.calls ++ map close redundant }

  unfoldable pub dedup_links : MeshNode → MeshNode
  dedup_links n = close_redundant (resolve_all (pending_links n.links) n)

  unfoldable pub note_link_identity : LinkId → EphId → MeshNode → MeshNode
  note_link_identity link eph n =
      dedup_links (record n { links = update link (tag_link eph) n.links })
