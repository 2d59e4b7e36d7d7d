-- ===== src/Node/Fanout.antt =====
-- How node.rs sends a packet on its links. What the transport is told to send is the list of its calls.
pub mod Safety
mod Tests
use cockroach_chat.Prelude.{
  ℕ, Bool, true, false, not, Option, none, some, List, [], ◌∷◌, ◌++◌, ◌==◌, map, retain, Outcome,
  ok, err, panic,
}
use cockroach_chat.Error.{FragError}
use cockroach_chat.Platform.{Crypto}
use cockroach_chat.Config.{Tunables}
use cockroach_chat.OrdMap.{Map, get}
use cockroach_chat.OrdMap.Keys.{nat_ord}
use cockroach_chat.Wire.{Packet, EphId, encode, digest}
use cockroach_chat.Frag.{split}
use cockroach_chat.Relay.Scheduler.{LinkId}

pub record LinkState : Type 0 where
  pub mtu : ℕ
  pub peer_eph : Option EphId
  pub peer_fp : Option (List ℕ)

-- One call of `transport.send`.
abbrev pub Sent : Type 0
Sent = LinkId × List ℕ

-- A packet that is too large for the link is dropped.
unfoldable pub on_link : LinkId → Outcome FragError (List (List ℕ)) → List Sent
on_link link (ok frames) = map (λ f. (link, f)) frames
on_link link (err e) = []
on_link link panic = []

unfoldable pub send_bytes : LinkId → List ℕ → List ℕ → ℕ → List Sent
unfolding on_link
send_bytes link bytes d mtu = on_link link (split bytes d mtu)

abbrev pub is_excluded : Option LinkId → LinkId → Bool
is_excluded none id = false
is_excluded (some e) id = id == e

pub send_all : List ℕ → List ℕ → Map LinkId LinkState → List Sent
unfolding send_bytes
send_all bytes d [] = []
send_all bytes d ((id, l) ∷ targets) = send_bytes id bytes d l.mtu ++ send_all bytes d targets

pub broadcast : Crypto → Map LinkId LinkState → Packet → Option LinkId → List Sent
unfolding send_all
broadcast c links pkt exclude =
    send_all (encode pkt) (digest c pkt) (retain (λ e. not (is_excluded exclude e.0)) links)

unfoldable pub link_mtu : {F : Type 0} → Tunables F → Option LinkState → ℕ
link_mtu cfg none = cfg.default_mtu
link_mtu cfg (some l) = l.mtu

pub send_on_link :
    {F : Type 0} → Crypto → Tunables F → Map LinkId LinkState → LinkId → Packet → List Sent
unfolding send_bytes link_mtu
send_on_link c cfg links link pkt =
    send_bytes link (encode pkt) (digest c pkt) (link_mtu cfg (get link links))
