-- ===== src/Node/Fanout/Safety.antt =====
-- What a broadcast puts on the links.
use cockroach_chat.Prelude.{
  ℕ, ◌≤◌, ◌≡◌, ◌⊎◌, refl, inl, inr, false, not, Option, List, [], ◌∷◌, length, map, retain, All,
  All-append, Bool-cases, Outcome, ok, err, panic,
}
use cockroach_chat.Error.{FragError}
use cockroach_chat.Platform.{Crypto}
use cockroach_chat.OrdMap.{Map}
use cockroach_chat.Wire.{Packet, encode, digest}
use cockroach_chat.Wire.Signing.{length-digest}
use cockroach_chat.Frag.{split}
use cockroach_chat.Frag.Split.{split_lem}
use cockroach_chat.Relay.Scheduler.{LinkId}
use cockroach_chat.Node.Fanout.{
  LinkState, Sent, on_link, send_bytes, is_excluded, send_all, broadcast,
}

-- A link of the table with this MTU.
abbrev pub HasLink : Map LinkId LinkState → LinkId → ℕ → Type 0
HasLink [] id mtu = ⊥
HasLink ((j, l) ∷ links) id mtu = ((j ≡ id) × (l.mtu ≡ mtu)) ⊎ HasLink links id mtu

-- A frame on a link of the table that can carry it, and that is not the excluded one.
abbrev pub IsFit : Map LinkId LinkState → Option LinkId → Sent → Type 0
IsFit links exclude s =
    (is_excluded exclude s.0 ≡ false) × ((mtu : ℕ) × HasLink links s.0 mtu × (length s.1 ≤ mtu))

tagged :
    (P : Sent → Type 0) (id : LinkId) (frames : List (List ℕ))
    → All (λ f. P (id, f)) frames
    → All P (map (λ f. (id, f)) frames)
tagged P id [] a = tt
tagged P id (f ∷ fs) a = (a.0, tagged P id fs a.1)

All-map :
    {A : Type 0} (P Q : A → Type 0) (xs : List A) → ((x : A) → P x → Q x) → All P xs → All Q xs
All-map P Q [] f a = tt
All-map P Q (x ∷ xs) f a = (f x a.0, All-map P Q xs f a.1)

send_bytes-fits :
    (P : Sent → Type 0) (id : LinkId) (bytes d : List ℕ) (mtu : ℕ)
    → length d ≡ 8
    → ((f : List ℕ) → length f ≤ mtu → P (id, f))
    → All P (send_bytes id bytes d mtu)
unfolding send_bytes on_link
send_bytes-fits P id bytes d mtu hd fits =
    go (split bytes d mtu) (λ frames e. (split_lem bytes d mtu frames hd e).0)
  where
    go :
        (o : Outcome FragError (List (List ℕ)))
        → ((frames : List (List ℕ)) → o ≡ ok frames → All (λ f. length f ≤ mtu) frames)
        → All P (on_link id o)
    go (ok frames) h =
        tagged P id frames
          (All-map (λ f. length f ≤ mtu) (λ f. P (id, f)) frames fits (h frames refl))
    go (err e) h = tt
    go panic h = tt

broadcast_part :
    (bytes d : List ℕ) (exclude : Option LinkId) (links part : Map LinkId LinkState)
    → length d ≡ 8
    → ((id : LinkId) (mtu : ℕ) → HasLink part id mtu → HasLink links id mtu)
    → All
        (IsFit links exclude)
        (send_all bytes d (retain (λ e. not (is_excluded exclude e.0)) part))
unfolding send_all
broadcast_part bytes d exclude links [] hd inside = tt
broadcast_part bytes d exclude links ((id, l) ∷ part) hd inside =
    let rest = broadcast_part bytes d exclude links part hd (λ i m h. inside i m (inr h)) in
    elim (Bool-cases (is_excluded exclude id)) [
      | inl out ↦ rw out rest
      | inr kept ↦ rw kept (
          All-append (IsFit links exclude) (send_bytes id bytes d l.mtu) _
            (send_bytes-fits (IsFit links exclude) id bytes d l.mtu hd
              (λ f h. (kept, (l.mtu, inside id l.mtu (inl (refl, refl)), h))))
            rest)
    ]

-- Every frame of a broadcast goes to a link of the table, not to the excluded one, and is no longer
-- than the MTU of that link.
pub broadcast-IsFit :
    (c : Crypto) (links : Map LinkId LinkState) (pkt : Packet) (exclude : Option LinkId)
    → All (IsFit links exclude) (broadcast c links pkt exclude)
unfolding broadcast
broadcast-IsFit c links pkt exclude =
    broadcast_part (encode pkt) (digest c pkt) exclude links links (length-digest c pkt)
      (λ id mtu h. h)
