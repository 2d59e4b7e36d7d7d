-- ===== src/Node/Keeps.antt =====
-- What the handlers of node.rs leave alone: the parts of the node that only its timers and frames move,
-- and what the user has said of the peers.
pub mod Session
pub mod Handshake
pub mod Inbound
use cockroach_chat.Prelude.{
  ℕ, ◌≡◌, refl, ap, sym, ◌∙◌, Bool, true, false, Option, none, some, List, [], ◌∷◌, ◌++◌, Outcome,
  ok, err, panic, if◌then◌else◌,
}
use cockroach_chat.Clock.{ManualClock}
use cockroach_chat.Config.{Tunables}
use cockroach_chat.Platform.{World}
use cockroach_chat.OrdMap.{get}
use cockroach_chat.OrdMap.Keys.{bytes_ord}
use cockroach_chat.Store.{Fingerprint, Name, PeerRecord}
use cockroach_chat.Frag.{Reassembler}
use cockroach_chat.Relay.Scheduler.{RelayScheduler}
use cockroach_chat.Identity.{LocalIdentity}
use mathlib.Core.List.{append_assoc, append-nil}
use cockroach_chat.Node.State.{MeshNode, MeshEvent, emit}
use cockroach_chat.Node.Session.{Run}
use cockroach_chat.Node.Commands.{verified_of, petname_in}

abbrev pub trust_of : Option PeerRecord → Bool × Option Name
trust_of p = (verified_of p, petname_in p)

pub no_more : {es es' : List MeshEvent} → es' ≡ es → (more : List MeshEvent) × (es' ≡ es ++ more)
no_more {es = es} e = ([], e ∙ sym (append-nil es))

module _ ⦃w : World⦄ where
  abbrev pub Core : Type 0
  Core =
      LocalIdentity w.crypto
      × Tunables w.float.F
      × ManualClock
      × RelayScheduler w.float.F
      × Reassembler w.float.F

  abbrev pub core : MeshNode → Core
  core n = (n.identity, n.cfg, n.clock, n.scheduler, n.reassembler)

  -- What the user has said of a peer.
  abbrev pub trust : MeshNode → Fingerprint → Bool × Option Name
  trust n fp = trust_of (get fp n.store.peers)

  -- Events are only added.
  abbrev pub Grows : MeshNode → MeshNode → Type 0
  Grows n n' = (more : List MeshEvent) × (n'.events ≡ n.events ++ more)

  pub then-Grows : (n n' n'' : MeshNode) → Grows n n' → Grows n' n'' → Grows n n''
  then-Grows n n' n'' (more, e) (more', e') =
      (more ++ more', e' ∙ ap (λ es. es ++ more') e ∙ append_assoc n.events more more')

  pub record Keeps (n n' : MeshNode) : Type 0 where
    pub core_kept : core n' ≡ core n
    pub trust_kept : (fp : Fingerprint) → trust n' fp ≡ trust n fp
    pub grown : Grows n n'

  pub stays : (n : MeshNode) → Keeps n n
  stays n = record { core_kept = refl; trust_kept = λ fp. refl; grown = no_more refl }

  -- A change of other parts of the node.
  pub elsewhere :
      {n n' : MeshNode}
      → core n' ≡ core n
      → n'.store.peers ≡ n.store.peers
      → n'.events ≡ n.events
      → Keeps n n'
  elsewhere {n = n} {n' = n'} c p e = record {
    core_kept = c;
    trust_kept = λ fp. ap (λ m. trust_of (get fp m)) p;
    grown = no_more e;
  }

  pub emit-Keeps : (e : MeshEvent) (n : MeshNode) → Keeps n (emit e n)
  unfolding emit
  emit-Keeps e n = record { core_kept = refl; trust_kept = λ fp. refl; grown = (e ∷ [], refl) }

  pub then-Keeps : {n n' n'' : MeshNode} → Keeps n n' → Keeps n' n'' → Keeps n n''
  then-Keeps {n = n} {n' = n'} {n'' = n''} k k' = record {
    core_kept = k'.core_kept ∙ k.core_kept;
    trust_kept = λ fp. k'.trust_kept fp ∙ k.trust_kept fp;
    grown = then-Grows n n' n'' k.grown k'.grown;
  }

  pub if_Keeps :
      {n x y : MeshNode} (b : Bool) → Keeps n x → Keeps n y → Keeps n (if b then x else y)
  if_Keeps true kx ky = kx
  if_Keeps false kx ky = ky

  pub option-Keeps :
      {A : Type 0} {n x : MeshNode} {f : A → MeshNode} (o : Option A)
      → Keeps n x
      → ((a : A) → Keeps n (f a))
      → Keeps n (elim o [ none ↦ x | some a ↦ f a ])
  option-Keeps none kx kf = kx
  option-Keeps (some a) kx kf = kf a

  -- The handler returns, and leaves these alone.
  abbrev pub Kept : MeshNode → Run → Type 0
  Kept n (ok n') = Keeps n n'
  Kept n (err e) = ⊥
  Kept n panic = ⊥

  pub then-Kept : {n m : MeshNode} (r : Run) → Keeps n m → Kept m r → Kept n r
  then-Kept (ok n') k kr = then-Keeps k kr
  then-Kept (err e) k kr = kr
  then-Kept panic k kr = kr
