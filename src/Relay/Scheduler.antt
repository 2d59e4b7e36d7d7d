-- ===== src/Relay/Scheduler.antt =====
-- `RelayScheduler` of crates/meshcore/src/relay.rs: rebroadcasts that wait out their jitter, and are
-- dropped once enough copies of the packet were heard. An `unwrap` of a missing entry panics.
pub mod Due
use cockroach_chat.Prelude.{
  ℕ, ◌+◌, ◌%◌, ◌^◌, Bool, true, false, Option, none, some, List, [], ◌∷◌, map, leb, length,
  if◌then◌else◌, retain, Outcome, ok, panic, ◌>>=◌,
}
use cockroach_chat.Clock.{Millis}
use cockroach_chat.Config.{Tunables}
use cockroach_chat.Wire.{Packet}
use cockroach_chat.OrdMap.{Map, get, contains_key, insert, remove}
use cockroach_chat.OrdMap.Keys.{bytes_ord}
use cockroach_chat.Relay.Seen.{Digest, SeenCache, hear_count}

abbrev pub LinkId : Type 0
LinkId = ℕ

pub record Pending : Type 0 where
  pub packet : Packet
  pub send_at_ms : Millis
  pub exclude_link : LinkId

pub record DueRelay : Type 0 where
  pub packet : Packet
  pub exclude_link : LinkId

pub record RelayScheduler (F : Type 0) : Type 0 where
  pub pending : Map Digest Pending
  pub cfg : Tunables F

abbrev pub due_relay : Pending → DueRelay
due_relay p = record { packet = p.packet; exclude_link = p.exclude_link }

abbrev pub unwrap {ℓ} : {A : Type ℓ} → Option A → Outcome ⊥ A
unwrap none = panic
unwrap (some a) = ok a

abbrev pub is_ready : Millis → Digest × Pending → Bool
is_ready now e = leb e.1.send_at_ms now

module _ {F : Type 0} where
  unfoldable pub new : Tunables F → RelayScheduler F
  new cfg = record { pending = []; cfg = cfg }

  pub pending_count : RelayScheduler F → ℕ
  pending_count s = length s.pending

  -- A packet that waits already keeps its place.
  unfoldable pub schedule :
      RelayScheduler F → Digest → Packet → LinkId → Millis → Millis → RelayScheduler F
  schedule s digest packet exclude_link delay_ms now_ms =
      if contains_key digest s.pending then s else record s {
        pending =
            insert digest
              (record {
                packet = packet;
                send_at_ms = (now_ms + delay_ms) % 2 ^ 64;
                exclude_link = exclude_link;
              })
              s.pending;
      }

  abbrev pub is_suppressed : ℕ → SeenCache F → Digest → Bool
  is_suppressed threshold seen digest = leb threshold (hear_count seen digest)

  -- The loop over the digests that are ready.
  pub release :
      ℕ
      → SeenCache F
      → List Digest
      → Map Digest Pending
      → Outcome ⊥ (Map Digest Pending × List DueRelay)
  release threshold seen [] pending = ok (pending, [])
  release threshold seen (digest ∷ ready) pending = unwrap (get digest pending) >>= λ p.
      release threshold seen ready (remove digest pending) >>= λ (left, out).
      ok (left, if is_suppressed threshold seen digest then out else due_relay p ∷ out)

  pub due : RelayScheduler F → Millis → SeenCache F → Outcome ⊥ (RelayScheduler F × List DueRelay)
  unfolding release
  due s now seen =
      release s.cfg.suppression_threshold seen (map (λ e. e.0) (retain (is_ready now) s.pending))
        s.pending
      >>= λ (left, out). ok (record s { pending = left }, out)
