-- ===== src/Relay/Tests.antt =====
-- Runs of the relay pipeline at concrete states.
use cockroach_chat.Prelude.{
  ℕ, ◌≤◌, ◌≡◌, refl, not, none, List, [], ◌∷◌, arith, retain, if◌then◌else◌, is_some, ok, replicate,
}
use cockroach_chat.Clock.{Millis}
use cockroach_chat.Platform.Samples.{sixty_thousandths}
use cockroach_chat.Config.{defaults}
use cockroach_chat.OrdMap.{get}
use cockroach_chat.OrdMap.Keys.{bytes_ord}
use cockroach_chat.OrdMap.Sorted.{IsSorted}
use cockroach_chat.Wire.{Packet, channel_message}
use cockroach_chat.Relay.Seen.{Digest, SeenCache, observe}
use cockroach_chat.Relay.Seen.Capacity.{IsValid, observe-IsValid}
use cockroach_chat.Relay.Seen.Once.{deliveries, delivered_once}
use cockroach_chat.Relay.Scheduler.{RelayScheduler, due, is_ready}
use cockroach_chat.Relay.Scheduler.Due.{released, due_lem}

-- A cache of two packets that is full, and one with room for what follows.
abbrev heard : SeenCache ℕ
heard = record {
  entries =
      (1 ∷ [], record { first_seen_ms = 5; hear_count = 2 })
      ∷ (4 ∷ [], record { first_seen_ms = 3; hear_count = 1 })
      ∷ [];
  cfg = record (defaults sixty_thousandths) { seen_cache_capacity = 2 };
}

abbrev roomy : SeenCache ℕ
roomy = record heard { cfg = record (defaults sixty_thousandths) { seen_cache_capacity = 9 } }

heard-IsValid : IsValid heard
heard-IsValid = record { bounded = omega arith; sorted = ((refl, tt), (tt, tt)) }

observe-IsValid_example : IsValid (observe heard (7 ∷ []) 9).0
observe-IsValid_example = observe-IsValid heard (7 ∷ []) 9 heard-IsValid

abbrev copies : List (Digest × Millis)
copies = (7 ∷ [], 10) ∷ (8 ∷ [], 11) ∷ (7 ∷ [], 12) ∷ []

delivered_once_example :
    deliveries (7 ∷ []) roomy copies ≤ (if is_some (get (7 ∷ []) roomy.entries) then 0 else 1)
unfolding defaults
delivered_once_example = delivered_once (7 ∷ []) copies roomy (omega arith)

abbrev note : Packet
note = record {
  version = 1;
  msg_type = channel_message;
  ttl = 4;
  flags = 0;
  timestamp_ms = 7;
  sender = replicate 8 3;
  recipient = none;
  payload = 1 ∷ [];
  signature = replicate 64 0;
}

-- One packet that is ready at 150, and one that is not.
abbrev waiting : RelayScheduler ℕ
waiting = record {
  pending =
      (1 ∷ [], record { packet = note; send_at_ms = 200; exclude_link = 2 })
      ∷ (4 ∷ [], record { packet = note; send_at_ms = 120; exclude_link = 3 })
      ∷ [];
  cfg = defaults sixty_thousandths;
}

waiting-IsSorted : IsSorted waiting.pending
waiting-IsSorted = ((refl, tt), (tt, tt))

due_lem_example :
    due waiting 150 heard
    ≡ ok (
      record waiting { pending = retain (λ e. not (is_ready 150 e)) waiting.pending },
      released waiting.cfg.suppression_threshold heard (retain (is_ready 150) waiting.pending),
    )
due_lem_example = due_lem waiting 150 heard waiting-IsSorted
