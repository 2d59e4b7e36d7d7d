-- ===== src/Relay/Rate/Tests.antt =====
-- Runs of the rate limiter at concrete states.
use cockroach_chat.Prelude.{ℕ, ◌≡◌, refl, true, false, [], ◌∷◌, arith, min}
use cockroach_chat.Platform.Samples.{sixty_thousandths}
use cockroach_chat.Config.{defaults}
use cockroach_chat.OrdMap.{get}
use cockroach_chat.OrdMap.Keys.{bytes_ord}
use cockroach_chat.Relay.Rate.{
  RateLimiter, allow, is_greylisted, bucket_of, admit, take_token, refill, refill_rate_per_ms,
}
use cockroach_chat.Relay.Rate.Greylist.{denied_is_greylisted, allow_independent}
use cockroach_chat.Relay.Rate.Burst.{accepted, burst_bound}

-- A sender whose bucket is empty, and a limiter that has heard nobody.
abbrev drained : RateLimiter ℕ
drained = record {
  buckets = (6 ∷ [], record { tokens = 0; last_ms = 100; greylist_until = 0 }) ∷ [];
  cfg = defaults sixty_thousandths;
}

abbrev quiet : RateLimiter ℕ
quiet = record { buckets = []; cfg = defaults sixty_thousandths }

drained-free : is_greylisted sixty_thousandths drained (6 ∷ []) 100 ≡ false
unfolding get is_greylisted
drained-free = refl

drained-denied : (allow sixty_thousandths drained (6 ∷ []) 100).1 ≡ false
unfolding get allow bucket_of admit take_token refill refill_rate_per_ms defaults
drained-denied = refl

denied_is_greylisted_example :
    (is_greylisted sixty_thousandths (allow sixty_thousandths drained (6 ∷ []) 100).0 (6 ∷ []) 200
      ≡ true)
    × ((allow sixty_thousandths (allow sixty_thousandths drained (6 ∷ []) 100).0 (6 ∷ []) 200).1
        ≡ false)
unfolding defaults
denied_is_greylisted_example =
    denied_is_greylisted sixty_thousandths drained (6 ∷ []) 100 200 drained-free drained-denied
      (omega arith) (omega arith)

allow_independent_example :
    (is_greylisted sixty_thousandths (allow sixty_thousandths drained (6 ∷ []) 100).0 (5 ∷ []) 200
      ≡ is_greylisted sixty_thousandths drained (5 ∷ []) 200)
    × ((allow sixty_thousandths (allow sixty_thousandths drained (6 ∷ []) 100).0 (5 ∷ []) 200).1
        ≡ (allow sixty_thousandths drained (5 ∷ []) 200).1)
allow_independent_example =
    allow_independent sixty_thousandths drained (6 ∷ []) (5 ∷ []) 100 200 (λ e. ground arith)

burst_bound_example : accepted sixty_thousandths quiet (6 ∷ []) 100 12 ≡ min 12 quiet.cfg.rate_burst
unfolding defaults get
burst_bound_example =
    burst_bound sixty_thousandths quiet (6 ∷ []) 100 12 refl (omega arith) (omega arith)
      (omega arith) (omega arith)
