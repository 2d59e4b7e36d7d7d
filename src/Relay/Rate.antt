-- ===== src/Relay/Rate.antt =====
-- `RateLimiter` of crates/meshcore/src/relay.rs: a token bucket and a greylist for each sender.
-- Tokens are `f64`, of which `f` is the arithmetic.
pub mod Greylist
pub mod Burst
mod Tests
use cockroach_chat.Prelude.{
  ℕ, ◌+◌, ◌-◌, ◌%◌, ◌^◌, Bool, true, false, Option, none, some, List, [], ltb, if◌then◌else◌,
}
use cockroach_chat.Clock.{Millis}
use cockroach_chat.Config.{Tunables}
use cockroach_chat.Platform.{Float}
use cockroach_chat.OrdMap.{Map, get, insert}
use cockroach_chat.OrdMap.Keys.{bytes_ord}

pub record Bucket (F : Type 0) : Type 0 where
  pub tokens : F
  pub last_ms : Millis
  pub greylist_until : Millis

pub record RateLimiter (F : Type 0) : Type 0 where
  pub buckets : Map (List ℕ) (Bucket F)
  pub cfg : Tunables F

module _ (f : Float) where
  open f use {F, of_nat, add, sub, mul, div, fmin, le}

  unfoldable pub new : Tunables F → RateLimiter F
  new cfg = record { buckets = []; cfg = cfg }

  unfoldable pub refill_rate_per_ms : RateLimiter F → F
  refill_rate_per_ms l = div (of_nat l.cfg.rate_sustained_per_min) (of_nat 60_000)

  -- The bucket of a sender; a sender that was not heard has a full one.
  unfoldable pub bucket_of : RateLimiter F → List ℕ → Millis → Bucket F
  bucket_of l sender now = elim (get sender l.buckets) [
    | some b ↦ b
    | none ↦ record { tokens = of_nat l.cfg.rate_burst; last_ms = now; greylist_until = 0 }
  ]

  unfoldable pub refill : RateLimiter F → Bucket F → Millis → F
  refill l b now =
      fmin (add b.tokens (mul (of_nat (now - b.last_ms)) (refill_rate_per_ms l)))
        (of_nat l.cfg.rate_burst)

  -- The end of a greylisting is a `u64` sum.
  unfoldable pub take_token : RateLimiter F → Bucket F → Millis → Bucket F × Bool
  unfolding refill
  take_token l b now =
      let tokens = refill l b now in
      if le (of_nat 1) tokens
      then (record b { tokens = sub tokens (of_nat 1); last_ms = now }, true)
      else (
        record b {
          tokens = tokens;
          last_ms = now;
          greylist_until = (now + l.cfg.greylist_ms) % 2 ^ 64;
        },
        false,
      )

  -- A greylisted sender is refused before its bucket is looked at.
  unfoldable pub admit : RateLimiter F → Bucket F → Millis → Bucket F × Bool
  unfolding take_token
  admit l b now = if ltb now b.greylist_until then (b, false) else take_token l b now

  unfoldable pub allow : RateLimiter F → List ℕ → Millis → RateLimiter F × Bool
  allow l sender now =
      let (b, allowed) = admit l (bucket_of l sender now) now in
      (record l { buckets = insert sender b l.buckets }, allowed)

  pub is_greylisted : RateLimiter F → List ℕ → Millis → Bool
  is_greylisted l sender now = elim (get sender l.buckets) [
    | some b ↦ ltb now b.greylist_until
    | none ↦ false
  ]
