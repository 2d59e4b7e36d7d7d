-- ===== src/Clock.antt =====
-- crates/meshcore/src/clock.rs: the clock that a caller advances by hand. Times are `u64`
-- milliseconds.
use cockroach_chat.Prelude.{ℕ, ◌+◌, ◌-◌, ◌^◌, ◌≤◌, ◌≡◌, arith, min, refl, ◌⊎◌}

abbrev pub Millis : Type 0
Millis = ℕ

abbrev pub u64_max : ℕ
u64_max = 2 ^ 64 - 1

-- `u64::saturating_add`
abbrev pub saturating_add : ℕ → ℕ → ℕ
saturating_add a b = min (a + b) u64_max

pub record ManualClock : Type 0 where
  pub now : Millis

pub new : Millis → ManualClock
new start = record { now = start }

unfoldable pub now_ms : ManualClock → Millis
now_ms c = c.now

pub advance : ManualClock → Millis → ManualClock × Millis
advance c delta = let next = saturating_add c.now delta in (record { now = next }, next)

pub set : ManualClock → Millis → ManualClock
set c value = record { now = value }

-- Advancing a `u64` clock returns the time that it then shows, which is the sum or the greatest
-- `u64`; it never turns the clock back.
pub advance_lem :
    (c : ManualClock) (delta : Millis)
    → now_ms c ≤ u64_max
    → let (c', t) = advance c delta in
      (now_ms c' ≡ t) × (now_ms c ≤ t) × (t ≤ u64_max) × ((t ≡ now_ms c + delta) ⊎ (t ≡ u64_max))
unfolding advance now_ms
advance_lem c delta h = (refl, omega arith, omega arith, omega arith)
