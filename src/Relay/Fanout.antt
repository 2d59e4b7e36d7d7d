-- ===== src/Relay/Fanout.antt =====
-- The density-adaptive coin and the jitter of crates/meshcore/src/relay.rs. The generator is a value
-- that each draw replaces.
use cockroach_chat.Prelude.{
  ℕ, ◌≤◌, ◌<◌, ◌≡◌, inl, inr, Bool, true, arith, leb, le→leb, leb→lt, Bool-cases, if◌then◌else◌,
  max,
}
use cockroach_chat.Clock.{Millis}
use cockroach_chat.Platform.{Float, Rng}
use cockroach_chat.Config.{Tunables, defaults}

module _ (f : Float) (g : Rng f) where
  open g use {R, gen, gen_range}

  unfoldable pub rebroadcast_probability : ℕ → Tunables f.F → f.F
  rebroadcast_probability degree cfg =
      if leb degree cfg.relay_sparse_max
      then cfg.relay_prob_sparse
      else if leb degree cfg.relay_mid_max
      then cfg.relay_prob_mid
      else cfg.relay_prob_dense

  unfoldable pub should_relay : ℕ → Tunables f.F → R → Bool × R
  should_relay degree cfg rng =
      let (draw, rng') = gen rng in (f.lt draw (rebroadcast_probability degree cfg), rng')

  unfoldable pub relay_delay : Tunables f.F → R → Millis × R
  relay_delay cfg rng =
      if leb cfg.jitter_max_ms cfg.jitter_min_ms
      then (cfg.jitter_min_ms, rng)
      else gen_range cfg.jitter_min_ms cfg.jitter_max_ms rng

  -- Whatever the generator draws and whatever the window, the delay lies in the window, where one that
  -- ends before it begins counts as its beginning.
  pub relay_delay_window :
      (cfg : Tunables f.F) (rng : R)
      → (cfg.jitter_min_ms ≤ (relay_delay cfg rng).0)
        × ((relay_delay cfg rng).0 ≤ max cfg.jitter_min_ms cfg.jitter_max_ms)
  unfolding relay_delay
  relay_delay_window cfg rng = elim (Bool-cases (leb cfg.jitter_max_ms cfg.jitter_min_ms)) [
    | inl closed ↦ rw closed (omega arith, omega arith)
    | inr window ↦
        let lt : cfg.jitter_min_ms < cfg.jitter_max_ms =
          leb→lt cfg.jitter_max_ms cfg.jitter_min_ms window in
        let (low, high) = g.gen_range_in cfg.jitter_min_ms cfg.jitter_max_ms rng (omega arith) in
        rw window (low, omega arith)
  ]

  -- Under the default tunables a node with at most three links always relays.
  pub sparse_always_relays :
      (degree : ℕ) (rng : R) → degree ≤ 3 → (should_relay degree (defaults f) rng).0 ≡ true
  unfolding should_relay rebroadcast_probability defaults
  sparse_always_relays degree rng h = rw (le→leb degree 3 h) (g.gen_lt_one rng)
