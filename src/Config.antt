-- ===== src/Config.antt =====
-- crates/meshcore/src/config.rs: the tunables of the protocol, their defaults, and the TTL that a
-- packet starts with. `F` is the type of the three probabilities, which are `f64`.
pub mod Ttl
use cockroach_chat.Prelude.{ℕ, ◌*◌, ◌^◌, Bool, leb, if◌then◌else◌}
use cockroach_chat.Clock.{Millis}
use cockroach_chat.Platform.{Float}
use cockroach_chat.Wire.{MsgType}
use cockroach_chat.Wire

pub record Tunables (F : Type 0) : Type 0 where
  pub default_mtu : ℕ
  pub reassembly_slots : ℕ
  pub reassembly_timeout_ms : Millis
  pub reassembly_max_bytes : ℕ
  pub ttl_announce : ℕ
  pub ttl_announce_dense : ℕ
  pub ttl_channel : ℕ
  pub ttl_channel_dense : ℕ
  pub ttl_dm : ℕ
  pub ttl_dm_dense : ℕ
  pub dense_degree : ℕ
  pub jitter_min_ms : Millis
  pub jitter_max_ms : Millis
  pub suppression_threshold : ℕ
  pub relay_prob_sparse : F
  pub relay_prob_mid : F
  pub relay_prob_dense : F
  pub relay_sparse_max : ℕ
  pub relay_mid_max : ℕ
  pub seen_cache_capacity : ℕ
  pub seen_cache_ttl_ms : Millis
  pub rate_burst : ℕ
  pub rate_sustained_per_min : ℕ
  pub greylist_ms : Millis
  pub pow_bits : ℕ
  pub compress_min_bytes : ℕ
  pub decompress_max_bytes : ℕ
  pub channel_history_ms : Millis
  pub channel_history_max_msgs : ℕ
  pub envelope_ttl_ms : Millis
  pub envelope_max_per_peer : ℕ

-- A decimal literal is the correctly rounded quotient.
unfoldable pub defaults : (f : Float) → Tunables f.F
defaults f = record {
  default_mtu = 182;
  reassembly_slots = 128;
  reassembly_timeout_ms = 30_000;
  reassembly_max_bytes = 2 ^ 20;
  ttl_announce = 15;
  ttl_announce_dense = 12;
  ttl_channel = 10;
  ttl_channel_dense = 7;
  ttl_dm = 10;
  ttl_dm_dense = 7;
  dense_degree = 6;
  jitter_min_ms = 10;
  jitter_max_ms = 220;
  suppression_threshold = 3;
  relay_prob_sparse = f.of_nat 1;
  relay_prob_mid = f.div (f.of_nat 7) (f.of_nat 10);
  relay_prob_dense = f.div (f.of_nat 45) (f.of_nat 100);
  relay_sparse_max = 3;
  relay_mid_max = 6;
  seen_cache_capacity = 1000;
  seen_cache_ttl_ms = 5 * 60_000;
  rate_burst = 10;
  rate_sustained_per_min = 30;
  greylist_ms = 60_000;
  pow_bits = 22;
  compress_min_bytes = 128;
  decompress_max_bytes = 4096;
  channel_history_ms = 6 * 3_600_000;
  channel_history_max_msgs = 1000;
  envelope_ttl_ms = 24 * 3_600_000;
  envelope_max_per_peer = 100;
}

module _ {F : Type 0} where
  ttl_of : Tunables F → MsgType → Bool → ℕ
  ttl_of c Wire.announce dense = if dense then c.ttl_announce_dense else c.ttl_announce
  ttl_of c Wire.channel_message dense = if dense then c.ttl_channel_dense else c.ttl_channel
  ttl_of c Wire.direct_message dense = if dense then c.ttl_dm_dense else c.ttl_dm
  ttl_of c Wire.noise_handshake dense = if dense then c.ttl_dm_dense else c.ttl_dm
  ttl_of c _ dense = 1

  pub origin_ttl : Tunables F → MsgType → ℕ → ℕ
  unfolding ttl_of
  origin_ttl c msg_type degree = ttl_of c msg_type (leb c.dense_degree degree)
