-- ===== src/Config/Ttl.antt =====
-- The TTL that a packet starts with.
use cockroach_chat.Prelude.{ℕ, ◌≤◌, arith, Bool, false, leb}
use cockroach_chat.Platform.{Float}
use cockroach_chat.Wire.{MsgType, announce, channel_message, direct_message, noise_handshake}
use cockroach_chat.Config.{defaults, ttl_of, origin_ttl}

default_ttl_of :
    (f : Float) (t : MsgType) (dense : Bool)
    → (1 ≤ ttl_of (defaults f) t dense)
      × (ttl_of (defaults f) t dense ≤ ttl_of (defaults f) t false)
      × (ttl_of (defaults f) t dense ≤ 15)
unfolding ttl_of defaults
default_ttl_of f announce dense = ground arith
default_ttl_of f channel_message dense = ground arith
default_ttl_of f direct_message dense = ground arith
default_ttl_of f noise_handshake dense = ground arith
default_ttl_of f _ dense = (omega arith, omega arith, omega arith)

-- Under the default tunables every packet starts with a TTL from 1 to 15, and no type starts with
-- more at a higher degree than an isolated node gives it.
pub default_ttl_bounds :
    (f : Float) (t : MsgType) (degree : ℕ)
    → (1 ≤ origin_ttl (defaults f) t degree)
      × (origin_ttl (defaults f) t degree ≤ origin_ttl (defaults f) t 0)
      × (origin_ttl (defaults f) t degree ≤ 15)
unfolding origin_ttl defaults
default_ttl_bounds f t degree = default_ttl_of f t (leb 6 degree)
