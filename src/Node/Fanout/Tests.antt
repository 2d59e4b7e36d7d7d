-- ===== src/Node/Fanout/Tests.antt =====
-- A run of a broadcast.
use cockroach_chat.Prelude.{none, some, [], ◌∷◌, All, replicate}
use cockroach_chat.Platform.Samples.{repeating}
use cockroach_chat.OrdMap.{Map}
use cockroach_chat.Wire.{Packet, channel_message}
use cockroach_chat.Relay.Scheduler.{LinkId}
use cockroach_chat.Node.Fanout.{LinkState, broadcast}
use cockroach_chat.Node.Fanout.Safety.{IsFit, broadcast-IsFit}

abbrev links : Map LinkId LinkState
links =
    (3, record { mtu = 50; peer_eph = none; peer_fp = none })
    ∷ (5, record { mtu = 182; peer_eph = none; peer_fp = none })
    ∷ []

abbrev note : Packet
note = record {
  version = 1;
  msg_type = channel_message;
  ttl = 4;
  flags = 0;
  timestamp_ms = 7;
  sender = replicate 8 3;
  recipient = none;
  payload = 1 ∷ [];
  signature = replicate 64 0;
}

broadcast-IsFit_example : All (IsFit links (some 5)) (broadcast repeating links note (some 5))
broadcast-IsFit_example = broadcast-IsFit repeating links note (some 5)
