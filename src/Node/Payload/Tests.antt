-- ===== src/Node/Payload/Tests.antt =====
-- Runs of the payload codecs.
use cockroach_chat.Prelude.{ℕ, ◌≡◌, refl, List, [], ◌∷◌, arith, replicate, ok}
use cockroach_chat.Platform.Samples.{sixty_thousandths, zero_runs}
use cockroach_chat.Config.{defaults}
use cockroach_chat.Text.{from_utf8_lossy, IsText}
use cockroach_chat.Channels.{SyncFilter, new}
use cockroach_chat.Node.Payload.{
  encode_announce, decode_announce, encode_channel, decode_channel, encode_sync, decode_sync,
}
use cockroach_chat.Node.Payload.Roundtrip.{
  decode_announce-encode_announce, decode_channel-encode_channel, decode_sync-encode_sync,
}

-- Two letters and U+00E9.
abbrev name : List ℕ
name = 97 ∷ 98 ∷ 0xc3 ∷ 0xa9 ∷ []

name-IsText : IsText name
unfolding from_utf8_lossy
name-IsText = refl

abbrev key : ℕ → List ℕ
key b = replicate 32 b

decode_announce-encode_announce_example :
    decode_announce (encode_announce (key 1) (key 2) name)
    ≡ ok (record { ed = key 1; dh = key 2; nick = name })
decode_announce-encode_announce_example =
    decode_announce-encode_announce (key 1) (key 2) name refl refl (omega arith) name-IsText

decode_channel-encode_channel_example :
    decode_channel zero_runs
      (defaults sixty_thousandths)
      (encode_channel zero_runs (defaults sixty_thousandths) name name)
    ≡ ok (name, name)
unfolding defaults
decode_channel-encode_channel_example =
    decode_channel-encode_channel zero_runs (defaults sixty_thousandths) name name (omega arith)
      name-IsText name-IsText (omega arith) (omega arith)

abbrev held : SyncFilter
held = record { channel = name; digests = replicate 8 4 ∷ replicate 8 3 ∷ [] }

decode_sync-encode_sync_example :
    decode_sync (encode_sync held) ≡ ok (new name (replicate 8 4 ∷ replicate 8 3 ∷ []))
decode_sync-encode_sync_example =
    decode_sync-encode_sync held (omega arith) name-IsText (refl, (refl, tt))
