-- ===== src/Node/Payload.antt =====
-- The payloads of node.rs: announces, channel messages and sync requests. A decoder that returns `None`
-- has the outcome `err tt`.
pub mod Roundtrip
pub mod Safety
mod Tests
use cockroach_chat.Prelude.{
  ℕ, zero, suc, ◌+◌, ◌-◌, ◌%◌, ◌^◌, Bool, true, false, Option, none, some, List, [], ◌∷◌, ◌++◌, min,
  length, ltb, ◌==◌, if◌then◌else◌, take, drop, Outcome, ok, err, panic, ◌>>=◌, index, slice,
}
use cockroach_chat.Platform.{Lz4}
use cockroach_chat.Config.{Tunables}
use cockroach_chat.Text.{from_utf8_lossy}
use cockroach_chat.Compress.{CompressError, maybe_compress, decompress}
use cockroach_chat.Channels.{SyncFilter, new}

abbrev pub Parsed : Type 0 → Type 0
Parsed A = Outcome (Unit {0}) A

pub record Announce : Type 0 where
  pub ed : List ℕ
  pub dh : List ℕ
  pub nick : List ℕ

pub encode_announce : List ℕ → List ℕ → List ℕ → List ℕ
encode_announce ed_pub dh_pub nick =
    let n = min (length nick) 24 in ed_pub ++ (dh_pub ++ (n % 2 ^ 8 ∷ take n nick))

pub announce_nick : List ℕ → List ℕ → List ℕ → ℕ → Parsed Announce
announce_nick payload ed dh n =
    if ltb (length payload) (65 + n)
    then err tt
    else (slice payload 65 (65 + n) >>= λ raw.
        ok (record { ed = ed; dh = dh; nick = from_utf8_lossy raw }))

pub decode_announce : List ℕ → Parsed Announce
unfolding announce_nick
decode_announce payload = if ltb (length payload) 65 then err tt else (do
  ed ← slice payload 0 32
  dh ← slice payload 32 64
  n ← index payload 64
  announce_nick payload ed dh n)

-- `.ok()?`
abbrev pub ok_or_none : {A : Type 0} → Outcome CompressError A → Parsed A
ok_or_none (ok a) = ok a
ok_or_none (err e) = err tt
ok_or_none panic = panic

module _ (z : Lz4) {F : Type 0} (cfg : Tunables F) where
  unfoldable pub encode_channel : List ℕ → List ℕ → List ℕ
  encode_channel channel text =
      let clen = min (length channel) 255 in
      let (compressed, body) : ℕ × List ℕ = elim (maybe_compress z text cfg) [
        | some c ↦ (1, c)
        | none ↦ (0, text)
      ] in
      compressed ∷ (clen % 2 ^ 8 ∷ (take clen channel ++ body))

  pub text_of : ℕ → List ℕ → Parsed (List ℕ)
  text_of compressed body = if compressed == 1 then ok_or_none (decompress z body cfg) else ok body

  pub channel_body : List ℕ → ℕ → ℕ → Parsed (List ℕ × List ℕ)
  unfolding text_of
  channel_body payload compressed clen = if ltb (length payload) (2 + clen) then err tt else (do
    name ← slice payload 2 (2 + clen)
    body ← slice payload (2 + clen) (length payload)
    text ← text_of compressed body
    ok (from_utf8_lossy name, from_utf8_lossy text))

  pub decode_channel : List ℕ → Parsed (List ℕ × List ℕ)
  unfolding channel_body
  decode_channel payload = if ltb (length payload) 2 then err tt else (do
    compressed ← index payload 0
    clen ← index payload 1
    channel_body payload compressed clen)

pub concat : List (List ℕ) → List ℕ
concat [] = []
concat (d ∷ ds) = d ++ concat ds

pub encode_sync : SyncFilter → List ℕ
unfolding concat
encode_sync filter =
    let clen = min (length filter.channel) 255 in
    clen % 2 ^ 8 ∷ (take clen filter.channel ++ concat filter.digests)

-- `chunks_exact(8)`: bytes that are left over are dropped. A buffer of `fuel` bytes has at most `fuel`
-- chunks.
pub chunks_exact_fuel : ℕ → List ℕ → List (List ℕ)
chunks_exact_fuel zero bs = []
chunks_exact_fuel (suc fuel) bs =
    let rest = chunks_exact_fuel fuel (drop 8 bs) in
    if ltb (length bs) 8 then [] else take 8 bs ∷ rest

pub chunks_exact : List ℕ → List (List ℕ)
unfolding chunks_exact_fuel
chunks_exact bs = chunks_exact_fuel (length bs) bs

pub sync_digests : List ℕ → ℕ → Parsed SyncFilter
unfolding chunks_exact
sync_digests payload clen = if ltb (length payload) (1 + clen) then err tt else (do
  name ← slice payload 1 (1 + clen)
  rest ← slice payload (1 + clen) (length payload)
  ok (new (from_utf8_lossy name) (chunks_exact rest)))

pub decode_sync : List ℕ → Parsed SyncFilter
unfolding sync_digests
decode_sync payload =
    if length payload == 0 then err tt else (do clen ← index payload 0; sync_digests payload clen)
