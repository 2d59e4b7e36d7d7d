-- ===== src/Node/Payload/Safety.antt =====
-- The payload decoders of node.rs never panic.
use cockroach_chat.Prelude.{
  ℕ, ◌+◌, ◌≤◌, ◌<◌, ◌≡◌, ◌≢◌, refl, inl, inr, List, arith, length, ltb, ltb→le, ◌==◌, Outcome, ok,
  err, panic, ◌>>=◌, index_in, slice_in, Bool-cases,
}
use cockroach_chat.Platform.{Lz4}
use cockroach_chat.Config.{Tunables}
use cockroach_chat.Compress.{decompress}
use cockroach_chat.Compress.Bounds.{decompress-ne-panic}
use cockroach_chat.Node.Payload.{
  Parsed, decode_announce, announce_nick, decode_channel, channel_body, text_of, ok_or_none,
  decode_sync, sync_digests,
}

announce_nick-ne-panic : (bs ed dh : List ℕ) (n : ℕ) → announce_nick bs ed dh n ≢ panic
unfolding announce_nick
announce_nick-ne-panic bs ed dh n = elim (Bool-cases (ltb (length bs) (65 + n))) [
  | inl e ↦ rw e (λ h. cc)
  | inr e ↦
      rw (e, slice_in {E = Unit {0}} bs 65 (65 + n) (omega arith) (ltb→le (length bs) (65 + n) e))
        (λ h. cc)
]

decode_announce-ne-panic : (bs : List ℕ) → decode_announce bs ≢ panic
unfolding decode_announce
decode_announce-ne-panic bs = elim (Bool-cases (ltb (length bs) 65)) [
  | inl e ↦ rw e (λ h. cc)
  | inr e ↦
      let long : 65 ≤ length bs = ltb→le (length bs) 65 e in
      rw
        (
          e,
          slice_in {E = Unit {0}} bs 0 32 (omega arith) (omega arith),
          slice_in {E = Unit {0}} bs 32 64 (omega arith) (omega arith),
          index_in {E = Unit {0}} bs 64 (omega arith),
        )
        (announce_nick-ne-panic bs _ _ _)
]

ok_or_none-panic : {A : Type 0} (m : Outcome _ A) → ok_or_none m ≡ panic → m ≡ panic
ok_or_none-panic panic h = refl
ok_or_none-panic (err e) h = cc
ok_or_none-panic (ok a) h = cc

module _ (z : Lz4) {F : Type 0} (cfg : Tunables F) where
  text_of-ne-panic : (flag : ℕ) (body : List ℕ) → text_of z cfg flag body ≢ panic
  unfolding text_of
  text_of-ne-panic flag body = elim (Bool-cases (flag == 1)) [
    | inl e ↦
        rw e (λ h. decompress-ne-panic z cfg body (ok_or_none-panic (decompress z body cfg) h))
    | inr e ↦ rw e (λ h. cc)
  ]

  bind-ne-panic :
      {A B : Type 0} (m : Parsed A) (f : A → Parsed B)
      → m ≢ panic
      → ((a : A) → f a ≢ panic)
      → (m >>= f) ≢ panic
  bind-ne-panic panic f hm hf = λ h. hm refl
  bind-ne-panic (err e) f hm hf = λ h. cc
  bind-ne-panic (ok a) f hm hf = hf a

  channel_body-ne-panic : (bs : List ℕ) (flag n : ℕ) → channel_body z cfg bs flag n ≢ panic
  unfolding channel_body
  channel_body-ne-panic bs flag n = elim (Bool-cases (ltb (length bs) (2 + n))) [
    | inl e ↦ rw e (λ h. cc)
    | inr e ↦
        let long : 2 + n ≤ length bs = ltb→le (length bs) (2 + n) e in
        rw
          (
            e,
            slice_in {E = Unit {0}} bs 2 (2 + n) (omega arith) long,
            slice_in {E = Unit {0}} bs (2 + n) (length bs) long (omega arith),
          )
          (bind-ne-panic (text_of z cfg flag _) _ (text_of-ne-panic flag _) (λ t h. cc))
  ]

  decode_channel-ne-panic : (bs : List ℕ) → decode_channel z cfg bs ≢ panic
  unfolding decode_channel
  decode_channel-ne-panic bs = elim (Bool-cases (ltb (length bs) 2)) [
    | inl e ↦ rw e (λ h. cc)
    | inr e ↦
        let long : 2 ≤ length bs = ltb→le (length bs) 2 e in
        rw
          (
            e,
            index_in {E = Unit {0}} bs 0 (omega arith),
            index_in {E = Unit {0}} bs 1 (omega arith),
          )
          (channel_body-ne-panic bs _ _)
  ]

sync_digests-ne-panic : (bs : List ℕ) (n : ℕ) → sync_digests bs n ≢ panic
unfolding sync_digests
sync_digests-ne-panic bs n = elim (Bool-cases (ltb (length bs) (1 + n))) [
  | inl e ↦ rw e (λ h. cc)
  | inr e ↦
      let long : 1 + n ≤ length bs = ltb→le (length bs) (1 + n) e in
      rw
        (
          e,
          slice_in {E = Unit {0}} bs 1 (1 + n) (omega arith) long,
          slice_in {E = Unit {0}} bs (1 + n) (length bs) long (omega arith),
        )
        (λ h. cc)
]

decode_sync-ne-panic : (bs : List ℕ) → decode_sync bs ≢ panic
unfolding decode_sync
decode_sync-ne-panic bs = elim (Bool-cases (length bs == 0)) [
  | inl e ↦ rw e (λ h. cc)
  | inr e ↦
      let some_byte : 0 < length bs = ground (arith, e) in
      rw (e, index_in {E = Unit {0}} bs 0 some_byte) (sync_digests-ne-panic bs _)
]

-- Whatever bytes a payload holds, none of the three decoders indexes or slices it out of range.
pub payloads-ne-panic :
    (z : Lz4) {F : Type 0} (cfg : Tunables F) (payload : List ℕ)
    → (decode_announce payload ≢ panic)
      × (decode_channel z cfg payload ≢ panic)
      × (decode_sync payload ≢ panic)
payloads-ne-panic z cfg payload = (
  decode_announce-ne-panic payload,
  decode_channel-ne-panic z cfg payload,
  decode_sync-ne-panic payload,
)
