-- ===== src/Node/Payload/Roundtrip.antt =====
-- What the payload decoders of node.rs read is what the encoders wrote.
use cockroach_chat.Prelude.{
  ℕ, zero, suc, ◌+◌, ◌%◌, ◌^◌, ◌*◌, ◌≤◌, ◌<◌, ◌≡◌, refl, sym, ap, subst, ◌∙◌, inl, inr, false, none,
  some, List, [], ◌∷◌, ◌++◌, arith, min, length, le→ltb, ◌==◌, take, drop, take_all, take-length,
  drop-length, length-append, All, ok, Option-cases,
}
use cockroach_chat.Platform.{Lz4}
use cockroach_chat.Config.{Tunables}
use cockroach_chat.Text.{from_utf8_lossy, IsText}
use cockroach_chat.Compress.{maybe_compress}
use cockroach_chat.Compress.Bounds.{decompress-maybe_compress}
use cockroach_chat.Channels.{SyncFilter, new}
use cockroach_chat.Wire.Cursor.{
  At, At-start, At-length, At-to, At-skip, At-next, At-index, At-slice,
}
use cockroach_chat.Node.Payload.{
  encode_announce, decode_announce, announce_nick, encode_channel, decode_channel, channel_body,
  text_of, concat, encode_sync, decode_sync, sync_digests, chunks_exact, chunks_exact_fuel,
}

append_nil : (xs : List ℕ) → xs ++ [] ≡ xs
append_nil [] = refl
append_nil (x ∷ xs) = ap (λ l. x ∷ l) (append_nil xs)

At-end : {bs : List ℕ} {a : ℕ} {rest : List ℕ} → At bs a rest → At bs a (rest ++ [])
At-end {bs} {a} {rest} h = subst (At bs a) (sym (append_nil rest)) h

read_announce :
    (bs ed dh nick : List ℕ)
    → At bs 0 (ed ++ (dh ++ (length nick ∷ nick)))
    → length ed ≡ 32
    → length dh ≡ 32
    → decode_announce bs ≡ ok (record { ed = ed; dh = dh; nick = from_utf8_lossy nick })
unfolding decode_announce announce_nick
read_announce bs ed dh nick at0 he hd =
    let at32 : At bs 32 (dh ++ (length nick ∷ nick)) = At-to (omega arith) (At-skip ed at0) in
    let at64 : At bs 64 (length nick ∷ nick) = At-to (omega arith) (At-skip dh at32) in
    let at65 : At bs 65 nick = At-next at64 in
    let size : length bs ≡ 65 + length nick = At-length at65 in
    rw (
      le→ltb (length bs) 65 (omega arith),
      At-slice {E = Unit {0}} 32 ed _ at0 (omega arith),
      At-slice {E = Unit {0}} 64 dh _ at32 (omega arith),
      At-index {E = Unit {0}} at64,
      le→ltb (length bs) (65 + length nick) (omega arith),
      At-slice {E = Unit {0}} (65 + length nick) nick [] (At-end at65) refl,
    )

-- An announce is read back as it was written, if the keys have 32 bytes and the nickname is a text of
-- at most 24 bytes.
pub decode_announce-encode_announce :
    (ed dh nick : List ℕ)
    → length ed ≡ 32
    → length dh ≡ 32
    → length nick ≤ 24
    → IsText nick
    → decode_announce (encode_announce ed dh nick) ≡ ok (record { ed = ed; dh = dh; nick = nick })
unfolding encode_announce
decode_announce-encode_announce ed dh nick he hd hn text =
    let n : ℕ = min (length nick) 24 in
    let whole : n ≡ length nick = omega arith in
    let bs : List ℕ = ed ++ (dh ++ (length nick ∷ nick)) in
    ap (λ k. decode_announce (ed ++ (dh ++ (k ∷ take n nick)))) {x = n % 2 ^ 8} {y = length nick}
      (omega arith)
    ∙ ap (λ k. decode_announce (ed ++ (dh ++ (length nick ∷ take k nick)))) whole
    ∙ ap (λ l. decode_announce (ed ++ (dh ++ (length nick ∷ l)))) (take_all nick)
    ∙ read_announce bs ed dh nick (At-start bs) he hd
    ∙ ap (λ t. ok (record { ed = ed; dh = dh; nick = t })) text

module _ (z : Lz4) {F : Type 0} (cfg : Tunables F) where
  read_channel :
      (bs channel body text : List ℕ) (compressed : ℕ)
      → At bs 0 (compressed ∷ (length channel ∷ (channel ++ body)))
      → text_of z cfg compressed body ≡ ok text
      → decode_channel z cfg bs ≡ ok (from_utf8_lossy channel, from_utf8_lossy text)
  unfolding decode_channel channel_body
  read_channel bs channel body text compressed at0 reads =
      let at1 : At bs 1 (length channel ∷ (channel ++ body)) = At-next at0 in
      let at2 : At bs 2 (channel ++ body) = At-next at1 in
      let at_body : At bs (2 + length channel) body = At-skip channel at2 in
      let size : length bs ≡ 2 + length channel + length body = At-length at_body in
      rw (
        le→ltb (length bs) 2 (omega arith),
        At-index {E = Unit {0}} at0,
        At-index {E = Unit {0}} at1,
        le→ltb (length bs) (2 + length channel) (omega arith),
        At-slice {E = Unit {0}} (2 + length channel) channel body at2 refl,
        At-slice {E = Unit {0}} (length bs) body [] (At-end at_body) size,
        reads,
      )

  -- What is written before the body, of a name that is short enough.
  channel_frame : List ℕ → ℕ → List ℕ → List ℕ
  channel_frame channel flag body =
      let clen = min (length channel) 255 in flag ∷ (clen % 2 ^ 8 ∷ (take clen channel ++ body))

  channel_frame_lem :
      (channel body : List ℕ) (flag : ℕ)
      → length channel ≤ 255
      → channel_frame channel flag body ≡ flag ∷ (length channel ∷ (channel ++ body))
  unfolding channel_frame
  channel_frame_lem channel body flag small =
      let clen : ℕ = min (length channel) 255 in
      ap (λ k. flag ∷ (k ∷ (take clen channel ++ body))) {x = clen % 2 ^ 8} {y = length channel}
        (omega arith)
      ∙ ap (λ k. flag ∷ (length channel ∷ (take k channel ++ body))) {x = clen} {y = length channel}
          (omega arith)
      ∙ ap (λ l. flag ∷ (length channel ∷ (l ++ body))) (take_all channel)

  encode_packed :
      (channel text framed : List ℕ)
      → maybe_compress z text cfg ≡ some framed
      → encode_channel z cfg channel text ≡ channel_frame channel 1 framed
  unfolding encode_channel channel_frame
  encode_packed channel text framed e = rw (e, encode_channel) refl

  encode_plain :
      (channel text : List ℕ)
      → maybe_compress z text cfg ≡ none
      → encode_channel z cfg channel text ≡ channel_frame channel 0 text
  unfolding encode_channel channel_frame
  encode_plain channel text e = rw (e, encode_channel) refl

  decode_frame :
      (channel body text : List ℕ) (flag : ℕ)
      → length channel ≤ 255
      → IsText channel
      → IsText text
      → text_of z cfg flag body ≡ ok text
      → decode_channel z cfg (channel_frame channel flag body) ≡ ok (channel, text)
  decode_frame channel body text flag small name_text body_text reads =
      ap (decode_channel z cfg) (channel_frame_lem channel body flag small)
      ∙ read_channel _ channel body text flag (At-start _) reads
      ∙ ap (λ n. ok (n, from_utf8_lossy text)) name_text
      ∙ ap (λ t. ok (channel, t)) body_text

  -- A channel message is read back as it was written, compressed or not, if the channel's name is a text
  -- of at most 255 bytes and the message is a text within the cap, which fits a `u32`.
  pub decode_channel-encode_channel :
      (channel text : List ℕ)
      → length channel ≤ 255
      → IsText channel
      → IsText text
      → length text ≤ cfg.decompress_max_bytes
      → cfg.decompress_max_bytes < 2 ^ 32
      → decode_channel z cfg (encode_channel z cfg channel text) ≡ ok (channel, text)
  unfolding text_of
  decode_channel-encode_channel channel text small name_text body_text fits cap =
      elim (Option-cases (maybe_compress z text cfg)) [
        | inl plain ↦
            ap (decode_channel z cfg) (encode_plain channel text plain)
            ∙ decode_frame channel text text 0 small name_text body_text refl
        | inr (framed, packed) ↦
            let (unpacked, _) = decompress-maybe_compress z cfg text framed fits cap packed in
            ap (decode_channel z cfg) (encode_packed channel text framed packed)
            ∙ decode_frame channel framed text 1 small name_text body_text (rw unpacked refl)
      ]

abbrev pub IsDigests : List (List ℕ) → Type 0
IsDigests ds = All (λ d. length d ≡ 8) ds

length-concat : (ds : List (List ℕ)) → IsDigests ds → length (concat ds) ≡ 8 * length ds
unfolding concat
length-concat [] h = omega arith
length-concat (d ∷ ds) h = omega (arith, length-append d (concat ds), h.0, length-concat ds h.1)

chunks_concat :
    (fuel : ℕ) (ds : List (List ℕ))
    → IsDigests ds
    → length (concat ds) ≤ fuel
    → chunks_exact_fuel fuel (concat ds) ≡ ds
unfolding concat chunks_exact_fuel
chunks_concat zero [] h enough = refl
chunks_concat (suc fuel) [] h enough = ground arith
chunks_concat zero (d ∷ ds) h enough = absurd (omega (arith, length-append d (concat ds), h.0))
chunks_concat (suc fuel) (d ∷ ds) h enough =
    let sized : length (d ++ concat ds) ≡ 8 + length (concat ds) =
      omega (arith, length-append d (concat ds), h.0) in
    let front : take 8 (d ++ concat ds) ≡ d =
      subst (λ k. take k (d ++ concat ds) ≡ d) h.0 (take-length d (concat ds)) in
    let back : drop 8 (d ++ concat ds) ≡ concat ds =
      subst (λ k. drop k (d ++ concat ds) ≡ concat ds) h.0 (drop-length d (concat ds)) in
    rw (le→ltb (length (d ++ concat ds)) 8 (omega arith), front, back)
      (ap (λ l. d ∷ l) (chunks_concat fuel ds h.1 (omega arith)))

read_sync :
    (bs channel rest : List ℕ)
    → At bs 0 (length channel ∷ (channel ++ rest))
    → decode_sync bs ≡ ok (new (from_utf8_lossy channel) (chunks_exact rest))
unfolding decode_sync sync_digests
read_sync bs channel rest at0 =
    let at1 : At bs 1 (channel ++ rest) = At-next at0 in
    let at_rest : At bs (1 + length channel) rest = At-skip channel at1 in
    let size : length bs ≡ 1 + length channel + length rest = At-length at_rest in
    let nonempty : length bs == 0 ≡ false = ground (arith, size) in
    rw (
      nonempty,
      At-index {E = Unit {0}} at0,
      le→ltb (length bs) (1 + length channel) (omega arith),
      At-slice {E = Unit {0}} (1 + length channel) channel rest at1 refl,
      At-slice {E = Unit {0}} (length bs) rest [] (At-end at_rest) size,
    )

-- A sync request is read back as the filter of its digests, if the channel's name is a text of at most
-- 255 bytes and each digest has 8 bytes.
pub decode_sync-encode_sync :
    (filter : SyncFilter)
    → length filter.channel ≤ 255
    → IsText filter.channel
    → IsDigests filter.digests
    → decode_sync (encode_sync filter) ≡ ok (new filter.channel filter.digests)
unfolding encode_sync chunks_exact
decode_sync-encode_sync filter small name_text sized =
    let channel : List ℕ = filter.channel in
    let rest : List ℕ = concat filter.digests in
    let clen : ℕ = min (length channel) 255 in
    ap (λ k. decode_sync (k ∷ (take clen channel ++ rest))) {x = clen % 2 ^ 8} {y = length channel}
      (omega arith)
    ∙ ap (λ k. decode_sync (length channel ∷ (take k channel ++ rest))) {x = clen}
        {y = length channel} (omega arith)
    ∙ ap (λ l. decode_sync (length channel ∷ (l ++ rest))) (take_all channel)
    ∙ read_sync _ channel rest (At-start _)
    ∙ ap (λ n. ok (new n (chunks_exact rest))) name_text
    ∙ ap (λ ds. ok (new channel ds))
        (chunks_concat (length rest) filter.digests sized (omega arith))
