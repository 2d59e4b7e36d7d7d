-- ===== src/Frag/Roundtrip.antt =====
-- A receiver that gets the frames of a packet in order gets the packet.
use cockroach_chat.Prelude.{
  ℕ, suc, ◌+◌, ◌-◌, ◌^◌, ◌≤◌, ◌<◌, ◌≡◌, refl, sym, ap, subst, ◌∙◌, inl, inr, true, false, none,
  some, List, [], ◌∷◌, ◌++◌, arith, length, leb, lt→leb, le→ltb, ◌==◌, ==_refl, length-append, ok,
}
use cockroach_chat.Clock.{Millis}
use cockroach_chat.Config.{Tunables}
use cockroach_chat.OrdMap.{Map, get, contains_key, insert, remove}
use cockroach_chat.OrdMap.Keys.{bytes_ord}
use cockroach_chat.OrdMap.Oldest.{evict_oldest}
use cockroach_chat.Frag.{
  Digest, Partial, Reassembler, Reply, Fragment, chunks_fuel, chunks, div_ceil, fragment, fragments,
  split, new, ingest, ingest_fragment, accept_parsed, accept, make_room, entry_of, store_chunk,
  finish, fresh,
}
use cockroach_chat.Frag.Split.{concat, concat-chunks_fuel, split_outcome, length-fragment}
use cockroach_chat.Frag.Progress.{
  length-chunks_fuel, filled, so_far, part_at-filled, join-filled, add_chunk-so_far, concat-append,
  parse_fragment-fragment,
}

unfoldable pub out_of : Reply → List (List ℕ)
out_of (ok (some out)) = out ∷ []
out_of _ = []

-- The packets that come out of a row of frames, which arrive at the same time.
unfoldable pub packets : {F : Type 0} → Reassembler F → List (List ℕ) → Millis → List (List ℕ)
unfolding out_of
packets r [] now = []
packets r (f ∷ fs) now = let (r', reply) = ingest r f now in out_of reply ++ packets r' fs now

concat_nil : length (concat []) ≡ 0
unfolding concat
concat_nil = refl

append_assoc3 : (a b c : List (List ℕ)) → (a ++ b) ++ c ≡ a ++ (b ++ c)
append_assoc3 [] b c = refl
append_assoc3 (x ∷ a) b c = ap (λ l. x ∷ l) (append_assoc3 a b c)

module _ {F : Type 0} (cfg : Tunables F) (d : Digest) (total : ℕ) (now : Millis) where
  abbrev holding : Map Digest Partial → Reassembler F
  holding slots = record { slots = slots; cfg = cfg }

  abbrev piece : ℕ → List ℕ → Fragment
  piece i c = record { digest = d; position = i; total = total; chunk = c }

  -- The slots of a reassembler that waits for the next chunk, and for no other message.
  record IsReady (slots : Map Digest Partial) (done : List (List ℕ)) (k : ℕ) : Type 0 where
    roomy : make_room (holding slots) d ≡ slots
    entry : (i : ℕ) (c : List ℕ) → entry_of slots (piece i c) now ≡ so_far total now done k
    alone : (p : Partial) → insert d p slots ≡ (d, p) ∷ []
    emptied : remove d slots ≡ []

  IsReady-first : IsReady [] [] total
  unfolding make_room entry_of fresh filled get insert remove contains_key concat evict_oldest
  IsReady-first = record {
    roomy = ground arith;
    entry = λ i c. refl;
    alone = λ p. refl;
    emptied = refl;
  }

  IsReady-next : (done : List (List ℕ)) (k : ℕ) → IsReady ((d, so_far total now done k) ∷ []) done k
  unfolding make_room entry_of get insert remove contains_key
  IsReady-next done k = record {
    roomy = rw (bytes_ord.cmp_refl d) refl;
    entry = λ i c. rw (bytes_ord.cmp_refl d) refl;
    alone = λ p. rw (bytes_ord.cmp_refl d, insert) refl;
    emptied = rw (bytes_ord.cmp_refl d) refl;
  }

  accept-piece :
      (slots : Map Digest Partial) (done : List (List ℕ)) (k : ℕ) (c : List ℕ)
      → IsReady slots done (suc k)
      → total ≡ length done + suc k
      → length (concat done) + length c ≤ cfg.reassembly_max_bytes
      → accept (holding slots) (piece (length done) c) now
        ≡ finish (holding slots) slots d (so_far total now (done ++ (c ∷ [])) k)
  unfolding accept store_chunk
  accept-piece slots done k c v size fits =
      let positive : (total == 0) ≡ false = ground (arith, size) in
      let before : leb total (length done) ≡ false = lt→leb total (length done) (omega arith) in
      rw
        (
          positive,
          before,
          v.roomy,
          v.entry (length done) c,
          ==_refl total,
          part_at-filled done k,
          le→ltb cfg.reassembly_max_bytes (length (concat done) + length c) fits,
        )
        (ap (finish (holding slots) slots d) (add_chunk-so_far total now done k c))

  ingest-piece :
      (slots : Map Digest Partial) (i : ℕ) (c : List ℕ)
      → length d ≡ 8
      → i < 2 ^ 16
      → total < 2 ^ 16
      → ingest (holding slots) (fragment d i total c) now ≡ accept (holding slots) (piece i c) now
  unfolding ingest ingest_fragment accept_parsed fragment
  ingest-piece slots i c hd hi ht = rw (
    le→ltb (length (fragment d i total c)) 13 (omega (arith, length-fragment d i total c hd)),
    parse_fragment-fragment d i total c hd hi ht,
  )

  finish_last :
      (slots : Map Digest Partial) (done : List (List ℕ))
      → remove d slots ≡ []
      → length done ≡ total
      → finish (holding slots) slots d (so_far total now done 0)
        ≡ (holding [], ok (some (concat done)))
  unfolding finish
  finish_last slots done emptied size =
      let complete : (length done == total) ≡ true = ground (arith, size) in
      rw (complete, emptied, join-filled done)

  finish_more :
      (slots : Map Digest Partial) (done : List (List ℕ)) (k : ℕ)
      → ((p : Partial) → insert d p slots ≡ (d, p) ∷ [])
      → total ≡ length done + suc k
      → finish (holding slots) slots d (so_far total now done (suc k))
        ≡ (holding ((d, so_far total now done (suc k)) ∷ []), ok none)
  unfolding finish
  finish_more slots done k alone size =
      let partial : (length done == total) ≡ false = ground (arith, size) in
      rw (partial, alone (so_far total now done (suc k)))

  packets-fragments :
      (c : List ℕ) (cs done : List (List ℕ)) (slots : Map Digest Partial)
      → IsReady slots done (suc (length cs))
      → total ≡ length done + suc (length cs)
      → length d ≡ 8
      → total < 2 ^ 16
      → length (concat done) + length (concat (c ∷ cs)) ≤ cfg.reassembly_max_bytes
      → packets (holding slots) (fragments d total (length done) (c ∷ cs)) now
        ≡ concat (done ++ (c ∷ cs)) ∷ []
  unfolding packets fragments concat
  packets-fragments c [] done slots v size hd ht fits =
      let taken : ingest (holding slots) (fragment d (length done) total c) now
          ≡ (holding [], ok (some (concat (done ++ (c ∷ []))))) =
        ingest-piece slots (length done) c hd (omega arith) ht
        ∙ accept-piece slots done 0 c v size (omega (arith, length-append c []))
        ∙ finish_last slots (done ++ (c ∷ [])) v.emptied
            (omega (arith, length-append done (c ∷ []))) in
      ap (λ r. out_of r.1 ++ packets r.0 [] now) taken
  packets-fragments c (c' ∷ cs) done slots v size hd ht fits =
      let done' : List (List ℕ) = done ++ (c ∷ []) in
      let counted : length done' ≡ length done + 1 = length-append done (c ∷ []) in
      let k : ℕ = length cs in
      let next : Map Digest Partial = (d, so_far total now done' (suc k)) ∷ [] in
      let size' : total ≡ length done' + suc k = omega arith in
      let taken : ingest (holding slots) (fragment d (length done) total c) now
          ≡ (holding next, ok none) =
        ingest-piece slots (length done) c hd (omega arith) ht
        ∙ accept-piece slots done (suc k) c v size
            (omega (arith, length-append c (concat (c' ∷ cs))))
        ∙ finish_more slots done' k v.alone size' in
      ap (λ r. out_of r.1 ++ packets r.0 (fragments d total (length done + 1) (c' ∷ cs)) now) taken
      ∙ ap (λ i. packets (holding next) (fragments d total i (c' ∷ cs)) now) (sym counted)
      ∙ packets-fragments c' cs done' next (IsReady-next done' (suc k)) size' hd ht (
          omega (
            arith,
            length-append c (concat (c' ∷ cs)),
            concat-append done (c ∷ []),
            length-append c [],
          ))
      ∙ ap (λ l. concat l ∷ []) (append_assoc3 done (c ∷ []) (c' ∷ cs))

-- A receiver with no message in flight that gets the frames of a packet in order, all at one time, gives
-- out exactly that packet, once, if the packet is within its cap on bytes and the digest has 8 bytes. This
-- holds for every number of fragments that the packet can be split into; no cap of 16 fragments, which
-- docs/protocol.md and docs/threat-model.md name, is applied.
pub packets-split :
    {F : Type 0} (cfg : Tunables F) (bytes : List ℕ) (d : Digest) (mtu : ℕ) (frames : List (List ℕ))
    (now : Millis)
    → length d ≡ 8
    → length bytes ≤ cfg.reassembly_max_bytes
    → split bytes d mtu ≡ ok frames
    → packets (new cfg) frames now ≡ bytes ∷ []
unfolding packets ingest new chunks
packets-split cfg bytes d mtu frames now hd fits e =
    let (room, cases) = split_outcome bytes d mtu frames e in
    elim cases [
      | inl (short, one) ↦ ap (λ fs. packets (new cfg) fs now) one
      | inr (long, few, many) ↦
          let n : ℕ = mtu - 13 in
          let cs : List (List ℕ) = chunks_fuel (length bytes) n bytes in
          ap (λ fs. packets (new cfg) fs now) many
          ∙ whole (div_ceil (length bytes) n) cs (omega arith)
              (length-chunks_fuel (length bytes) n bytes (omega arith) (omega arith))
              (concat-chunks_fuel (length bytes) n bytes (omega arith) (omega arith)) (omega arith)
    ]
  where
    whole :
        (total : ℕ) (cs : List (List ℕ))
        → total < 2 ^ 16
        → length cs ≡ total
        → concat cs ≡ bytes
        → 0 < length bytes
        → packets (new cfg) (fragments d total 0 cs) now ≡ bytes ∷ []
    whole total [] ht size all some_byte =
        absurd (omega (arith, ap (λ l. length l) all, concat_nil))
    whole total (c ∷ cs) ht size all some_byte =
        packets-fragments cfg d total now c cs [] []
          (subst (IsReady cfg d total now [] []) (sym size) (IsReady-first cfg d total now))
          (omega (arith, size)) hd ht (omega (arith, ap (λ l. length l) all, concat_nil))
        ∙ ap (λ l. l ∷ []) all
