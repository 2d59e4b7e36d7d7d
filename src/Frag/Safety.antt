-- ===== src/Frag/Safety.antt =====
-- The reassembler is bounded whatever arrives, and never panics.
use cockroach_chat.Prelude.{
  ℕ, ◌+◌, ◌-◌, ◌≤◌, ◌<◌, ◌≡◌, inl, inr, Bool, ◌||◌, none, some, List, [], ◌∷◌, arith, length, max,
  leb, ltb, ◌==◌, ltb→le, index_in, slice_in, drop, take, get_or, Bool-cases, Option-cases, ok, err,
  panic, length-retain,
}
use cockroach_chat.Prelude.Bytes.{from_be}
use cockroach_chat.Error.{FragError}
use cockroach_chat.Clock.{Millis}
use cockroach_chat.OrdMap.{Map, get}
use cockroach_chat.OrdMap.Keys.{bytes_ord}
use cockroach_chat.OrdMap.Laws.{length-remove_le}
use cockroach_chat.OrdMap.Sorted.{remove-IsSorted, retain-IsSorted}
use cockroach_chat.OrdMap.Every.{Every, Every-get, Every-remove, Every-retain}
use cockroach_chat.Frag.{
  Digest, Partial, Reassembler, Fragment, Reply, parse_fragment, make_room, entry_of, accept,
  accept_parsed, ingest_fragment, ingest, evict_expired, frag_header, kind_complete, kind_fragment,
}
use cockroach_chat.Frag.Slots.{IsPartial, fresh-IsPartial}
use cockroach_chat.Frag.Stored.{IsValid, IsSafe, cap, make_room-HasRoom, store_chunk-IsSafe}

module _ {F : Type 0} (r : Reassembler F) where
  entry_of-IsPartial :
      (slots : Map Digest Partial) (f : Fragment) (now : Millis)
      → Every (IsPartial (cap r)) slots
      → 0 < f.total
      → IsPartial (cap r) (entry_of slots f now)
  unfolding entry_of
  entry_of-IsPartial slots f now every h = elim (Option-cases (get f.digest slots)) [
    | inl e ↦ rw (e, entry_of) (fresh-IsPartial (cap r) f.total now h)
    | inr (p, e) ↦ rw (e, entry_of) (Every-get (IsPartial (cap r)) f.digest slots every e)
  ]

  accept-IsSafe :
      (f : Fragment) (now : Millis)
      → IsValid r
      → IsValid (accept r f now).0 × IsSafe (cap r) (accept r f now).1
  unfolding accept
  accept-IsSafe f now v = elim (Bool-cases (f.total == 0 || leb f.total f.position)) [
    | inl bad ↦ rw bad (v, tt)
    | inr good ↦
        let slots : Map Digest Partial = make_room r f.digest in
        let room = make_room-HasRoom r f.digest v in
        let p : Partial = entry_of slots f now in
        let is_partial = entry_of-IsPartial slots f now room.every (ground (arith, good)) in
        elim (Bool-cases (p.total == f.total)) [
          | inl same ↦
              rw (good, same)
                (store_chunk-IsSafe r slots f p room.room room.size room.sorted room.every
                  is_partial (ground (arith, good, same)))
          | inr other ↦
              rw (good, other)
                (
                  record {
                    bounded = omega (arith, length-remove_le f.digest slots, room.size);
                    sorted = remove-IsSorted f.digest slots room.sorted;
                    partial = Every-remove (IsPartial (cap r)) f.digest slots room.every;
                  },
                  tt,
                )
        ]
  ]

abbrev parsed : List ℕ → Fragment
parsed frame = record {
  digest = take 8 (drop 1 frame);
  position = from_be (get_or frame 9 0 ∷ get_or frame 10 0 ∷ []);
  total = from_be (get_or frame 11 0 ∷ get_or frame 12 0 ∷ []);
  chunk = take (length frame - 13) (drop 13 frame);
}

-- The header of a long enough frame is read without a panic.
parse_fragment-long :
    (frame : List ℕ) → frag_header ≤ length frame → parse_fragment frame ≡ ok (parsed frame)
unfolding parse_fragment
parse_fragment-long frame h = rw (
  slice_in {E = FragError} frame 1 9 (omega arith) (omega arith),
  index_in {E = FragError} frame 9 (omega arith),
  index_in {E = FragError} frame 10 (omega arith),
  index_in {E = FragError} frame 11 (omega arith),
  index_in {E = FragError} frame 12 (omega arith),
  slice_in {E = FragError} frame 13 (length frame) h (omega arith),
)

module _ {F : Type 0} (r : Reassembler F) where
  ingest_fragment-IsSafe :
      (frame : List ℕ) (now : Millis)
      → IsValid r
      → IsValid (ingest_fragment r frame now).0 × IsSafe (cap r) (ingest_fragment r frame now).1
  unfolding ingest_fragment accept_parsed
  ingest_fragment-IsSafe frame now v = elim (Bool-cases (ltb (length frame) frag_header)) [
    | inl few ↦ rw few (v, tt)
    | inr enough ↦
        rw (enough, parse_fragment-long frame (ltb→le (length frame) 13 enough))
          (accept-IsSafe r (parsed frame) now v)
  ]

  IsSafe-weaken : (n m : ℕ) (reply : Reply) → n ≤ m → IsSafe n reply → IsSafe m reply
  IsSafe-weaken n m (ok none) h s = tt
  IsSafe-weaken n m (ok (some out)) h s = omega arith
  IsSafe-weaken n m (err e) h s = tt
  IsSafe-weaken n m panic h s = s

  -- Of a reassembler within its bounds, whatever bytes a frame holds and whenever it comes,
  -- ingesting it does not panic, leaves at most the configured number of messages in flight (one,
  -- if that is zero), each within the configured number of bytes and with exact counters, and
  -- returns no message longer than that number of bytes or than the frame itself.
  pub ingest-IsSafe :
      (frame : List ℕ) (now : Millis)
      → IsValid r
      → IsValid (ingest r frame now).0
        × IsSafe (max r.cfg.reassembly_max_bytes (length frame)) (ingest r frame now).1
  unfolding ingest
  ingest-IsSafe [] now v = (v, tt)
  ingest-IsSafe (kind ∷ rest) now v = elim (Bool-cases (kind == kind_complete)) [
    | inl whole ↦ rw whole (v, omega arith)
    | inr part ↦ elim (Bool-cases (kind == kind_fragment)) [
      | inl fragment ↦
          let (valid, safe) = ingest_fragment-IsSafe (kind ∷ rest) now v in
          rw (part, fragment) (valid, IsSafe-weaken _ _ _ (omega arith) safe)
      | inr unknown_kind ↦ rw (part, unknown_kind) (v, tt)
    ]
  ]

  -- Expiry keeps a reassembler within its bounds and returns how many messages it dropped.
  pub evict_expired_safe :
      (now : Millis)
      → IsValid r
      → IsValid (evict_expired r now).0
        × ((evict_expired r now).1 + length (evict_expired r now).0.slots ≡ length r.slots)
  unfolding evict_expired
  evict_expired_safe now v =
      let keeps : Digest × Partial → Bool =
        λ e. ltb (now - e.1.first_seen_ms) r.cfg.reassembly_timeout_ms in
      (
        record {
          bounded = omega (arith, length-retain keeps r.slots, v.bounded);
          sorted = retain-IsSorted keeps r.slots v.sorted;
          partial = Every-retain (IsPartial (cap r)) keeps r.slots v.partial;
        },
        omega (arith, length-retain keeps r.slots),
      )
