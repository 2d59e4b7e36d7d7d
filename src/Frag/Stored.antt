-- ===== src/Frag/Stored.antt =====
-- What each step of accepting a fragment keeps: the bounds of the reassembler, and no panic.
use cockroach_chat.Prelude.{
  ℕ, ◌+◌, ◌≤◌, ◌<◌, ◌≡◌, sym, subst, ◌∙◌, inl, inr, none, some, arith, length, max, leb, ltb, ◌==◌,
  ==_iff, leb→lt, ltb→le, Bool-cases, Option-cases, ok, err, panic, dec_lt,
}
use cockroach_chat.OrdMap.{Map, get, insert}
use cockroach_chat.OrdMap.Keys.{bytes_ord}
use cockroach_chat.OrdMap.Laws.{length-insert, length-remove_le, contains_key-get}
use cockroach_chat.OrdMap.Sorted.{IsSorted, insert-IsSorted, remove-IsSorted, length-insert_known}
use cockroach_chat.OrdMap.Every.{Every, Every-insert, Every-remove, Every-evict_oldest}
use cockroach_chat.OrdMap.Oldest.{
  evict_oldest, length-evict_oldest_lt, length-evict_oldest_le, evict_oldest-IsSorted,
}
use cockroach_chat.Frag.{
  Digest, Partial, Reassembler, Fragment, Reply, part_at, add_chunk, make_room, finish, store_chunk,
}
use cockroach_chat.Frag.Slots.{
  IsPartial, part_at-cases, add_chunk-counts, join-total, count_some, sum_some,
}

-- At most as many messages as there are slots (a new message needs one), each within its bounds.
pub record IsValid {F : Type 0} (r : Reassembler F) : Type 0 where
  pub bounded : length r.slots ≤ max r.cfg.reassembly_slots 1
  pub sorted : IsSorted r.slots
  pub partial : Every (IsPartial r.cfg.reassembly_max_bytes) r.slots

-- A reply that is no panic, and whose message is at most `bound` bytes long.
abbrev pub IsSafe : ℕ → Reply → Type 0
IsSafe bound (ok none) = Unit
IsSafe bound (ok (some out)) = length out ≤ bound
IsSafe bound (err e) = Unit
IsSafe bound panic = ⊥

module _ {F : Type 0} (r : Reassembler F) where
  abbrev pub cap : ℕ
  cap = r.cfg.reassembly_max_bytes

  abbrev pub slot_limit : ℕ
  slot_limit = max r.cfg.reassembly_slots 1

  -- What `finish` needs of the message that it is given.
  record IsStored (p : Partial) : Type 0 where
    within : p.received ≤ p.total
    sized : length p.parts ≡ p.total
    counted : count_some p.parts ≡ p.received
    summed : sum_some p.parts ≡ p.bytes
    capped : p.bytes ≤ cap

  finish-IsSafe :
      (slots : Map Digest Partial) (d : Digest) (p : Partial)
      → length (insert d p slots) ≤ slot_limit
      → length slots ≤ slot_limit
      → IsSorted slots
      → Every (IsPartial cap) slots
      → IsStored p
      → IsValid (finish r slots d p).0 × IsSafe cap (finish r slots d p).1
  unfolding finish
  finish-IsSafe slots d p room size sorted every v = elim (Bool-cases (p.received == p.total)) [
    | inl complete ↦
        let all : p.received ≡ p.total = (==_iff p.received p.total).0 complete in
        let (out, e, length_out) = join-total p.parts (v.counted ∙ all ∙ sym v.sized) in
        rw (complete, e)
          (
            record {
              bounded = omega (arith, length-remove_le d slots);
              sorted = remove-IsSorted d slots sorted;
              partial = Every-remove (IsPartial cap) d slots every;
            },
            omega (arith, v.summed, v.capped),
          )
    | inr lacking ↦ rw lacking (
      record {
        bounded = room;
        sorted = insert-IsSorted d p slots sorted;
        partial =
            Every-insert (IsPartial cap) d p slots
              (record {
                lacking = ground (arith, lacking, v.within);
                sized = v.sized;
                counted = v.counted;
                summed = v.summed;
                capped = v.capped;
              })
              every;
      },
      tt,
    )
  ]

  -- What `store_chunk` is called with: a partial message that its slot will hold.
  pub store_chunk-IsSafe :
      (slots : Map Digest Partial) (f : Fragment) (p : Partial)
      → ((q : Partial) → length (insert f.digest q slots) ≤ slot_limit)
      → length slots ≤ slot_limit
      → IsSorted slots
      → Every (IsPartial cap) slots
      → IsPartial cap p
      → f.position < p.total
      → IsValid (store_chunk r slots f p (part_at p.parts f.position)).0
        × IsSafe cap (store_chunk r slots f p (part_at p.parts f.position)).1
  unfolding store_chunk
  store_chunk-IsSafe slots f p room size sorted every v inside =
      elim (part_at-cases p.parts f.position (omega (arith, v.sized, inside))) [
        | inr (c, e) ↦ rw e (
            finish-IsSafe slots f.digest p (room p) size sorted every (record {
              within = omega (arith, v.lacking);
              sized = v.sized;
              counted = v.counted;
              summed = v.summed;
              capped = v.capped;
            }))
        | inl e ↦ elim (Bool-cases (ltb cap (p.bytes + length f.chunk))) [
          | inl large ↦
              rw (e, large)
                (
                  record {
                    bounded = omega (arith, length-remove_le f.digest slots);
                    sorted = remove-IsSorted f.digest slots sorted;
                    partial = Every-remove (IsPartial cap) f.digest slots every;
                  },
                  tt,
                )
          | inr small ↦
              rw (e, small)
                (let fits = ltb→le cap (p.bytes + length f.chunk) small in
                  let (a, b, c, d, g) = add_chunk-counts cap p f.position f.chunk v e fits in
                  finish-IsSafe slots f.digest (add_chunk p f.position f.chunk) (room _) size sorted
                    every (record { within = a; sized = b; counted = c; summed = d; capped = g }))
        ]
      ]

  -- Room for one more message, or the message's own slot.
  pub record HasRoom (d : Digest) (slots : Map Digest Partial) : Type 0 where
    pub room : (q : Partial) → length (insert d q slots) ≤ slot_limit
    pub size : length slots ≤ slot_limit
    pub sorted : IsSorted slots
    pub every : Every (IsPartial cap) slots

  evicted : (d : Digest) → IsValid r → HasRoom d (evict_oldest (λ p. p.first_seen_ms) r.slots)
  evicted d v = record {
    room = λ q. elim (dec_lt 0 (length r.slots)) [
      | yes h ↦ omega (
        arith,
        length-insert d q (evict_oldest (λ (p : Partial). p.first_seen_ms) r.slots),
        length-evict_oldest_lt (λ (p : Partial). p.first_seen_ms) r.slots h,
        v.bounded,
      )
      | no h ↦ omega (
        arith,
        length-insert d q (evict_oldest (λ (p : Partial). p.first_seen_ms) r.slots),
        length-evict_oldest_le (λ (p : Partial). p.first_seen_ms) r.slots,
      )
    ];
    size =
        omega (arith, length-evict_oldest_le (λ (p : Partial). p.first_seen_ms) r.slots, v.bounded);
    sorted = evict_oldest-IsSorted (λ p. p.first_seen_ms) r.slots v.sorted;
    every = Every-evict_oldest (IsPartial cap) (λ p. p.first_seen_ms) r.slots v.partial;
  }

  pub make_room-HasRoom : (d : Digest) → IsValid r → HasRoom d (make_room r d)
  unfolding make_room
  make_room-HasRoom d v = elim (Option-cases (get d r.slots)) [
    | inr (p, known) ↦
        rw (contains_key-get d r.slots, known)
          (record {
            room = λ q.
                subst (λ n. n ≤ slot_limit) (sym (length-insert_known d q r.slots v.sorted known))
                  v.bounded;
            size = v.bounded;
            sorted = v.sorted;
            every = v.partial;
          })
    | inl unknown ↦
        rw (contains_key-get d r.slots, unknown)
          (elim (Bool-cases (leb r.cfg.reassembly_slots (length r.slots))) [
            | inl full ↦ rw full (evicted d v)
            | inr free ↦ rw free (record {
              room = λ q. omega (
                arith,
                length-insert d q r.slots,
                leb→lt r.cfg.reassembly_slots (length r.slots) free,
              );
              size = v.bounded;
              sorted = v.sorted;
              every = v.partial;
            })
          ])
  ]
