-- ===== src/Frag.antt =====
-- crates/meshcore/src/frag.rs: splitting a packet's bytes into frames, and reassembling them.
-- An operation on the reassembler returns its new state and its result, errors included; an index or
-- an `unwrap` that fails is the outcome `panic`.
pub mod Slots
pub mod Stored
pub mod Safety
pub mod Split
pub mod Progress
pub mod Roundtrip
mod Tests
use cockroach_chat.Prelude.{
  ℕ, zero, suc, ◌+◌, ◌-◌, ◌*◌, ◌/◌, ◌%◌, ◌^◌, Bool, true, false, not, ◌&&◌, ◌||◌, Option, none,
  some, List, [], ◌∷◌, ◌++◌, length, ltb, leb, ◌==◌, if◌then◌else◌, retain, replicate, set, take,
  drop, Outcome, ok, err, panic, ◌>>=◌, index, slice, is_some, map,
}
use cockroach_chat.Prelude.Bytes.{to_be, from_be}
use cockroach_chat.Clock.{Millis}
use cockroach_chat.Config.{Tunables}
use cockroach_chat.Error.{FragError, mtu_too_small, bad_index, too_large}
use cockroach_chat.OrdMap.{Map, get, contains_key, insert, remove}
use cockroach_chat.OrdMap.Keys.{bytes_ord}
use cockroach_chat.OrdMap.Oldest.{evict_oldest}

abbrev pub Digest : Type 0
Digest = List ℕ

abbrev pub kind_complete : ℕ
kind_complete = 0x01

abbrev pub kind_fragment : ℕ
kind_fragment = 0x02

abbrev pub frag_header : ℕ
frag_header = 13

-- `chunks(n)`; a buffer of `fuel` bytes has at most `fuel` chunks.
pub chunks_fuel : ℕ → ℕ → List ℕ → List (List ℕ)
chunks_fuel zero n bytes = []
chunks_fuel (suc fuel) n [] = []
chunks_fuel (suc fuel) n (b ∷ bytes) = take n (b ∷ bytes) ∷ chunks_fuel fuel n (drop n (b ∷ bytes))

pub chunks : ℕ → List ℕ → List (List ℕ)
unfolding chunks_fuel
chunks n bytes = chunks_fuel (length bytes) n bytes

-- `a.div_ceil(b)`
abbrev pub div_ceil : ℕ → ℕ → ℕ
div_ceil a b = (a + b - 1) / b

pub fragment : Digest → ℕ → ℕ → List ℕ → List ℕ
fragment digest i total chunk =
    kind_fragment ∷ (digest ++ (to_be 2 (i % 2 ^ 16) ++ (to_be 2 (total % 2 ^ 16) ++ chunk)))

pub fragments : Digest → ℕ → ℕ → List (List ℕ) → List (List ℕ)
unfolding fragment
fragments digest total i [] = []
fragments digest total i (c ∷ cs) = fragment digest i total c ∷ fragments digest total (i + 1) cs

unfoldable pub split : List ℕ → Digest → ℕ → Outcome FragError (List (List ℕ))
unfolding fragments chunks
split packet_bytes digest mtu =
    if leb mtu frag_header
    then err (mtu_too_small mtu)
    else if ltb (length packet_bytes) mtu
    then ok ((kind_complete ∷ packet_bytes) ∷ [])
    else (let chunk_size = mtu - frag_header in
        let total = div_ceil (length packet_bytes) chunk_size in
        if ltb 65535 total
        then err (too_large (chunk_size * 65535))
        else ok (fragments digest total 0 (chunks chunk_size packet_bytes)))

pub record Partial : Type 0 where
  pub total : ℕ
  pub received : ℕ
  pub parts : List (Option (List ℕ))
  pub bytes : ℕ
  pub first_seen_ms : Millis

pub record Reassembler (F : Type 0) : Type 0 where
  pub slots : Map Digest Partial
  pub cfg : Tunables F

abbrev pub Reply : Type 0
Reply = Outcome FragError (Option (List ℕ))

pub record Fragment : Type 0 where
  pub digest : Digest
  pub position : ℕ
  pub total : ℕ
  pub chunk : List ℕ

pub parse_fragment : List ℕ → Outcome FragError Fragment
parse_fragment frame = do
  digest ← slice frame 1 9
  i_hi ← index frame 9
  i_lo ← index frame 10
  t_hi ← index frame 11
  t_lo ← index frame 12
  chunk ← slice frame frag_header (length frame)
  ok (record {
    digest = digest;
    position = from_be (i_hi ∷ i_lo ∷ []);
    total = from_be (t_hi ∷ t_lo ∷ []);
    chunk = chunk;
  })

pub fresh : ℕ → Millis → Partial
fresh total now = record {
  total = total;
  received = 0;
  parts = replicate total none;
  bytes = 0;
  first_seen_ms = now;
}

-- `slot = &mut entry.chunks[index]`
pub part_at : List (Option (List ℕ)) → ℕ → Outcome FragError (Option (List ℕ))
part_at [] i = panic
part_at (p ∷ ps) zero = ok p
part_at (p ∷ ps) (suc i) = part_at ps i

-- The chunks in order, each of which must be there.
pub join : List (Option (List ℕ)) → Outcome FragError (List ℕ)
join [] = ok []
join (none ∷ ps) = panic
join (some c ∷ ps) = join ps >>= λ rest. ok (c ++ rest)

pub add_chunk : Partial → ℕ → List ℕ → Partial
add_chunk p i chunk = record p {
  received = p.received + 1;
  parts = set p.parts i (some chunk);
  bytes = p.bytes + length chunk;
}

-- `entry(digest).or_insert_with(…)`
pub entry_of : Map Digest Partial → Fragment → Millis → Partial
unfolding fresh
entry_of slots f now = elim (get f.digest slots) [ some p ↦ p | none ↦ fresh f.total now ]

module _ {F : Type 0} where
  unfoldable pub new : Tunables F → Reassembler F
  new cfg = record { slots = []; cfg = cfg }

  pub in_flight : Reassembler F → ℕ
  in_flight r = length r.slots

  -- The slots with room for a new message.
  pub make_room : Reassembler F → Digest → Map Digest Partial
  make_room r digest =
      if not (contains_key digest r.slots) && leb r.cfg.reassembly_slots (length r.slots)
      then evict_oldest (λ p. p.first_seen_ms) r.slots
      else r.slots

  -- The message is complete, or its slot is kept.
  pub finish : Reassembler F → Map Digest Partial → Digest → Partial → Reassembler F × Reply
  unfolding join
  finish r slots digest p =
      if p.received == p.total
      then (record r { slots = remove digest slots }, join p.parts >>= λ out. ok (some out))
      else (record r { slots = insert digest p slots }, ok none)

  pub store_chunk :
      Reassembler F
      → Map Digest Partial
      → Fragment
      → Partial
      → Outcome FragError (Option (List ℕ))
      → Reassembler F × Reply
  unfolding finish add_chunk
  store_chunk r slots f p panic = (record r { slots = insert f.digest p slots }, panic)
  store_chunk r slots f p (err e) = (record r { slots = insert f.digest p slots }, err e)
  store_chunk r slots f p (ok (some c)) = finish r slots f.digest p
  store_chunk r slots f p (ok none) =
      if ltb r.cfg.reassembly_max_bytes (p.bytes + length f.chunk)
      then (record r { slots = remove f.digest slots }, err (too_large r.cfg.reassembly_max_bytes))
      else finish r slots f.digest (add_chunk p f.position f.chunk)

  pub accept : Reassembler F → Fragment → Millis → Reassembler F × Reply
  unfolding make_room entry_of store_chunk part_at
  accept r f now =
      if f.total == 0 || leb f.total f.position
      then (r, err (bad_index f.position f.total))
      else (let slots = make_room r f.digest in
          let p = entry_of slots f now in
          if p.total == f.total
          then store_chunk r slots f p (part_at p.parts f.position)
          else (record r { slots = remove f.digest slots }, err (bad_index f.position f.total)))

  pub accept_parsed : Reassembler F → Outcome FragError Fragment → Millis → Reassembler F × Reply
  unfolding accept
  accept_parsed r (ok f) now = accept r f now
  accept_parsed r (err e) now = (r, err e)
  accept_parsed r panic now = (r, panic)

  pub ingest_fragment : Reassembler F → List ℕ → Millis → Reassembler F × Reply
  unfolding accept_parsed parse_fragment
  ingest_fragment r frame now =
      if ltb (length frame) frag_header
      then (r, ok none)
      else accept_parsed r (parse_fragment frame) now

  pub ingest : Reassembler F → List ℕ → Millis → Reassembler F × Reply
  unfolding ingest_fragment
  ingest r [] now = (r, ok none)
  ingest r (kind ∷ rest) now =
      if kind == kind_complete
      then (r, ok (some rest))
      else if kind == kind_fragment
      then ingest_fragment r (kind ∷ rest) now
      else (r, ok none)

  pub evict_expired : Reassembler F → Millis → Reassembler F × ℕ
  evict_expired r now =
      let kept = retain (λ e. ltb (now - e.1.first_seen_ms) r.cfg.reassembly_timeout_ms) r.slots in
      (record r { slots = kept }, length r.slots - length kept)
