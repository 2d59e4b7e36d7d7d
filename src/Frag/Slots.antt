-- ===== src/Frag/Slots.antt =====
-- What a partly reassembled message counts: its chunks and their bytes.
use cockroach_chat.Prelude.{
  ℕ, zero, suc, ◌+◌, ◌≤◌, ◌<◌, ◌≡◌, refl, ◌∙◌, ◌⊎◌, inl, inr, Option, none, some, List, [], ◌∷◌,
  ◌++◌, arith, length, length-append, length-replicate, replicate, set, ok, length-set,
}
use cockroach_chat.Clock.{Millis}
use cockroach_chat.Frag.{Partial, fresh, part_at, join, add_chunk}

abbrev pub count_some : List (Option (List ℕ)) → ℕ
count_some [] = 0
count_some (none ∷ ps) = count_some ps
count_some (some c ∷ ps) = count_some ps + 1

abbrev pub sum_some : List (Option (List ℕ)) → ℕ
sum_some [] = 0
sum_some (none ∷ ps) = sum_some ps
sum_some (some c ∷ ps) = length c + sum_some ps

-- A message in a slot lacks a chunk, and its counters are those of its chunks, within the cap.
pub record IsPartial (cap : ℕ) (p : Partial) : Type 0 where
  pub lacking : p.received < p.total
  pub sized : length p.parts ≡ p.total
  pub counted : count_some p.parts ≡ p.received
  pub summed : sum_some p.parts ≡ p.bytes
  pub capped : p.bytes ≤ cap

count_some-replicate : (n : ℕ) → count_some (replicate n none) ≡ 0
count_some-replicate zero = refl
count_some-replicate (suc n) = count_some-replicate n

sum_some-replicate : (n : ℕ) → sum_some (replicate n none) ≡ 0
sum_some-replicate zero = refl
sum_some-replicate (suc n) = sum_some-replicate n

pub fresh-IsPartial : (cap total : ℕ) (now : Millis) → 0 < total → IsPartial cap (fresh total now)
unfolding fresh
fresh-IsPartial cap total now h = record {
  lacking = h;
  sized = length-replicate total none;
  counted = count_some-replicate total;
  summed = sum_some-replicate total;
  capped = omega arith;
}

pub part_at-cases :
    (ps : List (Option (List ℕ))) (i : ℕ)
    → i < length ps
    → (part_at ps i ≡ ok none) ⊎ ((c : List ℕ) × (part_at ps i ≡ ok (some c)))
unfolding part_at
part_at-cases [] i h = absurd (omega arith)
part_at-cases (none ∷ ps) zero h = inl refl
part_at-cases (some c ∷ ps) zero h = inr (c, refl)
part_at-cases (p ∷ ps) (suc i) h = part_at-cases ps i (omega arith)

set_counts :
    (ps : List (Option (List ℕ))) (i : ℕ) (c : List ℕ)
    → part_at ps i ≡ ok none
    → (count_some (set ps i (some c)) ≡ count_some ps + 1)
      × (sum_some (set ps i (some c)) ≡ sum_some ps + length c)
unfolding part_at
set_counts [] i c h = cc
set_counts (none ∷ ps) zero c h = omega arith
set_counts (some x ∷ ps) zero c h = cc
set_counts (none ∷ ps) (suc i) c h = set_counts ps i c h
set_counts (some x ∷ ps) (suc i) c h = omega (arith, set_counts ps i c h)

-- Adding a chunk that was missing keeps the counters exact; the message may then be complete.
pub add_chunk-counts :
    (cap : ℕ) (p : Partial) (i : ℕ) (c : List ℕ)
    → IsPartial cap p
    → part_at p.parts i ≡ ok none
    → p.bytes + length c ≤ cap
    → let q = add_chunk p i c in
      (q.received ≤ q.total)
      × (length q.parts ≡ q.total)
      × (count_some q.parts ≡ q.received)
      × (sum_some q.parts ≡ q.bytes)
      × (q.bytes ≤ cap)
unfolding add_chunk
add_chunk-counts cap p i c v h fits =
    let (counts, sums) = set_counts p.parts i c h in
    (
      omega (arith, v.lacking),
      length-set p.parts i (some c) ∙ v.sized,
      counts ∙ omega (arith, v.counted),
      sums ∙ omega (arith, v.summed),
      fits,
    )

count_some-le : (ps : List (Option (List ℕ))) → count_some ps ≤ length ps
count_some-le [] = omega arith
count_some-le (none ∷ ps) = omega (arith, count_some-le ps)
count_some-le (some c ∷ ps) = omega (arith, count_some-le ps)

-- A message with all its chunks is joined without a panic, to as many bytes as were counted.
pub join-total :
    (ps : List (Option (List ℕ)))
    → count_some ps ≡ length ps
    → (out : List ℕ) × (join ps ≡ ok out) × (length out ≡ sum_some ps)
unfolding join
join-total [] h = ([], refl, refl)
join-total (none ∷ ps) h = absurd (omega (arith, count_some-le ps))
join-total (some c ∷ ps) h =
    let (rest, e, size) = join-total ps (omega arith) in
    (c ++ rest, rw e, omega (arith, length-append c rest, size))
