-- ===== src/Frag/Progress.antt =====
-- How far the reassembly of a packet has come: its slot after the first chunks.
use native.Mathlib.Nat.{div-eq_of_lt, div-eq-sub-div}
use cockroach_chat.Prelude.{
  ℕ, zero, suc, ◌+◌, ◌-◌, ◌/◌, ◌%◌, ◌^◌, ◌≤◌, ◌<◌, ◌≡◌, refl, sym, ap, ap₂, subst, ◌∙◌, Option,
  none, some, List, [], ◌∷◌, ◌++◌, arith, length, dec_le, drop, set, replicate, length-drop,
  length-append, Outcome, ok,
}
use cockroach_chat.Prelude.Bytes.{to_be, from_be, from_be-to_be}
use cockroach_chat.Clock.{Millis}
use cockroach_chat.Error.{FragError}
use cockroach_chat.OrdMap.Keys.{bytes_ord}
use cockroach_chat.Wire.Cursor.{
  At, At-start, At-length, At-to, At-skip, At-next, At-index, At-slice,
}
use cockroach_chat.Frag.{
  Digest, Partial, Fragment, chunks_fuel, div_ceil, fragment, parse_fragment, part_at, join,
  add_chunk,
}
use cockroach_chat.Frag.Split.{concat}

pub length-chunks_fuel :
    (fuel n : ℕ) (bs : List ℕ)
    → 0 < n
    → length bs ≤ fuel
    → length (chunks_fuel fuel n bs) ≡ div_ceil (length bs) n
unfolding chunks_fuel
length-chunks_fuel zero n (b ∷ bs) hn enough = absurd (omega arith)
length-chunks_fuel zero n [] hn enough = sym (div-eq_of_lt {n = 0 + n - 1} {m = n} (omega arith))
length-chunks_fuel (suc fuel) n [] hn enough =
    sym (div-eq_of_lt {n = 0 + n - 1} {m = n} (omega arith))
length-chunks_fuel (suc fuel) n (b ∷ bs) hn enough =
    let size : ℕ = length (b ∷ bs) in
    let left : length (drop n (b ∷ bs)) ≡ size - n = length-drop n (b ∷ bs) in
    let rest : length (chunks_fuel fuel n (drop n (b ∷ bs))) ≡ div_ceil (size - n) n =
      length-chunks_fuel fuel n (drop n (b ∷ bs)) hn (omega (arith, left))
      ∙ ap (λ k. div_ceil k n) left in
    ap suc (rest ∙ one_less size hn (omega arith))
    ∙ sym (div-eq-sub-div {m = n} {n = size + n - 1} hn (omega arith) ∙ omega arith)
  where
    one_less : (size : ℕ) → 0 < n → 0 < size → div_ceil (size - n) n ≡ (size + n - 1 - n) / n
    one_less size hn hs = elim (dec_le n size) [
      | yes fits ↦ ap (λ k. k / n) {x = size - n + n - 1} {y = size + n - 1 - n} (omega arith)
      | no short ↦
          div-eq_of_lt {n = size - n + n - 1} {m = n} (omega arith)
          ∙ sym (div-eq_of_lt {n = size + n - 1 - n} {m = n} (omega arith))
    ]

pub concat-append :
    (cs ds : List (List ℕ)) → length (concat (cs ++ ds)) ≡ length (concat cs) + length (concat ds)
unfolding concat
concat-append [] ds = omega arith
concat-append (c ∷ cs) ds =
    omega
      (arith, length-append c (concat (cs ++ ds)), length-append c (concat cs), concat-append cs ds)

-- The slots of a message of which the first chunks have come.
unfoldable pub filled : List (List ℕ) → ℕ → List (Option (List ℕ))
filled [] k = replicate k none
filled (c ∷ cs) k = some c ∷ filled cs k

pub part_at-filled :
    (done : List (List ℕ)) (k : ℕ) → part_at (filled done (suc k)) (length done) ≡ ok none
unfolding part_at filled
part_at-filled [] k = refl
part_at-filled (c ∷ cs) k = part_at-filled cs k

set-filled :
    (done : List (List ℕ)) (k : ℕ) (c : List ℕ)
    → set (filled done (suc k)) (length done) (some c) ≡ filled (done ++ (c ∷ [])) k
unfolding filled
set-filled [] k c = refl
set-filled (x ∷ xs) k c = ap (λ l. some x ∷ l) (set-filled xs k c)

pub join-filled : (done : List (List ℕ)) → join (filled done 0) ≡ ok (concat done)
unfolding join filled concat
join-filled [] = refl
join-filled (c ∷ cs) = rw (join-filled cs) refl

-- A message of `total` chunks of which those of `done` have come and `k` have not.
abbrev pub so_far : ℕ → Millis → List (List ℕ) → ℕ → Partial
so_far total now done k = record {
  total = total;
  received = length done;
  parts = filled done k;
  bytes = length (concat done);
  first_seen_ms = now;
}

pub add_chunk-so_far :
    (total : ℕ) (now : Millis) (done : List (List ℕ)) (k : ℕ) (c : List ℕ)
    → add_chunk (so_far total now done (suc k)) (length done) c
      ≡ so_far total now (done ++ (c ∷ [])) k
unfolding add_chunk concat
add_chunk-so_far total now done k c =
    let build : ℕ → List (Option (List ℕ)) → ℕ → Partial = λ n ps b. record {
      total = total;
      received = n;
      parts = ps;
      bytes = b;
      first_seen_ms = now;
    } in
    ap (λ ps. build (length done + 1) ps (length (concat done) + length c)) (set-filled done k c)
    ∙ ap₂ (λ n b. build n (filled (done ++ (c ∷ [])) k) b) {x = length done + 1}
        {y = length (done ++ (c ∷ []))} (omega (arith, length-append done (c ∷ [])))
        (omega (arith, concat-append done (c ∷ []), append_nil c))
  where
    append_nil : (xs : List ℕ) → length (xs ++ []) ≡ length xs
    append_nil [] = refl
    append_nil (x ∷ xs) = ap suc (append_nil xs)

pub parse_fragment-fragment :
    (d : Digest) (i total : ℕ) (c : List ℕ)
    → length d ≡ 8
    → i < 2 ^ 16
    → total < 2 ^ 16
    → parse_fragment (fragment d i total c)
      ≡ ok (record { digest = d; position = i; total = total; chunk = c })
unfolding parse_fragment fragment to_be
parse_fragment-fragment d i total c hd hi ht =
    let bs : List ℕ = fragment d i total c in
    let at1 : At bs 1 (d ++ (to_be 2 (i % 2 ^ 16) ++ (to_be 2 (total % 2 ^ 16) ++ c))) =
      At-next (At-start bs) in
    let at9 : At bs 9 (to_be 2 (i % 2 ^ 16) ++ (to_be 2 (total % 2 ^ 16) ++ c)) =
      At-to (omega arith) (At-skip d at1) in
    let at10 = At-next at9 in
    let at11 = At-next at10 in
    let at12 = At-next at11 in
    let at13 : At bs 13 c = At-next at12 in
    let number : (n : ℕ) → n < 2 ^ 16 → from_be (to_be 2 (n % 2 ^ 16)) ≡ n =
      λ n h. from_be-to_be 2 (n % 2 ^ 16) (omega arith) ∙ omega arith in
    let built : ℕ → ℕ → Outcome FragError Fragment =
      λ p t. ok (record { digest = d; position = p; total = t; chunk = c }) in
    rw
      (
        At-slice {E = FragError} 9 d _ at1 (omega arith),
        At-index {E = FragError} at9,
        At-index {E = FragError} at10,
        At-index {E = FragError} at11,
        At-index {E = FragError} at12,
        At-slice {E = FragError} (length bs) c [] (At-end at13) (At-length at13),
      )
      (ap₂ built (number i hi) (number total ht))
  where
    append_nil : (xs : List ℕ) → xs ++ [] ≡ xs
    append_nil [] = refl
    append_nil (x ∷ xs) = ap (λ l. x ∷ l) (append_nil xs)

    At-end : {bs : List ℕ} {a : ℕ} {rest : List ℕ} → At bs a rest → At bs a (rest ++ [])
    At-end {bs} {a} {rest} h = subst (At bs a) (sym (append_nil rest)) h
