-- ===== src/Frag/Split.antt =====
-- The frames of a packet: each fits the link, and together they carry the packet's bytes in order.
use cockroach_chat.Prelude.{
  ℕ, zero, suc, ◌+◌, ◌-◌, ◌%◌, ◌^◌, ◌≤◌, ◌<◌, ◌≡◌, ◌⊎◌, refl, sym, ap, subst, ◌∙◌, inl, inr, List,
  [], ◌∷◌, ◌++◌, arith, length, leb, ltb, ltb→lt, ltb→le, leb→lt, if◌then◌else◌, Bool-cases, take,
  drop, All, length-take, length-drop, length-append, take-append-drop, Outcome, ok, err,
}
use cockroach_chat.Prelude.Bytes.{to_be, length-to_be}
use cockroach_chat.Error.{FragError}
use cockroach_chat.Frag.{
  Digest, kind_complete, chunks_fuel, chunks, div_ceil, fragment, fragments, split,
}

unfoldable pub concat : List (List ℕ) → List ℕ
concat [] = []
concat (c ∷ cs) = c ++ concat cs

-- What a frame carries of its packet.
pub content : List ℕ → List ℕ
content [] = []
content (kind ∷ rest) = if ltb 1 kind then drop 12 rest else rest

pub contents : List (List ℕ) → List ℕ
unfolding content
contents [] = []
contents (f ∷ fs) = content f ++ contents fs

pub length-fragment :
    (d : Digest) (i total : ℕ) (c : List ℕ)
    → length d ≡ 8
    → length (fragment d i total c) ≡ 13 + length c
unfolding fragment
length-fragment d i total c h = omega (
  arith,
  length-append d (to_be 2 (i % 2 ^ 16) ++ (to_be 2 (total % 2 ^ 16) ++ c)),
  length-append (to_be 2 (i % 2 ^ 16)) (to_be 2 (total % 2 ^ 16) ++ c),
  length-append (to_be 2 (total % 2 ^ 16)) c,
  length-to_be 2 (i % 2 ^ 16),
  length-to_be 2 (total % 2 ^ 16),
)

drop_prefix : (n : ℕ) (xs ys : List ℕ) → length xs ≡ n → drop n (xs ++ ys) ≡ ys
drop_prefix zero [] ys h = refl
drop_prefix (suc n) (x ∷ xs) ys h = drop_prefix n xs ys (omega arith)
drop_prefix zero (x ∷ xs) ys h = absurd (omega arith)
drop_prefix (suc n) [] ys h = absurd (omega arith)

append_assoc3 : (a b c : List ℕ) → a ++ (b ++ c) ≡ (a ++ b) ++ c
append_assoc3 [] b c = refl
append_assoc3 (x ∷ a) b c = ap (λ l. x ∷ l) (append_assoc3 a b c)

content-fragment :
    (d : Digest) (i total : ℕ) (c : List ℕ) → length d ≡ 8 → content (fragment d i total c) ≡ c
unfolding content fragment
content-fragment d i total c h =
    let index : List ℕ = to_be 2 (i % 2 ^ 16) in
    let count : List ℕ = to_be 2 (total % 2 ^ 16) in
    ap (λ l. drop 12 (d ++ l)) (append_assoc3 index count c)
    ∙ ap (drop 12) (append_assoc3 d (index ++ count) c)
    ∙ drop_prefix 12 (d ++ (index ++ count)) c (
        omega (
          arith,
          length-append d (index ++ count),
          length-append index count,
          length-to_be 2 (i % 2 ^ 16),
          length-to_be 2 (total % 2 ^ 16),
        ))

chunks_fuel-fits : (fuel n : ℕ) (bs : List ℕ) → All (λ c. length c ≤ n) (chunks_fuel fuel n bs)
unfolding chunks_fuel
chunks_fuel-fits zero n bs = tt
chunks_fuel-fits (suc fuel) n [] = tt
chunks_fuel-fits (suc fuel) n (b ∷ bs) =
    (omega (arith, length-take n (b ∷ bs)), chunks_fuel-fits fuel n (drop n (b ∷ bs)))

pub concat-chunks_fuel :
    (fuel n : ℕ) (bs : List ℕ) → 0 < n → length bs ≤ fuel → concat (chunks_fuel fuel n bs) ≡ bs
unfolding concat chunks_fuel
concat-chunks_fuel zero n [] hn enough = refl
concat-chunks_fuel zero n (b ∷ bs) hn enough = absurd (omega arith)
concat-chunks_fuel (suc fuel) n [] hn enough = refl
concat-chunks_fuel (suc fuel) n (b ∷ bs) hn enough =
    ap (λ l. take n (b ∷ bs) ++ l)
      (concat-chunks_fuel fuel n (drop n (b ∷ bs)) hn (omega (arith, length-drop n (b ∷ bs))))
    ∙ take-append-drop n (b ∷ bs)

fragments-fit :
    (d : Digest) (total i n : ℕ) (cs : List (List ℕ))
    → length d ≡ 8
    → All (λ c. length c ≤ n) cs
    → All (λ f. length f ≤ 13 + n) (fragments d total i cs)
unfolding fragments
fragments-fit d total i n [] h a = tt
fragments-fit d total i n (c ∷ cs) h a =
    (omega (arith, length-fragment d i total c h, a.0), fragments-fit d total (i + 1) n cs h a.1)

contents-fragments :
    (d : Digest) (total i : ℕ) (cs : List (List ℕ))
    → length d ≡ 8
    → contents (fragments d total i cs) ≡ concat cs
unfolding contents fragments concat
contents-fragments d total i [] h = refl
contents-fragments d total i (c ∷ cs) h =
    ap (λ l. l ++ contents (fragments d total (i + 1) cs)) (content-fragment d i total c h)
    ∙ ap (λ l. c ++ l) (contents-fragments d total (i + 1) cs h)

-- What `split` returns, for a link that can carry a fragment.
pub split_outcome :
    (bytes : List ℕ) (d : Digest) (mtu : ℕ) (frames : List (List ℕ))
    → split bytes d mtu ≡ ok frames
    → (13 < mtu)
      × (((length bytes < mtu) × (frames ≡ (kind_complete ∷ bytes) ∷ []))
          ⊎ ((mtu ≤ length bytes)
              × (div_ceil (length bytes) (mtu - 13) ≤ 65535)
              × (frames
                  ≡ fragments d (div_ceil (length bytes) (mtu - 13)) 0 (chunks (mtu - 13) bytes))))
unfolding split
split_outcome bytes d mtu frames h = elim (Bool-cases (leb mtu 13)) [
  | inl small ↦ absurd (err-not-ok (rw small at h))
  | inr wide ↦
      let room : 13 < mtu = leb→lt mtu 13 wide in
      elim (Bool-cases (ltb (length bytes) mtu)) [
        | inl whole ↦
            (room, inl (ltb→lt (length bytes) mtu whole, sym (ok-inj (rw (wide, whole) at h))))
        | inr parts ↦ elim (Bool-cases (ltb 65535 (div_ceil (length bytes) (mtu - 13)))) [
          | inl many ↦ absurd (err-not-ok (rw (wide, parts, many) at h))
          | inr few ↦ (
            room,
            inr (
              ltb→le (length bytes) mtu parts,
              ltb→le 65535 (div_ceil (length bytes) (mtu - 13)) few,
              sym (ok-inj (rw (wide, parts, few) at h)),
            ),
          )
        ]
      ]
]
  where
    ok-inj :
        {a b : List (List ℕ)} → ◌≡◌ {A = Outcome FragError (List (List ℕ))} (ok a) (ok b) → a ≡ b
    ok-inj e = cc

    err-not-ok :
        {e : FragError} {a : List (List ℕ)}
        → ◌≡◌ {A = Outcome FragError (List (List ℕ))} (err e) (ok a)
        → ⊥
    err-not-ok e = cc

-- Every frame of a packet fits the link that it was cut for, and the frames carry exactly the bytes of
-- the packet, in order, if the digest has 8 bytes.
pub split_lem :
    (bytes : List ℕ) (d : Digest) (mtu : ℕ) (frames : List (List ℕ))
    → length d ≡ 8
    → split bytes d mtu ≡ ok frames
    → All (λ f. length f ≤ mtu) frames × (contents frames ≡ bytes)
unfolding contents content chunks
split_lem bytes d mtu frames h e =
    let (room, cases) = split_outcome bytes d mtu frames e in
    elim cases [
      | inl (short, one) ↦
          subst (λ fs. All (λ f. length f ≤ mtu) fs × (contents fs ≡ bytes)) (sym one)
            ((omega arith, tt), append_nil bytes)
      | inr (_, _, many) ↦
          let size : 13 + (mtu - 13) ≡ mtu = omega arith in
          let total : ℕ = div_ceil (length bytes) (mtu - 13) in
          subst (λ fs. All (λ f. length f ≤ mtu) fs × (contents fs ≡ bytes)) (sym many)
            (
              subst (λ k. All (λ f. length f ≤ k) (fragments d total 0 (chunks (mtu - 13) bytes)))
                  size
                  (fragments-fit d total 0 (mtu - 13) (chunks (mtu - 13) bytes) h
                    (chunks_fuel-fits (length bytes) (mtu - 13) bytes)),
              contents-fragments d total 0 (chunks (mtu - 13) bytes) h
                  ∙ concat-chunks_fuel (length bytes) (mtu - 13) bytes (omega arith) (omega arith),
            )
    ]
  where
    append_nil : (xs : List ℕ) → xs ++ [] ≡ xs
    append_nil [] = refl
    append_nil (x ∷ xs) = ap (λ l. x ∷ l) (append_nil xs)
