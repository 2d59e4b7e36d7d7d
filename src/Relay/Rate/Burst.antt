-- ===== src/Relay/Rate/Burst.antt =====
-- A sender may send a burst at once, and no more.
use cockroach_chat.Prelude.{
  ℕ, zero, suc, ◌+◌, ◌-◌, ◌%◌, ◌^◌, ◌≤◌, ◌<◌, ◌≡◌, refl, ap, ◌∙◌, Bool, true, false, none, List,
  arith, lt→ltb, le→ltb, le→leb, lt→leb, min, if◌then◌else◌,
}
use cockroach_chat.Clock.{Millis}
use cockroach_chat.Platform.{Float}
use cockroach_chat.OrdMap.{get}
use cockroach_chat.OrdMap.Keys.{bytes_ord}
use cockroach_chat.Relay.Rate.{
  Bucket, RateLimiter, bucket_of, refill, refill_rate_per_ms, take_token, admit, allow,
}
use cockroach_chat.Relay.Rate.Greylist.{bucket_of-allow}

-- How many of `n` packets that one sender sends at one time are allowed.
pub accepted : (f : Float) → RateLimiter f.F → List ℕ → Millis → ℕ → ℕ
accepted f l sender now zero = 0
accepted f l sender now (suc n) =
    let (l', allowed) = allow f l sender now in
    (if allowed then 1 else 0) + accepted f l' sender now n

module _ (f : Float) where
  abbrev with_tokens : ℕ → Millis → Millis → Bucket f.F
  with_tokens k now until = record { tokens = f.of_nat k; last_ms = now; greylist_until = until }

  -- With whole tokens and no time passed, a refill leaves the tokens as they are.
  refill_now :
      (l : RateLimiter f.F) (k : ℕ) (now until : Millis)
      → k ≤ l.cfg.rate_burst
      → l.cfg.rate_burst ≤ 2 ^ 53
      → l.cfg.rate_sustained_per_min ≤ 2 ^ 53
      → refill f l (with_tokens k now until) now ≡ f.of_nat k
  unfolding refill refill_rate_per_ms
  refill_now l k now until hk hb hs =
      ap
        (λ d.
          f.fmin
            (f.add (f.of_nat k) (
              f.mul (f.of_nat d) (f.div (f.of_nat l.cfg.rate_sustained_per_min) (f.of_nat 60_000))))
            (f.of_nat l.cfg.rate_burst))
        {x = now - now} {y = 0} (omega arith)
      ∙ ap (λ t. f.fmin t (f.of_nat l.cfg.rate_burst))
          (f.add_zero_rate k l.cfg.rate_sustained_per_min 60_000 (omega arith) hs (omega arith)
            (omega arith))
      ∙ f.min_nat k l.cfg.rate_burst (omega arith) hb
      ∙ ap f.of_nat {x = min k l.cfg.rate_burst} {y = k} (omega arith)

  admit_token :
      (l : RateLimiter f.F) (k : ℕ) (now until : Millis)
      → suc k ≤ l.cfg.rate_burst
      → l.cfg.rate_burst ≤ 2 ^ 53
      → l.cfg.rate_sustained_per_min ≤ 2 ^ 53
      → until ≤ now
      → admit f l (with_tokens (suc k) now until) now ≡ (with_tokens k now until, true)
  unfolding admit take_token
  admit_token l k now until hk hb hs hu = rw (
    le→ltb now until hu,
    refill_now l (suc k) now until hk hb hs,
    f.le_nat 1 (suc k) (omega arith) (omega arith),
    le→leb 1 (suc k) (omega arith),
    f.sub_one k (omega arith),
  )

  admit_empty :
      (l : RateLimiter f.F) (now until : Millis)
      → l.cfg.rate_burst ≤ 2 ^ 53
      → l.cfg.rate_sustained_per_min ≤ 2 ^ 53
      → until ≤ now
      → admit f l (with_tokens 0 now until) now
        ≡ (with_tokens 0 now ((now + l.cfg.greylist_ms) % 2 ^ 64), false)
  unfolding admit take_token
  admit_empty l now until hb hs hu = rw (
    le→ltb now until hu,
    refill_now l 0 now until (omega arith) hb hs,
    f.le_nat 1 0 (omega arith) (omega arith),
    lt→leb 1 0 (omega arith),
  )

  counted :
      (l : RateLimiter f.F) (sender : List ℕ) (now : Millis) (n : ℕ) {a b : Bool}
      → a ≡ b
      → (if a then 1 else 0) + accepted f l sender now n
        ≡ (if b then 1 else 0) + accepted f l sender now n
  counted l sender now n e = ap (λ (x : Bool). (if x then 1 else 0) + accepted f l sender now n) e

  -- A greylisted sender gets nothing through.
  accepted_greylisted :
      (l : RateLimiter f.F) (sender : List ℕ) (now : Millis) (n : ℕ)
      → now < (bucket_of f l sender now).greylist_until
      → accepted f l sender now n ≡ 0
  unfolding accepted allow
  accepted_greylisted l sender now zero h = refl
  accepted_greylisted l sender now (suc n) h =
      let b : Bucket f.F = bucket_of f l sender now in
      let refused : admit f l b now ≡ (b, false) =
        unfold admit in rw (lt→ltb now b.greylist_until h) in
      let l' : RateLimiter f.F = (allow f l sender now).0 in
      let same : bucket_of f l' sender now ≡ b =
        bucket_of-allow f l sender now now ∙ ap (λ r. r.0) refused in
      counted l' sender now n (ap (λ r. r.1) refused)
      ∙ omega (arith, accepted_greylisted l' sender now n (rw same h))

  accepted_tokens :
      (l : RateLimiter f.F) (sender : List ℕ) (now until : Millis) (n k : ℕ)
      → bucket_of f l sender now ≡ with_tokens k now until
      → k ≤ l.cfg.rate_burst
      → l.cfg.rate_burst ≤ 2 ^ 53
      → l.cfg.rate_sustained_per_min ≤ 2 ^ 53
      → until ≤ now
      → 0 < l.cfg.greylist_ms
      → now + l.cfg.greylist_ms < 2 ^ 64
      → accepted f l sender now n ≡ min n k
  unfolding accepted allow
  accepted_tokens l sender now until zero k e hk hb hs hu hg hw = omega arith
  accepted_tokens l sender now until (suc n) zero e hk hb hs hu hg hw =
      let verdict : admit f l (bucket_of f l sender now) now
          ≡ (with_tokens 0 now ((now + l.cfg.greylist_ms) % 2 ^ 64), false) =
        ap (λ b. admit f l b now) e ∙ admit_empty l now until hb hs hu in
      let after = bucket_of-allow f l sender now now ∙ ap (λ r. r.0) verdict in
      let l' : RateLimiter f.F = (allow f l sender now).0 in
      counted l' sender now n (ap (λ r. r.1) verdict)
      ∙ omega (
        arith,
        accepted_greylisted l' sender now n
            (omega (arith, ap (λ (b : Bucket f.F). b.greylist_until) after)),
      )
  accepted_tokens l sender now until (suc n) (suc k) e hk hb hs hu hg hw =
      let verdict : admit f l (bucket_of f l sender now) now ≡ (with_tokens k now until, true) =
        ap (λ b. admit f l b now) e ∙ admit_token l k now until hk hb hs hu in
      let after = bucket_of-allow f l sender now now ∙ ap (λ r. r.0) verdict in
      let l' : RateLimiter f.F = (allow f l sender now).0 in
      counted l' sender now n (ap (λ r. r.1) verdict)
      ∙ omega (arith, accepted_tokens l' sender now until n k after (omega arith) hb hs hu hg hw)

  -- Of any number of packets that a sender not heard before sends at one time, exactly the first
  -- `rate_burst` are allowed, if the burst and the rate fit a `u32`, the greylist period is not
  -- zero, and its end fits a `u64`.
  pub burst_bound :
      (l : RateLimiter f.F) (sender : List ℕ) (now : Millis) (n : ℕ)
      → get sender l.buckets ≡ none
      → l.cfg.rate_burst < 2 ^ 32
      → l.cfg.rate_sustained_per_min < 2 ^ 32
      → 0 < l.cfg.greylist_ms
      → now + l.cfg.greylist_ms < 2 ^ 64
      → accepted f l sender now n ≡ min n l.cfg.rate_burst
  unfolding bucket_of
  burst_bound l sender now n fresh hb hs hg hw =
      accepted_tokens l sender now 0 n l.cfg.rate_burst (rw (fresh, bucket_of)) (omega arith)
        (omega arith) (omega arith) (omega arith) hg hw
