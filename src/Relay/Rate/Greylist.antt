-- ===== src/Relay/Rate/Greylist.antt =====
-- A sender that exceeds its budget is held off, and no other sender is.
use cockroach_chat.Prelude.{
  ℕ, ◌+◌, ◌%◌, ◌^◌, ◌<◌, ◌≡◌, ◌≢◌, refl, sym, ap, ◌∙◌, inl, inr, true, false, List, arith, ltb,
  lt→ltb, Option-cases,
}
use cockroach_chat.Clock.{Millis}
use cockroach_chat.Platform.{Float}
use cockroach_chat.OrdMap.{get}
use cockroach_chat.OrdMap.Keys.{bytes_ord}
use cockroach_chat.OrdMap.Laws.{get-insert_self, get-insert_ne}
use cockroach_chat.Relay.Rate.{
  Bucket, RateLimiter, bucket_of, admit, take_token, refill, refill_rate_per_ms, allow,
  is_greylisted,
}

module _ (f : Float) (l : RateLimiter f.F) where
  -- The bucket that a packet leaves behind, for its sender and for another.
  pub bucket_of-allow :
      (sender : List ℕ) (now t : Millis)
      → bucket_of f (allow f l sender now).0 sender t ≡ (admit f l (bucket_of f l sender now) now).0
  unfolding allow bucket_of
  bucket_of-allow sender now t =
      rw (get-insert_self sender (admit f l (bucket_of f l sender now) now).0 l.buckets, bucket_of)

  bucket_of-allow_ne :
      (sender other : List ℕ) (now t : Millis)
      → other ≢ sender
      → bucket_of f (allow f l sender now).0 other t ≡ bucket_of f l other t
  unfolding allow bucket_of
  bucket_of-allow_ne sender other now t h = rw (
    get-insert_ne sender other (admit f l (bucket_of f l sender now) now).0 l.buckets h,
    bucket_of,
  )

  pub is_greylisted-bucket_of :
      (sender : List ℕ) (t : Millis)
      → is_greylisted f l sender t ≡ ltb t (bucket_of f l sender t).greylist_until
  unfolding is_greylisted bucket_of
  is_greylisted-bucket_of sender t = elim (Option-cases (get sender l.buckets)) [
    | inl e ↦ rw (e, is_greylisted, bucket_of) (ground arith)
    | inr (b, e) ↦ rw (e, is_greylisted, bucket_of)
  ]

  -- A refused packet whose sender was not greylisted starts a greylisting.
  admit_refused :
      (b : Bucket f.F) (now : Millis)
      → ltb now b.greylist_until ≡ false
      → (admit f l b now).1 ≡ false
      → (admit f l b now).0.greylist_until ≡ (now + l.cfg.greylist_ms) % 2 ^ 64
  unfolding admit take_token
  admit_refused b now free refused = ground (arith, free, refused)

  pub allow-admit :
      (sender : List ℕ) (now : Millis)
      → (allow f l sender now).1 ≡ (admit f l (bucket_of f l sender now) now).1
  unfolding allow
  allow-admit sender now = refl

greylisted_refused :
    (f : Float) (l : RateLimiter f.F) (sender : List ℕ) (t : Millis)
    → is_greylisted f l sender t ≡ true
    → (allow f l sender t).1 ≡ false
unfolding admit
greylisted_refused f l sender t h =
    allow-admit f l sender t ∙ rw (sym (is_greylisted-bucket_of f l sender t) ∙ h)

module _ (f : Float) (l : RateLimiter f.F) where
  -- If the end of the greylist period fits a `u64`, a sender that is denied when it was not
  -- greylisted is greylisted for the whole period, and its next packet, if it comes within that
  -- period, is denied too.
  pub denied_is_greylisted :
      (sender : List ℕ) (now t : Millis)
      → is_greylisted f l sender now ≡ false
      → (allow f l sender now).1 ≡ false
      → now + l.cfg.greylist_ms < 2 ^ 64
      → t < now + l.cfg.greylist_ms
      → let l' = (allow f l sender now).0 in
        (is_greylisted f l' sender t ≡ true) × ((allow f l' sender t).1 ≡ false)
  denied_is_greylisted sender now t free denied small within =
      let l' : RateLimiter f.F = (allow f l sender now).0 in
      let until : (bucket_of f l' sender t).greylist_until ≡ (now + l.cfg.greylist_ms) % 2 ^ 64 =
        ap (λ b. b.greylist_until) (bucket_of-allow f l sender now t)
        ∙ admit_refused f l (bucket_of f l sender now) now
            (sym (is_greylisted-bucket_of f l sender now) ∙ free)
            (sym (allow-admit f l sender now) ∙ denied) in
      let grey : is_greylisted f l' sender t ≡ true =
        is_greylisted-bucket_of f l' sender t
        ∙ lt→ltb t (bucket_of f l' sender t).greylist_until (omega (arith, until)) in
      (grey, greylisted_refused f l' sender t grey)

  -- What a sender does changes nothing for another one: its greylisting and the verdict on its next
  -- packet are what they were.
  pub allow_independent :
      (sender other : List ℕ) (now t : Millis)
      → other ≢ sender
      → let l' = (allow f l sender now).0 in
        (is_greylisted f l' other t ≡ is_greylisted f l other t)
        × ((allow f l' other t).1 ≡ (allow f l other t).1)
  unfolding allow admit take_token refill refill_rate_per_ms
  allow_independent sender other now t h =
      let same = bucket_of-allow_ne f l sender other now t h in
      (
        is_greylisted-bucket_of f _ other t
            ∙ ap (λ b. ltb t b.greylist_until) same
            ∙ sym (is_greylisted-bucket_of f l other t),
        allow-admit f _ other t ∙ ap (λ b. (admit f l b t).1) same ∙ sym (allow-admit f l other t),
      )
