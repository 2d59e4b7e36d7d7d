-- ===== src/Noise/Replay.antt =====
-- The window of counters: a message is opened at most once, and a forged one moves nothing.
use cockroach_chat.Prelude.{
  ℕ, ◌+◌, ◌≤◌, ◌≡◌, refl, sym, ap, ◌∙◌, inl, inr, Option, none, some, List, [], ◌∷◌, arith,
  some_inj, length, ltb, ltb→le, Bool-cases, take, drop,
}
use cockroach_chat.Prelude.Bytes.{from_be}
use cockroach_chat.Platform.{Snow}
use cockroach_chat.Noise.{
  Inner, handshake, transport, poisoned, NoiseSession, Reply, opened, open_payload, decrypt_inner,
  decrypt,
}

module _ (s : Snow) where
  -- The least counter that a session still opens, if it is ready.
  pub inner_window : Inner s → Option ℕ
  inner_window (transport ts) = some (s.receiving_nonce ts)
  inner_window (handshake hs) = none
  inner_window poisoned = none

  unfoldable pub window : NoiseSession s → Option ℕ
  unfolding inner_window
  window n = inner_window n.inner

  abbrev pub nonce_of : List ℕ → ℕ
  nonce_of payload = from_be (take 8 payload)

  -- What opening a payload has done to the window `w`.
  abbrev pub Slides : Option ℕ → List ℕ → Reply s (List ℕ) → Type 0
  Slides w payload (n', inr out) =
      (expected : ℕ) × (w ≡ some expected)
      × (expected ≤ nonce_of payload)
      × (window n' ≡ some (nonce_of payload + 1))
  Slides w payload (n', inl e) = window n' ≡ w

  opened-Slides :
      (n : NoiseSession s) (t : s.TransportState) (payload m : List ℕ)
      → s.receiving_nonce t ≤ nonce_of payload
      → (r : s.TransportState × Option (List ℕ))
      → ((out : List ℕ) → r.1 ≡ some out → s.receiving_nonce r.0 ≡ nonce_of payload + 1)
      → Slides (some (s.receiving_nonce t)) payload (opened s n (s.receiving_nonce t) r)
  unfolding opened window inner_window
  opened-Slides n t payload m h (t', none) moved =
      ap some (s.receiving_nonce-set t' (s.receiving_nonce t))
  opened-Slides n t payload m h (t', some out) moved =
      (s.receiving_nonce t, refl, h, ap some (moved out refl))

  open_payload-Slides :
      (n : NoiseSession s) (t : s.TransportState) (payload : List ℕ)
      → window n ≡ some (s.receiving_nonce t)
      → Slides (some (s.receiving_nonce t)) payload (open_payload s n t payload)
  unfolding open_payload
  open_payload-Slides n t payload e = elim (Bool-cases (ltb (length payload) 8)) [
    | inl few ↦ rw few e
    | inr enough ↦ elim (Bool-cases (ltb (nonce_of payload) (s.receiving_nonce t))) [
      | inl old ↦ rw (enough, old) e
      | inr fresh ↦
          let t' : s.TransportState = s.set_receiving_nonce t (nonce_of payload) in
          rw (enough, fresh)
            (opened-Slides n t payload (drop 8 payload)
              (ltb→le (nonce_of payload) (s.receiving_nonce t) fresh)
              (s.read_message t' (drop 8 payload))
              (λ out read.
                s.receiving_nonce-read t' (drop 8 payload) read
                ∙ ap (λ k. k + 1) (s.receiving_nonce-set t (nonce_of payload))))
    ]
  ]

  by_inner :
      (n : NoiseSession s) (payload : List ℕ) (i : Inner s)
      → window n ≡ inner_window i
      → Slides (inner_window i) payload (decrypt_inner s n i payload)
  unfolding decrypt_inner inner_window
  by_inner n payload (transport t) e = open_payload-Slides n t payload e
  by_inner n payload (handshake hs) e = e
  by_inner n payload poisoned e = e

  -- A payload is opened only by a ready session, and only if its counter is in the window, which then
  -- begins after it. A payload that is refused, forged ones included, moves the window nowhere.
  pub decrypt-Slides :
      (n : NoiseSession s) (payload : List ℕ) → Slides (window n) payload (decrypt s n payload)
  unfolding decrypt inner_window window
  decrypt-Slides n payload = by_inner n payload n.inner refl

  -- The counters of the payloads that a session opens, of those that arrive one after the other.
  pub opened_nonces : NoiseSession s → List (List ℕ) → List ℕ
  opened_nonces n [] = []
  opened_nonces n (p ∷ ps) =
      let (n', r) = decrypt s n p in
      let rest = opened_nonces n' ps in elim r [ inr out ↦ nonce_of p ∷ rest | inl e ↦ rest ]

  -- Each number is at least `n` and above those before it.
  abbrev pub IsIncreasing : ℕ → List ℕ → Type 0
  IsIncreasing n [] = Unit
  IsIncreasing n (m ∷ ms) = (n ≤ m) × IsIncreasing (m + 1) ms

  IsIncreasing-lower : (k k' : ℕ) (ms : List ℕ) → k ≤ k' → IsIncreasing k' ms → IsIncreasing k ms
  IsIncreasing-lower k k' [] h i = tt
  IsIncreasing-lower k k' (m ∷ ms) h i = (omega (arith, i.0), i.1)

  -- A ready session opens payloads only with counters that grow, so that no payload is opened twice,
  -- however often and in whatever order the payloads arrive.
  pub opened_nonces-IsIncreasing :
      (ps : List (List ℕ)) (n : NoiseSession s) (k : ℕ)
      → window n ≡ some k
      → IsIncreasing k (opened_nonces n ps)
  unfolding opened_nonces
  opened_nonces-IsIncreasing [] n k h = tt
  opened_nonces-IsIncreasing (p ∷ ps) n k h =
      next (λ n'. opened_nonces-IsIncreasing ps n') (decrypt s n p) (decrypt-Slides n p)
    where
      next :
          ((n' : NoiseSession s) (k' : ℕ)
            → window n' ≡ some k'
            → IsIncreasing k' (opened_nonces n' ps))
          → (r : Reply s (List ℕ)) → Slides (window n) p r
          → let rest = opened_nonces r.0 ps in
            IsIncreasing k (elim r.1 [ inr out ↦ nonce_of p ∷ rest | inl e ↦ rest ])
      next ih (n', inl e) slid = ih n' k (slid ∙ h)
      next ih (n', inr out) (expected, was, low, now) =
          (omega (arith, low, some_inj (sym was ∙ h)), ih n' (nonce_of p + 1) now)
