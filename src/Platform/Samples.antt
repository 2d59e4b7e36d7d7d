-- ===== src/Platform/Samples.antt =====
-- Concrete instances of what the program takes from other crates, for the tests.
use cockroach_chat.Prelude.{
  ℕ, zero, suc, ◌+◌, ◌-◌, ◌*◌, ◌/◌, ◌%◌, ◌≡◌, ◌<◌, refl, ap, Bool, true, false, ◌&&◌, Option, some,
  List, [], ◌∷◌, arith, length, min, leb, ltb, ◌==◌, ==_refl, if◌then◌else◌, replicate, get_or, inl,
  inr, Bool-cases,
}
use cockroach_chat.Prelude.Bytes.{IsBytes}
use cockroach_chat.Platform.{Crypto, Lz4, Float, Rng, Snow, Unicode, World}

-- Whole numbers of 60000ths.
pub leb_scaled : (m n : ℕ) → leb (m * 60000) (n * 60000) ≡ leb m n
leb_scaled m n = ground arith

abbrev pub sixty_thousandths : Float
sixty_thousandths = record {
  F = ℕ;
  of_nat = λ n. n * 60000;
  add = ◌+◌;
  sub = ◌-◌;
  mul = λ a b. a * b / 60000;
  div = λ a b. a * 60000 / b;
  fmin = min;
  le = leb;
  lt = ltb;
  le_nat = λ m n hm hn. leb_scaled m n;
  sub_one = λ n h. omega arith;
  min_nat = λ m n hm hn. omega arith;
  add_zero_rate = λ n a b hn ha hb h. omega arith;
}

abbrev pub rising : Rng sixty_thousandths
rising = record {
  R = ℕ;
  gen = λ r. (r % 60000, r + 1);
  gen_range = λ lo hi r. (min hi (lo + r), r + 1);
  gen_lt_one = λ r. ground arith;
  gen_range_in = λ lo hi r h. (omega arith, omega arith);
}

pub IsBytes-replicate : (n b : ℕ) → b < 256 → IsBytes (replicate n b)
IsBytes-replicate zero b h = tt
IsBytes-replicate (suc n) b h = (h, IsBytes-replicate n b h)

-- A signature repeats the key, and a digest the length of the message.
abbrev pub repeating : Crypto
repeating = record {
  SigningKey = ℕ;
  VerifyingKey = ℕ;
  verifying_key = λ k. k % 256;
  sign = λ k m. replicate 64 (k % 256);
  verify = λ v m s. get_or s 0 0 == v;
  sha256 = λ m. replicate 32 (length m % 256);
  length-sign = λ k m. refl;
  IsBytes-sign = λ k m. IsBytes-replicate 64 (k % 256) (omega arith);
  verify-sign = λ k m. ==_refl (k % 256);
  length-sha256 = λ m. refl;
  signing_key = λ seed. get_or seed 0 0;
  to_bytes = λ v. replicate 32 v;
  from_bytes = λ bs. some (get_or bs 0 0);
  dh_public = λ k. replicate 32 (get_or k 0 0);
  length-to_bytes = λ v. refl;
  from_bytes-to_bytes = λ v. refl;
  length-dh_public = λ k. refl;
}

all_zero : List ℕ → Bool
all_zero [] = true
all_zero (b ∷ bs) = (b == 0) && all_zero bs

replicate-all_zero : (m : List ℕ) → all_zero m ≡ true → replicate (length m) 0 ≡ m
unfolding all_zero
replicate-all_zero [] h = refl
replicate-all_zero (zero ∷ bs) h = ap (λ l. 0 ∷ l) (replicate-all_zero bs h)
replicate-all_zero (suc b ∷ bs) h = absurd (ground arith)

-- A run of zeros becomes nothing, and anything else stays as it is.
unfoldable pub squeeze : List ℕ → List ℕ
unfolding all_zero
squeeze m = if all_zero m then [] else m

unfoldable pub unsqueeze : List ℕ → ℕ → Option (List ℕ)
unsqueeze [] n = some (replicate n 0)
unsqueeze (b ∷ bs) n = some (b ∷ bs)

pub unsqueeze-squeeze : (m : List ℕ) → unsqueeze (squeeze m) (length m) ≡ some m
unfolding squeeze unsqueeze
unsqueeze-squeeze m = elim (Bool-cases (all_zero m)) [
  | inl zeros ↦ rw zeros (ap some (replicate-all_zero m zeros))
  | inr other ↦ rw other (nonzero m other)
]
  where
    nonzero : (l : List ℕ) → all_zero l ≡ false → unsqueeze l (length l) ≡ some l
    nonzero [] h = absurd (ground arith)
    nonzero (b ∷ bs) h = refl

unfoldable pub zero_runs : Lz4
unfolding squeeze unsqueeze
zero_runs = record {
  compress = squeeze;
  decompress = unsqueeze;
  decompress-compress = unsqueeze-squeeze;
}

-- One message makes a handshake, the ciphertext is the plaintext, and the remote key is a row of sevens.
abbrev pub plain : Snow
plain = record {
  HandshakeState = List ℕ;
  TransportState = ℕ × ℕ;
  build_initiator = λ k. some k;
  build_responder = λ k. some k;
  write_handshake = λ h. (h, some (replicate 32 1));
  read_handshake = λ h m. (h, some []);
  is_finished = λ h. true;
  into_transport = λ h. some (0, 0);
  handshake_remote = λ h. some (replicate 32 7);
  transport_remote = λ t. some (replicate 32 7);
  sending_nonce = λ t. t.0;
  receiving_nonce = λ t. t.1;
  set_receiving_nonce = λ t n. (t.0, n);
  write_message = λ t m. ((t.0 + 1, t.1), some m);
  read_message = λ t m. ((t.0, t.1 + 1), some m);
  receiving_nonce-set = λ t n. refl;
  receiving_nonce-read = λ t m read. refl;
  sending_nonce-write = λ t m written. refl;
}

-- Names without blanks, of lower-case letters.
abbrev pub lower_case : Unicode
lower_case = record { trim = λ n. n; to_lowercase = λ n. n }

instance abbrev pub small_world : World
small_world = record {
  crypto = repeating;
  lz4 = zero_runs;
  float = sixty_thousandths;
  rng = rising;
  snow = plain;
  unicode = lower_case;
}
