-- ===== src/Prelude/Bytes.antt =====
-- Bytes are native numbers below 256; `u16`, `u32` and `u64` travel as big-endian bytes
-- (`to_be_bytes` and `from_be_bytes` of the Rust standard library).
use Prim.Native.Nat.{ℕ, zero, suc, ◌+◌, ◌*◌, ◌/◌, ◌%◌, ◌^◌, ◌<◌}
use mathlib.Core.Path.{◌≡◌, refl, sym, subst, ap, ap₂, ◌∙◌}
use mathlib.Core.List.{List, [], ◌∷◌, ◌++◌, append-nil, append_assoc}
use native.Mathlib.Omega.{arith}
use native.Mathlib.Nat.{pow-suc}
use cockroach_chat.Prelude.Lists.{length, length-append, get_or, All, All-append}

abbrev pub IsByte : ℕ → Type 0
IsByte b = b < 256

abbrev pub IsBytes : List ℕ → Type 0
IsBytes bs = All IsByte bs

-- The low `w` bytes of a number, most significant first.
unfoldable pub to_be : ℕ → ℕ → List ℕ
to_be zero n = []
to_be (suc w) n = to_be w (n / 256) ++ (n % 256 ∷ [])

from_be_acc : ℕ → List ℕ → ℕ
from_be_acc acc [] = acc
from_be_acc acc (b ∷ bs) = from_be_acc (acc * 256 + b) bs

unfoldable pub from_be : List ℕ → ℕ
unfolding from_be_acc
from_be bs = from_be_acc 0 bs

from_be_acc-append :
    (acc : ℕ) (bs : List ℕ) (b : ℕ)
    → from_be_acc acc (bs ++ (b ∷ [])) ≡ from_be_acc acc bs * 256 + b
unfolding from_be_acc
from_be_acc-append acc [] b = refl
from_be_acc-append acc (x ∷ bs) b = from_be_acc-append (acc * 256 + x) bs b

pub length-to_be : (w n : ℕ) → length (to_be w n) ≡ w
unfolding to_be
length-to_be zero n = refl
length-to_be (suc w) n =
    omega (arith, length-append (to_be w (n / 256)) (n % 256 ∷ []), length-to_be w (n / 256))

pub IsBytes-to_be : (w n : ℕ) → IsBytes (to_be w n)
unfolding to_be
IsBytes-to_be zero n = tt
IsBytes-to_be (suc w) n =
    All-append IsByte (to_be w (n / 256)) (n % 256 ∷ []) (IsBytes-to_be w (n / 256))
      (omega arith, tt)

-- A number that fits `w` bytes is read back.
pub from_be-to_be : (w n : ℕ) → n < 256 ^ w → from_be (to_be w n) ≡ n
unfolding from_be to_be
from_be-to_be zero n h = omega arith
from_be-to_be (suc w) n h =
    from_be_acc-append 0 (to_be w (n / 256)) (n % 256)
    ∙ omega (arith, from_be-to_be w (n / 256) (omega (arith, pow-suc 256 w)))

to_be_snoc : (w n b : ℕ) → b < 256 → to_be (suc w) (n * 256 + b) ≡ to_be w n ++ (b ∷ [])
unfolding to_be
to_be_snoc w n b h =
    ap₂ (λ q r. to_be w q ++ (r ∷ [])) {x = (n * 256 + b) / 256} (omega arith) (omega arith)

to_be-from_be_acc :
    (k acc : ℕ) (bs : List ℕ)
    → IsBytes bs
    → to_be (k + length bs) (from_be_acc acc bs) ≡ to_be k acc ++ bs
unfolding from_be_acc
to_be-from_be_acc k acc [] h = ap (λ w. to_be w acc) {x = k + 0} (omega arith) ∙ sym (append-nil _)
to_be-from_be_acc k acc (b ∷ bs) h =
    ap (λ w. to_be w (from_be_acc (acc * 256 + b) bs)) {x = k + suc (length bs)} (omega arith)
    ∙ to_be-from_be_acc (suc k) (acc * 256 + b) bs h.1
    ∙ ap (λ l. l ++ bs) (to_be_snoc k acc b h.0)
    ∙ append_assoc (to_be k acc) (b ∷ []) bs

-- The bytes of a field are the encoding of the number that they are read as.
pub to_be-from_be : (bs : List ℕ) → IsBytes bs → to_be (length bs) (from_be bs) ≡ bs
unfolding from_be to_be
to_be-from_be bs h =
    ap (λ w. to_be w (from_be bs)) {x = length bs} {y = 0 + length bs} (omega arith)
    ∙ to_be-from_be_acc 0 0 bs h

from_be_acc-lt :
    (k acc : ℕ) (bs : List ℕ)
    → IsBytes bs
    → acc < 256 ^ k
    → from_be_acc acc bs < 256 ^ (k + length bs)
unfolding from_be_acc
from_be_acc-lt k acc [] h lt = subst (λ w. acc < 256 ^ w) {x = k} {y = k + 0} (omega arith) lt
from_be_acc-lt k acc (b ∷ bs) h lt =
    subst (λ w. from_be_acc (acc * 256 + b) bs < 256 ^ w) {x = suc k + length bs}
      {y = k + suc (length bs)} (omega arith)
      (from_be_acc-lt (suc k) (acc * 256 + b) bs h.1 (omega (arith, pow-suc 256 k, h.0)))

pub from_be-lt : (bs : List ℕ) → IsBytes bs → from_be bs < 256 ^ length bs
unfolding from_be
from_be-lt bs h =
    subst (λ w. from_be bs < 256 ^ w) {x = 0 + length bs} (omega arith)
      (from_be_acc-lt 0 0 bs h (omega arith))

pub IsBytes-get : (bs : List ℕ) (i : ℕ) → IsBytes bs → get_or bs i 0 < 256
IsBytes-get [] i h = omega arith
IsBytes-get (b ∷ bs) zero h = h.0
IsBytes-get (b ∷ bs) (suc i) h = IsBytes-get bs i h.1
