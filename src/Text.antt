-- ===== src/Text.antt =====
-- Strings of the program, as their UTF-8 bytes, and `String::from_utf8_lossy` of the standard library.
use cockroach_chat.Prelude.{
  ℕ, zero, suc, ◌+◌, ◌-◌, ◌≡◌, Bool, ◌&&◌, List, [], ◌∷◌, ◌++◌, length, leb, ltb, ◌==◌,
  if◌then◌else◌, take, drop,
}

abbrev pub in_range : ℕ → ℕ → ℕ → Bool
in_range lo hi b = leb lo b && leb b hi

-- How many bytes a character takes that starts with this byte, or zero if none does.
pub width : ℕ → ℕ
width b =
    if ltb b 0x80
    then 1
    else if in_range 0xc2 0xdf b
    then 2
    else if in_range 0xe0 0xef b
    then 3
    else if in_range 0xf0 0xf4 b
    then 4
    else 0

-- Whether the second byte of a character may follow its first.
pub follows : ℕ → ℕ → Bool
follows first b =
    if first == 0xe0
    then in_range 0xa0 0xbf b
    else if first == 0xed
    then in_range 0x80 0x9f b
    else if first == 0xf0
    then in_range 0x90 0xbf b
    else if first == 0xf4
    then in_range 0x80 0x8f b
    else in_range 0x80 0xbf b

-- How many of the next bytes continue a character, up to the number that it lacks.
pub continuation : ℕ → List ℕ → ℕ
continuation zero bs = 0
continuation (suc n) [] = 0
continuation (suc n) (b ∷ bs) =
    let rest = continuation n bs in if in_range 0x80 0xbf b then 1 + rest else 0

pub followers : ℕ → ℕ → List ℕ → ℕ
unfolding follows continuation
followers first zero bs = 0
followers first (suc n) [] = 0
followers first (suc n) (b ∷ bs) =
    let rest = continuation n bs in if follows first b then 1 + rest else 0

-- U+FFFD
abbrev pub replacement : List ℕ
replacement = 0xef ∷ 0xbf ∷ 0xbd ∷ []

-- What the next bytes become, and how many they are: a character, or the replacement of the longest
-- start of one.
pub step : ℕ → List ℕ → List ℕ × ℕ
unfolding width followers
step first rest =
    let found = followers first (width first - 1) rest in
    if width first == 0
    then (replacement, 1)
    else if found + 1 == width first
    then (first ∷ take found rest, found + 1)
    else (replacement, found + 1)

-- Each step takes at least one byte, so that a buffer takes at most as many steps as it has bytes.
pub lossy_fuel : ℕ → List ℕ → List ℕ
unfolding step
lossy_fuel zero bs = []
lossy_fuel (suc fuel) [] = []
lossy_fuel (suc fuel) (b ∷ bs) =
    let (out, taken) = step b bs in out ++ lossy_fuel fuel (drop taken (b ∷ bs))

unfoldable pub from_utf8_lossy : List ℕ → List ℕ
unfolding lossy_fuel
from_utf8_lossy bs = lossy_fuel (length bs) bs

-- The bytes of a `str`: those that the lossy reading does not change.
abbrev pub IsText : List ℕ → Type 0
IsText bs = from_utf8_lossy bs ≡ bs
