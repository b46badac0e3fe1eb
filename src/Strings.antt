-- ===== src/Strings.antt =====
-- The methods of Python's `str` that the program calls: `strip`, and the test for a part.
use mathlib.Core.List.{reverse}
use hermes_hey.Decimal.{is_digit}
use hermes_hey.Prelude.{
  arith, ℕ, Text, codes, Bool, true, false, ◌&&◌, ◌||◌, [], ◌∷◌, ◌≡◌, refl, leb, ◌==◌,
  if◌then◌else◌,
}

-- `str.isspace` of one character
unfoldable pub is_space : ℕ → Bool
is_space c =
    (leb 9 c && leb c 13)
    || (leb 28 c && leb c 32)
    || c == 0x85
    || c == 0xa0
    || c == 0x1680
    || (leb 0x2000 c && leb c 0x200a)
    || c == 0x2028
    || c == 0x2029
    || c == 0x202f
    || c == 0x205f
    || c == 0x3000

unfoldable pub lstrip : Text → Text
unfolding is_space
lstrip [] = []
lstrip (c ∷ s) = if is_space c then lstrip s else c ∷ s

-- `s.strip()`
unfoldable pub strip : Text → Text
unfolding lstrip
strip s = reverse (lstrip (reverse (lstrip s)))

is_prefix : Text → Text → Bool
is_prefix [] s = true
is_prefix (c ∷ p) [] = false
is_prefix (c ∷ p) (d ∷ s) = c == d && is_prefix p s

-- `p in s`
unfoldable pub contains : Text → Text → Bool
unfolding is_prefix
contains p [] = is_prefix p []
contains p (c ∷ s) = is_prefix p (c ∷ s) || contains p s

-- `not s`
unfoldable pub is_empty : Text → Bool
is_empty [] = true
is_empty (c ∷ s) = false

strip_example : strip (codes " a b\n\t") ≡ codes "a b"
unfolding strip codes
strip_example = refl

contains_example :
    (contains (codes "post-ready") (codes "an invalid post-ready frame") ≡ true)
    × (contains (codes "ready!") (codes "an invalid post-ready frame") ≡ false)
unfolding contains codes
contains_example = (refl, refl)

pub lstrip_digit : (c : ℕ) (s : Text) → is_digit c ≡ true → lstrip (c ∷ s) ≡ c ∷ s
unfolding lstrip is_digit
lstrip_digit c s h = ground arith
