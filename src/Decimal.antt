-- ===== src/Decimal.antt =====
-- Decimal digits: how Python prints a natural number, what the pattern [0-9]* reads from the
-- front of a text, and the number that such digits spell.
use hermes_hey.Prelude.{
  ℕ, zero, suc, ◌+◌, ◌-◌, ◌*◌, ◌/◌, ◌%◌, ◌<◌, ◌≡◌, refl, sym, ap, ◌∙◌, Bool, true, false, ◌&&◌, [],
  ◌∷◌, ◌++◌, arith, leb, ltb, if◌then◌else◌, Text, All, Bool-cases, inl, inr,
}
use mathlib.Core.List.{foldl, foldl-append, append_assoc, append-nil}

-- the pattern [0-9] in a `str` pattern
unfoldable pub is_digit : ℕ → Bool
is_digit c = leb b'0' c && leb c b'9'

digits : ℕ → ℕ → Text
digits zero n = []
digits (suc f) n =
    let rest = digits f (n / 10) in
    if ltb n 10 then (b'0' + n) ∷ [] else rest ++ (b'0' + n % 10) ∷ []

-- `str(n)`
unfoldable pub decimal : ℕ → Text
unfolding digits
decimal n = digits (suc n) n

-- `int(s)` where `s` consists of digits
unfoldable pub int_of_digits : Text → ℕ
int_of_digits = foldl (λ n c. n * 10 + (c - b'0')) 0

-- the longest front of digits, and what follows
unfoldable pub span_digits : Text → Text × Text
unfolding is_digit
span_digits [] = ([], [])
span_digits (c ∷ s) =
    let (ds, rest) = span_digits s in if is_digit c then (c ∷ ds, rest) else ([], c ∷ s)

-- [1-9][0-9]* over a whole text of digits
unfoldable pub is_canonical : Text → Bool
is_canonical [] = false
is_canonical (c ∷ s) = leb b'1' c

abbrev pub IsDigits : Text → Type 0
IsDigits = All (λ c. is_digit c ≡ true)

-- what follows does not go on with a digit
abbrev pub Stops : Text → Type 0
Stops [] = Unit
Stops (c ∷ s) = is_digit c ≡ false

is_digit_bounds : (c : ℕ) → is_digit c ≡ true → (c - b'0' < 10) × (b'0' + (c - b'0') ≡ c)
unfolding is_digit
is_digit_bounds c h = ground arith

IsDigits-snoc : (s : Text) (d : ℕ) → IsDigits s → d < 10 → IsDigits (s ++ (b'0' + d) ∷ [])
unfolding is_digit
IsDigits-snoc [] d h lt = (ground arith, tt)
IsDigits-snoc (c ∷ s) d h lt = (h.0, IsDigits-snoc s d h.1 lt)

digits-IsDigits : (f n : ℕ) → IsDigits (digits f n)
unfolding digits
digits-IsDigits zero n = tt
digits-IsDigits (suc f) n = elim (Bool-cases (ltb n 10)) [
  | inl small ↦ rw small (IsDigits-snoc [] n tt (ground arith))
  | inr large ↦
      rw large
        (IsDigits-snoc (digits f (n / 10)) (n % 10) (digits-IsDigits f (n / 10)) (omega arith))
]

-- The digits of a positive number have no leading zero.
digits-is_canonical :
    (f n : ℕ) → n < f → 0 < n → (rest : Text) → is_canonical (digits f n ++ rest) ≡ true
unfolding digits is_canonical
digits-is_canonical zero n h p rest = absurd (omega arith)
digits-is_canonical (suc f) n h p rest = elim (Bool-cases (ltb n 10)) [
  | inl small ↦ rw small (ground arith)
  | inr large ↦
      rw (large, append_assoc)
        (digits-is_canonical f (n / 10) (ground arith) (ground arith) ((b'0' + n % 10) ∷ rest))
]

int_of_digits-snoc :
    (s : Text) (d : ℕ) → int_of_digits (s ++ (b'0' + d) ∷ []) ≡ int_of_digits s * 10 + d
unfolding int_of_digits
int_of_digits-snoc s d = rw foldl-append (omega arith)

int_of_digits-single : (d : ℕ) → int_of_digits ((b'0' + d) ∷ []) ≡ d
unfolding int_of_digits
int_of_digits-single d = omega arith

int_of_digits-digits : (f n : ℕ) → n < f → int_of_digits (digits f n) ≡ n
unfolding digits
int_of_digits-digits zero n h = absurd (omega arith)
int_of_digits-digits (suc f) n h = elim (Bool-cases (ltb n 10)) [
  | inl small ↦ rw small (int_of_digits-single n)
  | inr large ↦
      rw (large, int_of_digits-snoc) (omega (arith, int_of_digits-digits f (n / 10) (ground arith)))
]

pub decimal-IsDigits : (n : ℕ) → IsDigits (decimal n)
unfolding decimal
decimal-IsDigits n = digits-IsDigits (suc n) n

pub decimal-is_canonical : (n : ℕ) → 0 < n → is_canonical (decimal n) ≡ true
unfolding decimal
decimal-is_canonical n h =
    rw (append-nil (digits (suc n) n)) at (digits-is_canonical (suc n) n (omega arith) h [])

-- Reading the digits of a number gives the number.
pub int_of_digits-decimal : (n : ℕ) → int_of_digits (decimal n) ≡ n
unfolding decimal
int_of_digits-decimal n = int_of_digits-digits (suc n) n (omega arith)

-- Digits are split from what follows them where they stop.
pub span_digits-append :
    (s rest : Text) → IsDigits s → Stops rest → span_digits (s ++ rest) ≡ (s, rest)
unfolding span_digits
span_digits-append [] [] h stop = refl
span_digits-append [] (c ∷ rest) h stop = rw stop
span_digits-append (c ∷ s) rest h stop = rw (h.0, span_digits-append s rest h.1 stop)

-- A split gives digits, and loses nothing.
pub span_digits_parts :
    (s : Text) → IsDigits (span_digits s).0 × ((span_digits s).0 ++ (span_digits s).1 ≡ s)
unfolding span_digits
span_digits_parts [] = (tt, refl)
span_digits_parts (c ∷ s) = elim (Bool-cases (is_digit c)) [
  | inl d ↦ let (all, same) = span_digits_parts s in rw d ((d, all), ap (◌∷◌ c) same)
  | inr d ↦ rw d (tt, refl)
]

-- More fuel changes nothing.
digits_fuel : (f g n : ℕ) → n < f → n < g → digits f n ≡ digits g n
unfolding digits
digits_fuel zero g n h k = absurd (omega arith)
digits_fuel (suc f) zero n h k = absurd (omega arith)
digits_fuel (suc f) (suc g) n h k = elim (Bool-cases (ltb n 10)) [
  | inl small ↦ rw small
  | inr large ↦
      rw large (
        ap (λ s. s ++ (b'0' + n % 10) ∷ [])
          (digits_fuel f g (n / 10) (ground arith) (ground arith)))
]

digits_step :
    (f n : ℕ) → ltb n 10 ≡ false → digits (suc f) n ≡ digits f (n / 10) ++ (b'0' + n % 10) ∷ []
unfolding digits
digits_step f n large = rw large

-- One more digit at the end.
decimal_snoc : (n d : ℕ) → 0 < n → d < 10 → decimal (n * 10 + d) ≡ decimal n ++ (b'0' + d) ∷ []
unfolding decimal
decimal_snoc n d p lt =
    let m : ℕ = n * 10 + d in
    let q : m / 10 ≡ n = omega arith in
    let r : m % 10 ≡ d = omega arith in
    rw (digits_step m m (ground arith), q, r, digits_fuel m (suc n) n (omega arith) (omega arith))

abbrev pub accumulate : ℕ → Text → ℕ
accumulate = foldl (λ n c. n * 10 + (c - b'0'))

decimal-accumulate :
    (n : ℕ) (s : Text) → 0 < n → IsDigits s → decimal (accumulate n s) ≡ decimal n ++ s
decimal-accumulate n [] p h = sym (append-nil (decimal n))
decimal-accumulate n (c ∷ s) p h =
    let d : ℕ = c - b'0' in
    let bound : (d < 10) × (b'0' + d ≡ c) = is_digit_bounds c h.0 in
    rw (
      decimal-accumulate (n * 10 + d) s (omega arith) h.1,
      decimal_snoc n d p bound.0,
      bound.1,
      append_assoc,
    )

decimal_one : (d : ℕ) → d < 10 → decimal d ≡ (b'0' + d) ∷ []
unfolding decimal digits
decimal_one d lt = ground arith

le-accumulate : (n : ℕ) (s : Text) → n < suc (accumulate n s)
le-accumulate n [] = omega arith
le-accumulate n (c ∷ s) = omega (arith, le-accumulate (n * 10 + (c - b'0')) s)

-- Canonical digits are the print of the number that they spell, which is positive.
pub decimal-int_of_digits :
    (s : Text)
    → IsDigits s
    → is_canonical s ≡ true
    → (decimal (int_of_digits s) ≡ s) × (0 < int_of_digits s)
unfolding is_canonical int_of_digits
decimal-int_of_digits [] h k = ground arith
decimal-int_of_digits (c ∷ s) h k =
    let d : ℕ = c - b'0' in
    let b = is_digit_bounds c h.0 in
    let p : 0 < d = ground arith in
    let first : 0 * 10 + (c - b'0') ≡ d = omega arith in
    rw first (
      decimal-accumulate d s p h.1 ∙ ap (λ t. t ++ s) (decimal_one d b.0 ∙ ap (λ x. x ∷ []) b.1),
      omega (arith, le-accumulate d s),
    )

decimal_thousand : decimal 1200 ≡ b'1' ∷ b'2' ∷ b'0' ∷ b'0' ∷ []
unfolding decimal
decimal_thousand = refl

decimal_zero : decimal 0 ≡ b'0' ∷ []
unfolding decimal
decimal_zero = refl

nil_digits : (n : ℕ) → decimal n ≡ [] → n ≡ 0
unfolding int_of_digits
nil_digits n e = sym (int_of_digits-decimal n) ∙ ap int_of_digits e

no_digits : (n : ℕ) → decimal n ≡ [] → ⊥
no_digits n e = cc (e, ap decimal (nil_digits n e), decimal_zero)

-- A print begins with a digit.
pub decimal_head : (n : ℕ) → (c : ℕ) × (s : Text) × (decimal n ≡ c ∷ s) × (is_digit c ≡ true)
decimal_head n = first (decimal n) refl (decimal-IsDigits n)
  where
    first :
        (t : Text)
        → decimal n ≡ t
        → IsDigits t
        → (c : ℕ) × (s : Text) × (decimal n ≡ c ∷ s) × (is_digit c ≡ true)
    first [] e h = absurd (no_digits n e)
    first (c ∷ s) e h = (c, s, e, h.0)
