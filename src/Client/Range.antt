-- ===== src/Client/Range.antt =====
-- The numbers that `canonical_account` of hey_platform/client.py lets pass.
use hermes_hey.Prelude.{
  ℕ, ◌+◌, ◌-◌, ◌*◌, ◌≤◌, ◌<◌, Text, codes, true, false, ◌≡◌, refl, sym, ap, ◌∙◌, [], ◌∷◌, ◌++◌,
  length, arith, ◌==◌, ==_iff, ok, Bool-cases, inl, inr,
}
use mathlib.Core.List.{append-nil}
use hermes_hey.Decimal.{
  decimal, span_digits, is_digit, is_canonical, int_of_digits, accumulate, IsDigits,
  decimal-int_of_digits, span_digits_parts,
}
use hermes_hey.Strings.{is_empty}
use hermes_hey.Json.{Value}
use hermes_hey.Client.Account.{
  is_number, text_gt, max_account, canonical_account, canonical_account_lem,
  canonical_account_order,
}

digit_bounds : (c : ℕ) → is_digit c ≡ true → (c - b'0' ≤ 9) × (b'0' ≤ c)
unfolding is_digit
digit_bounds c h = ground arith

-- Digits behind a smaller number spell a smaller number than as many digits behind a larger one.
accumulate-lt :
    (m n : ℕ) (s t : Text)
    → m < n
    → length s ≡ length t
    → IsDigits s
    → accumulate m s < accumulate n t
accumulate-lt m n [] [] lt e h = lt
accumulate-lt m n [] (d ∷ t) lt e h = absurd (omega arith)
accumulate-lt m n (c ∷ s) [] lt e h = absurd (omega arith)
accumulate-lt m n (c ∷ s) (d ∷ t) lt e h =
    accumulate-lt (m * 10 + (c - b'0')) (n * 10 + (d - b'0')) s t
      (omega (arith, (digit_bounds c h.0).0)) (omega arith) h.1

-- Fewer digits spell a smaller number than more digits behind a positive one.
accumulate-lt_of_shorter :
    (n : ℕ) (s t : Text)
    → 0 < n
    → length s ≤ length t
    → IsDigits s
    → accumulate 0 s < accumulate n t
accumulate-lt_of_shorter n s [] positive le h = accumulate-lt 0 n s [] positive (omega arith) h
accumulate-lt_of_shorter n s (d ∷ t) positive le h =
    elim (Bool-cases (length s == length (d ∷ t))) [
      | inl same ↦
          accumulate-lt 0 n s (d ∷ t) positive ((==_iff (length s) (length (d ∷ t))).0 same) h
      | inr shorter ↦
          accumulate-lt_of_shorter (n * 10 + (d - b'0')) s t (omega arith)
            (ground (arith, ==_iff (length s) (length (d ∷ t)))) h
    ]

-- Among digits of one length the order of the texts is the order of the numbers.
accumulate-le_of_not_gt :
    (m : ℕ) (s t : Text)
    → length s ≡ length t
    → IsDigits s
    → IsDigits t
    → text_gt s t ≡ false
    → accumulate m s ≤ accumulate m t
unfolding text_gt
accumulate-le_of_not_gt m [] [] e h k g = omega arith
accumulate-le_of_not_gt m [] (d ∷ t) e h k g = absurd (omega arith)
accumulate-le_of_not_gt m (c ∷ s) [] e h k g = absurd (omega arith)
accumulate-le_of_not_gt m (c ∷ s) (d ∷ t) e h k g = elim (Bool-cases (c == d)) [
  | inl same ↦
      let eq : c ≡ d = (==_iff c d).0 same in
      rw eq (accumulate-le_of_not_gt (m * 10 + (d - b'0')) s t (omega arith) h.1 k.1 (ground arith))
  | inr other ↦
      let less : c < d = ground (arith, ==_iff c d) in
      let smaller =
        accumulate-lt (m * 10 + (c - b'0')) (m * 10 + (d - b'0')) s t
          (omega (arith, less, (digit_bounds c h.0).1)) (omega arith) h.1 in
      omega (arith, smaller)
]

empty_text : (t : Text) → is_empty t ≡ true → t ≡ []
unfolding is_empty
empty_text [] h = refl
empty_text (c ∷ t) h = absurd (ground arith)

is_number_parts : (s : Text) → is_number s ≡ true → IsDigits s × (is_canonical s ≡ true)
unfolding is_number
is_number_parts s h =
    let parts = span_digits_parts s in
    let rest : (span_digits s).1 ≡ [] = empty_text (span_digits s).1 (ground arith) in
    let whole : (span_digits s).0 ≡ s =
      sym (append-nil (span_digits s).0) ∙ ap (λ r. (span_digits s).0 ++ r) (sym rest) ∙ parts.1 in
    (rw (sym whole) parts.0, rw (sym whole) (ground arith))

-- the digits of the largest account behind the first
abbrev max_rest : Text
max_rest = codes "223372036854775807"

max_IsDigits : IsDigits max_account
unfolding is_digit codes
max_IsDigits = (
  refl,
  (
    refl,
    (
      refl,
      (
        refl,
        (
          refl,
          (
            refl,
            (
              refl,
              (
                refl,
                (
                  refl,
                  (
                    refl,
                    (refl, (refl, (refl, (refl, (refl, (refl, (refl, (refl, (refl, tt))))))))),
                  ),
                ),
              ),
            ),
          ),
        ),
      ),
    ),
  ),
)

-- The text that `canonical_account` returns is the print of the number that it spells, and the
-- number is between 1 and 9223372036854775807.
pub canonical_account-range :
    (value : Value) (s : Text)
    → canonical_account value ≡ ok s
    → (s ≡ decimal (int_of_digits s))
      × (0 < int_of_digits s)
      × (int_of_digits s ≤ 9223372036854775807)
unfolding int_of_digits codes
canonical_account-range value s h =
    let (given, number, short) = canonical_account_lem value s h in
    let (all, canonical) = is_number_parts s number in
    let (printed, positive) = decimal-int_of_digits s all canonical in
    let order = canonical_account_order s (rw (sym given) h) in
    let below : int_of_digits s ≤ 9223372036854775807 = elim order [
      | inl shorter ↦
          let less : int_of_digits s < 9223372036854775807 =
            accumulate-lt_of_shorter 9 s max_rest (omega arith) (omega arith) all in
          omega (arith, less)
      | inr (same, not_greater) ↦
          accumulate-le_of_not_gt 0 s max_account same all max_IsDigits not_greater
    ] in
    (sym printed, positive, below)
