-- ===== src/Client/Account.antt =====
-- `canonical_account` of hey_platform/client.py.
use hermes_hey.Prelude.{
  ◌<◌, ◌⊎◌, ◌≤◌, Text, codes, Bool, true, false, ◌&&◌, ◌||◌, ◌≡◌, refl, [], ◌∷◌, length, arith, leb,
  ltb, ◌==◌, if◌then◌else◌, Result, ok, raise, value_error,
}
use hermes_hey.Decimal.{span_digits, is_canonical}
use hermes_hey.Strings.{is_empty}
use hermes_hey.Json.{Value, text, null, boolean, integer, real, non_finite, array, object}

-- [1-9][0-9]* over the whole text
unfoldable pub is_number : Text → Bool
is_number s = is_canonical (span_digits s).0 && is_empty (span_digits s).1

-- `s > t` for texts
unfoldable pub text_gt : Text → Text → Bool
text_gt [] t = false
text_gt (c ∷ s) [] = true
text_gt (c ∷ s) (d ∷ t) = if c == d then text_gt s t else ltb d c

abbrev pub max_account : Text
max_account = codes "9223372036854775807"

unfoldable pub canonical_account : Value → Result Text
canonical_account (text value) =
    if is_number value
      && (leb (length value) (length max_account)
          && (ltb (length value) (length max_account)
              || ((length value == length max_account)
                  && (if text_gt value max_account then false else true))))
    then ok value
    else raise value_error "HEY account must be a canonical ASCII account identifier"
canonical_account _ = raise value_error "HEY account must be a canonical ASCII account identifier"

length-max_account : length max_account ≡ 19
unfolding codes
length-max_account = refl

-- An accepted account is a text of the pattern [1-9][0-9]*, has at most 19 characters, and is
-- returned as it is.
pub canonical_account_lem :
    (value : Value) (s : Text)
    → canonical_account value ≡ ok s
    → (value ≡ text s) × (is_number s ≡ true) × (length s ≤ 19)
unfolding canonical_account
canonical_account_lem (text value) s h = ground (arith, length-max_account)
canonical_account_lem null s h = absurd (ground arith)
canonical_account_lem (boolean b) s h = absurd (ground arith)
canonical_account_lem (integer n) s h = absurd (ground arith)
canonical_account_lem (real m k) s h = absurd (ground arith)
canonical_account_lem non_finite s h = absurd (ground arith)
canonical_account_lem (array vs) s h = absurd (ground arith)
canonical_account_lem (object d) s h = absurd (ground arith)

pub canonical_account_order :
    (s : Text)
    → canonical_account (text s) ≡ ok s
    → (length s < length max_account)
      ⊎ ((length s ≡ length max_account) × (text_gt s max_account ≡ false))
unfolding canonical_account
canonical_account_order s h = ground arith
