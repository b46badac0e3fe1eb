-- ===== src/Plugin/Config.antt =====
-- The settings of hey_platform/plugin.py: which are taken for valid, and how those of the YAML file
-- are merged. The keys of a mapping are texts here. What `float(amount) > 0` says of digits, and
-- whether a named program can be run, are parameters.
use hermes_hey.Prelude.{
  ℕ, zero, suc, String, Text, codes, Bool, true, false, not, ◌&&◌, ◌||◌, Option, none, some, List,
  [], ◌∷◌, ◌++◌, length, leb, ◌==◌, if◌then◌else◌, ok, err, ◌≡◌, refl,
}
use hermes_hey.Decimal.{span_digits}
use hermes_hey.Strings.{strip, is_space, is_empty}
use hermes_hey.Json.{
  Value, Fields, end, field, null, boolean, integer, text, array, object, nil, cons, pos, get,
  has_key, values,
}
use hermes_hey.Core.Frames.{strict_bool}
use hermes_hey.Core.Identity.{after_prefix}
use hermes_hey.Client.Command.{snoc_field}
use hermes_hey.Client.Account.{canonical_account}

-- `isinstance(value, str) and bool(value.strip())` for every member
unfoldable pub well_formed : List Value → Bool
well_formed [] = true
well_formed (text sender ∷ vs) = not (is_empty (strip sender)) && well_formed vs
well_formed (v ∷ vs) = false

-- [^@\s]+ over the whole text
plain_part : Text → Bool
plain_part [] = true
plain_part (c ∷ s) = not (c == b'@') && not (is_space c) && plain_part s

-- a dot with something behind it
dot_within : Text → Bool
dot_within [] = false
dot_within (c ∷ s) = (c == b'.' && not (is_empty s)) || dot_within s

-- [^@\s]+\.[^@\s]+ over the whole text
domain : Text → Bool
unfolding plain_part dot_within
domain [] = false
domain (c ∷ s) = plain_part (c ∷ s) && dot_within s

-- what stands in front of the first @, and what behind it
split_at_sign : Text → Option (Text × Text)
split_at_sign [] = none
split_at_sign (c ∷ s) =
    let rest = split_at_sign s in
    if c == b'@'
    then some ([], s)
    else elim rest [ none ↦ none | some (front, back) ↦ some (c ∷ front, back) ]

unfoldable pub is_email : Text → Bool
unfolding split_at_sign plain_part domain
is_email s = elim (split_at_sign s) [
  | none ↦ false
  | some (front, back) ↦ not (is_empty front) && plain_part front && domain back
]

-- `_valid_email`
unfoldable pub valid_email : Option Value → Bool
unfolding is_email
valid_email (some (text t)) = is_email (strip t)
valid_email _ = false

-- what follows one of ns|us|µs|ms|s|m|h
after_unit : List Text → Text → Option Text
after_unit [] s = none
after_unit (u ∷ us) s =
    let other = after_unit us s in elim (after_prefix u s) [ none ↦ other | some rest ↦ some rest ]

abbrev units : List Text
units =
    codes "ns" ∷ codes "us" ∷ (181 ∷ 115 ∷ []) ∷ codes "ms" ∷ codes "s" ∷ codes "m" ∷ codes "h" ∷ []

with_fraction : Text → Text → Option (Text × Text)
with_fraction whole [] = some (whole, [])
with_fraction whole (c ∷ s) =
    let (ds, rest) = span_digits s in
    if c == b'.'
    then (if is_empty ds then none else some (whole ++ (b'.' ∷ ds), rest))
    else some (whole, c ∷ s)

-- [0-9]+(\.[0-9]+)? and its unit at the front of a text
segment : Text → Option (Text × Text)
unfolding with_fraction after_unit
segment s =
    let (ds, rest) = span_digits s in
    if is_empty ds then none else elim (with_fraction ds rest) [
      | none ↦ none
      | some (amount, rest') ↦ elim (after_unit units rest') [
        | none ↦ none
        | some t ↦ some (amount, t)
      ]
    ]

-- The amounts of a text that is one or more segments. A segment has two letters at least.
amounts : ℕ → Text → Option (List Text)
amounts zero s = none
amounts (suc f) s = elim (segment s) [
  | none ↦ none
  | some (amount, t) ↦
      if is_empty t
      then some (amount ∷ [])
      else elim (amounts f t) [ none ↦ none | some rest ↦ some (amount ∷ rest) ]
]

any_positive : (Text → Bool) → List Text → Bool
any_positive positive [] = false
any_positive positive (a ∷ more) = positive a || any_positive positive more

-- `_valid_poll_interval`
unfoldable pub valid_poll_interval : (Text → Bool) → Value → Bool
unfolding amounts segment any_positive
valid_poll_interval positive (text t) = elim (amounts (length t) t) [
  | none ↦ false
  | some found ↦ any_positive positive found
]
valid_poll_interval positive _ = false

-- `extra.get(key, default)`
unfoldable pub get_or : Value → String → Fields → Value
get_or default key extra = elim (get key extra) [ none ↦ default | some v ↦ v ]

unfoldable pub valid_account : Value → Bool
valid_account account = elim (canonical_account account) [ ok s ↦ true | err e ↦ false ]

unfoldable pub valid_threshold : Value → Bool
valid_threshold (integer (pos n)) = leb 1 n && leb n 100
valid_threshold _ = false

-- `allow_from is None or well_formed_allowlist`
unfoldable pub valid_allowlist : Value → Bool
valid_allowlist null = true
valid_allowlist (array vs) = well_formed (values vs)
valid_allowlist _ = false

-- `has_allowlist`
unfoldable pub has_allowlist : Value → Bool
has_allowlist (array nil) = false
has_allowlist (array (cons v vs)) = well_formed (values (cons v vs))
has_allowlist _ = false

-- `requirement_met`, which is False where the code returns or raises before it is known
unfoldable pub requirement_met : (Text → Bool) → Value → Bool
requirement_met can_run null = true
requirement_met can_run (text t) = if is_empty (strip t) then true else can_run (strip t)
requirement_met can_run _ = false

-- `config`, with `config.extra or {}`
pub record Config : Type 0 where
  pub enabled : Bool
  pub extra : Value

module _ (lower : Text → Text) (positive can_run : Text → Bool) where
  unfoldable pub valid_extra : Fields → Bool
  valid_extra extra =
      requirement_met can_run (get_or null "sidecar_binary" extra)
      && (valid_account (get_or null "account" extra)
          && (valid_email (get "own_email" extra)
              && (valid_allowlist (get_or null "allow_from" extra)
                  && ((has_allowlist (get_or null "allow_from" extra)
                        || strict_bool lower (get_or (boolean false) "allow_all_users" extra))
                      && (valid_poll_interval positive
                            (get_or (text (codes "1s")) "poll_interval" extra)
                          && valid_threshold
                              (get_or (integer (pos 5)) "watch_failure_threshold" extra))))))

  -- `validate_config`
  unfoldable pub validate_config : Config → Bool
  validate_config config =
      config.enabled && elim config.extra [ object extra ↦ valid_extra extra | _ ↦ false ]

-- `extras.setdefault(key, value)`
unfoldable pub set_default : String → Value → Fields → Fields
set_default key value d = if has_key key d then d else snoc_field d key value

-- `if key in hey_cfg: extras.setdefault(key, convert(hey_cfg[key]))`
unfoldable pub merge_key : (Value → Value) → Fields → String → Fields → Fields
merge_key convert hey_cfg key extras = elim (get key hey_cfg) [
  | none ↦ extras
  | some v ↦ set_default key (convert v) extras
]

unfoldable pub merge_keys : Fields → List String → Fields → Fields
merge_keys hey_cfg [] extras = extras
merge_keys hey_cfg (key ∷ keys) extras =
    merge_keys hey_cfg keys (merge_key (λ v. v) hey_cfg key extras)

unfoldable pub raw_extra : Option Value → Fields
raw_extra (some (object d)) = d
raw_extra _ = end

unfoldable pub or_none : Fields → Option Fields
or_none end = none
or_none (field k v d) = some (field k v d)

-- `apply_yaml_config`
unfoldable pub apply_yaml_config : (Text → Text) → Fields → Option Fields
unfolding raw_extra or_none
apply_yaml_config lower hey_cfg = or_none (
    merge_key (λ v. boolean (strict_bool lower v)) hey_cfg "allow_all_users"
      (merge_keys hey_cfg
        ("account" ∷ "own_email" ∷ "config_dir" ∷ "credential_dir" ∷ "sidecar_binary"
          ∷ "poll_interval" ∷ "watch_failure_threshold" ∷ "allow_from" ∷ [])
        (raw_extra (get "extra" hey_cfg))))

valid_email_examples :
    (is_email (codes "a@b.c") ≡ true)
    × (is_email (codes "a@bc") ≡ false)
    × (is_email (codes "a@.c") ≡ false)
    × (is_email (codes "a@b@c.d") ≡ false)
unfolding is_email split_at_sign plain_part domain dot_within is_empty is_space codes
valid_email_examples = (refl, refl, refl, refl)

amounts_example : amounts 7 (codes "1h2.5ms") ≡ some (codes "1" ∷ codes "2.5" ∷ [])
unfolding amounts segment with_fraction after_unit after_prefix span_digits is_empty codes
amounts_example = refl
