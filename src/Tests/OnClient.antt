-- ===== src/Tests/OnClient.antt =====
-- The theorems on the sidecar's client, on the settings, on the supervisor and on Windows paths.
use hermes_hey.Prelude.{
  ◌<◌, ℕ, ◌+◌, ◌≤◌, String, Text, codes, text_eq, Bool, true, false, not, ◌≡◌, refl, some, List, [],
  ◌∷◌, length, take, ltb, Result, ok, arith, if◌then◌else◌, ◌⊎◌,
}
use hermes_hey.Decimal.{decimal, int_of_digits, span_digits, is_canonical}
use hermes_hey.Strings.{is_empty, strip}
use hermes_hey.Json.{
  Value, Fields, field, end, text, null, boolean, object, array, nil, cons, integer, pos, get,
  values,
}
use hermes_hey.Core.Frames.{strict_bool}
use hermes_hey.Core.Identity.{after_prefix}
use hermes_hey.Client.Account.{canonical_account, is_number}
use hermes_hey.Client.Command.{read_stdout, SdkClient}
use hermes_hey.Client.Output.{read_stdout-take, joined}
use hermes_hey.Client.Range.{canonical_account-range}
use hermes_hey.Plugin.Config.{
  validate_config, valid_extra, get_or, has_allowlist, valid_account, valid_email, valid_allowlist,
  valid_poll_interval, valid_threshold, requirement_met, well_formed, is_email,
}
use hermes_hey.Plugin.Settings.{validate_config_sound}
use hermes_hey.Adapter.Watching.{supervise, fatal, failed, Ending}
use hermes_hey.Adapter.Connections.{supervise-gives_up}
use hermes_hey.Queue.State.{contains_text, subset}
use hermes_hey.Windows.Privacy.{
  Metadata, path_is_secure, path_is_secure-private, system_sid, administrators_sid,
}

read_stdout-take_example : read_stdout 2 ((7 ∷ 8 ∷ []) ∷ (9 ∷ 10 ∷ []) ∷ []) [] ≡ (
  take (2 + 1) (joined ((7 ∷ 8 ∷ []) ∷ (9 ∷ 10 ∷ []) ∷ [])),
  ltb 2 (length (joined ((7 ∷ 8 ∷ []) ∷ (9 ∷ 10 ∷ []) ∷ []))),
)
read_stdout-take_example =
    read_stdout-take 2 ((7 ∷ 8 ∷ []) ∷ (9 ∷ 10 ∷ []) ∷ []) [] (omega arith)
      (omega arith, (omega arith, tt))

abbrev done : Fields
done = field "ok" (boolean true) end

abbrev decode_done : List ℕ → Result Value
decode_done bytes = ok (object done)

abbrev two_pairs : List (String × Value)
two_pairs = ("ok", boolean true) ∷ ("ok", boolean false) ∷ []

abbrev verified : Fields
verified = field "ok" (boolean true) (
    field "protocol_version" (integer (pos 2)) (
      field "sdk_version" (text (codes "0.24.0"))
        (field "account" (integer (pos 9)) (field "email" (text (codes "a@b.c")) end))))

-- A sidecar that counts its runs.
abbrev sidecar : Fields → SdkClient ℕ
sidecar answer = record {
  runner = λ args payload w. (ok answer, w + 1);
  account_id = 9;
  own_email = codes "a@b.c";
}

abbrev nine : Text
nine = codes "9"

nine_accepted : canonical_account (text nine) ≡ ok nine
unfolding canonical_account is_number span_digits is_canonical is_empty codes
nine_accepted = refl

canonical_account-range_example :
    (nine ≡ decimal (int_of_digits nine))
    × (0 < int_of_digits nine)
    × (int_of_digits nine ≤ 9223372036854775807)
canonical_account-range_example = canonical_account-range (text nine) nine nine_accepted

abbrev settings : Fields
settings = field "account" (text (codes "9")) (
    field "own_email" (text (codes "a@b.c"))
      (field "allow_from" (array (cons (text (codes "d@e.f")) nil)) end))

abbrev positive : Text → Bool
positive amount = not (text_eq amount (codes "0"))

abbrev can_run : Text → Bool
can_run name = false

settings_valid :
    validate_config (λ t. t) positive can_run (record { enabled = true; extra = object settings })
    ≡ true
unfolding validate_config valid_extra requirement_met valid_account canonical_account is_number
    span_digits is_canonical is_empty valid_email strip valid_allowlist has_allowlist well_formed
    values valid_poll_interval after_prefix valid_threshold get_or get text_eq codes is_email
settings_valid = refl

validate_config_sound_example :
    (true ≡ true)
    × ((account : Text) × (get_or null "account" settings ≡ text account)
        × (canonical_account (text account) ≡ ok account))
    × ((has_allowlist (get_or null "allow_from" settings) ≡ true)
        ⊎ (strict_bool (λ t. t) (get_or (boolean false) "allow_all_users" settings) ≡ true))
    × ((n : ℕ) × (get_or (integer (pos 5)) "watch_failure_threshold" settings ≡ integer (pos n))
        × (1 ≤ n)
        × (n ≤ 100))
validate_config_sound_example =
    validate_config_sound (λ t. t) positive can_run true settings settings_valid

abbrev yaml : Fields
yaml = field "extra" (object settings) (field "account" (text (codes "8")) end)

abbrev two_failures : List Ending
two_failures = failed false ∷ failed false ∷ []

supervise-gives_up_example : (supervise 2 0 two_failures).1 ≡ some fatal
supervise-gives_up_example =
    supervise-gives_up 2 0 two_failures (refl, (refl, tt)) (omega arith) (omega arith)

abbrev folder : Metadata
folder = record { is_reparse_point = false; is_dir = true; is_reg = false }

abbrev user_sid : Text
user_sid = codes "S-1-5-21"

abbrev folder_acl : Result (Text × (Text × List Text))
folder_acl = ok (user_sid, (user_sid, user_sid ∷ system_sid ∷ []))

folder_secure : path_is_secure true (ok folder) folder_acl ≡ ok true
unfolding path_is_secure text_eq codes contains_text subset
folder_secure = refl

path_is_secure-private_example :
    (m : Metadata) × (owner : Text) × (allowed_sids : List Text) × (ok folder ≡ ok m)
    × (folder_acl ≡ ok (owner, (owner, allowed_sids)))
    × (m.is_reparse_point ≡ false)
    × ((if true then m.is_dir else m.is_reg) ≡ true)
    × (contains_text owner allowed_sids ≡ true)
    × (subset allowed_sids (owner ∷ system_sid ∷ administrators_sid ∷ []) ≡ true)
path_is_secure-private_example = path_is_secure-private true (ok folder) folder_acl folder_secure
