-- ===== src/Plugin/Settings.antt =====
-- What valid settings promise the adapter, and which settings a merge keeps.
use hermes_hey.Prelude.{
  ℕ, ◌≤◌, String, Text, Bool, true, false, none, some, List, [], ◌∷◌, ◌≡◌, refl, ◌⊎◌, inl, inr,
  arith, if◌then◌else◌, ok, str_eq, Result-cases, Option-cases,
}
use hermes_hey.Json.{
  Value, Fields, end, field, null, boolean, integer, real, non_finite, text, array, object, pos,
  negsuc, get, has_key,
}
use hermes_hey.Core.Frames.{strict_bool}
use hermes_hey.Client.Account.{canonical_account, canonical_account_lem}
use hermes_hey.Client.Command.{snoc_field}
use hermes_hey.Plugin.Config.{
  validate_config, valid_extra, valid_account, valid_threshold, has_allowlist, get_or, set_default,
  merge_key, merge_keys, apply_yaml_config, raw_extra, or_none,
}

valid_account_lem :
    (v : Value) → valid_account v ≡ true → (s : Text) × (v ≡ text s) × (canonical_account v ≡ ok s)
unfolding valid_account
valid_account_lem v h = elim (Result-cases (canonical_account v)) [
  | inl (s, e) ↦ (s, (canonical_account_lem v s e).0, e)
  | inr (e, bad) ↦ absurd (ground (arith, bad))
]

valid_threshold_lem :
    (v : Value) → valid_threshold v ≡ true → (n : ℕ) × (v ≡ integer (pos n)) × (1 ≤ n) × (n ≤ 100)
unfolding valid_threshold
valid_threshold_lem (integer (pos n)) h = (n, refl, ground arith, ground arith)
valid_threshold_lem (integer (negsuc n)) h = absurd (ground arith)
valid_threshold_lem null h = absurd (ground arith)
valid_threshold_lem (boolean b) h = absurd (ground arith)
valid_threshold_lem (text t) h = absurd (ground arith)
valid_threshold_lem (real m k) h = absurd (ground arith)
valid_threshold_lem non_finite h = absurd (ground arith)
valid_threshold_lem (array vs) h = absurd (ground arith)
valid_threshold_lem (object d) h = absurd (ground arith)

-- Where a mapping is given and the configuration is found valid, it is enabled, its account is a
-- text that `canonical_account` returns, it has an allowlist that names somebody or the leave for
-- all users, and its failure threshold is an integer between 1 and 100.
pub validate_config_sound :
    (lower : Text → Text) (positive can_run : Text → Bool) (enabled : Bool) (extra : Fields)
    → validate_config lower positive can_run (record { enabled = enabled; extra = object extra })
      ≡ true
    → (enabled ≡ true)
      × ((account : Text) × (get_or null "account" extra ≡ text account)
          × (canonical_account (text account) ≡ ok account))
      × ((has_allowlist (get_or null "allow_from" extra) ≡ true)
          ⊎ (strict_bool lower (get_or (boolean false) "allow_all_users" extra) ≡ true))
      × ((n : ℕ) × (get_or (integer (pos 5)) "watch_failure_threshold" extra ≡ integer (pos n))
          × (1 ≤ n)
          × (n ≤ 100))
unfolding validate_config valid_extra
validate_config_sound lower positive can_run enabled extra h =
    let (account, e, canonical) = valid_account_lem (get_or null "account" extra) (ground arith) in
    (
      ground arith,
      (account, e, rw e at canonical),
      ground arith,
      valid_threshold_lem (get_or (integer (pos 5)) "watch_failure_threshold" extra) (ground arith),
    )

get-snoc_field :
    (k j : String) (v : Value) (d : Fields)
    → get k (snoc_field d j v)
      ≡ elim (get k d) [ none ↦ if str_eq j k then some v else none | some w ↦ some w ]
unfolding get snoc_field
get-snoc_field k j v end = ground arith
get-snoc_field k j v (field i w d) = ground (arith, get-snoc_field k j v d)

get_of_has_key : (k : String) (d : Fields) (w : Value) → get k d ≡ some w → has_key k d ≡ true
unfolding get has_key
get_of_has_key k end w h = absurd (ground arith)
get_of_has_key k (field i v d) w h = ground (arith, get_of_has_key k d w)

get-merge_key :
    (convert : Value → Value) (hey_cfg : Fields) (k j : String) (d : Fields) (w : Value)
    → get k d ≡ some w
    → get k (merge_key convert hey_cfg j d) ≡ some w
unfolding merge_key set_default
get-merge_key convert hey_cfg k j d w h = elim (Option-cases (get j hey_cfg)) [
  | inl absent ↦ ground (arith, absent)
  | inr (v, present) ↦ ground (arith, present, get-snoc_field k j (convert v) d)
]

get-merge_keys :
    (hey_cfg : Fields) (k : String) (keys : List String) (d : Fields) (w : Value)
    → get k d ≡ some w
    → get k (merge_keys hey_cfg keys d) ≡ some w
unfolding merge_keys
get-merge_keys hey_cfg k [] d w h = h
get-merge_keys hey_cfg k (j ∷ keys) d w h =
    get-merge_keys hey_cfg k keys (merge_key (λ v. v) hey_cfg j d) w
      (get-merge_key (λ v. v) hey_cfg k j d w h)

or_none-get : (k : String) (d : Fields) (w : Value) → get k d ≡ some w → or_none d ≡ some d
unfolding get or_none
or_none-get k end w h = absurd (ground arith)
or_none-get k (field i v d) w h = refl

-- Where the platform's section has a dictionary under `extra`, the merge returns settings in which
-- each key of that dictionary has its value from there, whatever stands beside it.
pub apply_yaml_config-extra :
    (lower : Text → Text) (hey_cfg extra : Fields) (k : String) (w : Value)
    → get "extra" hey_cfg ≡ some (object extra)
    → get k extra ≡ some w
    → (result : Fields) × (apply_yaml_config lower hey_cfg ≡ some result) × (get k result ≡ some w)
unfolding apply_yaml_config raw_extra
apply_yaml_config-extra lower hey_cfg extra k w given h =
    let keys =
      "account" ∷ "own_email" ∷ "config_dir" ∷ "credential_dir" ∷ "sidecar_binary" ∷ "poll_interval"
      ∷ "watch_failure_threshold" ∷ "allow_from" ∷ [] in
    let merged = merge_keys hey_cfg keys extra in
    let convert : Value → Value = λ v. boolean (strict_bool lower v) in
    let result = merge_key convert hey_cfg "allow_all_users" merged in
    let kept : get k result ≡ some w =
      get-merge_key convert hey_cfg k "allow_all_users" merged w
        (get-merge_keys hey_cfg k keys extra w h) in
    (result, rw given (or_none-get k result w kept), kept)
