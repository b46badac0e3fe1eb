-- ===== src/Client/Command.antt =====
-- One command of the sidecar, as hey_platform/client.py runs it: how its output is gathered, what the
-- end of the process and its output come to, and what `HeySDKClient` makes of the answer.
use hermes_hey.Prelude.{
  ℕ, ◌+◌, ◌-◌, String, Text, codes, text_eq, Bool, true, false, not, ◌&&◌, Option, none, some, List,
  [], ◌∷◌, ◌++◌, length, take, ltb, ◌==◌, if◌then◌else◌, Result, ok, err, raise, ErrorClass,
  runtime_error, type_error, duplicate_key, decode_error, raw,
}
use hermes_hey.Exec.{Exec, pure, throw, ◌>>=◌}
use hermes_hey.Decimal.{decimal}
use hermes_hey.Json.{
  ℤ, pos, negsuc, Value, Fields, end, field, boolean, text, object, get, has_key, keys_eq,
}
use hermes_hey.Core.Frames.{equals, is_int}

-- `value[key] = item` for a key that is not there
unfoldable pub snoc_field : Fields → String → Value → Fields
snoc_field end k v = field k v end
snoc_field (field j w d) k v = field j w (snoc_field d k v)

unfoldable pub insert_pairs : Fields → List (String × Value) → Result Fields
unfolding snoc_field
insert_pairs value [] = ok value
insert_pairs value ((key, item) ∷ pairs) =
    let rest = insert_pairs (snoc_field value key item) pairs in
    if has_key key value then raise duplicate_key "" else rest

-- `_reject_duplicate_keys`
unfoldable pub reject_duplicate_keys : List (String × Value) → Result Fields
unfolding insert_pairs
reject_duplicate_keys pairs = insert_pairs end pairs

-- `read_stdout`: the chunks that the pipe gives, the output so far, and the flag `oversized`
unfoldable pub read_stdout : ℕ → List (List ℕ) → List ℕ → List ℕ × Bool
read_stdout max_output [] output = (output, false)
read_stdout max_output ([] ∷ chunks) output = (output, false)
read_stdout max_output ((b ∷ bs) ∷ chunks) output =
    let output' = output ++ take (max_output + 1 - length output) (b ∷ bs) in
    let rest = read_stdout max_output chunks output' in
    if ltb max_output (length output') then (output', true) else rest

abbrev pub max_sidecar_output : ℕ
max_sidecar_output = 1048576

unfoldable pub show_int : ℤ → Text
show_int (pos n) = decimal n
show_int (negsuc n) = codes "-" ++ decimal (n + 1)

unfoldable pub is_zero : ℤ → Bool
is_zero (pos n) = n == 0
is_zero (negsuc n) = false

unfoldable pub failure {ℓ} : {A : Type ℓ} → ErrorClass → Text → Result A
failure c t = err (record { class = c; message = raw t })

-- `except (UnicodeDecodeError, JSONDecodeError, _DuplicateJSONKey)`
unfoldable pub is_invalid_json : ErrorClass → Bool
is_invalid_json decode_error = true
is_invalid_json duplicate_key = true
is_invalid_json _ = false

-- `isinstance(result, dict)`
unfoldable pub as_dict : Text → Value → Result Fields
unfolding failure
as_dict operation (object d) = ok d
as_dict operation _ =
    failure type_error (codes "HEY SDK " ++ (operation ++ codes " returned invalid JSON"))

unfoldable pub decoded : Text → Result Value → Result Fields
unfolding is_invalid_json as_dict failure
decoded operation (ok result) = as_dict operation result
decoded operation (err e) =
    if is_invalid_json e.class
    then failure runtime_error (codes "HEY SDK " ++ (operation ++ codes " returned invalid JSON"))
    else err e

-- the end of `run`; `decode` is `_decode_sidecar_json`
unfoldable pub outcome : (List ℕ → Result Value) → Text → ℤ → List ℕ × Bool → Result Fields
unfolding failure decoded is_zero show_int
outcome decode operation returncode (output, oversized) =
    if oversized
    then failure runtime_error (codes "HEY SDK " ++ (operation ++ codes " returned oversized JSON"))
    else if not (is_zero returncode)
    then failure runtime_error (
        codes "HEY SDK "
        ++ (operation ++ (codes " failed (exit " ++ (show_int returncode ++ codes ")"))))
    else decoded operation (decode output)

-- `PayloadRunner`
abbrev pub Runner : Type 0 → Type 0
Runner W = List Text → Option Fields → Exec W Fields

-- `HeySDKClient`
pub record SdkClient (W : Type 0) : Type 0 where
  pub runner : Runner W
  pub account_id : ℕ
  pub own_email : Text

-- `result.get(key)` passes the test
field_is : (Value → Bool) → String → Fields → Bool
field_is test key result = elim (get key result) [ none ↦ false | some v ↦ test v ]

is_true : Value → Bool
is_true (boolean b) = b
is_true _ = false

is_text : Text → Value → Bool
is_text s (text t) = text_eq t s
is_text s _ = false

abbrev protocol_version : ℕ
protocol_version = 2

abbrev sdk_version : String
sdk_version = "0.24.0"

unfoldable pub is_verified : ℕ → Text → Fields → Bool
unfolding field_is is_true is_text equals is_int
is_verified account_id own_email result =
    keys_eq result ("ok" ∷ "protocol_version" ∷ "sdk_version" ∷ "account" ∷ "email" ∷ [])
    && (field_is is_true "ok" result
        && (field_is (λ v. is_int v protocol_version) "protocol_version" result
            && (field_is (λ v. equals v sdk_version) "sdk_version" result
                && (field_is (λ v. is_int v account_id) "account" result
                    && field_is (is_text own_email) "email" result))))

unfoldable pub is_done : Fields → Bool
unfolding field_is is_true
is_done result = keys_eq result ("ok" ∷ []) && field_is is_true "ok" result

module _ {W : Type 0} (client : SdkClient W) where
  unfoldable pub verify : Exec W Bool
  verify = do
    result ← client.runner (codes "verify" ∷ codes "--own-email" ∷ client.own_email ∷ []) none
    if is_verified client.account_id client.own_email result
        then pure true
        else throw runtime_error "HEY SDK sidecar verification failed"

  unfoldable pub reply : ℕ → Text → Exec W Fields
  reply thread_id content = do
    result ←
        client.runner (codes "reply" ∷ codes "--thread-id" ∷ decimal thread_id ∷ [])
          (some (field "content" (text content) end))
    if is_done result then pure result else throw runtime_error "HEY SDK reply failed"

  unfoldable pub comment : ℕ → Text → Exec W Fields
  comment thread_id content = do
    result ←
        client.runner (codes "comment" ∷ codes "--thread-id" ∷ decimal thread_id ∷ [])
          (some (field "content" (text content) end))
    if is_done result then pure result else throw runtime_error "HEY SDK comment failed"
