-- ===== src/Queue/State.antt =====
-- The state of the queue and its file format: `_load` from the bytes on, `_trim`, and `_save` up
-- to the bytes, of hey_platform/engine.py.
use mathlib.Core.List.{reverse}
use hermes_hey.Prelude.{
  ℕ, ◌-◌, Text, text_eq, Bool, true, false, not, ◌&&◌, ◌||◌, Option, none, some, List, [], ◌∷◌,
  ◌++◌, map, length, drop, leb, ◌==◌, if◌then◌else◌, Result, ok, err, raise, ErrorClass,
  value_error, decode_error, runtime_error, is_key_type_or_value, ◌>>=◌, ◌>>◌, require, collect,
}
use hermes_hey.Json.{
  Value, Fields, text, array, object, end, field, get_item, keys_eq, items, values,
}
use hermes_hey.Core.Event.{identity, from_dict, to_dict}
use hermes_hey.Core.Identity.{is_event_identity}
use hermes_hey.Queue.Persisted.{parse_persisted_event}

-- Python's bytes `B`, JSON and UTF-8: `size` is `len`, `front n b` is `b[:n]`, `dumps` is
-- `json.dumps(value, ensure_ascii=False, sort_keys=True)` with `encode("utf-8")`, and `loads` is
-- `decode("utf-8")` with `json.loads`.
pub record Codec (B : Type 0) : Type 0 where
  pub size : B → ℕ
  pub front : ℕ → B → B
  pub dumps : Value → Result B
  pub loads : B → Result Value

pub record DurableQueue : Type 0 where
  pub max_seen : ℕ
  pub max_pending : ℕ
  pub max_state_bytes : ℕ

at_least : ℕ → ℕ → ℕ
at_least low n = if leb low n then n else low

-- `__init__`; its numbers are by default 10_000, 10_000 and 16 << 20
unfoldable pub init : ℕ → ℕ → ℕ → DurableQueue
unfolding at_least
init max_seen max_pending max_state_bytes = record {
  max_seen = at_least 100 max_seen;
  max_pending = at_least 1 max_pending;
  max_state_bytes = at_least 1 max_state_bytes;
}

-- `value` of `_load`, a dictionary with two lists
pub record State : Type 0 where
  pub seen : List Text
  pub pending : List Fields

abbrev pub empty : State
empty = record { seen = []; pending = [] }

-- `x in xs`
unfoldable pub contains_text : Text → List Text → Bool
contains_text x [] = false
contains_text x (y ∷ ys) = text_eq x y || contains_text x ys

-- `len(set(xs)) == len(xs)`
unfoldable pub distinct : List Text → Bool
unfolding contains_text
distinct [] = true
distinct (x ∷ xs) = not (contains_text x xs) && distinct xs

-- `xs <= ys` for sets
unfoldable pub subset : List Text → List Text → Bool
unfolding contains_text
subset [] ys = true
subset (x ∷ xs) ys = contains_text x ys && subset xs ys

unfoldable pub seen_identity : Value → Result Text
seen_identity (text identity) =
    if is_event_identity identity
    then ok identity
    else raise value_error "invalid persisted HEY identity"
seen_identity _ = raise value_error "invalid persisted HEY identity"

-- the `try` block of `_load`
unfoldable pub parse_lists : List Value → List Value → Result State
parse_lists seen pending = do
  identities ← collect seen_identity seen
  require (distinct identities) value_error "duplicate seen HEY identity"
  parsed ← collect parse_persisted_event pending
  require (distinct (map identity parsed)) value_error "duplicate pending HEY identity"
  require (subset (map identity parsed) identities) value_error
      "pending HEY identity is missing from seen"
  ok (record { seen = identities; pending = map to_dict parsed })

abbrev pub unreadable {ℓ} : {A : Type ℓ} → Result A
unreadable = raise runtime_error "HEY state is unreadable; refusing overwrite"

-- `except (KeyError, TypeError, ValueError)`
unfoldable pub catch_invalid : Result State → Result State
catch_invalid (ok s) = ok s
catch_invalid (err e) = if is_key_type_or_value e.class then unreadable else err e

is_decode_error : ErrorClass → Bool
is_decode_error decode_error = true
is_decode_error _ = false

-- `except (UnicodeDecodeError, json.JSONDecodeError)`
unfoldable pub catch_decode : Result Value → Result Value
unfolding is_decode_error
catch_decode (ok v) = ok v
catch_decode (err e) = if is_decode_error e.class then unreadable else err e

unfoldable pub list_of : Value → Result (List Value)
list_of (array xs) = ok (values xs)
list_of _ = unreadable

unfoldable pub dict_of : Value → Result Fields
dict_of (object d) = if keys_eq d ("seen" ∷ "pending" ∷ []) then ok d else unreadable
dict_of _ = unreadable

-- `_load` from the two lists on
unfoldable pub load_lists : DurableQueue → List Value → List Value → Result State
load_lists q seen pending = do
  require (leb (length pending) q.max_pending) runtime_error "HEY pending queue exceeds capacity"
  catch_invalid (parse_lists seen pending)

-- `_load` from the decoded value on
unfoldable pub load_value : DurableQueue → Value → Result State
load_value q value = do
  d ← dict_of value
  seen_value ← get_item "seen" d
  seen ← list_of seen_value
  pending_value ← get_item "pending" d
  pending ← list_of pending_value
  load_lists q seen pending

module _ {B : Type 0} (codec : Codec B) (q : DurableQueue) where
  -- `_load` after the file has been read
  unfoldable pub load_state : Option B → Result State
  load_state none = ok empty
  load_state (some encoded) = do
    require (leb (codec.size encoded) q.max_state_bytes) runtime_error
        "HEY state exceeds capacity; refusing overwrite"
    value ← catch_decode (codec.loads encoded)
    load_value q value

-- the loop of `_trim` over the reversed list
unfoldable pub trim_loop : List Text → List Text → List Text → List Text
trim_loop [] known result = result
trim_loop (v ∷ vs) known result =
    trim_loop vs (if contains_text v known then known else v ∷ known)
      (if contains_text v known then result else result ++ v ∷ [])

-- `result[-cap:]`, which is the whole list if `cap` is 0
unfoldable pub last_items : ℕ → List Text → List Text
last_items cap result = if cap == 0 then result else drop (length result - cap) result

-- `_trim`
unfoldable pub trim : List Text → ℕ → List Text
trim vs cap = last_items cap (reverse (trim_loop (reverse vs) [] []))

unfoldable pub without : List Text → List Text → List Text
without [] removed = []
without (x ∷ xs) removed =
    let rest = without xs removed in if contains_text x removed then rest else x ∷ rest

unfoldable pub event_identity_of : Fields → Result Text
event_identity_of item = do event ← from_dict item; ok (identity event)

-- the list of `complete`, `[item for item in pending if from_dict(item).identity != identity]`
unfoldable pub keep_others : Text → List Fields → Result (List Fields)
keep_others id [] = ok []
keep_others id (item ∷ rest) =
    let kept = keep_others id rest in
    do
      event ← from_dict item
      others ← kept
      ok (if text_eq (identity event) id then others else item ∷ others)

-- `{"seen": seen, "pending": pending}`
unfoldable pub state_value : List Text → List Fields → Value
state_value seen pending = object (
    field "seen" (array (items (map text seen)))
      (field "pending" (array (items (map object pending))) end))

-- `durable_seen` of `_save`
unfoldable pub durable_seen : DurableQueue → List Text → List Text → List Text
durable_seen q seen pending_ids =
    trim (without seen pending_ids) q.max_seen ++ trim pending_ids (length pending_ids)

module _ {B : Type 0} (codec : Codec B) (q : DurableQueue) where
  -- `_save` before the file is written
  unfoldable pub encode_state : List Text → List Fields → Result B
  encode_state seen pending = do
    pending_ids ← collect event_identity_of pending
    encoded ← codec.dumps (state_value (durable_seen q seen pending_ids) pending)
    require (leb (codec.size encoded) q.max_state_bytes) runtime_error
        "HEY state exceeds capacity; refusing write"
    ok encoded
