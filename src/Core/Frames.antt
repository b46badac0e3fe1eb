-- ===== src/Core/Frames.antt =====
-- The frames that the sidecar's watch sends, as hey_platform/core.py reads them.
use hermes_hey.Prelude.{
  ℕ, String, Text, codes, text_eq, Bool, false, ◌&&◌, ◌||◌, Option, none, some, [], ◌∷◌, ◌==◌,
  if◌then◌else◌, Result, ok, value_error, type_error, raise, ◌>>=◌, ◌>>◌, require,
}
use hermes_hey.Json.{
  Value, Fields, pos, integer, text, object, boolean, get, get_item, keys_eq, dict_eq,
}
use hermes_hey.Strings.{strip, is_empty}
use hermes_hey.Core.Event.{HeyEvent, from_dict, to_dict}

-- `value == "..."`
unfoldable pub equals : Value → String → Bool
unfolding text_eq
equals (text t) s = text_eq t (codes s)
equals _ s = false

-- `value.get("type") == "..."`
unfoldable pub has_type : String → Fields → Bool
unfolding get equals
has_type s value = elim (get "type" value) [ none ↦ false | some v ↦ equals v s ]

-- `type(actual) is int and actual == n`
unfoldable pub is_int : Value → ℕ → Bool
is_int (integer (pos m)) n = m == n
is_int _ n = false

unfoldable pub parse_ready_frame : Fields → ℕ → Result (Unit {0})
unfolding equals is_int
parse_ready_frame value protocol_version = do
  require (keys_eq value ("type" ∷ "protocol_version" ∷ [])) value_error
      "HEY SDK watch must send an exact ready frame"
  kind ← get_item "type" value
  require (equals kind "ready") value_error "HEY SDK watch must start with ready"
  actual ← get_item "protocol_version" value
  require (is_int actual protocol_version) value_error "HEY SDK watch protocol mismatch"

-- the text of a fatal frame's error
unfoldable pub fatal_error : Value → Result (Option Text)
fatal_error (text error) =
    if is_empty (strip error)
    then raise value_error "HEY SDK watch sent a malformed fatal frame"
    else ok (some (strip error))
fatal_error _ = raise value_error "HEY SDK watch sent a malformed fatal frame"

unfoldable pub parse_fatal_frame : Fields → Result (Option Text)
unfolding has_type fatal_error
parse_fatal_frame value =
    if has_type "fatal" value
    then (do
      require (keys_eq value ("type" ∷ "error" ∷ [])) value_error
          "HEY SDK watch sent a malformed fatal frame"
      error ← get_item "error" value
      fatal_error error)
    else ok none

-- `isinstance(payload, dict)`
unfoldable pub event_payload : Value → Result Fields
event_payload (object payload) = ok payload
event_payload _ = raise type_error "HEY SDK watch returned an invalid event payload"

unfoldable pub parse_event_frame : Fields → Result HeyEvent
unfolding has_type event_payload
parse_event_frame value = do
  require (keys_eq value ("type" ∷ "event" ∷ []) && has_type "event" value) value_error
      "HEY SDK watch returned an invalid post-ready frame"
  item ← get_item "event" value
  payload ← event_payload item
  event ← from_dict payload
  require (dict_eq (to_dict event) payload) value_error
      "HEY SDK watch event payload did not round-trip exactly"
  ok event

-- `strict_bool`; `lower` is Python's `str.lower`
unfoldable pub strict_bool : (Text → Text) → Value → Bool
strict_bool lower (boolean b) = b
strict_bool lower (text t) =
    let s = lower (strip t) in
    text_eq s (codes "1")
    || text_eq s (codes "true")
    || text_eq s (codes "yes")
    || text_eq s (codes "on")
strict_bool lower _ = false
