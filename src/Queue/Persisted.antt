-- ===== src/Queue/Persisted.antt =====
-- The event dictionaries of the state file, `_parse_persisted_event` of hey_platform/engine.py.
use hermes_hey.Prelude.{
  String, codes, [], ◌∷◌, List, Result, ok, raise, type_error, value_error, ◌>>=◌, ◌>>◌, require,
  if◌then◌else◌,
}
use hermes_hey.Json.{Value, Fields, text, object, end, field, keys_eq, dict_eq}
use hermes_hey.Core.Event.{HeyEvent, event_keys, from_dict, to_dict}

-- `_LEGACY_MESSAGE_EVENT_KEYS`
abbrev pub legacy_message_event_keys : List String
legacy_message_event_keys =
    "event_id" ∷ "posting_id" ∷ "thread_id" ∷ "entry_id" ∷ "account_id" ∷ "sender_id"
    ∷ "sender_name" ∷ "sender_email" ∷ "subject" ∷ "content" ∷ "app_url" ∷ "created_at" ∷ "box_kind"
    ∷ []

-- `value[key] = item`, where the key is not there
unfoldable pub add_item : String → Value → Fields → Fields
add_item k v end = field k v end
add_item k v (field j w d) = field j w (add_item k v d)

unfoldable pub normalize : Fields → Result Fields
unfolding add_item
normalize value =
    if keys_eq value legacy_message_event_keys
    then ok (add_item "kind" (text (codes "message")) value)
    else if keys_eq value event_keys
    then ok value
    else raise value_error "invalid persisted HEY event"

unfoldable pub parse_normalized : Fields → Result HeyEvent
parse_normalized normalized = do
  parsed ← from_dict normalized
  require (dict_eq (to_dict parsed) normalized) value_error "persisted HEY event requires coercion"
  ok parsed

unfoldable pub parse_persisted_event : Value → Result HeyEvent
parse_persisted_event (object value) = do normalized ← normalize value; parse_normalized normalized
parse_persisted_event _ = raise type_error "invalid persisted HEY event"
