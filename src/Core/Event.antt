-- ===== src/Core/Event.antt =====
-- `HeyEvent` of hey_platform/core.py and its dictionaries.
use hermes_hey.Prelude.{
  ℕ, suc, ◌<◌, String, Text, codes, text_eq, Bool, true, ◌||◌, ◌≡◌, List, [], ◌∷◌, ◌++◌, Result, ok,
  err, ErrorClass, value_error, type_error, raw, ◌>>=◌, ◌>>◌, require,
}
use hermes_hey.Json.{Value, Fields, pos, integer, text, end, field, get_item, keys_eq}
use hermes_hey.Core.Identity.{event_identity, topic_url}

-- `_EVENT_KEYS`
abbrev pub event_keys : List String
event_keys =
    "event_id" ∷ "kind" ∷ "posting_id" ∷ "thread_id" ∷ "entry_id" ∷ "account_id" ∷ "sender_id"
    ∷ "sender_name" ∷ "sender_email" ∷ "subject" ∷ "content" ∷ "app_url" ∷ "created_at" ∷ "box_kind"
    ∷ []

-- The identifiers are Python integers that `_positive_int` has passed.
pub record HeyEvent : Type 0 where
  pub event_id : Text
  pub kind : Text
  pub posting_id : ℕ
  pub thread_id : ℕ
  pub entry_id : ℕ
  pub account_id : ℕ
  pub sender_id : ℕ
  pub sender_name : Text
  pub sender_email : Text
  pub subject : Text
  pub content : Text
  pub app_url : Text
  pub created_at : Text
  pub box_kind : Text

-- `identity`, the property of `HeyEvent`
abbrev pub identity : HeyEvent → Text
identity e = e.event_id

complaint {ℓ} : {A : Type ℓ} → ErrorClass → String → String → Result A
complaint c name rest =
    err (record { class = c; message = raw (codes "HEY " ++ (codes name ++ codes rest)) })

-- `_positive_int`; a `bool` is no integer here, though Python's `isinstance` takes it for one
unfoldable pub positive_int : Value → String → Result ℕ
unfolding complaint
positive_int (integer (pos (suc n))) name = ok (suc n)
positive_int _ name = complaint value_error name " must be a positive integer"

-- `_string`
unfoldable pub string : Value → String → Result Text
unfolding complaint
string (text t) name = ok t
string _ name = complaint type_error name " must be a string"

unfoldable pub string_item : String → Fields → Result Text
unfolding string
string_item k d = do v ← get_item k d; string v k

unfoldable pub positive_int_item : String → Fields → Result ℕ
unfolding positive_int
positive_int_item k d = do v ← get_item k d; positive_int v k

unfoldable pub is_kind : Text → Bool
unfolding text_eq codes
is_kind k = text_eq k (codes "message") || text_eq k (codes "comment")

unfoldable pub to_dict : HeyEvent → Fields
to_dict e = field "event_id" (text e.event_id) (
    field "kind" (text e.kind) (
      field "posting_id" (integer (pos e.posting_id)) (
        field "thread_id" (integer (pos e.thread_id)) (
          field "entry_id" (integer (pos e.entry_id)) (
            field "account_id" (integer (pos e.account_id)) (
              field "sender_id" (integer (pos e.sender_id)) (
                field "sender_name" (text e.sender_name) (
                  field "sender_email" (text e.sender_email) (
                    field "subject" (text e.subject) (
                      field "content" (text e.content) (
                        field "app_url" (text e.app_url) (
                          field "created_at" (text e.created_at)
                            (field "box_kind" (text e.box_kind) end)))))))))))))

unfoldable pub from_dict : Fields → Result HeyEvent
from_dict value = do
  require (keys_eq value event_keys) value_error "HEY event payload must contain exact keys"
  event_id ← string_item "event_id" value
  kind ← string_item "kind" value
  require (is_kind kind) value_error "HEY kind must be message or comment"
  thread_id ← positive_int_item "thread_id" value
  entry_id ← positive_int_item "entry_id" value
  require (text_eq event_id (event_identity thread_id entry_id)) value_error
      "HEY event identity does not match thread and entry"
  app_url ← string_item "app_url" value
  require (text_eq app_url (topic_url thread_id)) value_error
      "HEY event app_url does not match thread context"
  posting_id ← positive_int_item "posting_id" value
  account_id ← positive_int_item "account_id" value
  sender_id ← positive_int_item "sender_id" value
  sender_name ← string_item "sender_name" value
  sender_email ← string_item "sender_email" value
  subject ← string_item "subject" value
  content ← string_item "content" value
  created_at ← string_item "created_at" value
  box_kind ← string_item "box_kind" value
  ok (record {
    event_id = event_id;
    kind = kind;
    posting_id = posting_id;
    thread_id = thread_id;
    entry_id = entry_id;
    account_id = account_id;
    sender_id = sender_id;
    sender_name = sender_name;
    sender_email = sender_email;
    subject = subject;
    content = content;
    app_url = app_url;
    created_at = created_at;
    box_kind = box_kind;
  })

-- What `from_dict` promises of an event.
pub record IsValid (e : HeyEvent) : Type 0 where
  pub known_kind : is_kind e.kind ≡ true
  pub named : e.event_id ≡ event_identity e.thread_id e.entry_id
  pub located : e.app_url ≡ topic_url e.thread_id
  pub posting_pos : 0 < e.posting_id
  pub thread_pos : 0 < e.thread_id
  pub entry_pos : 0 < e.entry_id
  pub account_pos : 0 < e.account_id
  pub sender_pos : 0 < e.sender_id
