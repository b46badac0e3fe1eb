-- ===== src/Core/RoundTrip.antt =====
-- `to_dict` and `from_dict` are inverse on valid events, and `from_dict` accepts nothing else.
use hermes_hey.Prelude.{
  ℕ, ◌<◌, String, Text, text_eq, text_eq_iff, true, ◌≡◌, refl, some, arith, ok, &&-both,
}
use hermes_hey.Json.{
  Fields, pos, integer, text, get, get_item, keys_eq, has_keys, keys_within, dict_eq, plain_eq-text,
  plain_eq-integer,
}
use hermes_hey.Core.Identity.{event_identity, topic_url}
use hermes_hey.Core.Event.{
  HeyEvent, event_keys, to_dict, from_dict, string_item, positive_int_item, is_kind, IsValid,
}

-- The dictionary has exactly the event's keys, with the event's values.
pub record Describes (d : Fields) (e : HeyEvent) : Type 0 where
  pub exact_keys : keys_eq d event_keys ≡ true
  pub at_event_id : get "event_id" d ≡ some (text e.event_id)
  pub at_kind : get "kind" d ≡ some (text e.kind)
  pub at_posting_id : get "posting_id" d ≡ some (integer (pos e.posting_id))
  pub at_thread_id : get "thread_id" d ≡ some (integer (pos e.thread_id))
  pub at_entry_id : get "entry_id" d ≡ some (integer (pos e.entry_id))
  pub at_account_id : get "account_id" d ≡ some (integer (pos e.account_id))
  pub at_sender_id : get "sender_id" d ≡ some (integer (pos e.sender_id))
  pub at_sender_name : get "sender_name" d ≡ some (text e.sender_name)
  pub at_sender_email : get "sender_email" d ≡ some (text e.sender_email)
  pub at_subject : get "subject" d ≡ some (text e.subject)
  pub at_content : get "content" d ≡ some (text e.content)
  pub at_app_url : get "app_url" d ≡ some (text e.app_url)
  pub at_created_at : get "created_at" d ≡ some (text e.created_at)
  pub at_box_kind : get "box_kind" d ≡ some (text e.box_kind)

string_item-eq-ok :
    (k : String) (d : Fields) (t : Text) → string_item k d ≡ ok t → get k d ≡ some (text t)
unfolding string_item get_item
string_item-eq-ok k d t h = ground arith

positive_int_item-eq-ok :
    (k : String) (d : Fields) (n : ℕ)
    → positive_int_item k d ≡ ok n
    → (get k d ≡ some (integer (pos n))) × (0 < n)
unfolding positive_int_item get_item
positive_int_item-eq-ok k d n h = ground arith

module _ (d : Fields) (e : HeyEvent) (accepted : from_dict d ≡ ok e) where
  guards :
      (keys_eq d event_keys ≡ true)
      × (is_kind e.kind ≡ true)
      × (text_eq e.event_id (event_identity e.thread_id e.entry_id) ≡ true)
      × (text_eq e.app_url (topic_url e.thread_id) ≡ true)
  unfolding from_dict
  guards = ground arith

  texts :
      (string_item "event_id" d ≡ ok e.event_id)
      × (string_item "kind" d ≡ ok e.kind)
      × (string_item "sender_name" d ≡ ok e.sender_name)
      × (string_item "sender_email" d ≡ ok e.sender_email)
      × (string_item "subject" d ≡ ok e.subject)
      × (string_item "content" d ≡ ok e.content)
      × (string_item "app_url" d ≡ ok e.app_url)
      × (string_item "created_at" d ≡ ok e.created_at)
      × (string_item "box_kind" d ≡ ok e.box_kind)
  unfolding from_dict
  texts = ground arith

  numbers :
      (positive_int_item "posting_id" d ≡ ok e.posting_id)
      × (positive_int_item "thread_id" d ≡ ok e.thread_id)
      × (positive_int_item "entry_id" d ≡ ok e.entry_id)
      × (positive_int_item "account_id" d ≡ ok e.account_id)
      × (positive_int_item "sender_id" d ≡ ok e.sender_id)
  unfolding from_dict
  numbers = ground arith

  -- What `from_dict` accepts is described by the event that it returns.
  pub from_dict-Describes : Describes d e
  from_dict-Describes = record {
    exact_keys = guards.0;
    at_event_id = string_item-eq-ok _ d _ texts.0;
    at_kind = string_item-eq-ok _ d _ texts.1;
    at_posting_id = (positive_int_item-eq-ok _ d _ numbers.0).0;
    at_thread_id = (positive_int_item-eq-ok _ d _ numbers.1).0;
    at_entry_id = (positive_int_item-eq-ok _ d _ numbers.2).0;
    at_account_id = (positive_int_item-eq-ok _ d _ numbers.3).0;
    at_sender_id = (positive_int_item-eq-ok _ d _ numbers.4).0;
    at_sender_name = string_item-eq-ok _ d _ texts.2;
    at_sender_email = string_item-eq-ok _ d _ texts.3;
    at_subject = string_item-eq-ok _ d _ texts.4;
    at_content = string_item-eq-ok _ d _ texts.5;
    at_app_url = string_item-eq-ok _ d _ texts.6;
    at_created_at = string_item-eq-ok _ d _ texts.7;
    at_box_kind = string_item-eq-ok _ d _ texts.8;
  }

  -- An event that `from_dict` returns is valid: its kind is known, its five numbers are positive,
  -- and its identity and its address are those of its thread and entry.
  pub from_dict-IsValid : IsValid e
  from_dict-IsValid = record {
    known_kind = guards.1;
    named = (text_eq_iff _ _).0 guards.2;
    located = (text_eq_iff _ _).0 guards.3;
    posting_pos = (positive_int_item-eq-ok _ d _ numbers.0).1;
    thread_pos = (positive_int_item-eq-ok _ d _ numbers.1).1;
    entry_pos = (positive_int_item-eq-ok _ d _ numbers.2).1;
    account_pos = (positive_int_item-eq-ok _ d _ numbers.3).1;
    sender_pos = (positive_int_item-eq-ok _ d _ numbers.4).1;
  }

string_item_of :
    (k : String) (d : Fields) (t : Text) → get k d ≡ some (text t) → string_item k d ≡ ok t
unfolding string_item get_item
string_item_of k d t h = ground arith

positive_int_item_of :
    (k : String) (d : Fields) (n : ℕ)
    → get k d ≡ some (integer (pos n))
    → 0 < n
    → positive_int_item k d ≡ ok n
unfolding positive_int_item get_item
positive_int_item_of k d n h p = ground arith

-- A dictionary that a valid event describes is read as that event.
pub from_dict_of_Describes :
    (d : Fields) (e : HeyEvent) → Describes d e → IsValid e → from_dict d ≡ ok e
unfolding from_dict
from_dict_of_Describes d e h v = rw (
  h.exact_keys,
  string_item_of _ d _ h.at_event_id,
  string_item_of _ d _ h.at_kind,
  v.known_kind,
  positive_int_item_of _ d _ h.at_thread_id v.thread_pos,
  positive_int_item_of _ d _ h.at_entry_id v.entry_pos,
  (text_eq_iff e.event_id _).1 v.named,
  string_item_of _ d _ h.at_app_url,
  (text_eq_iff e.app_url _).1 v.located,
  positive_int_item_of _ d _ h.at_posting_id v.posting_pos,
  positive_int_item_of _ d _ h.at_account_id v.account_pos,
  positive_int_item_of _ d _ h.at_sender_id v.sender_pos,
  string_item_of _ d _ h.at_sender_name,
  string_item_of _ d _ h.at_sender_email,
  string_item_of _ d _ h.at_subject,
  string_item_of _ d _ h.at_content,
  string_item_of _ d _ h.at_created_at,
  string_item_of _ d _ h.at_box_kind,
)

pub to_dict-Describes : (e : HeyEvent) → Describes (to_dict e) e
unfolding to_dict get keys_eq
to_dict-Describes e = record {
  exact_keys = refl;
  at_event_id = refl;
  at_kind = refl;
  at_posting_id = refl;
  at_thread_id = refl;
  at_entry_id = refl;
  at_account_id = refl;
  at_sender_id = refl;
  at_sender_name = refl;
  at_sender_email = refl;
  at_subject = refl;
  at_content = refl;
  at_app_url = refl;
  at_created_at = refl;
  at_box_kind = refl;
}

-- Writing a valid event as a dictionary and reading it back gives the event.
pub from_dict-to_dict : (e : HeyEvent) → IsValid e → from_dict (to_dict e) ≡ ok e
from_dict-to_dict e v = from_dict_of_Describes (to_dict e) e (to_dict-Describes e) v

keys_within_of_eq : (d : Fields) → keys_eq d event_keys ≡ true → keys_within d event_keys ≡ true
unfolding keys_eq
keys_within_of_eq d h = (&&-both (has_keys event_keys d) _ h).1

pub dict_eq-Describes : (d : Fields) (e : HeyEvent) → Describes d e → dict_eq (to_dict e) d ≡ true
unfolding dict_eq to_dict
dict_eq-Describes d e h =
    rw
      (
        h.at_event_id,
        plain_eq-text e.event_id,
        h.at_kind,
        plain_eq-text e.kind,
        h.at_posting_id,
        plain_eq-integer e.posting_id,
        h.at_thread_id,
        plain_eq-integer e.thread_id,
        h.at_entry_id,
        plain_eq-integer e.entry_id,
        h.at_account_id,
        plain_eq-integer e.account_id,
        h.at_sender_id,
        plain_eq-integer e.sender_id,
        h.at_sender_name,
        plain_eq-text e.sender_name,
        h.at_sender_email,
        plain_eq-text e.sender_email,
        h.at_subject,
        plain_eq-text e.subject,
        h.at_content,
        plain_eq-text e.content,
        h.at_app_url,
        plain_eq-text e.app_url,
        h.at_created_at,
        plain_eq-text e.created_at,
        h.at_box_kind,
        plain_eq-text e.box_kind,
      )
      (keys_within_of_eq d h.exact_keys)
