-- ===== src/Tests/Fixtures.antt =====
-- Two events, a codec and a storage in memory, and a queue over them.
use hermes_hey.Prelude.{
  Text, text_eq, codes, refl, sym, Option, none, some, List, [], ◌∷◌, map, ok, inl, inr, arith,
  Option-cases,
}
use hermes_hey.Json.{Value, Fields, object, array, text, field, end, items, keys_eq, has_keys, get}
use hermes_hey.Core.Event.{HeyEvent, IsValid, to_dict, is_kind}
use hermes_hey.Core.Identity.{event_identity, topic_url}
use hermes_hey.Core.RoundTrip.{to_dict-Describes}
use hermes_hey.Queue.State.{Codec, DurableQueue, load_state, state_value, distinct, subset}
use hermes_hey.Queue.Format.{CodecLaws, AllDescribe, Reads}
use hermes_hey.Queue.Spec.{Ledger}
use hermes_hey.Queue.Transaction.{Storage}
use hermes_hey.Queue.Refinement.{StorageLaws, Keeps}

-- the entry 17 of the thread 4, of the account 9
abbrev pub mail : HeyEvent
mail = record {
  event_id = event_identity 4 17;
  kind = codes "message";
  posting_id = 3;
  thread_id = 4;
  entry_id = 17;
  account_id = 9;
  sender_id = 8;
  sender_name = codes "Ada";
  sender_email = codes "ada@example.org";
  subject = codes "Hello";
  content = codes "Hi";
  app_url = topic_url 4;
  created_at = codes "2026-01-01";
  box_kind = codes "imbox";
}

-- a note on the same thread
abbrev pub note : HeyEvent
note = record mail { event_id = event_identity 4 18; kind = codes "comment"; entry_id = 18 }

pub mail-IsValid : IsValid mail
unfolding is_kind codes
mail-IsValid = record {
  known_kind = refl;
  named = refl;
  located = refl;
  posting_pos = omega arith;
  thread_pos = omega arith;
  entry_pos = omega arith;
  account_pos = omega arith;
  sender_pos = omega arith;
}

pub note-IsValid : IsValid note
unfolding is_kind codes text_eq
note-IsValid = record {
  known_kind = refl;
  named = refl;
  located = refl;
  posting_pos = omega arith;
  thread_pos = omega arith;
  entry_pos = omega arith;
  account_pos = omega arith;
  sender_pos = omega arith;
}

-- bytes that are the value itself, of the size 1
abbrev pub plain : Codec Value
plain = record { size = λ b. 1; front = λ n b. b; dumps = λ v. ok v; loads = λ b. ok b }

all-AllDescribe : (events : List HeyEvent) → AllDescribe (map to_dict events) events
all-AllDescribe [] = tt
all-AllDescribe (e ∷ events) = (to_dict-Describes e, all-AllDescribe events)

abbrev pub stored_fields : List Text → List Fields → Fields
stored_fields seen dicts =
    field "seen" (array (items (map text seen)))
      (field "pending" (array (items (map object dicts))) end)

pub stored_fields-Reads :
    (seen : List Text) (events : List HeyEvent)
    → Reads (stored_fields seen (map to_dict events)) seen events
unfolding keys_eq has_keys get
stored_fields-Reads seen events = record {
  exact_keys = refl;
  seen_at = refl;
  dicts = map to_dict events;
  pending_at = refl;
  described = all-AllDescribe events;
}

pub plain-CodecLaws : CodecLaws plain
unfolding state_value
plain-CodecLaws = record {
  size-front = λ n b. refl;
  front_of_size-le = λ n b le. refl;
  loads-dumps = λ seen events b e.
      (stored_fields seen (map to_dict events), sym e, stored_fields-Reads seen events);
}

-- a disk with one file, which is always there to be opened
abbrev pub memory : Storage Value (Option Value)
memory = record {
  open_parent = λ create w. (ok (some 3), w);
  read_state = λ h n w. (ok w, w);
  replace_state = λ h b w. (ok tt, some b);
  close_parent = λ h w. (ok tt, w);
}

abbrev pub memory-StorageLaws : StorageLaws plain memory
memory-StorageLaws = record {
  content = λ w. w;
  open_content = λ create w. refl;
  open_created = λ w h e. (3, ground arith);
  open_missing = λ w e. absurd (ground arith);
  read_content = λ h n w. refl;
  read_result =
      λ fd n w o e. elim (Option-cases w) [ inl p ↦ ground arith | inr (b, p) ↦ ground arith ];
  replace_done = λ h b w e. refl;
  replace_atomic = λ h b w. inr refl;
  close_content = λ h w. refl;
}

abbrev pub small_queue : DurableQueue
small_queue = record { max_seen = 100; max_pending = 2; max_state_bytes = 1000 }

abbrev pub no_entries : Ledger
no_entries = record { seen = []; events = [] }

pub no_entries-Keeps : Keeps plain-CodecLaws memory-StorageLaws small_queue none no_entries
unfolding load_state distinct subset
no_entries-Keeps = record {
  loads = refl;
  good = record {
    identities = tt;
    seen_distinct = refl;
    valid = tt;
    pending_distinct = refl;
    pending_seen = refl;
    bounded = omega arith;
  };
}
