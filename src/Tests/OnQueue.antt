-- ===== src/Tests/OnQueue.antt =====
-- The queue's theorems at the first event that comes to an empty queue.
use hermes_hey.Prelude.{
  Text, codes, Bool, true, not, ◌≡◌, refl, Option, none, some, List, [], ◌∷◌, ◌++◌, ok, ◌⊎◌, arith,
  text_eq, text_eq_refl, collect,
}
use hermes_hey.Json.{Value}
use hermes_hey.Core.Event.{HeyEvent, IsValid, identity, to_dict}
use hermes_hey.Core.Identity.{event_identity}
use hermes_hey.Queue.State.{
  keep_others, state_value, load_state, encode_state, contains_text, durable_seen,
  event_identity_of, without, last_items, distinct,
}
use hermes_hey.Decimal.{decimal}
use hermes_hey.Core.RoundTrip.{from_dict-to_dict}
use hermes_hey.Core.Contexts.{is_event_identity-event_identity}
use hermes_hey.Queue.Loaded.{Holds, load_state-Holds}
use hermes_hey.Queue.Sets.{durable_seen_lem}
use hermes_hey.Queue.Stored.{CanStore, stored-IsGood, keep_others-others, load_state-encode_state}
use hermes_hey.Queue.Spec.{Ledger, state_of, stored, accept, finish, others}
use hermes_hey.Queue.Transaction.{
  ingest, ingest_new, complete, complete_in, transact, load, save, pending,
}
use hermes_hey.Queue.Refinement.{Keeps, ingest-refines, complete-refines}
use hermes_hey.Queue.Atomic.{ingest-atomic, complete-atomic, pending-events}
use hermes_hey.Queue.Memory.{ingest-durable}
use hermes_hey.Tests.Fixtures.{
  mail, mail-IsValid, plain, plain-CodecLaws, memory, memory-StorageLaws, small_queue, no_entries,
  no_entries-Keeps,
}

abbrev Kept : Option Value → Ledger → Type 0
Kept = Keeps plain-CodecLaws memory-StorageLaws small_queue

abbrev anybody : HeyEvent → Bool
anybody e = true

abbrev mail_ids : List Text
mail_ids = identity mail ∷ []

abbrev mail_entries : Ledger
mail_entries = stored small_queue mail_ids (mail ∷ [])

save-mail :
    save memory plain small_queue mail_ids (to_dict mail ∷ []) (some 3) none
    ≡ (ok tt, some (state_value (durable_seen small_queue mail_ids mail_ids) (to_dict mail ∷ [])))
unfolding save encode_state collect event_identity_of
save-mail = rw (from_dict-to_dict mail mail-IsValid) refl

ingest-mail : (ingest memory plain small_queue mail anybody none).0 ≡ ok true
unfolding ingest transact load load_state ingest_new contains_text
ingest-mail = rw save-mail refl

ingest-refines_example :
    (l' : Ledger) × (accept small_queue mail no_entries ≡ some (true, l'))
    × Kept (ingest memory plain small_queue mail anybody none).1 l'
ingest-refines_example =
    ingest-refines plain-CodecLaws memory-StorageLaws small_queue mail anybody no_entries none true
      no_entries-Keeps mail-IsValid refl ingest-mail

ingest-atomic_example :
    Kept (ingest memory plain small_queue mail anybody none).1 no_entries
    ⊎ Kept (ingest memory plain small_queue mail anybody none).1 mail_entries
ingest-atomic_example =
    ingest-atomic plain-CodecLaws memory-StorageLaws small_queue mail anybody no_entries none
      no_entries-Keeps mail-IsValid

ingest-durable_example :
    (l' : Ledger) × Kept (ingest memory plain small_queue mail anybody none).1 l'
    × (contains_text (identity mail) l'.seen ≡ true)
    × (true ≡ not (contains_text (identity mail) no_entries.seen))
ingest-durable_example =
    ingest-durable plain-CodecLaws memory-StorageLaws small_queue mail anybody true no_entries none
      no_entries-Keeps mail-IsValid refl ingest-mail

-- the file with one event
abbrev pub with_one : HeyEvent → Option Value
with_one e =
    some
      (state_value (durable_seen small_queue (identity e ∷ []) (identity e ∷ [])) (to_dict e ∷ []))

one-CanStore : (e : HeyEvent) → IsValid e → CanStore small_queue (identity e ∷ []) (e ∷ [])
unfolding distinct contains_text
one-CanStore e v = record {
  identities = (
    rw v.named (is_event_identity-event_identity e.thread_id e.entry_id v.thread_pos v.entry_pos),
    tt,
  );
  seen_distinct = refl;
  valid = (v, tt);
  pending_distinct = refl;
  bounded = omega arith;
}

encode_one :
    (e : HeyEvent)
    → IsValid e
    → encode_state plain small_queue (identity e ∷ []) (to_dict e ∷ [])
      ≡ ok (
          state_value
            (durable_seen small_queue (identity e ∷ []) (identity e ∷ []))
            (to_dict e ∷ []))
unfolding encode_state collect event_identity_of
encode_one e v = rw (from_dict-to_dict e v) refl

load_one :
    (e : HeyEvent)
    → IsValid e
    → load_state plain small_queue (with_one e)
      ≡ ok (state_of (stored small_queue (identity e ∷ []) (e ∷ [])))
load_one e v =
    load_state-encode_state plain plain-CodecLaws small_queue (identity e ∷ []) (e ∷ [])
      (state_value (durable_seen small_queue (identity e ∷ []) (identity e ∷ [])) (to_dict e ∷ []))
      (one-CanStore e v) (encode_one e v)

pub pending_one :
    (e : HeyEvent)
    → IsValid e
    → pending memory plain small_queue (with_one e) ≡ (ok (e ∷ []), with_one e)
unfolding pending load collect stored
pending_one e v = rw (load_one e v, from_dict-to_dict e v) refl

abbrev with_mail : Option Value
with_mail = with_one mail

load_mail : load_state plain small_queue with_mail ≡ ok (state_of mail_entries)
load_mail = load_one mail mail-IsValid

mail_Keeps : Kept with_mail mail_entries
mail_Keeps = record {
  loads = load_mail;
  good = stored-IsGood small_queue mail_ids (mail ∷ []) (one-CanStore mail mail-IsValid);
}

keep_none : keep_others (identity mail) (to_dict mail ∷ []) ≡ ok []
unfolding others
keep_none =
    rw
      (
        keep_others-others (identity mail) (mail ∷ []) (mail-IsValid, tt),
        text_eq_refl (identity mail),
      )
      refl

complete-mail : (complete memory plain small_queue (identity mail) with_mail).0 ≡ ok tt
unfolding complete transact load complete_in save encode_state collect stored
complete-mail = rw (load_mail, keep_none) refl

complete-refines_example :
    Kept
      (complete memory plain small_queue (identity mail) with_mail).1
      (finish small_queue (identity mail) mail_entries)
complete-refines_example =
    complete-refines plain-CodecLaws memory-StorageLaws small_queue (identity mail) mail_entries
      with_mail mail_Keeps complete-mail

complete-atomic_example :
    Kept (complete memory plain small_queue (identity mail) with_mail).1 mail_entries
    ⊎ Kept
        (complete memory plain small_queue (identity mail) with_mail).1
        (finish small_queue (identity mail) mail_entries)
complete-atomic_example =
    complete-atomic plain-CodecLaws memory-StorageLaws small_queue (identity mail) mail_entries
      with_mail mail_Keeps

pending_mail : (pending memory plain small_queue with_mail).0 ≡ ok (mail ∷ [])
pending_mail = rw (pending_one mail mail-IsValid) refl

pending-events_example : mail ∷ [] ≡ mail_entries.events
pending-events_example =
    pending-events plain-CodecLaws memory-StorageLaws small_queue mail_entries with_mail (mail ∷ [])
      mail_Keeps pending_mail

load_state-Holds_example : Holds small_queue (state_of mail_entries)
load_state-Holds_example =
    load_state-Holds plain small_queue with_mail (state_of mail_entries) mail_Keeps.loads

load_state-encode_state_example :
    load_state plain small_queue
      (some (state_value (durable_seen small_queue mail_ids mail_ids) (to_dict mail ∷ [])))
    ≡ ok (state_of (stored small_queue mail_ids (mail ∷ [])))
load_state-encode_state_example =
    load_state-encode_state plain plain-CodecLaws small_queue mail_ids (mail ∷ [])
      (state_value (durable_seen small_queue mail_ids mail_ids) (to_dict mail ∷ []))
      (one-CanStore mail mail-IsValid) (encode_one mail mail-IsValid)

durable_seen_lem_example :
    durable_seen small_queue (codes "thread:1:entry:2" ∷ mail_ids) mail_ids
    ≡ last_items 100 (without (codes "thread:1:entry:2" ∷ mail_ids) mail_ids) ++ mail_ids
unfolding distinct contains_text codes event_identity text_eq decimal
durable_seen_lem_example =
    durable_seen_lem small_queue (codes "thread:1:entry:2" ∷ mail_ids) mail_ids refl refl
