-- ===== src/Queue/Stored.antt =====
-- What `_save` writes is read back by `_load`, and the changes that `ingest` and `complete` make
-- keep the state good.
use mathlib.Core.List.{map-append}
use hermes_hey.Prelude.{
  ◌≤◌, Text, text_eq, true, false, ◌≡◌, refl, some, List, [], ◌∷◌, ◌++◌, map, length, length-append,
  All-append, leb, arith, All, ok, collect, leb→le, inl, inr, Bool-cases,
}
use hermes_hey.Core.Event.{HeyEvent, IsValid, identity, to_dict}
use hermes_hey.Core.Identity.{is_event_identity}
use hermes_hey.Core.Contexts.{is_event_identity-event_identity}
use hermes_hey.Core.RoundTrip.{from_dict-to_dict}
use hermes_hey.Queue.State.{
  Codec, DurableQueue, contains_text, distinct, event_identity_of, encode_state, keep_others,
  state_value, durable_seen, load_state,
}
use hermes_hey.Queue.Sets.{
  Lacks, distinct-snoc, subset-contains, durable_seen-distinct, durable_seen-subset,
  durable_seen-All,
}
use hermes_hey.Queue.Format.{CodecLaws, IsGood, load_state-Reads}
use hermes_hey.Queue.Spec.{state_of, stored, others}

pub collect_identities :
    (es : List HeyEvent)
    → All IsValid es
    → collect event_identity_of (map to_dict es) ≡ ok (map identity es)
unfolding collect event_identity_of
collect_identities [] v = refl
collect_identities (e ∷ es) v = rw (from_dict-to_dict e v.0, collect_identities es v.1)

-- The filter of `complete` on the dictionaries is the one on the events.
pub keep_others-others :
    (id : Text) (es : List HeyEvent)
    → All IsValid es
    → keep_others id (map to_dict es) ≡ ok (map to_dict (others id es))
unfolding keep_others others
keep_others-others id [] v = refl
keep_others-others id (e ∷ es) v = elim (Bool-cases (text_eq (identity e) id)) [
  | inl p ↦ rw (from_dict-to_dict e v.0, keep_others-others id es v.1, p)
  | inr p ↦ rw (from_dict-to_dict e v.0, keep_others-others id es v.1, p)
]

identities_of_valid :
    (es : List HeyEvent) → All IsValid es → All (λ s. is_event_identity s ≡ true) (map identity es)
identities_of_valid [] v = tt
identities_of_valid (e ∷ es) v = (
  rw v.0.named
      (is_event_identity-event_identity e.thread_id e.entry_id v.0.thread_pos v.0.entry_pos),
  identities_of_valid es v.1,
)

-- The facts that `_save` needs of its arguments.
pub record CanStore (q : DurableQueue) (seen : List Text) (events : List HeyEvent) : Type 0 where
  pub identities : All (λ s. is_event_identity s ≡ true) seen
  pub seen_distinct : distinct seen ≡ true
  pub valid : All IsValid events
  pub pending_distinct : distinct (map identity events) ≡ true
  pub bounded : length events ≤ q.max_pending

pub stored-IsGood :
    (q : DurableQueue) (seen : List Text) (events : List HeyEvent)
    → CanStore q seen events
    → IsGood q (stored q seen events).seen (stored q seen events).events
unfolding stored
stored-IsGood q seen events c = record {
  identities =
      durable_seen-All q seen (map identity events) c.seen_distinct c.pending_distinct
        (λ s. is_event_identity s ≡ true) c.identities (identities_of_valid events c.valid);
  seen_distinct =
      durable_seen-distinct q seen (map identity events) c.seen_distinct c.pending_distinct;
  valid = c.valid;
  pending_distinct = c.pending_distinct;
  pending_seen =
      durable_seen-subset q seen (map identity events) c.seen_distinct c.pending_distinct;
  bounded = c.bounded;
}

module _ {B : Type 0} (codec : Codec B) (laws : CodecLaws codec) (q : DurableQueue) where
  -- Under the laws of the codec, for identities and events that can be stored (well-formed and
  -- different identities, valid and different events, at most `max_pending`): the bytes that
  -- `_save` makes are read back by `_load` as the stored state.
  pub load_state-encode_state :
      (seen : List Text) (events : List HeyEvent) (b : B)
      → CanStore q seen events
      → encode_state codec q seen (map to_dict events) ≡ ok b
      → load_state codec q (some b) ≡ ok (state_of (stored q seen events))
  unfolding encode_state stored
  load_state-encode_state seen events b c h =
      let ids : collect event_identity_of (map to_dict events) ≡ ok (map identity events) =
        collect_identities events c.valid in
      let dumped : codec.dumps
            (state_value (durable_seen q seen (map identity events)) (map to_dict events))
          ≡ ok b =
        ground arith in
      let small : leb (codec.size b) q.max_state_bytes ≡ true = ground arith in
      let (w, loaded, r) =
        laws.loads-dumps (durable_seen q seen (map identity events)) events b dumped in
      load_state-Reads codec q b w (durable_seen q seen (map identity events)) events
        (leb→le _ _ small) loaded r (stored-IsGood q seen events c)

-- A new event of the queue.
pub CanStore-snoc :
    (q : DurableQueue) (seen : List Text) (events : List HeyEvent) (e : HeyEvent)
    → IsGood q seen events
    → IsValid e
    → contains_text (identity e) seen ≡ false
    → leb q.max_pending (length events) ≡ false
    → CanStore q (seen ++ identity e ∷ []) (events ++ e ∷ [])
CanStore-snoc q seen events e g v new room = record {
  identities =
      All-append (λ s. is_event_identity s ≡ true) seen (identity e ∷ []) g.identities
        (identities_of_valid (e ∷ []) (v, tt));
  seen_distinct = distinct-snoc (identity e) seen g.seen_distinct new;
  valid = All-append IsValid events (e ∷ []) g.valid (v, tt);
  pending_distinct =
      rw (map-append identity events (e ∷ []))
        (distinct-snoc (identity e) (map identity events) g.pending_distinct absent);
  bounded = ground (arith, length-append events (e ∷ []));
}
  where
    absent : Lacks (map identity events) (identity e)
    absent = ground (arith, subset-contains (identity e) (map identity events) seen)

Lacks-others :
    (x id : Text) (es : List HeyEvent)
    → Lacks (map identity es) x
    → Lacks (map identity (others id es)) x
unfolding others contains_text
Lacks-others x id [] h = refl
Lacks-others x id (e ∷ es) h = ground (arith, Lacks-others x id es)

distinct-others :
    (id : Text) (es : List HeyEvent)
    → distinct (map identity es) ≡ true
    → distinct (map identity (others id es)) ≡ true
unfolding others distinct
distinct-others id [] h = refl
distinct-others id (e ∷ es) h =
    ground (arith, distinct-others id es, Lacks-others (identity e) id es)

IsValid-others : (id : Text) (es : List HeyEvent) → All IsValid es → All IsValid (others id es)
unfolding others
IsValid-others id [] v = tt
IsValid-others id (e ∷ es) v = elim (Bool-cases (text_eq (identity e) id)) [
  | inl p ↦ rw p (IsValid-others id es v.1)
  | inr p ↦ rw p (v.0, IsValid-others id es v.1)
]

length-others-le : (id : Text) (es : List HeyEvent) → length (others id es) ≤ length es
unfolding others
length-others-le id [] = omega arith
length-others-le id (e ∷ es) = ground (arith, length-others-le id es)

pub CanStore-others :
    (q : DurableQueue) (seen : List Text) (events : List HeyEvent) (id : Text)
    → IsGood q seen events
    → CanStore q seen (others id events)
CanStore-others q seen events id g = record {
  identities = g.identities;
  seen_distinct = g.seen_distinct;
  valid = IsValid-others id events g.valid;
  pending_distinct = distinct-others id events g.pending_distinct;
  bounded = omega (arith, length-others-le id events);
}
