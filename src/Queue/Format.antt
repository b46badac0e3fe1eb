-- ===== src/Queue/Format.antt =====
-- What the state file of hey_platform/engine.py means: which states `_load` accepts, and that it
-- reads back what `_save` writes.
use hermes_hey.Prelude.{
  ℕ, ◌+◌, ◌≤◌, String, Text, true, false, ◌≡◌, refl, ap, some, List, [], ◌∷◌, map, length, leb,
  arith, All, ok, collect, le→leb, suc, Bool-cases, inl, inr, eq_iff,
}
use hermes_hey.Json.{
  Fields, text, array, object, field, end, get, get_item_of, has_key, has_keys, contains_key,
  keys_within, keys_eq, items, values-items,
}
use hermes_hey.Core.Event.{HeyEvent, IsValid, event_keys, identity, to_dict}
use hermes_hey.Core.Identity.{is_event_identity}
use hermes_hey.Core.RoundTrip.{Describes, from_dict_of_Describes, dict_eq-Describes}
use hermes_hey.Queue.Persisted.{
  legacy_message_event_keys, normalize, parse_normalized, parse_persisted_event,
}
use hermes_hey.Queue.State.{
  Codec, DurableQueue, distinct, subset, seen_identity, parse_lists, catch_invalid, catch_decode,
  dict_of, list_of, load_lists, load_value, load_state, state_value,
}

abbrev pub AllDescribe : List Fields → List HeyEvent → Type 0
AllDescribe [] [] = Unit
AllDescribe (d ∷ ds) (e ∷ es) = Describes d e × AllDescribe ds es
AllDescribe _ _ = ⊥

-- The dictionary of a state file, whatever the order of its keys.
pub record Reads (w : Fields) (seen : List Text) (events : List HeyEvent) : Type 0 where
  pub exact_keys : keys_eq w ("seen" ∷ "pending" ∷ []) ≡ true
  pub seen_at : get "seen" w ≡ some (array (items (map text seen)))
  pub dicts : List Fields
  pub pending_at : get "pending" w ≡ some (array (items (map object dicts)))
  pub described : AllDescribe dicts events

-- What the program relies on of Python's bytes, JSON and UTF-8. JSON keeps dictionaries up to the
-- order of their keys, and texts, integers and lists as they are.
pub record CodecLaws {B : Type 0} (codec : Codec B) : Type 0 where
  pub size-front :
      (n : ℕ) (b : B) → leb (codec.size (codec.front (n + 1) b)) n ≡ leb (codec.size b) n
  pub front_of_size-le : (n : ℕ) (b : B) → codec.size b ≤ n → codec.front n b ≡ b
  pub loads-dumps :
      (seen : List Text) (events : List HeyEvent) (b : B)
      → codec.dumps (state_value seen (map to_dict events)) ≡ ok b
      → (w : Fields) × (codec.loads b ≡ ok (object w)) × Reads w seen events

-- The states that the queue keeps in its file.
pub record IsGood (q : DurableQueue) (seen : List Text) (events : List HeyEvent) : Type 0 where
  pub identities : All (λ s. is_event_identity s ≡ true) seen
  pub seen_distinct : distinct seen ≡ true
  pub valid : All IsValid events
  pub pending_distinct : distinct (map identity events) ≡ true
  pub pending_seen : subset (map identity events) seen ≡ true
  pub bounded : length events ≤ q.max_pending

has_key-within :
    (k : String) (d : Fields) (ks : List String)
    → keys_within d ks ≡ true
    → has_key k d ≡ true
    → contains_key k ks ≡ true
unfolding has_key keys_within
has_key-within k end ks h p = ground arith
has_key-within k (field j v d) ks h p = ground (arith, eq_iff j k, has_key-within k d ks)

not_legacy :
    (d : Fields) → keys_eq d event_keys ≡ true → keys_eq d legacy_message_event_keys ≡ false
unfolding keys_eq has_keys contains_key
not_legacy d h = elim (Bool-cases (keys_within d legacy_message_event_keys)) [
  | inl w ↦ ground (arith, has_key-within "kind" d legacy_message_event_keys)
  | inr w ↦ ground arith
]

parse_persisted_event_of_Describes :
    (d : Fields) (e : HeyEvent)
    → Describes d e
    → IsValid e
    → parse_persisted_event (object d) ≡ ok e
unfolding parse_persisted_event normalize parse_normalized
parse_persisted_event_of_Describes d e h v = rw (
  not_legacy d h.exact_keys,
  h.exact_keys,
  from_dict_of_Describes d e h v,
  dict_eq-Describes d e h,
)

collect_events :
    (ds : List Fields) (es : List HeyEvent)
    → AllDescribe ds es
    → All IsValid es
    → collect parse_persisted_event (map object ds) ≡ ok es
unfolding collect
collect_events [] [] h v = refl
collect_events (d ∷ ds) (e ∷ es) h v =
    rw (parse_persisted_event_of_Describes d e h.0 v.0, collect_events ds es h.1 v.1)
collect_events [] (e ∷ es) h v = absurd h
collect_events (d ∷ ds) [] h v = absurd h

collect_seen :
    (seen : List Text)
    → All (λ s. is_event_identity s ≡ true) seen
    → collect seen_identity (map text seen) ≡ ok seen
unfolding collect seen_identity
collect_seen [] h = refl
collect_seen (s ∷ seen) h = rw (h.0, collect_seen seen h.1)

length-dicts :
    (ds : List Fields) (es : List HeyEvent) → AllDescribe ds es → length (map object ds) ≡ length es
length-dicts [] [] h = refl
length-dicts (d ∷ ds) (e ∷ es) h = ap suc (length-dicts ds es h.1)
length-dicts [] (e ∷ es) h = absurd h
length-dicts (d ∷ ds) [] h = absurd h

module _ {B : Type 0} (codec : Codec B) (q : DurableQueue) where
  -- A file that holds a good state is read as that state.
  pub load_state-Reads :
      (b : B) (w : Fields) (seen : List Text) (events : List HeyEvent)
      → codec.size b ≤ q.max_state_bytes
      → codec.loads b ≡ ok (object w)
      → Reads w seen events
      → IsGood q seen events
      → load_state codec q (some b) ≡ ok (record { seen = seen; pending = map to_dict events })
  unfolding load_state load_value load_lists dict_of list_of catch_decode parse_lists catch_invalid
  load_state-Reads b w seen events small loaded r g = rw (
    le→leb (codec.size b) q.max_state_bytes small,
    loaded,
    r.exact_keys,
    get_item_of "seen" w _ r.seen_at,
    values-items (map text seen),
    get_item_of "pending" w _ r.pending_at,
    values-items (map object r.dicts),
    length-dicts r.dicts events r.described,
    le→leb (length events) q.max_pending g.bounded,
    collect_seen seen g.identities,
    g.seen_distinct,
    collect_events r.dicts events r.described g.valid,
    g.pending_distinct,
    g.pending_seen,
  )
