-- ===== src/Queue/Loaded.antt =====
-- `_load` accepts good states alone: what it checks of a file.
use hermes_hey.Prelude.{
  Text, true, ◌≡◌, refl, ap, none, some, Option, List, [], ◌∷◌, map, length, leb, arith, All, ok,
  err, collect, leb→le, Result, ◌>>=◌, suc, Result-cases, inl, inr,
}
use mathlib.Core.Path.{subst}
use hermes_hey.Json.{Value, Fields, get_item}
use hermes_hey.Core.Event.{HeyEvent, IsValid, identity, to_dict}
use hermes_hey.Core.Identity.{is_event_identity}
use hermes_hey.Core.RoundTrip.{from_dict-IsValid}
use hermes_hey.Queue.Persisted.{normalize, parse_normalized, parse_persisted_event}
use hermes_hey.Queue.State.{
  Codec, DurableQueue, State, distinct, subset, seen_identity, parse_lists, catch_invalid,
  load_lists, load_value, load_state, empty, dict_of, list_of, catch_decode,
}
use hermes_hey.Queue.Format.{IsGood}

parse_normalized-IsValid : (d : Fields) (e : HeyEvent) → parse_normalized d ≡ ok e → IsValid e
unfolding parse_normalized
parse_normalized-IsValid d e h = from_dict-IsValid d e (ground arith)

-- what a bind of results has computed
bind-eq-ok :
    (r : Result Fields) (e : HeyEvent)
    → (r >>= parse_normalized) ≡ ok e
    → (d : Fields) × (parse_normalized d ≡ ok e)
bind-eq-ok (ok d) e h = (d, h)
bind-eq-ok (err x) e h = absurd (ground arith)

parse_persisted_event-IsValid :
    (v : Value) (e : HeyEvent) → parse_persisted_event v ≡ ok e → IsValid e
unfolding parse_persisted_event
parse_persisted_event-IsValid (Value.object d) e h =
    let (d', parsed) = bind-eq-ok (normalize d) e h in parse_normalized-IsValid d' e parsed
parse_persisted_event-IsValid _ e h = absurd (ground arith)

collect-All {ℓ} :
    {A B : Type 0} (f : A → Result B) (P : B → Type ℓ)
    → ((a : A) (b : B) → f a ≡ ok b → P b)
    → (xs : List A) (ys : List B) → collect f xs ≡ ok ys
    → All P ys × (length ys ≡ length xs)
unfolding collect
collect-All f P each [] [] h = (tt, refl)
collect-All f P each [] (y ∷ ys) h = absurd (ground arith)
collect-All f P each (x ∷ xs) [] h = absurd (ground arith)
collect-All f P each (x ∷ xs) (y ∷ ys) h =
    let (all, same) = collect-All f P each xs ys (ground arith) in
    ((each x y (ground arith), all), ap suc same)

seen_identity-is_event_identity :
    (v : Value) (s : Text) → seen_identity v ≡ ok s → is_event_identity s ≡ true
unfolding seen_identity
seen_identity-is_event_identity (Value.text t) s h = ground arith
seen_identity-is_event_identity _ s h = absurd (ground arith)

-- What the `try` block of `_load` returns.
pub record Parsed (seen pending : List Value) (s : State) : Type 0 where
  pub events : List HeyEvent
  pub same : s.pending ≡ map to_dict events
  pub collected : collect parse_persisted_event pending ≡ ok events
  pub collected_seen : collect seen_identity seen ≡ ok s.seen
  pub seen_distinct : distinct s.seen ≡ true
  pub pending_distinct : distinct (map identity events) ≡ true
  pub pending_seen : subset (map identity events) s.seen ≡ true

parse_lists-Parsed :
    (seen pending : List Value) (s : State)
    → parse_lists seen pending ≡ ok s
    → Parsed seen pending s
unfolding parse_lists
parse_lists-Parsed seen pending s h = elim (Result-cases (collect seen_identity seen)) [
  | inr (x, p) ↦ absurd (ground arith)
  | inl (ids, p) ↦ elim (Result-cases (collect parse_persisted_event pending)) [
    | inr (x, r) ↦ absurd (ground arith)
    | inl (events, r) ↦ record {
      events = events;
      same = ground arith;
      collected = r;
      collected_seen = ground arith;
      seen_distinct = ground arith;
      pending_distinct = ground arith;
      pending_seen = ground arith;
    }
  ]
]

catch_invalid-eq-ok : (r : Result State) (s : State) → catch_invalid r ≡ ok s → r ≡ ok s
unfolding catch_invalid
catch_invalid-eq-ok (ok t) s h = h
catch_invalid-eq-ok (err e) s h = absurd (ground arith)

-- A state is good for the events that its dictionaries describe.
pub record Holds (q : DurableQueue) (s : State) : Type 0 where
  pub events : List HeyEvent
  pub same : s.pending ≡ map to_dict events
  pub good : IsGood q s.seen events

load_lists-Holds :
    (q : DurableQueue) (seen pending : List Value) (s : State)
    → load_lists q seen pending ≡ ok s
    → Holds q s
unfolding load_lists
load_lists-Holds q seen pending s h =
    let p : Parsed seen pending s =
      parse_lists-Parsed seen pending s (catch_invalid-eq-ok _ s (ground arith)) in
    let fits : leb (length pending) q.max_pending ≡ true = ground arith in
    let (all, same_length) =
      collect-All parse_persisted_event IsValid parse_persisted_event-IsValid pending p.events
        p.collected in
    record {
      events = p.events;
      same = p.same;
      good = record {
        identities =
            (collect-All seen_identity (λ t. is_event_identity t ≡ true)
              seen_identity-is_event_identity seen s.seen p.collected_seen).0;
        seen_distinct = p.seen_distinct;
        valid = all;
        pending_distinct = p.pending_distinct;
        pending_seen = p.pending_seen;
        bounded = omega (arith, leb→le _ _ fits);
      };
    }

load_value-Holds : (q : DurableQueue) (v : Value) (s : State) → load_value q v ≡ ok s → Holds q s
unfolding load_value
load_value-Holds q v s h = elim (Result-cases (dict_of v)) [
  | inr (x, p) ↦ absurd (ground arith)
  | inl (d, p) ↦ elim (Result-cases (get_item "seen" d)) [
    | inr (x, r) ↦ absurd (ground arith)
    | inl (a, r) ↦ elim (Result-cases (list_of a)) [
      | inr (x, t) ↦ absurd (ground arith)
      | inl (seen, t) ↦ elim (Result-cases (get_item "pending" d)) [
        | inr (x, u) ↦ absurd (ground arith)
        | inl (b, u) ↦ elim (Result-cases (list_of b)) [
          | inr (x, w) ↦ absurd (ground arith)
          | inl (pending, w) ↦ load_lists-Holds q seen pending s (ground arith)
        ]
      ]
    ]
  ]
]

empty-Holds : (q : DurableQueue) → Holds q empty
unfolding distinct subset
empty-Holds q = record {
  events = [];
  same = refl;
  good = record {
    identities = tt;
    seen_distinct = refl;
    valid = tt;
    pending_distinct = refl;
    pending_seen = refl;
    bounded = omega arith;
  };
}

-- Whatever bytes a file holds, a state that `_load` returns is good: at most `max_pending` events,
-- each valid and there once, and every identity well-formed, there once, and each pending one
-- among the remembered.
pub load_state-Holds :
    {B : Type 0} (codec : Codec B) (q : DurableQueue) (o : Option B) (s : State)
    → load_state codec q o ≡ ok s
    → Holds q s
unfolding load_state
load_state-Holds codec q none s h =
    let e : empty ≡ s = ground arith in subst (λ t. Holds q t) e (empty-Holds q)
load_state-Holds codec q (some b) s h = elim (Result-cases (catch_decode (codec.loads b))) [
  | inr (x, p) ↦ absurd (ground arith)
  | inl (v, p) ↦ load_value-Holds q v s (ground arith)
]
