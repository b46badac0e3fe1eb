-- ===== src/Queue/Atomic.antt =====
-- A transaction that raises, at whatever step, leaves the old state or the new one; and what
-- `pending` returns.
use mathlib.Core.List.{map-append}
use hermes_hey.Exec.{Exec}
use hermes_hey.Prelude.{
  ℕ, Text, Bool, true, false, ◌≡◌, refl, Option, none, some, List, [], ◌∷◌, ◌++◌, map, length,
  length-map, leb, arith, All, ok, collect, ◌⊎◌, inl, inr, Result-cases, Bool-cases,
}
use hermes_hey.Core.Event.{HeyEvent, IsValid, identity, to_dict, from_dict}
use hermes_hey.Core.RoundTrip.{from_dict-to_dict}
use hermes_hey.Queue.State.{Codec, DurableQueue, State, load_state, encode_state, contains_text}
use hermes_hey.Queue.Format.{CodecLaws}
use hermes_hey.Queue.Spec.{Ledger, state_of, stored, others, finish}
use hermes_hey.Queue.Stored.{
  load_state-encode_state, stored-IsGood, CanStore, CanStore-snoc, CanStore-others,
  keep_others-others,
}
use hermes_hey.Queue.Transaction.{
  Storage, load, save, transact, ingest_new, ingest, complete_in, complete, pending,
}
use hermes_hey.Queue.Refinement.{StorageLaws, Keeps, Keeps-of_content, content-load, load-result}

module _ {B W : Type 0} {storage : Storage B W} {codec : Codec B} (laws : CodecLaws codec)
    (disk : StorageLaws codec storage) (q : DurableQueue) where
  abbrev Kept : W → Ledger → Type 0
  Kept = Keeps laws disk q

  save-atomic :
      (seen : List Text) (events : List HeyEvent) (h : Option ℕ) (l : Ledger) (w : W)
      → Kept w l
      → CanStore q seen events
      → Kept (save storage codec q seen (map to_dict events) h w).1 l
        ⊎ Kept (save storage codec q seen (map to_dict events) h w).1 (stored q seen events)
  unfolding save
  save-atomic seen events h l w k c =
      elim (Result-cases (encode_state codec q seen (map to_dict events))) [
        | inr (x, e) ↦ rw e (inl k)
        | inl (b, e) ↦ rw e (elim (disk.replace_atomic h b w) [
          | inl same ↦ inl (Keeps-of_content laws disk q w _ l same k)
          | inr new ↦ inr (record {
            loads = rw new (load_state-encode_state codec laws q seen events b c e);
            good = stored-IsGood q seen events c;
          })
        ])
      ]

  transact-atomic :
      {A : Type 0} (body : Option ℕ → State → Exec W A) (Post : W → Type 0)
      → ((w w' : W) → disk.content w' ≡ disk.content w → Post w → Post w')
      → (l : Ledger) (w : W) → Kept w l
      → Post w
      → ((h : Option ℕ) (w' : W) → Kept w' l → Post (body h (state_of l) w').1)
      → Post (transact storage codec q body w).1
  unfolding transact
  transact-atomic body Post stable l w k p each =
      elim (Result-cases (storage.open_parent true w).0) [
        | inr (x, e) ↦ rw e (stable w _ (disk.open_content true w) p)
        | inl (h, e) ↦
            let (fd, opened) = disk.open_created w h e in
            let w1 = (storage.open_parent true w).1 in
            let k1 : Kept w1 l = Keeps-of_content laws disk q w w1 l (disk.open_content true w) k in
            let p1 : Post w1 = stable w w1 (disk.open_content true w) p in
            let w2 = (load storage codec q (some fd) w1).1 in
            let same = content-load laws disk q (some fd) w1 in
            elim (Result-cases (load storage codec q (some fd) w1).0) [
              | inr (x, f) ↦
                  rw (e, opened, f)
                    (stable w2 _ (disk.close_content (some fd) w2) (stable w1 w2 same p1))
              | inl (r, f) ↦
                  let loaded = load-result laws disk q fd w1 l r k1 f in
                  let k2 : Kept w2 l = Keeps-of_content laws disk q w1 w2 l same k1 in
                  rw (e, opened, f, loaded)
                    (stable (body (some fd) (state_of l) w2).1 _ (disk.close_content (some fd) _)
                      (each (some fd) w2 k2))
            ]
      ]

  abbrev EitherKept : Ledger → Ledger → W → Type 0
  EitherKept l l' w = Kept w l ⊎ Kept w l'

  EitherKept-stable :
      (l l' : Ledger) (w w' : W)
      → disk.content w' ≡ disk.content w
      → EitherKept l l' w
      → EitherKept l l' w'
  EitherKept-stable l l' w w' same (inl k) = inl (Keeps-of_content laws disk q w w' l same k)
  EitherKept-stable l l' w w' same (inr k) = inr (Keeps-of_content laws disk q w w' l' same k)

  complete_in-atomic :
      (id : Text) (h : Option ℕ) (l : Ledger) (w : W)
      → Kept w l
      → EitherKept l (finish q id l) (complete_in storage codec q id h (state_of l) w).1
  unfolding complete_in finish
  complete_in-atomic id h l w k = rw (keep_others-others id l.events k.good.valid) (
      save-atomic l.seen (others id l.events) h l w k (CanStore-others q l.seen l.events id k.good))

  -- Over a codec and a storage that keep their laws, where the file holds a good state that stands
  -- for a ledger: whether `complete` returns or raises, the file then holds the ledger before or
  -- the ledger of `finish`.
  pub complete-atomic :
      (id : Text) (l : Ledger) (w : W)
      → Kept w l
      → Kept (complete storage codec q id w).1 l
        ⊎ Kept (complete storage codec q id w).1 (finish q id l)
  unfolding complete
  complete-atomic id l w k =
      transact-atomic (complete_in storage codec q id) (EitherKept l (finish q id l))
        (EitherKept-stable l (finish q id l)) l w k (inl k)
        (λ h w' k'. complete_in-atomic id h l w' k')

  -- the ledger after a new event
  abbrev with_event : Ledger → HeyEvent → Ledger
  with_event l e = stored q (l.seen ++ identity e ∷ []) (l.events ++ e ∷ [])

  ingest_new-atomic :
      (e : HeyEvent) (h : Option ℕ) (l : Ledger) (w : W)
      → Kept w l
      → IsValid e
      → EitherKept l (with_event l e) (ingest_new storage codec q e h (state_of l) w).1
  unfolding ingest_new
  ingest_new-atomic e h l w k v = elim (Bool-cases (contains_text (identity e) l.seen)) [
    | inl old ↦ rw old (inl k)
    | inr new ↦ elim (Bool-cases (leb q.max_pending (length (map to_dict l.events)))) [
      | inl full ↦ rw (new, full) (inl k)
      | inr room ↦
          let same = map-append to_dict l.events (e ∷ []) in
          let can =
            CanStore-snoc q l.seen l.events e k.good v new
              (rw (length-map to_dict l.events) at room) in
          let saved = save-atomic (l.seen ++ identity e ∷ []) (l.events ++ e ∷ []) h l w k can in
          rw (new, room, ← same)
            (elim (Result-cases
              (save storage codec q (l.seen ++ identity e ∷ []) (map to_dict (l.events ++ e ∷ [])) h
                w).0) [ inr (x, f) ↦ rw f saved | inl (u, f) ↦ rw f saved ])
    ]
  ]

  -- Over a codec and a storage that keep their laws, where the file holds a good state that stands
  -- for a ledger, and for a valid event: whether `ingest` returns or raises, the file then holds
  -- the ledger before or the ledger with the event added.
  pub ingest-atomic :
      (e : HeyEvent) (authorize : HeyEvent → Bool) (l : Ledger) (w : W)
      → Kept w l
      → IsValid e
      → Kept (ingest storage codec q e authorize w).1 l
        ⊎ Kept
            (ingest storage codec q e authorize w).1
            (stored q (l.seen ++ identity e ∷ []) (l.events ++ e ∷ []))
  unfolding ingest
  ingest-atomic e authorize l w k v = elim (Bool-cases (authorize e)) [
    | inr no_access ↦ rw no_access (inl k)
    | inl allowed ↦ rw allowed (
        transact-atomic (ingest_new storage codec q e) (EitherKept l (with_event l e))
          (EitherKept-stable l (with_event l e)) l w k (inl k)
          (λ h w' k'. ingest_new-atomic e h l w' k' v))
  ]

  collect_events :
      (es : List HeyEvent) → All IsValid es → collect from_dict (map to_dict es) ≡ ok es
  unfolding collect
  collect_events [] v = refl
  collect_events (e ∷ es) v = rw (from_dict-to_dict e v.0, collect_events es v.1)

  no_events : (es : List HeyEvent) → [] ≡ map to_dict es → [] ≡ es
  no_events [] h = refl
  no_events (e ∷ es) h = absurd (ground arith)

  empty_of_none :
      (l : Ledger) (w : W) → disk.content w ≡ none → Kept w l → [] ≡ map to_dict l.events
  unfolding load_state
  empty_of_none l w missing k =
      let loaded : load_state codec q none ≡ ok (state_of l) = rw missing at k.loads in ground arith

  -- Over a codec and a storage that keep their laws, where the file holds a good state that stands
  -- for a ledger: the events that `pending` returns, if it returns, are those of the ledger, in
  -- their order.
  pub pending-events :
      (l : Ledger) (w : W) (es : List HeyEvent)
      → Kept w l
      → (pending storage codec q w).0 ≡ ok es
      → es ≡ l.events
  unfolding pending
  pending-events l w es k done = elim (Result-cases (storage.open_parent false w).0) [
    | inr (x, e) ↦ absurd (ground arith)
    | inl (none, e) ↦
        let missing = disk.open_missing w e in
        let nothing : [] ≡ l.events = no_events l.events (empty_of_none l w missing k) in
        ground arith
    | inl (some fd, e) ↦
        let w1 = (storage.open_parent false w).1 in
        let k1 : Kept w1 l = Keeps-of_content laws disk q w w1 l (disk.open_content false w) k in
        elim (Result-cases (load storage codec q (some fd) w1).0) [
          | inr (x, f) ↦ absurd (ground arith)
          | inl (r, f) ↦
              let loaded = load-result laws disk q fd w1 l r k1 f in
              let read = collect_events l.events k.good.valid in ground arith
        ]
  ]
