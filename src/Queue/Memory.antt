-- ===== src/Queue/Memory.antt =====
-- What the state file of hey_platform/engine.py remembers of an event once `ingest` has returned.
use mathlib.Core.List.{map-append}
use hermes_hey.Prelude.{
  Text, Bool, true, not, ◌≡◌, sym, some, List, [], ◌∷◌, ◌++◌, map, length, leb, arith, ok, inl, inr,
  Bool-cases,
}
use hermes_hey.Core.Event.{HeyEvent, IsValid, identity}
use hermes_hey.Queue.State.{Codec, DurableQueue, contains_text}
use hermes_hey.Queue.Sets.{subset-contains, contains_text-snoc_self}
use hermes_hey.Queue.Format.{CodecLaws, IsGood}
use hermes_hey.Queue.Spec.{Ledger, stored, accept}
use hermes_hey.Queue.Transaction.{Storage, ingest}
use hermes_hey.Queue.Refinement.{StorageLaws, Keeps, ingest-refines}

stored-remembers :
    (q : DurableQueue) (e : HeyEvent) (seen : List Text) (events : List HeyEvent)
    → IsGood q (stored q seen (events ++ e ∷ [])).seen (stored q seen (events ++ e ∷ [])).events
    → contains_text (identity e) (stored q seen (events ++ e ∷ [])).seen ≡ true
unfolding stored
stored-remembers q e seen events good =
    let last : contains_text (identity e) (map identity (events ++ e ∷ [])) ≡ true =
      rw (map-append identity events (e ∷ []))
        (contains_text-snoc_self (identity e) (map identity events)) in
    subset-contains (identity e) (map identity (events ++ e ∷ [])) _ good.pending_seen last

-- An event that the ledger was asked to take is remembered, and was taken exactly if it was new.
accept-remembers :
    (q : DurableQueue) (e : HeyEvent) (l l' : Ledger) (b : Bool)
    → accept q e l ≡ some (b, l')
    → IsGood q l'.seen l'.events
    → (contains_text (identity e) l'.seen ≡ true) × (b ≡ not (contains_text (identity e) l.seen))
unfolding accept
accept-remembers q e l l' b taken good = elim (Bool-cases (contains_text (identity e) l.seen)) [
  | inl old ↦ ground (arith, old)
  | inr new ↦ elim (Bool-cases (leb q.max_pending (length l.events))) [
    | inl full ↦ absurd (ground (arith, new, full))
    | inr room ↦
        let after : stored q (l.seen ++ identity e ∷ []) (l.events ++ e ∷ []) ≡ l' =
          ground (arith, new, room) in
        let good' = rw (sym after) at good in
        (
          rw (sym after) (stored-remembers q e (l.seen ++ identity e ∷ []) l.events good'),
          ground (arith, new, room),
        )
  ]
]

module _ {B W : Type 0} {storage : Storage B W} {codec : Codec B} (laws : CodecLaws codec)
    (disk : StorageLaws codec storage) (q : DurableQueue) where
  -- Over a codec and a storage that keep their laws, where the file holds a good state that stands
  -- for a ledger, and for a valid event that is authorized: if `ingest` returns, the file then
  -- holds a ledger that remembers the event, and the answer is whether the ledger before did not.
  pub ingest-durable :
      (e : HeyEvent) (authorize : HeyEvent → Bool) (accepted : Bool) (l : Ledger) (w : W)
      → Keeps laws disk q w l
      → IsValid e
      → authorize e ≡ true
      → (ingest storage codec q e authorize w).0 ≡ ok accepted
      → (l' : Ledger) × Keeps laws disk q (ingest storage codec q e authorize w).1 l'
        × (contains_text (identity e) l'.seen ≡ true)
        × (accepted ≡ not (contains_text (identity e) l.seen))
  ingest-durable e authorize accepted l w k v allowed done =
      let (l', taken, k') = ingest-refines laws disk q e authorize l w accepted k v allowed done in
      let (remembered, answer) = accept-remembers q e l l' accepted taken k'.good in
      (l', k', remembered, answer)
