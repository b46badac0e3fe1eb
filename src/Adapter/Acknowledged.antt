-- ===== src/Adapter/Acknowledged.antt =====
-- When `process_watch_line` of hey_platform/adapter.py acknowledges an event.
use hermes_hey.Prelude.{
  Text, Bool, true, ◌≡◌, ◌⊎◌, refl, Option, err, Error, Result-cases, inl, inr, if◌then◌else◌,
}
use hermes_hey.Exec.{Exec, pure, ◌>>◌}
use hermes_hey.Core.Event.{HeyEvent, IsValid, identity}
use hermes_hey.Queue.State.{contains_text}
use hermes_hey.Queue.Format.{CodecLaws}
use hermes_hey.Queue.Spec.{Ledger}
use hermes_hey.Queue.Transaction.{ingest}
use hermes_hey.Queue.Refinement.{StorageLaws, Keeps}
use hermes_hey.Queue.Memory.{ingest-durable}
use hermes_hey.Adapter.World.{World}
use hermes_hey.Adapter.Drain.{Adapter, is_authorized, on_disk, drain_pending}
use hermes_hey.Adapter.Watching.{accept_event, acknowledge_event}

module _ {B D G : Type 0} (self : Adapter B D G) (ack : Option (Text → Exec (World D G) (Unit {0})))
    (laws : CodecLaws self.codec) (disk : StorageLaws self.codec self.storage) where
  -- the file holds a good state that remembers the identity
  pub record Remembers (d : D) (id : Text) : Type 0 where
    pub ledger : Ledger
    pub keeps : Keeps laws disk self.queue d ledger
    pub remembered : contains_text id ledger.seen ≡ true

  -- Over a codec and a storage that keep their laws, where the file holds a good state that stands
  -- for a ledger, and for a valid event that is authorized: handling the event either raises
  -- before any acknowledgement and changes at most the disk, or goes on to the acknowledgement in
  -- a world whose file remembers the event.
  pub accept_event-durable :
      (e : HeyEvent) (l : Ledger) (w : World D G)
      → Keeps laws disk self.queue w.disk l
      → IsValid e
      → is_authorized self e ≡ true
      → ((x : Error) × (d : D) × (accept_event self ack e w ≡ (err x, record w { disk = d })))
        ⊎ ((accepted : Bool) × (d : D) × Remembers d (identity e)
            × (accept_event self ack e w
                ≡ (acknowledge_event self ack (identity e)
                      >> (if accepted then drain_pending self else pure tt))
                    (record w { disk = d })))
  unfolding accept_event on_disk
  accept_event-durable e l w k v allowed =
      let d = (ingest self.storage self.codec self.queue e (is_authorized self) w.disk).1 in
      elim (Result-cases
        (ingest self.storage self.codec self.queue e (is_authorized self) w.disk).0) [
          | inr (x, f) ↦ inl (x, d, rw f refl)
          | inl (accepted, f) ↦
              let (l', k', remembered, answer) =
                ingest-durable laws disk self.queue e (is_authorized self) accepted l w.disk k v
                  allowed f in
              inr (
                accepted,
                d,
                record { ledger = l'; keeps = k'; remembered = remembered },
                rw f refl,
              )
        ]
