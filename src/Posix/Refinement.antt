-- ===== src/Posix/Refinement.antt =====
-- The queue of hey_platform/engine.py over its POSIX storage implements the ledger.
use hermes_hey.Prelude.{Bool, ◌++◌, [], ◌∷◌, ◌⊎◌, ℕ, Text, true, ◌≡◌, some, take, ok, inl, inr}
use hermes_hey.Queue.State.{Codec, DurableQueue, load_state}
use hermes_hey.Core.Event.{HeyEvent, IsValid, identity}
use hermes_hey.Queue.Format.{CodecLaws, IsGood}
use hermes_hey.Queue.Spec.{Ledger, accept, stored, state_of}
use hermes_hey.Queue.Transaction.{ingest}
use hermes_hey.Queue.Atomic.{ingest-atomic}
use hermes_hey.Queue.Refinement.{StorageLaws, Keeps, ingest-refines}
use hermes_hey.Posix.Api.{PosixApi, Bytes}
use hermes_hey.Posix.Files.{FileLaws}
use hermes_hey.Posix.Saving.{save_posix}
use hermes_hey.Posix.Opening.{
  open_posix_parent-Same, open_posix_parent-none, open_posix_parent-some,
}
use hermes_hey.Posix.Found.{read_state-Same}
use hermes_hey.Posix.Storing.{
  posix_storage, read_state-front, save_posix-done, OldOrNew-of_Staged, save_posix-Staged,
  close_parent-Same,
}

module _ {W : Type 0} {api : PosixApi W} {name : Text} (laws : FileLaws api name) where
  -- The POSIX storage is one that the queue's theorems take.
  abbrev pub posix_storage-StorageLaws :
      (codec : Codec Bytes)
      → ((n : ℕ) (b : Bytes) → codec.front n b ≡ take n b)
      → StorageLaws codec (posix_storage api name)
  posix_storage-StorageLaws codec front = record {
    content = laws.content;
    open_content = open_posix_parent-Same laws;
    open_created = open_posix_parent-some api;
    open_missing = open_posix_parent-none laws;
    read_content = read_state-Same laws;
    read_result = λ fd n w o gave. read_state-front laws codec fd n w o front gave;
    replace_done = save_posix-done laws;
    replace_atomic = λ h b w.
        OldOrNew-of_Staged laws (laws.content w) b (save_posix api name h b w)
          (save_posix-Staged laws h b w);
    close_content = close_parent-Same laws;
  }

module _ {W : Type 0} {api : PosixApi W} {name : Text} {codec : Codec Bytes}
    (laws : CodecLaws codec) (files : FileLaws api name)
    (front : (n : ℕ) (b : Bytes) → codec.front n b ≡ take n b) (q : DurableQueue) where
  -- the state file holds a good state that stands for the ledger
  pub record PosixKeeps (w : W) (l : Ledger) : Type 0 where
    pub loads : load_state codec q (files.content w) ≡ ok (state_of l)
    pub good : IsGood q l.seen l.events

  abbrev disk_laws : StorageLaws codec (posix_storage api name)
  disk_laws = posix_storage-StorageLaws files codec front

  keeps : (w : W) (l : Ledger) → PosixKeeps w l → Keeps laws disk_laws q w l
  keeps w l k = record { loads = k.loads; good = k.good }

  kept : (w : W) (l : Ledger) → Keeps laws disk_laws q w l → PosixKeeps w l
  kept w l k = record { loads = k.loads; good = k.good }

  -- Over a POSIX system whose files behave as documented (`FileLaws`), a codec that keeps its laws
  -- and takes the first bytes, where the state file holds a good state that stands for a ledger,
  -- and for a valid event that is authorized: if `ingest` returns, its answer and the ledger that
  -- the state file then holds are those of `accept`.
  pub posix_ingest-refines :
      (e : HeyEvent) (authorize : HeyEvent → Bool) (l : Ledger) (w : W) (b : Bool)
      → PosixKeeps w l
      → IsValid e
      → authorize e ≡ true
      → (ingest (posix_storage api name) codec q e authorize w).0 ≡ ok b
      → (l' : Ledger) × (accept q e l ≡ some (b, l'))
        × PosixKeeps (ingest (posix_storage api name) codec q e authorize w).1 l'
  posix_ingest-refines e authorize l w b k v allowed done =
      let (l', accepted, k') =
        ingest-refines laws disk_laws q e authorize l w b (keeps w l k) v allowed done in
      (l', accepted, kept _ l' k')

  -- Over a POSIX system whose files behave as documented (`FileLaws`), a codec that keeps its laws
  -- and takes the first bytes, where the state file holds a good state that stands for a ledger,
  -- and for a valid event: whichever call of the system raises, the state file then holds the
  -- ledger before or the ledger with the event added.
  pub posix_ingest-atomic :
      (e : HeyEvent) (authorize : HeyEvent → Bool) (l : Ledger) (w : W)
      → PosixKeeps w l
      → IsValid e
      → PosixKeeps (ingest (posix_storage api name) codec q e authorize w).1 l
        ⊎ PosixKeeps
            (ingest (posix_storage api name) codec q e authorize w).1
            (stored q (l.seen ++ identity e ∷ []) (l.events ++ e ∷ []))
  posix_ingest-atomic e authorize l w k v =
      elim (ingest-atomic laws disk_laws q e authorize l w (keeps w l k) v) [
        | inl before ↦ inl (kept _ l before)
        | inr after ↦ inr (kept _ (stored q (l.seen ++ identity e ∷ []) (l.events ++ e ∷ [])) after)
      ]
