-- ===== src/Posix/Transactions.antt =====
-- The operations of `DurableQueue` in hey_platform/engine.py over its POSIX storage.
use hermes_hey.Prelude.{ℕ, ◌-◌, Text, Bool, ◌≡◌, some}
use hermes_hey.Core.Event.{HeyEvent}
use hermes_hey.Queue.State.{Codec, DurableQueue}
use hermes_hey.Queue.Transaction.{ingest, complete, pending}
use hermes_hey.Queue.Handles.{HandleLaws, ingest-opened, complete-opened, pending-opened}
use hermes_hey.Posix.Api.{PosixApi, Bytes}
use hermes_hey.Posix.Descriptors.{DescriptorLaws, open_posix_parent-opened}
use hermes_hey.Posix.Released.{read_state-released, save_posix-released}
use hermes_hey.Posix.Opening.{open_posix_parent-some}
use hermes_hey.Posix.Storing.{posix_storage, close_parent}

module _ {W : Type 0} {api : PosixApi W} (name : Text) where
  close_one :
      (laws : DescriptorLaws api) (fd : ℕ) (w : W)
      → laws.opened (close_parent api name (some fd) w).1 ≡ laws.opened w - 1
  unfolding close_parent
  close_one laws fd w = laws.close_one fd w

  abbrev posix_storage-HandleLaws : DescriptorLaws api → HandleLaws (posix_storage api name)
  posix_storage-HandleLaws laws = record {
    opened = laws.opened;
    open_kept = open_posix_parent-opened laws;
    open_some = open_posix_parent-some api;
    read_same = read_state-released laws name;
    replace_same = save_posix-released laws name;
    close_one = close_one laws;
  }

  -- Where opening that succeeds adds one to a count of open descriptors, closing takes one away
  -- even if it raises, and the other calls of the system leave it, `ingest`, `complete` and
  -- `pending` over the POSIX storage leave as many open as before, whether they return or raise.
  pub posix_queue-opened :
      (laws : DescriptorLaws api) (codec : Codec Bytes) (q : DurableQueue) (e : HeyEvent)
      (authorize : HeyEvent → Bool) (id : Text) (w : W)
      → (laws.opened (ingest (posix_storage api name) codec q e authorize w).1 ≡ laws.opened w)
        × (laws.opened (complete (posix_storage api name) codec q id w).1 ≡ laws.opened w)
        × (laws.opened (pending (posix_storage api name) codec q w).1 ≡ laws.opened w)
  posix_queue-opened laws codec q e authorize id w =
      let handles = posix_storage-HandleLaws laws in
      (
        ingest-opened handles codec q e authorize w,
        complete-opened handles codec q id w,
        pending-opened handles codec q w,
      )
