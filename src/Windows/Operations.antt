-- ===== src/Windows/Operations.antt =====
-- The Windows branches of `ingest`, `pending` and `complete` of hey_platform/engine.py, and
-- `_windows_state_transaction` around them.
use hermes_hey.Prelude.{
  Text, Bool, false, List, Error, runtime_error, is_os_error, err, if◌then◌else◌,
}
use hermes_hey.Exec.{Exec, pure, throw, lift, catch}
use hermes_hey.Core.Event.{HeyEvent}
use hermes_hey.Queue.State.{Codec, DurableQueue}
use hermes_hey.Queue.Transaction
use hermes_hey.Queue.Transaction.{ingest_new, complete_in, transact}
use hermes_hey.Windows.Transaction.{WindowsApi, windows_storage}

-- `except (ImportError, OSError)`, for a module that can be imported
unfoldable pub unavailable {ℓ} : {A W : Type ℓ} → Error → Exec W A
unavailable e =
    if is_os_error e.class
    then throw runtime_error "Windows secure state APIs are unavailable"
    else lift (err e)

-- `_windows_state_transaction`, around the opening, the body and the closing
unfoldable pub windows_state_transaction {ℓ} : {A W : Type ℓ} → Exec W A → Exec W A
windows_state_transaction body = catch body unavailable

module _ {B W : Type 0} (api : WindowsApi B W) (path parent_path name : Text) (codec : Codec B)
    (q : DurableQueue) where
  unfoldable pub windows_ingest : HeyEvent → (HeyEvent → Bool) → Exec W Bool
  windows_ingest event authorize =
      if authorize event
      then windows_state_transaction (
          transact (windows_storage api path parent_path name) codec q
            (ingest_new (windows_storage api path parent_path name) codec q event))
      else pure false

  unfoldable pub windows_pending : Exec W (List HeyEvent)
  windows_pending =
      windows_state_transaction
        (Transaction.pending (windows_storage api path parent_path name) codec q)

  unfoldable pub windows_complete : Text → Exec W (Unit {0})
  windows_complete id =
      windows_state_transaction
        (Transaction.complete (windows_storage api path parent_path name) codec q id)
