-- ===== src/Queue/Transaction.antt =====
-- The operations of `DurableQueue` in hey_platform/engine.py, over the storage of one state file.
use hermes_hey.Prelude.{
  ℕ, ◌+◌, Text, Bool, true, false, Option, none, some, List, [], ◌∷◌, ◌++◌, length, leb,
  if◌then◌else◌, runtime_error, collect,
}
use hermes_hey.Exec.{Exec, pure, lift, throw, finally, ◌>>=◌, ◌>>◌}
use hermes_hey.Json.{Fields}
use hermes_hey.Core.Event.{HeyEvent, identity, from_dict, to_dict}
use hermes_hey.Queue.State.{
  Codec, DurableQueue, State, load_state, encode_state, contains_text, keep_others,
}

-- One transaction on the state file: the directory is opened, `none` if it is not there and is not
-- to be made; the file is read, at most so many bytes; it is replaced; the directory is closed.
pub record Storage (B W : Type 0) : Type 0 where
  pub open_parent : Bool → Exec W (Option ℕ)
  pub read_state : Option ℕ → ℕ → Exec W (Option B)
  pub replace_state : Option ℕ → B → Exec W (Unit {0})
  pub close_parent : Option ℕ → Exec W (Unit {0})

module _ {B W : Type 0} (storage : Storage B W) (codec : Codec B) (q : DurableQueue) where
  unfoldable pub load : Option ℕ → Exec W State
  load handle = do
    encoded ← storage.read_state handle (q.max_state_bytes + 1)
    lift (load_state codec q encoded)

  unfoldable pub save : List Text → List Fields → Option ℕ → Exec W (Unit {0})
  save seen pending handle = do
    encoded ← lift (encode_state codec q seen pending)
    storage.replace_state handle encoded

  unfoldable pub ingest_new : HeyEvent → Option ℕ → State → Exec W Bool
  ingest_new event handle value =
      if contains_text (identity event) value.seen
      then pure false
      else if leb q.max_pending (length value.pending)
      then throw runtime_error "HEY pending queue is full"
      else (do
        save (value.seen ++ identity event ∷ []) (value.pending ++ to_dict event ∷ []) handle
        pure true)

  -- the frame of `ingest` and `complete`: open, load, change, and close on every path
  unfoldable pub transact : {A : Type 0} → (Option ℕ → State → Exec W A) → Exec W A
  transact body = do
    handle ← storage.open_parent true
    finally (do value ← load handle; body handle value) (storage.close_parent handle)

  -- `ingest`; under Windows, Windows/Operations puts `_windows_state_transaction` around it
  unfoldable pub ingest : HeyEvent → (HeyEvent → Bool) → Exec W Bool
  ingest event authorize = if authorize event then transact (ingest_new event) else pure false

  pending_of : Option ℕ → Exec W (List HeyEvent)
  pending_of none = pure []
  pending_of (some fd) =
      finally (do value ← load (some fd); lift (collect from_dict value.pending))
        (storage.close_parent (some fd))

  unfoldable pub pending : Exec W (List HeyEvent)
  unfolding pending_of
  pending = do handle ← storage.open_parent false; pending_of handle

  unfoldable pub complete_in : Text → Option ℕ → State → Exec W (Unit {0})
  complete_in id handle value = do
    kept ← lift (keep_others id value.pending)
    save value.seen kept handle

  unfoldable pub complete : Text → Exec W (Unit {0})
  complete id = transact (complete_in id)
