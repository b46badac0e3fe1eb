-- ===== src/Adapter/Watching.antt =====
-- The watch: `process_watch_line` of hey_platform/adapter.py for one frame, and the reconnecting of
-- `_watch_supervisor`.
use hermes_hey.Prelude.{
  ℕ, ◌+◌, ◌-◌, ◌^◌, Text, codes, str, Bool, true, false, Option, none, some, List, [], ◌∷◌, ◌++◌,
  leb, ◌==◌, if◌then◌else◌, Result, ok, err, ErrorClass, value_error, decode_error, duplicate_key,
  runtime_error, is_key_type_or_value, raw, raise,
}
use hermes_hey.Exec.{Exec, pure, lift, throw, ◌>>=◌, ◌>>◌}
use hermes_hey.Strings.{contains}
use hermes_hey.Json.{Fields}
use hermes_hey.Core.Event.{HeyEvent, identity}
use hermes_hey.Core.Frames.{parse_fatal_frame, parse_event_frame}
use hermes_hey.Queue.Transaction
use hermes_hey.Adapter.World.{World}
use hermes_hey.Adapter.Drain.{Adapter, on_disk, is_authorized, drain_pending}

-- `ValueError`, with its subclasses
unfoldable pub is_value_error : ErrorClass → Bool
is_value_error value_error = true
is_value_error decode_error = true
is_value_error duplicate_key = true
is_value_error _ = false

-- `except ValueError as exc: raise RuntimeError(str(exc))`
unfoldable pub value_to_runtime {ℓ} : {A : Type ℓ} → Result A → Result A
unfolding is_value_error
value_to_runtime (ok a) = ok a
value_to_runtime (err e) =
    if is_value_error e.class
    then err (record { class = runtime_error; message = e.message })
    else err e

-- the handler of `process_watch_line` for the errors of an event frame
unfoldable pub event_to_runtime : Result HeyEvent → Result HeyEvent
unfolding contains codes str
event_to_runtime (ok event) = ok event
event_to_runtime (err e) =
    if is_key_type_or_value e.class
    then (if contains (codes "invalid post-ready frame") (str e.message)
        then err (record { class = runtime_error; message = e.message })
        else raise runtime_error "HEY SDK watch returned an invalid event")
    else err e

-- a fatal frame raises its text
unfoldable pub raise_fatal : Option Text → Result (Unit {0})
unfolding codes
raise_fatal none = ok tt
raise_fatal (some fatal) = err (record {
  class = runtime_error;
  message = raw (codes "HEY SDK watch reported a fatal error: " ++ fatal);
})

-- The event of a line of the watch, checked against the configured account.
unfoldable pub read_event : ℕ → Fields → Result HeyEvent
unfolding value_to_runtime raise_fatal event_to_runtime
read_event account_id frame = elim (value_to_runtime (parse_fatal_frame frame)) [
  | err e ↦ err e
  | ok fatal ↦ elim (raise_fatal fatal) [
    | err e ↦ err e
    | ok u ↦ elim (event_to_runtime (parse_event_frame frame)) [
      | err e ↦ err e
      | ok event ↦
          if event.account_id == account_id
          then ok event
          else raise runtime_error "HEY SDK watch event account does not match configuration"
    ]
  ]
]

module _ {B D G : Type 0} (self : Adapter B D G) where
  -- the event is acknowledged, if there is a watch
  unfoldable pub acknowledge_event :
      Option (Text → Exec (World D G) (Unit {0})) → Text → Exec (World D G) (Unit {0})
  acknowledge_event none id =
      throw runtime_error "HEY SDK watch acknowledgement channel is unavailable"
  acknowledge_event (some send_ack) id = send_ack id

  -- `ack` is `_watch.ack`, or `none` when there is no watch.
  module _ (ack : Option (Text → Exec (World D G) (Unit {0}))) where
    -- `process_watch_line` once the event has been read
    unfoldable pub accept_event : HeyEvent → Exec (World D G) (Unit {0})
    unfolding acknowledge_event
    accept_event event = do
      accepted ←
          on_disk self
            (Transaction.ingest self.storage self.codec self.queue event (is_authorized self))
      acknowledge_event ack (identity event)
      if accepted then drain_pending self else pure tt

    unfoldable pub process_watch_line : Fields → Exec (World D G) (Unit {0})
    process_watch_line frame = do
      event ← lift (read_event self.access.account_id frame)
      accept_event event

-- One connection of the supervisor, which always ends in an exception or a cancellation: whether it
-- lasted `WATCH_STABLE_SECONDS`.
pub data Ending : Type 0 where
  cancelled : Ending
  failed : Bool → Ending

-- What the supervisor does after a connection: stop, give up with a fatal error, or wait for so many
-- seconds and connect again with the new count of failures.
pub data Decision : Type 0 where
  stop : Decision
  fatal : Decision
  reconnect : ℕ → ℕ → Decision

-- `min(60, 2 ** (failures - 1))`
unfoldable pub retry_delay : ℕ → ℕ
retry_delay failures = let d = 2 ^ (failures - 1) in if leb d 60 then d else 60

unfoldable pub after_failure : ℕ → ℕ → Decision
after_failure threshold failures =
    if leb threshold failures then fatal else reconnect (retry_delay failures) failures

-- the body of the loop of `_watch_supervisor` around one connection
unfoldable pub supervise_once : ℕ → ℕ → Ending → Decision
unfolding after_failure
supervise_once threshold failures cancelled = stop
supervise_once threshold failures (failed stable) =
    after_failure threshold ((if stable then 0 else failures) + 1)

-- What the loop comes to over the endings of its connections, and the waits between them. `none` is
-- a supervisor that still runs.
unfoldable pub supervise : ℕ → ℕ → List Ending → List ℕ × Option Decision
supervise threshold failures [] = ([], none)
supervise threshold failures (ending ∷ endings) = elim (supervise_once threshold failures ending) [
  | stop ↦ ([], some stop)
  | fatal ↦ ([], some fatal)
  | reconnect delay failures' ↦
      let (delays, end) = supervise threshold failures' endings in (delay ∷ delays, end)
]
