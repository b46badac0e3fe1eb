-- ===== src/Client/Watch.antt =====
-- `HeySDKWatch` of hey_platform/client.py: what its lines are read as, how its process is started and
-- ended, and its acknowledgements.
use hermes_hey.Prelude.{
  raw, ℕ, ◌++◌, [], ◌∷◌, List, Text, codes, Bool, true, false, ◌⊎◌, inl, inr, Result, ok, err,
  Error, ErrorClass, value_error, type_error, runtime_error, is_os_error, if◌then◌else◌,
}
use hermes_hey.Exec.{Exec, pure, throw, lift, catch, ◌>>=◌, ◌>>◌}
use hermes_hey.Json.{ℤ, Value, Fields, object}
use hermes_hey.Core.Identity.{is_event_identity}
use hermes_hey.Client.Command.{is_invalid_json, is_zero, show_int, failure}

-- Why the loop over the lines ends: the pipe is at its end, or an exception, before which the process
-- tree is closed or not.
pub data Ending : Type 0 where
  at_end : Ending
  closed : Error → Ending
  escaped : Error → Ending

-- `except ValueError` around the loop
unfoldable pub after_error : Error → Ending
after_error e = elim e.class [
  | value_error ↦ closed (record {
    class = runtime_error;
    message = raw (codes "HEY SDK watch returned oversized JSON");
  })
  | _ ↦ escaped e
]

invalid : ErrorClass → Ending
invalid c =
    closed (record { class = c; message = raw (codes "HEY SDK watch returned invalid JSON") })

-- what is made of a line that is decoded
unfoldable pub read_value : Result Value → Fields ⊎ Ending
unfolding is_invalid_json after_error invalid
read_value (ok (object d)) = inl d
read_value (ok _) = inr (invalid type_error)
read_value (err e) =
    if is_invalid_json e.class then inr (invalid runtime_error) else inr (after_error e)

-- The loop over what `readline` gives: a line, an empty one at the end, or an exception. The first are
-- the values that are yielded.
unfoldable pub read_values : (List ℕ → Result Value) → List (Result (List ℕ)) → List Fields × Ending
unfolding after_error
read_values decode [] = ([], at_end)
read_values decode (err e ∷ reads) = ([], after_error e)
read_values decode (ok [] ∷ reads) = ([], at_end)
read_values decode (ok (b ∷ bs) ∷ reads) =
    let (values, ending) = read_values decode reads in
    elim (read_value (decode (b ∷ bs))) [ inl d ↦ (d ∷ values, ending) | inr stop ↦ ([], stop) ]

-- What the watch calls of the operating system. `end_stderr` ends the task that reads the other pipe.
pub record WatchApi (W : Type 0) : Type 0 where
  pub make_tree : Exec W (Unit {0})
  pub spawn : Exec W (Unit {0})
  pub attach : Exec W (Unit {0})
  pub is_running : W → Bool
  pub kill_and_wait : Exec W (Unit {0})
  pub terminate_tree : Exec W (Unit {0})
  pub close_tree : Exec W (Unit {0})
  pub await_exit : Exec W ℤ
  pub end_stderr : Exec W (Unit {0})
  pub has_stdin : W → Bool
  pub write : Text → Exec W (Unit {0})
  pub drain : Exec W (Unit {0})

-- `has_tree` is whether `_process_tree` is set.
pub record Watch (W : Type 0) : Type 0 where
  pub world : W
  pub has_tree : Bool

module _ {W : Type 0} (api : WatchApi W) where
  abbrev pub Step : Type 0 → Type 0
  Step A = Exec (Watch W) A

  unfoldable pub on_world : {A : Type 0} → Exec W A → Step A
  on_world m s = let (r, w) = m s.world in (r, record s { world = w })

  unfoldable pub set_tree : Bool → Step (Unit {0})
  set_tree b s = (ok tt, record s { has_tree = b })

  unfoldable pub close_if : Bool → Step (Unit {0})
  close_if false = pure tt
  close_if true = do on_world api.terminate_tree; on_world api.close_tree; set_tree false

  -- `_close_process_tree`
  unfoldable pub close_process_tree : Step (Unit {0})
  close_process_tree s = close_if s.has_tree s

  unfoldable pub kill_running : Step (Unit {0})
  kill_running s = if api.is_running s.world then on_world api.kill_and_wait s else (ok tt, s)

  unfoldable pub drop_tree : Bool → Step (Unit {0})
  drop_tree false = pure tt
  drop_tree true = do on_world api.close_tree; set_tree false

  -- `except OSError` of the start
  unfoldable pub not_started : Error → Step (Unit {0})
  not_started e =
      if is_os_error e.class
      then (do
        kill_running
        λ s. drop_tree s.has_tree s
        throw runtime_error "HEY SDK watch could not start")
      else lift (err e)

  unfoldable pub starting : Step (Unit {0})
  starting = do on_world api.make_tree; set_tree true; on_world api.spawn; on_world api.attach

  -- the start of `lines`
  unfoldable pub start : Step (Unit {0})
  start = catch starting not_started

  -- the exception at the end of the pipe
  unfoldable pub stopped : ℤ → Result (Unit {0})
  unfolding is_zero show_int failure
  stopped code =
      if is_zero code
      then failure runtime_error (codes "HEY SDK watch stopped unexpectedly")
      else failure runtime_error
          (codes "HEY SDK watch failed (exit " ++ (show_int code ++ codes ")"))

  -- the end of `lines`
  unfoldable pub finish : Ending → Step (Unit {0})
  finish (escaped e) = lift (err e)
  finish (closed e) = do close_process_tree; lift (err e)
  finish at_end = do
    code ← on_world api.await_exit
    on_world api.end_stderr
    close_process_tree
    lift (stopped code)

  -- `lines`: the values that it yields, and how it ends
  unfoldable pub lines :
      (List ℕ → Result Value)
      → List (Result (List ℕ))
      → Watch W
      → List Fields × (Result (Unit {0}) × Watch W)
  lines decode reads s =
      let (r, s') = start s in
      elim r [
        | err e ↦ ([], (err e, s'))
        | ok u ↦ let (values, ending) = read_values decode reads in (values, finish ending s')
      ]

  -- `ack`; `dumps` prints the frame of an identity as JSON
  unfoldable pub ack : (Text → Text) → Text → Exec W (Unit {0})
  ack dumps event_id w =
      if is_event_identity event_id
      then (if api.has_stdin w
          then (do api.write (dumps event_id ++ codes "\n"); api.drain) w
          else throw runtime_error "HEY SDK watch is not running" w)
      else throw runtime_error "HEY SDK watch event identity is invalid" w
