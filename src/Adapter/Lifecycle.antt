-- ===== src/Adapter/Lifecycle.antt =====
-- `connect` and `disconnect` of hey_platform/adapter.py, with the lock of the credentials and the live
-- adapters of the process.
use hermes_hey.Prelude.{
  ℕ, ◌==◌, Text, Bool, true, false, Option, none, some, String, Message, lit, raw, str, ok, Error,
  type_error, runtime_error, if◌then◌else◌,
}
use hermes_hey.Exec.{Exec, pure, throw, catch, ◌>>=◌, ◌>>◌}
use hermes_hey.Dict
use hermes_hey.Dict.{Dict, text_key}
use hermes_hey.Adapter.World.{World}
use hermes_hey.Adapter.Drain.{Adapter, drain_pending}

-- `_set_fatal_error`
pub record Fatal : Type 0 where
  pub code : String
  pub message : Message
  pub retryable : Bool

-- What an adapter keeps of its connection. `live` is `_live_adapters`, shared by the class: the number
-- of the adapter of each state file. `has_watch` is whether `_watch` is set.
pub record Session (D G : Type 0) : Type 0 where
  pub world : World D G
  pub lock_acquired : Bool
  pub live : Dict Text ℕ
  pub gateway_ready_task : Option ℕ
  pub watch_task : Option ℕ
  pub has_watch : Bool
  pub connected : Bool
  pub fatal : Option Fatal

-- What `connect` and `disconnect` call. The two functions of the lock are `none` where `gateway.status`
-- cannot be imported, and `verify` is `none` where the client has none; it gives whether the answer is
-- `True`. `cancel_task` asks a task to end, and `await_task` waits for it, which a cancellation does
-- not raise from. `meanwhile` is what the other tasks of the process do to the session while an `await`
-- of this one waits.
pub record Platform (D G : Type 0) : Type 0 where
  pub acquire_scoped_lock : Option (Exec (World D G) Bool)
  pub release_scoped_lock : Option (Exec (World D G) (Unit {0}))
  pub verify : Option (Exec (World D G) Bool)
  pub create_gateway_ready_task : Exec (World D G) ℕ
  pub create_watch_task : Exec (World D G) ℕ
  pub is_done : ℕ → World D G → Bool
  pub cancel_task : ℕ → Exec (World D G) (Unit {0})
  pub await_task : ℕ → Exec (World D G) (Unit {0})
  pub stop_watch : Exec (World D G) (Unit {0})
  pub meanwhile : Session D G → Session D G

-- `number` tells this adapter from the others.
module _ {B D G : Type 0} (self : Adapter B D G) (platform : Platform D G) (number : ℕ) where
  abbrev pub Step : Type 0 → Type 0
  Step A = Exec (Session D G) A

  -- code that changes nothing of the session itself
  unfoldable pub on_world : {A : Type 0} → Exec (World D G) A → Step A
  on_world m s = let (r, w) = m s.world in (r, record s { world = w })

  -- an `await`
  unfoldable pub awaited : {A : Type 0} → Exec (World D G) A → Step A
  awaited m s = let (r, w) = m s.world in (r, platform.meanwhile (record s { world = w }))

  unfoldable pub set_fatal_error : String → Message → Bool → Step (Unit {0})
  set_fatal_error code message retryable s = (
    ok tt,
    record s { fatal = some (record { code = code; message = message; retryable = retryable }) },
  )

  unfoldable pub register_live_adapter : Step (Unit {0})
  register_live_adapter s = (ok tt, record s { live = Dict.put self.state_key number s.live })

  -- whether the live adapter is this one
  unfoldable pub is_self : Option ℕ → Bool
  is_self none = false
  is_self (some other) = other == number

  unfoldable pub unregister_live_adapter : Step (Unit {0})
  unfolding is_self
  unregister_live_adapter s = (
    ok tt,
    record s {
      live =
          if is_self (Dict.get self.state_key s.live)
          then Dict.pop self.state_key s.live
          else s.live;
    },
  )

  unfoldable pub call_release : Option (Exec (World D G) (Unit {0})) → Step (Unit {0})
  call_release none = pure tt
  call_release (some release) = on_world release

  -- `_release_lock`, for whether a lock was acquired
  unfoldable pub release_if : Bool → Step (Unit {0})
  release_if false = pure tt
  release_if true = do
    call_release platform.release_scoped_lock
    λ s. (ok tt, record s { lock_acquired = false })

  unfoldable pub release_lock : Step (Unit {0})
  release_lock s = release_if s.lock_acquired s

  -- what follows the attempt on the lock
  unfoldable pub note_lock : Bool → Step Bool
  note_lock true s = (ok true, record s { lock_acquired = true })
  note_lock false s =
      (do
        set_fatal_error "lock_conflict"
            (lit "HEY credential context is already used by another profile") false
        pure false)
        s

  -- the first `try` of `connect`: whether the lock is held or there is none
  unfoldable pub acquire_lock : Option (Exec (World D G) Bool) → Step Bool
  acquire_lock none = pure true
  acquire_lock (some acquire) = do acquired ← on_world acquire; note_lock acquired

  unfoldable pub call_verify : Option (Exec (World D G) Bool) → Step (Unit {0})
  call_verify none = throw type_error "HEY SDK client cannot verify identity and protocol"
  call_verify (some verify) = do
    verification ← awaited verify
    if verification
        then pure tt
        else throw runtime_error "HEY SDK client verification did not return true"

  -- the second `try`
  unfoldable pub start : Step Bool
  start = do
    call_verify platform.verify
    register_live_adapter
    awaited (drain_pending self)
    ready ← on_world platform.create_gateway_ready_task
    λ s. (ok tt, record s { gateway_ready_task = some ready })
    watching ← on_world platform.create_watch_task
    λ s. (ok true, record s { watch_task = some watching })

  -- its handler
  unfoldable pub connect_failed : Error → Step Bool
  connect_failed e = do
    unregister_live_adapter
    set_fatal_error "connect_failed" (raw (str e.message)) true
    release_lock
    pure false

  unfoldable pub mark_connected : Bool → Step Bool
  mark_connected true s = (ok true, record s { connected = true })
  mark_connected false s = (ok false, s)

  unfoldable pub connect_locked : Bool → Step Bool
  connect_locked false = pure false
  connect_locked true = do started ← catch start connect_failed; mark_connected started

  -- `configured` is whether there are an account and an own address
  unfoldable pub connect : Bool → Step Bool
  connect configured =
      if configured
      then (do acquired ← acquire_lock platform.acquire_scoped_lock; connect_locked acquired)
      else (do
        set_fatal_error "config_missing" (lit "HEY requires extra.account and extra.own_email")
            false
        pure false)

  -- a task that runs is cancelled; `between` comes before the wait for its end
  unfoldable pub end_task : Option ℕ → Step (Unit {0}) → Step (Unit {0})
  end_task none between s = (ok tt, s)
  end_task (some task) between s =
      if platform.is_done task s.world
      then (ok tt, s)
      else (do on_world (platform.cancel_task task); between; awaited (platform.await_task task)) s

  unfoldable pub stop_watch : Step (Unit {0})
  stop_watch s = if s.has_watch then awaited platform.stop_watch s else (ok tt, s)

  unfoldable pub disconnect : Step (Unit {0})
  disconnect = do
    λ s. end_task s.gateway_ready_task (pure tt) s
    λ s. (ok tt, record s { gateway_ready_task = none })
    λ s. end_task s.watch_task stop_watch s
    λ s. (ok tt, record s { watch_task = none; has_watch = false })
    unregister_live_adapter
    release_lock
    λ s. (ok tt, record s { connected = false })
