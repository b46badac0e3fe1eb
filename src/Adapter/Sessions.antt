-- ===== src/Adapter/Sessions.antt =====
-- What `connect` and `disconnect` of hey_platform/adapter.py come to.
use hermes_hey.Prelude.{
  ℕ, Text, text_eq, text_eq_iff, Bool, true, false, ◌≡◌, ◌≢◌, refl, sym, ap, ◌∙◌, Option, none,
  some, Result, ok, err, Result-cases, Bool-cases, inl, inr, arith, if◌then◌else◌,
}
use hermes_hey.Exec.{Exec, pure, catch, ◌>>=◌}
use hermes_hey.Exec.Views
use hermes_hey.Dict
use hermes_hey.Dict.{Dict, text_key, get-pop}
use hermes_hey.Adapter.World.{World}
use hermes_hey.Adapter.Drain.{Adapter}
use hermes_hey.Adapter.Lifecycle.{
  Session, Platform, Step, on_world, awaited, set_fatal_error, is_self, unregister_live_adapter,
  release_lock, acquire_lock, note_lock, start, connect_failed, mark_connected, connect_locked,
  connect, end_task, stop_watch, disconnect,
}
use hermes_hey.Adapter.Locking.{
  LockLaws, OthersApart, Free, Noted, release_lock-Free, release_lock-live,
}
use hermes_hey.Adapter.Connecting.{
  IsLive, Running, Started, EverNoted, unregister-not_live, start-Started,
}

module _ {B D G : Type 0} (self : Adapter B D G) (platform : Platform D G) (number : ℕ)
    (locks : LockLaws platform) (apart : OthersApart self platform number locks) where
  -- What holds after `connect`: the adapter runs, or it was refused with no lock held and the live
  -- adapters as before or without this one, or it raised and is not marked.
  abbrev pub Connected : Session D G → Result Bool × Session D G → Type 0
  Connected before (ok true, s) = Running self platform number s × (s.connected ≡ true)
  Connected before (ok false, s) =
      Free self platform number locks s
      × (s.connected ≡ before.connected)
      × (IsLive self platform number s → IsLive self platform number before)
  Connected before (err e, s) = s.connected ≡ before.connected

  connect_locked-Connected :
      (before s : Session D G)
      → s.connected ≡ before.connected
      → EverNoted self platform number locks apart s
      → Connected before (connect_locked self platform number true s)
  unfolding connect_locked mark_connected
  connect_locked-Connected before s same noted =
      let attempt = catch (start self platform number) (connect_failed self platform number) in
      let started = start-Started self platform number locks apart s noted in
      elim (Result-cases (attempt s).0) [
        | inl (true, e) ↦
            let (running, kept) = rw (e, Started) at started in
            rw (e, Connected)
              (
                record {
                  is_live = running.is_live;
                  watching = running.watching;
                  waiting = running.waiting;
                },
                refl,
              )
        | inl (false, e) ↦
            let (is_free, kept, dead) = rw (e, Started) at started in
            rw (e, Connected) (is_free, kept ∙ same, λ live. absurd (dead live))
        | inr (x, e) ↦ let kept = rw (e, Started) at started in rw (e, Connected) (kept ∙ same)
      ]

  acquire-Connected :
      (acquire : Option (Exec (World D G) Bool)) (s : Session D G)
      → platform.acquire_scoped_lock ≡ acquire
      → Free self platform number locks s
      → Connected s
          ((acquire_lock self platform number acquire >>= connect_locked self platform number) s)
  unfolding acquire_lock note_lock set_fatal_error on_world connect_locked
  acquire-Connected none s same is_free =
      connect_locked-Connected s s refl (inr (locks.no_lock same))
  acquire-Connected (some acquire) s same is_free = elim (Result-cases (acquire s.world).0) [
    | inr (x, e) ↦ rw (e, Connected) refl
    | inl (true, e) ↦ rw e (
        connect_locked-Connected s (record s { world = (acquire s.world).1; lock_acquired = true })
          refl (inl refl))
    | inl (false, e) ↦
        let unheld = locks.acquire_refused acquire s.world same is_free.unheld e in
        rw e (record { unnoted = is_free.unnoted; unheld = unheld }, refl, λ live. live)
  ]

  -- Where the lock behaves as documented (`LockLaws`), and the other tasks leave this adapter's
  -- registration, its marks and its lock alone while it waits (`OthersApart`), for an adapter that
  -- has neither noted nor holds the lock: `connect` that returns True leaves the adapter marked as
  -- connected, the live one of its state file, with its two tasks; one that returns False leaves
  -- the lock neither noted nor held, the mark as it was, and the adapter not live unless it was so
  -- before; and one that raises leaves the mark as it was.
  pub connect-Connected :
      (configured : Bool) (s : Session D G)
      → Free self platform number locks s
      → Connected s (connect self platform number configured s)
  unfolding connect set_fatal_error
  connect-Connected false s is_free =
      (record { unnoted = is_free.unnoted; unheld = is_free.unheld }, refl, λ live. live)
  connect-Connected true s is_free = acquire-Connected platform.acquire_scoped_lock s refl is_free

  -- What keeps a property of the session keeps it through the end of a task.
  module _ (P : Session D G → Type 0) where
    abbrev Stays : {A : Type 0} → Step self platform number A → Type 0
    Stays m = Views.Stays P m

    record TasksStay : Type 0 where
      cancelled : (t : ℕ) → Stays (on_world self platform number (platform.cancel_task t))
      ended : (t : ℕ) → Stays (awaited self platform number (platform.await_task t))
      stopped : Stays (awaited self platform number platform.stop_watch)

    end_task-Stays :
        (task : Option ℕ) (between : Step self platform number (Unit {0}))
        → TasksStay
        → Stays between
        → Stays (end_task self platform number task between)
    unfolding end_task
    end_task-Stays none between stay same s p = p
    end_task-Stays (some task) between stay same s p =
        elim (Bool-cases (platform.is_done task s.world)) [
          | inl q ↦ rw q p
          | inr q ↦
              let cancelled = stay.cancelled task s p in
              let s1 = (on_world self platform number (platform.cancel_task task) s).1 in
              elim (Result-cases (on_world self platform number (platform.cancel_task task) s).0) [
                | inr (x, e) ↦ rw (q, e) cancelled
                | inl (u, e) ↦ elim (Result-cases (between s1).0) [
                  | inr (x, f) ↦ rw (q, e, f) (same s1 cancelled)
                  | inl (v, f) ↦ rw (q, e, f) (stay.ended task (between s1).1 (same s1 cancelled))
                ]
              ]
        ]

    if-Stays :
        (b : Bool) (r t : Result (Unit {0}) × Session D G)
        → P r.1
        → P t.1
        → P (if b then r else t).1
    if-Stays true r t p q = p
    if-Stays false r t p q = q

    stop_watch-Stays : TasksStay → Stays (stop_watch self platform number)
    unfolding stop_watch
    stop_watch-Stays stay s p = if-Stays s.has_watch _ _ (stay.stopped s p) p

  abbrev IsNoted : Session D G → Type 0
  IsNoted = Noted self platform number locks

  meanwhile-IsNoted : (s : Session D G) → IsNoted s → IsNoted (platform.meanwhile s)
  meanwhile-IsNoted s (inl noted) =
      inl (ap (λ (p : Option ℕ × (Bool × Bool)). p.1.1) (apart.fields_same s) ∙ noted)
  meanwhile-IsNoted s (inr unheld) = inr (apart.lock_free s unheld)

  -- a change of the world that leaves the lock free
  world-IsNoted :
      (s : Session D G) (w : World D G)
      → (locks.holds s.world ≡ false → locks.holds w ≡ false)
      → IsNoted s
      → IsNoted (record s { world = w })
  world-IsNoted s w is_free (inl noted) = inl noted
  world-IsNoted s w is_free (inr unheld) = inr (is_free unheld)

  lock-stays : TasksStay IsNoted
  unfolding on_world awaited
  lock-stays = record {
    cancelled = λ t s noted.
        world-IsNoted s (platform.cancel_task t s.world).1 (locks.cancel_task_free t s.world) noted;
    ended = λ t s noted.
        let w = (platform.await_task t s.world).1 in
        meanwhile-IsNoted (record s { world = w })
          (world-IsNoted s w (locks.await_task_free t s.world) noted);
    stopped = λ s noted.
        let w = (platform.stop_watch s.world).1 in
        meanwhile-IsNoted (record s { world = w })
          (world-IsNoted s w (locks.stop_watch_free s.world) noted);
  }

  registered-stays :
      (k : Text) (other : ℕ)
      → ((t : Session D G)
          → Dict.get k t.live ≡ some other
          → Dict.get k (platform.meanwhile t).live ≡ some other)
      → TasksStay (λ s. Dict.get k s.live ≡ some other)
  unfolding on_world awaited
  registered-stays k other stands = record {
    cancelled = λ t s found. found;
    ended = λ t s found. stands (record s { world = (platform.await_task t s.world).1 }) found;
    stopped = λ s found. stands (record s { world = (platform.stop_watch s.world).1 }) found;
  }

  popped-others :
      (k : Text) (other : ℕ) (b : Bool) (live : Dict Text ℕ)
      → is_self self platform number (Dict.get self.state_key live) ≡ b
      → ((k ≡ self.state_key) → other ≢ number)
      → Dict.get k live ≡ some other
      → Dict.get k (if b then Dict.pop self.state_key live else live) ≡ some other
  unfolding is_self
  popped-others k other false live p apart found = found
  popped-others k other true live p apart found = elim (Bool-cases (text_eq self.state_key k)) [
    | inr q ↦ get-pop self.state_key k live ∙ rw q found
    | inl q ↦
        let same : k ≡ self.state_key = ground (arith, q, text_eq_iff self.state_key k) in
        let registered : Dict.get self.state_key live ≡ some other = rw same at found in
        let own = rw (registered, is_self) at p in absurd (apart same (ground (arith, own)))
  ]

  -- Another adapter's registration stands.
  unregister-others :
      (k : Text) (other : ℕ) (s : Session D G)
      → ((k ≡ self.state_key) → other ≢ number)
      → Dict.get k s.live ≡ some other
      → Dict.get k (unregister_live_adapter self platform number s).1.live ≡ some other
  unfolding unregister_live_adapter
  unregister-others k other s apart found =
      popped-others k other (is_self self platform number (Dict.get self.state_key s.live)) s.live
        refl apart found

  IsNoted-of_tracked :
      (s : Session D G) → ((s.lock_acquired ≡ false) → locks.holds s.world ≡ false) → IsNoted s
  IsNoted-of_tracked s tracked = elim (Bool-cases s.lock_acquired) [
    | inl p ↦ inl p
    | inr p ↦ inr (tracked p)
  ]

  -- the registration of another adapter stands while the two tasks end
  tasks-registered :
      (k : Text) (other : ℕ) (s : Session D G)
      → ((t : Session D G)
          → Dict.get k t.live ≡ some other
          → Dict.get k (platform.meanwhile t).live ≡ some other)
      → Dict.get k s.live ≡ some other
      → let s1 = (end_task self platform number s.gateway_ready_task (pure tt) s).1 in
        let s2 : Session D G = record s1 { gateway_ready_task = none } in
        Dict.get k
          (end_task self platform number s2.watch_task (stop_watch self platform number) s2).1.live
        ≡ some other
  tasks-registered k other s stands found =
      let P : Session D G → Type 0 = λ t. Dict.get k t.live ≡ some other in
      let stay = registered-stays k other stands in
      let s1 = (end_task self platform number s.gateway_ready_task (pure tt) s).1 in
      let s2 : Session D G = record s1 { gateway_ready_task = none } in
      end_task-Stays P s2.watch_task (stop_watch self platform number) stay
        (stop_watch-Stays P stay) s2
        (end_task-Stays P s.gateway_ready_task (pure tt) stay (λ t n. n) s found)

  -- Where the lock behaves as documented (`LockLaws`), and the other tasks leave this adapter's
  -- registration, its marks and its lock alone while it waits (`OthersApart`), and a lock that is
  -- held was noted: if `disconnect` returns, the lock is neither noted nor held, the adapter is
  -- not marked as connected and is not the live one of its state file, and every registration of
  -- another adapter stands that the other tasks let stand.
  pub disconnect_lem :
      (s : Session D G)
      → ((s.lock_acquired ≡ false) → locks.holds s.world ≡ false)
      → (disconnect self platform number s).0 ≡ ok tt
      → let after = (disconnect self platform number s).1 in
        Free self platform number locks after
        × (after.connected ≡ false)
        × (IsLive self platform number after → ⊥)
        × ((k : Text) (other : ℕ)
            → ((k ≡ self.state_key) → other ≢ number)
            → ((t : Session D G)
                → Dict.get k t.live ≡ some other
                → Dict.get k (platform.meanwhile t).live ≡ some other)
            → Dict.get k s.live ≡ some other
            → Dict.get k after.live ≡ some other)
  unfolding disconnect unregister_live_adapter
  disconnect_lem s tracked returned =
      elim (Result-cases (end_task self platform number s.gateway_ready_task (pure tt) s).0) [
        | inr (x, e) ↦ absurd (ground (arith, e, returned))
        | inl (u, e) ↦
            let s1 = (end_task self platform number s.gateway_ready_task (pure tt) s).1 in
            let s2 : Session D G = record s1 { gateway_ready_task = none } in
            elim (Result-cases
              (end_task self platform number s2.watch_task (stop_watch self platform number)
                s2).0) [
                  | inr (x, f) ↦ absurd (ground (arith, e, f, returned))
                  | inl (v, f) ↦
                      let s3 =
                        (end_task self platform number s2.watch_task
                          (stop_watch self platform number) s2).1 in
                      let s4 : Session D G = record s3 { watch_task = none; has_watch = false } in
                      let s5 = (unregister_live_adapter self platform number s4).1 in
                      let fields = release_lock-live self platform number s5 in
                      let noted =
                        end_task-Stays IsNoted s2.watch_task (stop_watch self platform number)
                          lock-stays (stop_watch-Stays IsNoted lock-stays) s2
                          (end_task-Stays IsNoted s.gateway_ready_task (pure tt) lock-stays
                            (λ t n. n) s (IsNoted-of_tracked s tracked)) in
                      elim (Result-cases (release_lock self platform number s5).0) [
                        | inr (x, g) ↦ absurd (ground (arith, e, f, g, returned))
                        | inl (tt, g) ↦
                            let is_free = release_lock-Free self platform number locks s5 noted g in
                            rw (e, f, g)
                              (
                                record { unnoted = is_free.unnoted; unheld = is_free.unheld },
                                refl,
                                (λ live.
                                    unregister-not_live self platform number s4
                                      (ap (Dict.get self.state_key) (sym fields) ∙ live)),
                                (λ k other not_own stands found.
                                    ap (Dict.get k) fields
                                    ∙ unregister-others k other s4 not_own
                                        (tasks-registered k other s stands found)),
                              )
                      ]
                ]
      ]
