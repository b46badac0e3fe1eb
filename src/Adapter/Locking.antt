-- ===== src/Adapter/Locking.antt =====
-- What `connect` and `disconnect` of hey_platform/adapter.py rely on of the lock and of the other tasks,
-- and the end of `_release_lock`.
use hermes_hey.Prelude.{
  ℕ, Text, Bool, true, false, ◌≡◌, ◌⊎◌, refl, ap, Option, none, some, ok, Result-cases,
  Option-cases, inl, inr, arith,
}
use hermes_hey.Exec.{Exec}
use hermes_hey.Exec.Views
use hermes_hey.Exec.Views.{bind-Keeps}
use hermes_hey.Dict
use hermes_hey.Dict.{Dict, text_key}
use hermes_hey.Adapter.World.{World}
use hermes_hey.Adapter.Drain.{Adapter}
use hermes_hey.Adapter.Lifecycle.{
  Session, Platform, on_world, call_release, release_if, release_lock,
}

-- `holds` is whether the lock of the credentials is held for this adapter. Without the module of the
-- lock it never is, and both functions come from that module. Ending a task leaves the lock free.
pub record LockLaws {D G : Type 0} (platform : Platform D G) : Type 0 where
  pub holds : World D G → Bool
  pub no_module : platform.release_scoped_lock ≡ none → platform.acquire_scoped_lock ≡ none
  pub no_lock : platform.acquire_scoped_lock ≡ none → (w : World D G) → holds w ≡ false
  pub acquire_refused :
      (acquire : Exec (World D G) Bool) (w : World D G)
      → platform.acquire_scoped_lock ≡ some acquire
      → holds w ≡ false
      → (acquire w).0 ≡ ok false
      → holds (acquire w).1 ≡ false
  pub release_frees :
      (release : Exec (World D G) (Unit {0})) (w : World D G)
      → platform.release_scoped_lock ≡ some release
      → (release w).0 ≡ ok tt
      → holds (release w).1 ≡ false
  pub cancel_task_free :
      (t : ℕ) (w : World D G) → holds w ≡ false → holds (platform.cancel_task t w).1 ≡ false
  pub await_task_free :
      (t : ℕ) (w : World D G) → holds w ≡ false → holds (platform.await_task t w).1 ≡ false
  pub stop_watch_free : (w : World D G) → holds w ≡ false → holds (platform.stop_watch w).1 ≡ false

module _ {B D G : Type 0} (self : Adapter B D G) (platform : Platform D G) (number : ℕ) where
  -- what code that does not connect leaves as it is: the registration for the state file, the mark of a
  -- connection, and whether a lock was acquired
  abbrev pub kept_fields : Session D G → Option ℕ × (Bool × Bool)
  kept_fields s = (Dict.get self.state_key s.live, (s.connected, s.lock_acquired))

  abbrev pub marks : Session D G → Bool × Bool
  marks s = (s.connected, s.lock_acquired)

  -- The other tasks leave these of an adapter that connects, and take no lock for it.
  pub record OthersApart (locks : LockLaws platform) : Type 0 where
    pub fields_same : (s : Session D G) → kept_fields (platform.meanwhile s) ≡ kept_fields s
    pub lock_free :
        (s : Session D G)
        → locks.holds s.world ≡ false
        → locks.holds (platform.meanwhile s).world ≡ false

  module _ (locks : LockLaws platform) where
    -- a lock that is held was noted
    abbrev pub Noted : Session D G → Type 0
    Noted s = (s.lock_acquired ≡ true) ⊎ (locks.holds s.world ≡ false)

    -- neither noted nor held
    pub record Free (s : Session D G) : Type 0 where
      pub unnoted : s.lock_acquired ≡ false
      pub unheld : locks.holds s.world ≡ false

    call_release-free :
        (s : Session D G)
        → (call_release self platform number platform.release_scoped_lock s).0 ≡ ok tt
        → locks.holds (call_release self platform number platform.release_scoped_lock s).1.world
          ≡ false
    unfolding call_release on_world
    call_release-free s done = elim (Option-cases platform.release_scoped_lock) [
      | inl e ↦ rw e (locks.no_lock (locks.no_module e) s.world)
      | inr (release, e) ↦ rw e (locks.release_frees release s.world e (rw e at done))
    ]

    release_if-Free :
        (b : Bool) (s : Session D G)
        → s.lock_acquired ≡ b
        → Noted s
        → (release_if self platform number b s).0 ≡ ok tt
        → Free (release_if self platform number b s).1
    unfolding release_if
    release_if-Free false s is_free (inl held) released = absurd (ground (arith, is_free, held))
    release_if-Free false s is_free (inr unheld) released = record {
      unnoted = is_free;
      unheld = unheld;
    }
    release_if-Free true s is_free noted released =
        elim (Result-cases (call_release self platform number platform.release_scoped_lock s).0) [
          | inl (tt, e) ↦ rw e (record { unnoted = refl; unheld = call_release-free s e })
          | inr (x, e) ↦ absurd (ground (arith, e, released))
        ]

    -- `_release_lock` that returns leaves no lock held.
    pub release_lock-Free :
        (s : Session D G)
        → Noted s
        → (release_lock self platform number s).0 ≡ ok tt
        → Free (release_lock self platform number s).1
    unfolding release_lock
    release_lock-Free s noted released = release_if-Free s.lock_acquired s refl noted released

  -- What `_release_lock` leaves whether it returns or raises.
  abbrev registered_fields : Session D G → Dict Text ℕ × Bool
  registered_fields s = (s.live, s.connected)

  call_release-Same :
      (release : Option (Exec (World D G) (Unit {0})))
      → Views.Keeps registered_fields (call_release self platform number release)
  unfolding call_release on_world
  call_release-Same none = λ s. refl
  call_release-Same (some release) = λ s. refl

  release_if-Same : (b : Bool) → Views.Keeps registered_fields (release_if self platform number b)
  unfolding release_if
  release_if-Same false = λ s. refl
  release_if-Same true =
      bind-Keeps registered_fields (call_release self platform number platform.release_scoped_lock)
        _ (call_release-Same platform.release_scoped_lock) (λ u s. refl)

  pub release_lock-live : (s : Session D G) → (release_lock self platform number s).1.live ≡ s.live
  unfolding release_lock
  release_lock-live s = ap (λ (p : Dict Text ℕ × Bool). p.0) (release_if-Same s.lock_acquired s)

  pub release_lock-connected :
      (s : Session D G) → (release_lock self platform number s).1.connected ≡ s.connected
  unfolding release_lock
  release_lock-connected s =
      ap (λ (p : Dict Text ℕ × Bool). p.1) (release_if-Same s.lock_acquired s)
