-- ===== src/Adapter/Connecting.antt =====
-- What the second `try` of `connect` in hey_platform/adapter.py leaves behind.
use hermes_hey.Prelude.{
  ℕ, ==_refl, Text, text_eq_refl, Bool, true, false, ◌≡◌, ◌≢◌, ◌⊎◌, refl, sym, ap, ◌∙◌, Option,
  none, some, raw, str, Result, ok, err, Error, Result-cases, inl, inr, arith, if◌then◌else◌,
}
use hermes_hey.Exec.{Exec, pure, catch}
use hermes_hey.Exec.Views
use hermes_hey.Exec.Views.{bind-Keeps, if-Keeps}
use hermes_hey.Dict
use hermes_hey.Dict.{Dict, text_key, get-put, get-pop}
use hermes_hey.Adapter.World.{World}
use hermes_hey.Adapter.Drain.{Adapter, drain_pending}
use hermes_hey.Adapter.Lifecycle.{
  Session, Platform, awaited, on_world, set_fatal_error, register_live_adapter, is_self,
  unregister_live_adapter, release_lock, call_verify, start, connect_failed,
}
use hermes_hey.Adapter.Locking.{
  LockLaws, OthersApart, Free, Noted, marks, release_lock-Free, release_lock-live,
  release_lock-connected,
}

module _ {B D G : Type 0} (self : Adapter B D G) (platform : Platform D G) (number : ℕ) where
  -- this adapter is the live one of its state file
  abbrev pub IsLive : Session D G → Type 0
  IsLive s = Dict.get self.state_key s.live ≡ some number

  popped-not_live :
      (b : Bool) (live : Dict Text ℕ)
      → is_self self platform number (Dict.get self.state_key live) ≡ b
      → Dict.get self.state_key (if b then Dict.pop self.state_key live else live) ≢ some number
  unfolding is_self
  popped-not_live true live p = λ h.
      ground (arith, h, get-pop self.state_key self.state_key live, text_eq_refl self.state_key)
  popped-not_live false live p = λ h. ground (arith, ==_refl number, rw h at p)

  pub unregister-not_live :
      (s : Session D G) → IsLive (unregister_live_adapter self platform number s).1 → ⊥
  unfolding unregister_live_adapter
  unregister-not_live s live =
      popped-not_live (is_self self platform number (Dict.get self.state_key s.live)) s.live refl
        live

  -- the tasks of a connection run, and this adapter is the live one
  pub record Running (s : Session D G) : Type 0 where
    pub is_live : IsLive s
    pub watching : (t : ℕ) × (s.watch_task ≡ some t)
    pub waiting : (t : ℕ) × (s.gateway_ready_task ≡ some t)

  module _ (locks : LockLaws platform) (apart : OthersApart self platform number locks) where
    meanwhile-marks :
        (s : Session D G)
        → marks self platform number (platform.meanwhile s) ≡ marks self platform number s
    meanwhile-marks s = ap (λ (p : Option ℕ × (Bool × Bool)). p.1) (apart.fields_same s)

    meanwhile-live :
        (s : Session D G)
        → Dict.get self.state_key (platform.meanwhile s).live ≡ Dict.get self.state_key s.live
    meanwhile-live s = ap (λ (p : Option ℕ × (Bool × Bool)). p.0) (apart.fields_same s)

    call_verify-marks :
        (v : Option (Exec (World D G) Bool))
        → Views.Keeps (marks self platform number) (call_verify self platform number v)
    unfolding call_verify awaited
    call_verify-marks none = λ s. refl
    call_verify-marks (some verify) =
        bind-Keeps (marks self platform number) (awaited self platform number verify) _
          (λ s. meanwhile-marks (record s { world = (verify s.world).1 }))
          (λ b. if-Keeps (marks self platform number) b (pure tt) _ (λ s. refl) (λ s. refl))

    -- the session when the draining has ended
    abbrev drained : Session D G → Session D G
    drained s =
        let s2 = (register_live_adapter self platform number s).1 in
        platform.meanwhile (record s2 { world = (drain_pending self s2.world).1 })

    drained-IsLive : (s : Session D G) → IsLive (drained s)
    unfolding register_live_adapter
    drained-IsLive s =
        let s2 = (register_live_adapter self platform number s).1 in
        meanwhile-live (record s2 { world = (drain_pending self s2.world).1 })
        ∙ (get-put self.state_key self.state_key number s.live
            ∙ rw (text_eq_refl self.state_key) refl)

    drained-marks :
        (s : Session D G) → marks self platform number (drained s) ≡ marks self platform number s
    unfolding register_live_adapter
    drained-marks s =
        let s2 = (register_live_adapter self platform number s).1 in
        meanwhile-marks (record s2 { world = (drain_pending self s2.world).1 })

    start-Running :
        (b : Bool) (s : Session D G)
        → (start self platform number s).0 ≡ ok b
        → (b ≡ true) × Running (start self platform number s).1
    unfolding start register_live_adapter on_world awaited
    start-Running b s started =
        elim (Result-cases (call_verify self platform number platform.verify s).0) [
          | inr (x, e) ↦ absurd (ground (arith, e, started))
          | inl (u, e) ↦
              let s1 = (call_verify self platform number platform.verify s).1 in
              elim (Result-cases (drain_pending self s1.world).0) [
                | inr (x, f) ↦ absurd (ground (arith, e, f, started))
                | inl (v, f) ↦
                    let w3 = (drained s1).world in
                    elim (Result-cases (platform.create_gateway_ready_task w3).0) [
                      | inr (x, g) ↦ absurd (ground (arith, e, f, g, started))
                      | inl (ready, g) ↦
                          let w4 = (platform.create_gateway_ready_task w3).1 in
                          elim (Result-cases (platform.create_watch_task w4).0) [
                            | inr (x, h) ↦ absurd (ground (arith, e, f, g, h, started))
                            | inl (watching, h) ↦ (
                              ground (arith, e, f, g, h, started),
                              rw (e, f, g, h)
                                  (record {
                                    is_live = drained-IsLive s1;
                                    watching = (watching, refl);
                                    waiting = (ready, refl);
                                  }),
                            )
                          ]
                    ]
              ]
        ]

    -- whether or not it raises, `start` leaves the marks of the session
    start-marks : Views.Keeps (marks self platform number) (start self platform number)
    unfolding start register_live_adapter on_world awaited
    start-marks s =
        let known = call_verify-marks platform.verify s in
        elim (Result-cases (call_verify self platform number platform.verify s).0) [
          | inr (x, e) ↦ rw e known
          | inl (u, e) ↦
              let s1 = (call_verify self platform number platform.verify s).1 in
              let after = drained-marks s1 ∙ known in
              elim (Result-cases (drain_pending self s1.world).0) [
                | inr (x, f) ↦ rw (e, f) after
                | inl (v, f) ↦
                    let w3 = (drained s1).world in
                    elim (Result-cases (platform.create_gateway_ready_task w3).0) [
                      | inr (x, g) ↦ rw (e, f, g) after
                      | inl (ready, g) ↦
                          elim (Result-cases
                            (platform.create_watch_task
                              (platform.create_gateway_ready_task w3).1).0) [
                                | inr (x, h) ↦ rw (e, f, g, h) after
                                | inl (watching, h) ↦ rw (e, f, g, h) after
                              ]
                    ]
              ]
        ]

    -- a lock that is ever held was noted
    abbrev pub EverNoted : Session D G → Type 0
    EverNoted s = (s.lock_acquired ≡ true) ⊎ ((w : World D G) → locks.holds w ≡ false)

    Noted-of_marks :
        (before s : Session D G)
        → marks self platform number s ≡ marks self platform number before
        → EverNoted before
        → Noted self platform number locks s
    Noted-of_marks before s same (inl noted) = inl (ap (λ (p : Bool × Bool). p.1) same ∙ noted)
    Noted-of_marks before s same (inr never) = inr (never s.world)

    -- What the second `try` comes to.
    abbrev pub Started : Bool → Result Bool × Session D G → Type 0
    Started before (ok true, s) = Running s × (s.connected ≡ before)
    Started before (ok false, s) =
        Free self platform number locks s × (s.connected ≡ before) × (IsLive s → ⊥)
    Started before (err e, s) = s.connected ≡ before

    connect_failed-Started :
        (x : Error) (before : Bool) (s : Session D G)
        → s.connected ≡ before
        → Noted self platform number locks s
        → Started before (connect_failed self platform number x s)
    unfolding connect_failed set_fatal_error unregister_live_adapter
    connect_failed-Started x before s same noted =
        let s1 : Session D G = record (unregister_live_adapter self platform number s).1 {
          fatal =
              some (record {
                code = "connect_failed";
                message = raw (str x.message);
                retryable = true;
              });
        } in
        let after = release_lock-connected self platform number s1 ∙ same in
        let registered = ap (Dict.get self.state_key) (release_lock-live self platform number s1) in
        elim (Result-cases (release_lock self platform number s1).0) [
          | inl (tt, e) ↦
              rw (e, Started)
                (
                  release_lock-Free self platform number locks s1 noted e,
                  after,
                  λ is_live. unregister-not_live s (sym registered ∙ is_live),
                )
          | inr (y, e) ↦ rw (e, Started) after
        ]

    pub start-Started :
        (s : Session D G)
        → EverNoted s
        → Started s.connected
            (catch (start self platform number) (connect_failed self platform number) s)
    start-Started s noted =
        let same = start-marks s in
        let still = ap (λ (p : Bool × Bool). p.0) same in
        elim (Result-cases (start self platform number s).0) [
          | inl (b, e) ↦
              let (done, running) = start-Running b s e in rw (e, done, Started) (running, still)
          | inr (x, e) ↦ rw e (
              connect_failed-Started x s.connected (start self platform number s).1 still
                (Noted-of_marks s (start self platform number s).1 same noted))
        ]
