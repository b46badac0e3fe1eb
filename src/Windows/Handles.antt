-- ===== src/Windows/Handles.antt =====
-- The handles that `WindowsStateTransaction` of hey_platform/windows_state.py opens and closes.
use hermes_hey.Prelude.{
  is_os_error, ap, runtime_error, ℕ, ◌+◌, ◌-◌, Text, Bool, true, false, ◌≡◌, refl, ◌∙◌, Option,
  none, some, ok, err, Error, arith, if◌then◌else◌, text_eq, Result-cases, Bool-cases, inl, inr,
}
use hermes_hey.Exec.{Exec, pure, throw, ◌>>=◌, ◌>>◌}
use hermes_hey.Exec.Views.{Keeps, bind-Keeps}
use hermes_hey.Queue.Handles.{kept}
use hermes_hey.Windows.Transaction.{
  WindowsApi, assert_final_path, check_parent, close_on_error, open_existing, enter, read_opened,
  read_state,
}

-- What is relied on of a count of open handles: opening that succeeds adds one, closing takes one
-- away whether or not it raises, and the other calls leave it.
pub record HandleLaws {B W : Type 0} (api : WindowsApi B W) : Type 0 where
  pub opened : W → ℕ
  pub open_state_some :
      (p : Text) (h : ℕ) (w : W)
      → (api.open_state p w).0 ≡ ok (some h)
      → opened (api.open_state p w).1 ≡ opened w + 1
  pub open_state_none :
      (p : Text) (w : W)
      → (api.open_state p w).0 ≡ ok none
      → opened (api.open_state p w).1 ≡ opened w
  pub open_state_err :
      (p : Text) (e : Error) (w : W)
      → (api.open_state p w).0 ≡ err e
      → opened (api.open_state p w).1 ≡ opened w
  pub open_parent_ok :
      (p : Text) (h : ℕ) (w : W)
      → (api.open_parent p w).0 ≡ ok h
      → opened (api.open_parent p w).1 ≡ opened w + 1
  pub open_parent_err :
      (p : Text) (e : Error) (w : W)
      → (api.open_parent p w).0 ≡ err e
      → opened (api.open_parent p w).1 ≡ opened w
  pub mkdir_same : (p : Text) (w : W) → opened (api.mkdir p w).1 ≡ opened w
  pub assert_private_same :
      (h : ℕ) (d : Bool) (w : W) → opened (api.assert_private h d w).1 ≡ opened w
  pub set_private_same : (h : ℕ) (w : W) → opened (api.set_private h w).1 ≡ opened w
  pub final_path_same : (h : ℕ) (w : W) → opened (api.final_path h w).1 ≡ opened w
  pub read_same : (h n : ℕ) (w : W) → opened (api.read h n w).1 ≡ opened w
  pub create_temp_ok :
      (p : Text) (h : ℕ) (w : W)
      → (api.create_temp p w).0 ≡ ok h
      → opened (api.create_temp p w).1 ≡ opened w + 1
  pub create_temp_err :
      (p : Text) (e : Error) (w : W)
      → (api.create_temp p w).0 ≡ err e
      → opened (api.create_temp p w).1 ≡ opened w
  pub write_same : (h : ℕ) (b : B) (w : W) → opened (api.write_through h b w).1 ≡ opened w
  pub rename_same :
      (h parent : ℕ) (n : Text) (w : W) → opened (api.rename_by_handle h parent n w).1 ≡ opened w
  pub delete_same : (h : ℕ) (w : W) → opened (api.delete_by_handle h w).1 ≡ opened w
  pub delete_error :
      (h : ℕ) (e : Error) (w : W)
      → (api.delete_by_handle h w).0 ≡ err e
      → is_os_error e.class ≡ true
  pub close_one : (h : ℕ) (w : W) → opened (api.close h w).1 ≡ opened w - 1

module _ {B W : Type 0} {api : WindowsApi B W} (laws : HandleLaws api)
    (path parent_path name : Text) where
  abbrev pub Same : {A : Type 0} → Exec W A → Type 0
  Same m = Keeps laws.opened m

  pub assert_final_path-Same :
      (h : ℕ) (expected : Text) → Same (assert_final_path api path parent_path name h expected)
  unfolding assert_final_path
  assert_final_path-Same h expected =
      bind-Keeps laws.opened (api.final_path h)
        (λ final w.
          if text_eq (api.canonical final w) expected
          then (ok tt, w)
          else throw runtime_error "HEY Windows handle resolved outside queue directory" w)
        (laws.final_path_same h)
        (λ final w. elim (Bool-cases (text_eq (api.canonical final w) expected)) [
          | inl same ↦ rw same refl
          | inr other ↦ rw other refl
        ])

  -- what is read of an open file, up to the closing
  reading-Same :
      (h limit : ℕ)
      → Same (do
        api.assert_private h false
        λ w. assert_final_path api path parent_path name h (api.canonical path w) w
        b ← api.read h limit
        pure (some b))
  reading-Same h limit =
      bind-Keeps laws.opened (api.assert_private h false)
        (λ u.
          ((λ w. assert_final_path api path parent_path name h (api.canonical path w) w)
            >> (api.read h limit >>= λ b. pure (some b))))
        (laws.assert_private_same h false)
        (λ u.
          bind-Keeps laws.opened
            (λ w. assert_final_path api path parent_path name h (api.canonical path w) w)
            (λ v. api.read h limit >>= λ b. pure (some b))
            (λ w. assert_final_path-Same h (api.canonical path w) w)
            (λ v.
              bind-Keeps laws.opened (api.read h limit) (λ b. pure (some b))
                (laws.read_same h limit) (λ b w. refl)))

  read_opened-closes :
      (h limit : ℕ) (w : W)
      → laws.opened (read_opened api path parent_path name limit (some h) w).1 ≡ laws.opened w - 1
  unfolding read_opened
  read_opened-closes h limit w =
      let closed = laws.close_one h _ in closed ∙ ap (λ n. n - 1) (reading-Same h limit w)

  -- Where opening adds one to a count of open handles, closing takes one away even if it raises,
  -- and the other calls leave it, `read_state` leaves as many open as before, whether it returns
  -- or raises.
  pub read_state-handles :
      (parent : Option ℕ) (limit : ℕ) (w : W)
      → laws.opened (read_state api path parent_path name parent limit w).1 ≡ laws.opened w
  unfolding read_state
  read_state-handles none limit w = refl
  read_state-handles (some parent) limit w = elim (Result-cases (api.open_state path w).0) [
    | inr (x, e) ↦ rw e (laws.open_state_err path x w e)
    | inl (none, e) ↦ rw e (laws.open_state_none path w e)
    | inl (some h, e) ↦ rw e (
        omega (
          arith,
          read_opened-closes h limit (api.open_state path w).1,
          laws.open_state_some path h w e,
        ))
  ]

  check_parent-Same :
      (existed : Bool) (h : ℕ) (expected : Text)
      → Same (check_parent api path parent_path name existed h expected)
  unfolding check_parent
  check_parent-Same true h expected =
      bind-Keeps laws.opened (pure tt)
        (λ u. api.assert_private h true >> assert_final_path api path parent_path name h expected)
        (λ w. refl)
        (λ u.
          bind-Keeps laws.opened (api.assert_private h true)
            (λ v. assert_final_path api path parent_path name h expected)
            (laws.assert_private_same h true) (λ v. assert_final_path-Same h expected))
  check_parent-Same false h expected =
      bind-Keeps laws.opened (api.set_private h)
        (λ u. api.assert_private h true >> assert_final_path api path parent_path name h expected)
        (laws.set_private_same h)
        (λ u.
          bind-Keeps laws.opened (api.assert_private h true)
            (λ v. assert_final_path api path parent_path name h expected)
            (laws.assert_private_same h true) (λ v. assert_final_path-Same h expected))

  -- the count after what a method left open
  abbrev Balanced : Exec W (Option ℕ) → Type 0
  Balanced m = (w : W) → laws.opened (m w).1 ≡ laws.opened w + kept (m w).0

  close_on_error-closes :
      (h : ℕ) (x : Error) (w : W)
      → (laws.opened (close_on_error api path parent_path name h (err x) w).1 ≡ laws.opened w - 1)
        × (kept (close_on_error api path parent_path name h (err x) w).0 ≡ 0)
  unfolding close_on_error
  close_on_error-closes h x w = elim (Result-cases (api.close h w).0) [
    | inl (u, e) ↦ rw e (laws.close_one h w, refl)
    | inr (y, e) ↦ rw e (laws.close_one h w, refl)
  ]

  open_existing-Balanced :
      (existed : Bool) → Balanced (open_existing api path parent_path name existed)
  unfolding open_existing close_on_error
  open_existing-Balanced existed w = elim (Result-cases (api.open_parent parent_path w).0) [
    | inr (x, e) ↦ rw e (omega (arith, laws.open_parent_err parent_path x w e))
    | inl (h, e) ↦
        let w1 = (api.open_parent parent_path w).1 in
        let expected = api.canonical parent_path w in
        let same = check_parent-Same existed h expected w1 in
        let one = laws.open_parent_ok parent_path h w e in
        elim (Result-cases (check_parent api path parent_path name existed h expected w1).0) [
          | inl (u, f) ↦ rw (e, f) (omega (arith, same, one))
          | inr (x, f) ↦
              let closed =
                close_on_error-closes h x
                  (check_parent api path parent_path name existed h expected w1).1 in
              rw (e, f) (omega (arith, same, one, closed.0, closed.1))
        ]
  ]

  -- Where opening adds one to a count of open handles, closing takes one away even if it raises,
  -- and the other calls leave it, `__enter__` leaves one more open if it keeps a handle, and none
  -- more if it keeps none or raises.
  pub enter-handles :
      (create : Bool) (w : W)
      → laws.opened (enter api path parent_path name create w).1
        ≡ laws.opened w + kept (enter api path parent_path name create w).0
  unfolding enter
  enter-handles create w = elim (Bool-cases (api.exists parent_path w)) [
    | inl there ↦ rw there (open_existing-Balanced true w)
    | inr missing ↦ elim (Bool-cases create) [
      | inr no_create ↦ rw (missing, no_create) (omega arith)
      | inl make ↦ elim (Result-cases (api.mkdir parent_path w).0) [
        | inl (u, e) ↦
            rw (missing, make, e)
              (open_existing-Balanced false (api.mkdir parent_path w).1
                ∙ ap
                    (λ n.
                      n
                      + kept
                          (open_existing api path parent_path name false
                            (api.mkdir parent_path w).1).0)
                    (laws.mkdir_same parent_path w))
        | inr (x, e) ↦ rw (missing, make, e) (omega (arith, laws.mkdir_same parent_path w))
      ]
    ]
  ]
