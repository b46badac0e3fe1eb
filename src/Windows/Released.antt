-- ===== src/Windows/Released.antt =====
-- The operations of the queue over `WindowsStateTransaction` of hey_platform/windows_state.py close the
-- handles that they open.
use hermes_hey.Prelude.{
  Error, is_os_error, ℕ, ◌-◌, Text, Bool, true, false, ◌≡◌, refl, Option, none, some, Result, ok,
  err, arith, Result-cases, Bool-cases, inl, inr,
}
use hermes_hey.Exec.{Exec}
use hermes_hey.Windows.Operations.{
  unavailable, windows_state_transaction, windows_ingest, windows_complete, windows_pending,
}
use hermes_hey.Exec.Views.{catch-Keeps, if-Keeps, Keeps, bind-Keeps}
use hermes_hey.Core.Event.{HeyEvent}
use hermes_hey.Queue.State.{Codec, DurableQueue}
use hermes_hey.Queue.Transaction.{ingest}
use hermes_hey.Queue.Handles
use hermes_hey.Queue.Handles.{kept, ingest-opened, complete-opened, pending-opened}
use hermes_hey.Windows.Transaction.{
  WindowsApi, assert_final_path, check_parent, close_on_error, open_existing, enter, exit, stage,
  verify, discard_temp, after_stage, replace_state, windows_storage,
}
use hermes_hey.Windows.Handles.{
  HandleLaws, assert_final_path-Same, read_state-handles, enter-handles,
}

module _ {B W : Type 0} {api : WindowsApi B W} (laws : HandleLaws api)
    (path parent_path name : Text) where
  final-Same :
      (h : ℕ) (p : Text)
      → Keeps laws.opened (λ w. assert_final_path api path parent_path name h (api.canonical p w) w)
  final-Same h p w = assert_final_path-Same laws path parent_path name h (api.canonical p w) w

  stage-Same :
      (parent h : ℕ) (temporary : Text) (b : B)
      → Keeps laws.opened (stage api path parent_path name parent h temporary b)
  unfolding stage
  stage-Same parent h temporary b =
      bind-Keeps laws.opened (api.set_private h) _ (laws.set_private_same h) (λ u.
        bind-Keeps laws.opened (api.assert_private h false) _ (laws.assert_private_same h false)
          (λ v.
            bind-Keeps laws.opened
              (λ w. assert_final_path api path parent_path name h (api.canonical temporary w) w) _
              (final-Same h temporary)
              (λ x.
                bind-Keeps laws.opened (api.write_through h b) _ (laws.write_same h b)
                  (λ y. laws.rename_same h parent name))))

  verify-Same : (h : ℕ) → Keeps laws.opened (verify api path parent_path name h)
  unfolding verify
  verify-Same h =
      bind-Keeps laws.opened
        (λ w. assert_final_path api path parent_path name h (api.canonical path w) w) _
        (final-Same h path) (λ u. laws.assert_private_same h false)

  discard_temp-Same :
      (h : ℕ) (w : W)
      → ((discard_temp api path parent_path name h w).0 ≡ ok tt)
        × (laws.opened (discard_temp api path parent_path name h w).1 ≡ laws.opened w)
  unfolding discard_temp
  discard_temp-Same h w = elim (Result-cases (api.delete_by_handle h w).0) [
    | inl (u, e) ↦ rw (discard_temp, e) (refl, laws.delete_same h w)
    | inr (x, e) ↦ rw (discard_temp, e, laws.delete_error h x w e) (refl, laws.delete_same h w)
  ]

  after_stage-closes :
      (h : ℕ) (r : Result (Unit {0})) (w : W)
      → laws.opened (after_stage api path parent_path name h r w).1 ≡ laws.opened w - 1
  unfolding after_stage
  after_stage-closes h (ok u) w =
      omega (arith, laws.close_one h (verify api path parent_path name h w).1, verify-Same h w)
  after_stage-closes h (err e) w =
      let (deleted, same) = discard_temp-Same h w in
      let w1 = (discard_temp api path parent_path name h w).1 in
      elim (Result-cases (api.close h w1).0) [
        | inl (u, f) ↦ rw (deleted, f) (omega (arith, laws.close_one h w1, same))
        | inr (x, f) ↦ rw (deleted, f) (omega (arith, laws.close_one h w1, same))
      ]

  replace_state-Same :
      (parent : Option ℕ) (b : B)
      → Keeps laws.opened (replace_state api path parent_path name parent b)
  unfolding replace_state
  replace_state-Same none b w = refl
  replace_state-Same (some parent) b w =
      let temporary = api.temporary_path parent_path w in
      elim (Result-cases (api.create_temp temporary w).0) [
        | inr (x, e) ↦ rw e (laws.create_temp_err temporary x w e)
        | inl (h, e) ↦
            let w1 = (api.create_temp temporary w).1 in
            let closed =
              after_stage-closes h (stage api path parent_path name parent h temporary b w1).0
                (stage api path parent_path name parent h temporary b w1).1 in
            rw e (
              omega (
                arith,
                closed,
                stage-Same parent h temporary b w1,
                laws.create_temp_ok temporary h w e,
              ))
      ]

  open_existing-some :
      (existed : Bool) (w : W) → (open_existing api path parent_path name existed w).0 ≡ ok none → ⊥
  unfolding open_existing close_on_error
  open_existing-some existed w gave = elim (Result-cases (api.open_parent parent_path w).0) [
    | inr (x, e) ↦ ground (arith, e, gave)
    | inl (h, e) ↦
        let w1 = (api.open_parent parent_path w).1 in
        let checked =
          check_parent api path parent_path name existed h (api.canonical parent_path w) w1 in
        elim (Result-cases checked.0) [
          | inl (u, f) ↦ ground (arith, e, f, gave)
          | inr (x, f) ↦ elim (Result-cases (api.close h checked.1).0) [
            | inl (u, g) ↦ ground (arith, e, f, g, gave)
            | inr (y, g) ↦ ground (arith, e, f, g, gave)
          ]
        ]
  ]

  enter-some :
      (w : W) (o : Option ℕ)
      → (enter api path parent_path name true w).0 ≡ ok o
      → (h : ℕ) × (o ≡ some h)
  unfolding enter
  enter-some w (some h) gave = (h, refl)
  enter-some w none gave = elim (Bool-cases (api.exists parent_path w)) [
    | inl there ↦ absurd (open_existing-some true w (rw there at gave))
    | inr missing ↦ elim (Result-cases (api.mkdir parent_path w).0) [
      | inr (x, e) ↦ absurd (ground (arith, missing, e, gave))
      | inl (u, e) ↦
          absurd (open_existing-some false (api.mkdir parent_path w).1 (rw (missing, e) at gave))
    ]
  ]

  close_one :
      (h : ℕ) (w : W)
      → laws.opened (exit api path parent_path name (some h) w).1 ≡ laws.opened w - 1
  unfolding exit
  close_one h w = laws.close_one h w

  abbrev windows_storage-HandleLaws : Handles.HandleLaws (windows_storage api path parent_path name)
  windows_storage-HandleLaws = record {
    opened = laws.opened;
    open_kept = enter-handles laws path parent_path name;
    open_some = enter-some;
    read_same = read_state-handles laws path parent_path name;
    replace_same = λ h b. replace_state-Same (some h) b;
    close_one = close_one;
  }

  unavailable-Same : (A : Type 0) (e : Error) → Keeps laws.opened (unavailable {A = A} {W = W} e)
  unfolding unavailable
  unavailable-Same A e = if-Keeps laws.opened (is_os_error e.class) _ _ (λ w. refl) (λ w. refl)

  transaction-Same :
      {A : Type 0} (body : Exec W A)
      → Keeps laws.opened body
      → Keeps laws.opened (windows_state_transaction body)
  unfolding windows_state_transaction
  transaction-Same body same = catch-Keeps laws.opened body unavailable same (unavailable-Same _)

  -- Where opening adds one to a count of open handles, closing takes one away even if it raises,
  -- the other calls leave it, and a deletion raises an `OSError` alone: `ingest`, `complete` and
  -- `pending` under Windows, with an `OSError` turned into a `RuntimeError`, leave as many handles
  -- open as before, whether they return or raise.
  pub windows_queue-opened :
      (codec : Codec B) (q : DurableQueue) (e : HeyEvent) (authorize : HeyEvent → Bool) (id : Text)
      (w : W)
      → (laws.opened (windows_ingest api path parent_path name codec q e authorize w).1
          ≡ laws.opened w)
        × (laws.opened (windows_complete api path parent_path name codec q id w).1 ≡ laws.opened w)
        × (laws.opened (windows_pending api path parent_path name codec q w).1 ≡ laws.opened w)
  unfolding windows_ingest windows_complete windows_pending ingest
  windows_queue-opened codec q e authorize id w = (
    elim (Bool-cases (authorize e)) [
      | inr refused ↦ rw refused refl
      | inl allowed ↦ rw allowed (
          transaction-Same _
            (λ w'. ingest-opened windows_storage-HandleLaws codec q e (λ e'. true) w') w)
    ],
    transaction-Same _ (complete-opened windows_storage-HandleLaws codec q id) w,
    transaction-Same _ (pending-opened windows_storage-HandleLaws codec q) w,
  )
