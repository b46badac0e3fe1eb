-- ===== src/Posix/Kept.antt =====
-- The checks of hey_platform/engine.py that leave a view of the state as it is.
use hermes_hey.Prelude.{
  ℕ, Bool, true, false, refl, Error, Bool-cases, inl, inr, is_os_error, String,
}
use hermes_hey.Exec.{Exec, catch}
use hermes_hey.Exec.Views.{Keeps, bind-Keeps, catch-Keeps}
use hermes_hey.Posix.Api.{PosixApi}
use hermes_hey.Posix.Parent.{is_parent, insecure, ensure, assert_parent_identity}

-- Code that calls nothing but what leaves a view of the state as it is.
module _ {W V : Type 0} (api : PosixApi W) (view : W → V)
    (fstat_same : (fd : ℕ) → Keeps view (api.fstat fd))
    (stat_parent_same : Keeps view api.stat_parent) where
  insecure-Keeps : (A : Type 0) (m : String) (e : Error) → Keeps view (insecure {A = A} m e)
  unfolding insecure
  insecure-Keeps A m e w = elim (Bool-cases (is_os_error e.class)) [
    | inl p ↦ rw p refl
    | inr p ↦ rw p refl
  ]

  pub ensure-Keeps : (b : Bool) (m : String) → Keeps view (ensure b m)
  unfolding ensure
  ensure-Keeps true m w = refl
  ensure-Keeps false m w = refl

  pub secured-Keeps :
      {A : Type 0} (m : Exec W A) (message : String)
      → Keeps view m
      → Keeps view (catch m (insecure message))
  secured-Keeps {A} m message same =
      catch-Keeps view m (insecure message) same (insecure-Keeps A message)

  pub assert-Keeps : (fd : ℕ) → Keeps view (assert_parent_identity api fd)
  unfolding assert_parent_identity
  assert-Keeps fd = bind-Keeps view (api.fstat fd) _ (fstat_same fd) (λ metadata.
      bind-Keeps view (catch api.stat_parent (insecure "HEY queue directory is insecure")) _
        (secured-Keeps api.stat_parent "HEY queue directory is insecure" stat_parent_same)
        (λ path_metadata.
          ensure-Keeps (is_parent api metadata path_metadata) "HEY queue directory is insecure"))
