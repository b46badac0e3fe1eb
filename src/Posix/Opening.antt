-- ===== src/Posix/Opening.antt =====
-- What the opening of the directory by `_open_posix_parent` of hey_platform/engine.py leaves of the state
-- file, and when it gives none.
use hermes_hey.Prelude.{
  true, ℕ, Text, Bool, false, not, ◌&&◌, ◌≡◌, refl, sym, ◌∙◌, Option, none, some, Result, ok, err,
  Error, Result-cases, Bool-cases, inl, inr, arith, is_os_error, is_not_found,
}
use hermes_hey.Exec.{Exec, pure, catch, ◌>>=◌}
use hermes_hey.Exec.Views.{Keeps, bind-Keeps, catch-Keeps, if-Keeps}
use hermes_hey.Posix.Api.{PosixApi}
use hermes_hey.Posix.Parent.{
  insecure, assert_parent_identity, make_parent, missing_parent, keep_parent, check_opened,
  open_posix_parent,
}
use hermes_hey.Posix.Files.{FileLaws, secured_content, assert_content}

module _ {W : Type 0} (api : PosixApi W) where
  abbrev opening : Bool → Exec W (Option ℕ)
  opening create = catch (do fd ← api.open_directory; pure (some fd)) (missing_parent api create)

  -- Only a directory that is not there gives none, and only where it is not to be made.
  opening-none :
      (create : Bool) (w : W)
      → (opening create w).0 ≡ ok none
      → (create ≡ false)
        × (x : Error) × ((api.open_directory w).0 ≡ err x)
        × (is_not_found x.class ≡ true)
  unfolding missing_parent insecure
  opening-none create w gave = elim (Result-cases (api.open_directory w).0) [
    | inl (fd, e) ↦ absurd (ground (arith, e, gave))
    | inr (x, e) ↦ elim (Bool-cases (is_not_found x.class && not create)) [
      | inl missing ↦ (ground (arith, missing), x, e, ground (arith, missing))
      | inr p ↦ elim (Bool-cases (is_os_error x.class)) [
        | inl q ↦ absurd (ground (arith, e, p, q, gave))
        | inr q ↦ absurd (ground (arith, e, p, q, gave))
      ]
    ]
  ]

  check_opened-none : (d : ℕ) (w : W) → (check_opened api (some d) w).0 ≡ ok none → ⊥
  unfolding check_opened keep_parent
  check_opened-none d w gave = elim (Result-cases (assert_parent_identity api d w).0) [
    | inl (u, e) ↦ ground (arith, e, gave)
    | inr (x, e) ↦ elim (Result-cases (api.close d (assert_parent_identity api d w).1).0) [
      | inl (u, f) ↦ ground (arith, e, f, gave)
      | inr (y, f) ↦ ground (arith, e, f, gave)
    ]
  ]

  open_posix_parent-missing :
      (create : Bool) (w : W)
      → (open_posix_parent api create w).0 ≡ ok none
      → (opening create (make_parent api create w).1).0 ≡ ok none
  unfolding open_posix_parent
  open_posix_parent-missing create w gave = elim (Result-cases (make_parent api create w).0) [
    | inr (x, e) ↦ absurd (ground (arith, e, gave))
    | inl (u, e) ↦
        let w1 = (make_parent api create w).1 in
        elim (Result-cases (opening create w1).0) [
          | inr (x, f) ↦ absurd (ground (arith, e, f, gave))
          | inl (some d, f) ↦ absurd (check_opened-none d (opening create w1).1 (rw (e, f) at gave))
          | inl (none, f) ↦ f
        ]
  ]

  -- An opening that may make the directory gives a descriptor.
  pub open_posix_parent-some :
      (w : W) (h : Option ℕ) → (open_posix_parent api true w).0 ≡ ok h → (fd : ℕ) × (h ≡ some fd)
  open_posix_parent-some w none opened =
      let (never, x, raised, missing) =
        opening-none true (make_parent api true w).1 (open_posix_parent-missing true w opened) in
      absurd (ground (arith, never))
  open_posix_parent-some w (some fd) opened = (fd, refl)

module _ {W : Type 0} {api : PosixApi W} {name : Text} (laws : FileLaws api name) where
  abbrev Same : {A : Type 0} → Exec W A → Type 0
  Same m = Keeps laws.content m

  missing_parent-Same : (create : Bool) (e : Error) → Same (missing_parent api create e)
  unfolding missing_parent insecure
  missing_parent-Same create e w = elim (Bool-cases (is_not_found e.class && not create)) [
    | inl p ↦ rw p refl
    | inr p ↦ elim (Bool-cases (is_os_error e.class)) [
      | inl q ↦ rw (p, q) refl
      | inr q ↦ rw (p, q) refl
    ]
  ]

  keep_parent-Same : (d : ℕ) (r : Result (Unit {0})) → Same (keep_parent api d r)
  unfolding keep_parent
  keep_parent-Same d (ok u) = λ w. refl
  keep_parent-Same d (err e) =
      bind-Keeps laws.content (api.close d) _ (laws.close_content d) (λ u w. refl)

  check_opened-Same : (o : Option ℕ) → Same (check_opened api o)
  unfolding check_opened
  check_opened-Same none = λ w. refl
  check_opened-Same (some d) = λ w.
      keep_parent-Same d (assert_parent_identity api d w).0 (assert_parent_identity api d w).1
      ∙ assert_content laws d w

  make_parent-Same : (create : Bool) → Same (make_parent api create)
  unfolding make_parent
  make_parent-Same create =
      if-Keeps laws.content create
        (catch api.mkdir_parent (insecure "HEY queue directory is insecure")) (pure tt)
        (secured_content laws api.mkdir_parent "HEY queue directory is insecure" laws.mkdir_content)
        (λ w. refl)

  opening-Same : (create : Bool) → Same (opening api create)
  opening-Same create =
      catch-Keeps laws.content (do fd ← api.open_directory; pure (some fd))
        (missing_parent api create)
        (bind-Keeps laws.content api.open_directory _ laws.open_directory_content (λ fd w. refl))
        (missing_parent-Same create)

  pub open_posix_parent-Same : (create : Bool) → Same (open_posix_parent api create)
  unfolding open_posix_parent
  open_posix_parent-Same create =
      bind-Keeps laws.content (make_parent api create) _ (make_parent-Same create) (λ u.
        bind-Keeps laws.content (opening api create) _ (opening-Same create) check_opened-Same)

  pub open_posix_parent-none :
      (w : W) → (open_posix_parent api false w).0 ≡ ok none → laws.content w ≡ none
  open_posix_parent-none w gave =
      let w1 = (make_parent api false w).1 in
      let (_, x, raised, missing) =
        opening-none api false w1 (open_posix_parent-missing api false w gave) in
      sym (make_parent-Same false w) ∙ laws.directory_missing x w1 raised missing
