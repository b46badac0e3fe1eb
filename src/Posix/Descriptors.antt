-- ===== src/Posix/Descriptors.antt =====
-- The descriptors that the storage of hey_platform/engine.py opens and closes.
use hermes_hey.Prelude.{
  ℕ, ◌+◌, ◌-◌, Text, Bool, true, false, not, ◌&&◌, ◌≡◌, refl, Option, none, some, Result, ok, err,
  Error, Result-cases, Bool-cases, inl, inr, arith, is_not_found, is_os_error, is_not_found, String,
}
use hermes_hey.Exec.{Exec, pure, catch, ◌>>=◌, ◌>>◌}
use hermes_hey.Exec.Views.{Keeps}
use hermes_hey.Queue.Handles.{kept}
use hermes_hey.Posix.Api.{PosixApi, Bytes}
use hermes_hey.Posix.Kept.{ensure-Keeps, secured-Keeps, assert-Keeps}
use hermes_hey.Posix.Parent.{
  insecure, ensure, assert_parent_identity, make_parent, missing_parent, keep_parent, check_opened,
  open_posix_parent,
}

-- What the code relies on of a count of open descriptors: opening that succeeds adds one, closing takes
-- one away whether or not it raises, and the other calls leave it.
pub record DescriptorLaws {W : Type 0} (api : PosixApi W) : Type 0 where
  pub opened : W → ℕ
  pub open_directory_ok :
      (fd : ℕ) (w : W)
      → (api.open_directory w).0 ≡ ok fd
      → opened (api.open_directory w).1 ≡ opened w + 1
  pub open_directory_err :
      (e : Error) (w : W)
      → (api.open_directory w).0 ≡ err e
      → opened (api.open_directory w).1 ≡ opened w
  pub open_at_ok :
      (n : Text) (d fd : ℕ) (w : W)
      → (api.open_at n d w).0 ≡ ok fd
      → opened (api.open_at n d w).1 ≡ opened w + 1
  pub open_at_err :
      (n : Text) (d : ℕ) (e : Error) (w : W)
      → (api.open_at n d w).0 ≡ err e
      → opened (api.open_at n d w).1 ≡ opened w
  pub create_at_ok :
      (n : Text) (d fd : ℕ) (w : W)
      → (api.create_at n d w).0 ≡ ok fd
      → opened (api.create_at n d w).1 ≡ opened w + 1
  pub create_at_err :
      (n : Text) (d : ℕ) (e : Error) (w : W)
      → (api.create_at n d w).0 ≡ err e
      → opened (api.create_at n d w).1 ≡ opened w
  pub close_one : (fd : ℕ) (w : W) → opened (api.close fd w).1 ≡ opened w - 1
  pub mkdir_same : Keeps opened api.mkdir_parent
  pub stat_parent_same : Keeps opened api.stat_parent
  pub fstat_same : (fd : ℕ) → Keeps opened (api.fstat fd)
  pub stat_at_same : (n : Text) (d : ℕ) → Keeps opened (api.stat_at n d)
  pub fchmod_same : (fd mode : ℕ) → Keeps opened (api.fchmod fd mode)
  pub write_same : (fd : ℕ) (bs : Bytes) → Keeps opened (api.write fd bs)
  pub read_same : (fd n : ℕ) → Keeps opened (api.read fd n)
  pub fsync_same : (fd : ℕ) → Keeps opened (api.fsync fd)
  pub replace_same : (from to : Text) (d : ℕ) → Keeps opened (api.replace_at from to d)
  pub unlink_same : (n : Text) (d : ℕ) → Keeps opened (api.unlink_at n d)

module _ {W : Type 0} {api : PosixApi W} (laws : DescriptorLaws api) where
  abbrev pub Same : {A : Type 0} → Exec W A → Type 0
  Same m = Keeps laws.opened m

  pub ensure-Same : (b : Bool) (m : String) → Same (ensure b m)
  ensure-Same = ensure-Keeps api laws.opened laws.fstat_same laws.stat_parent_same

  pub secured-Same :
      {A : Type 0} (m : Exec W A) (message : String) → Same m → Same (catch m (insecure message))
  secured-Same = secured-Keeps api laws.opened laws.fstat_same laws.stat_parent_same

  pub assert-Same : (fd : ℕ) → Same (assert_parent_identity api fd)
  assert-Same = assert-Keeps api laws.opened laws.fstat_same laws.stat_parent_same

  -- Closing a descriptor, and what follows that opens and closes nothing.
  pub closing :
      (fd n : ℕ) (rest : Exec W (Unit {0})) (w : W)
      → Same rest
      → laws.opened w ≡ n + 1
      → laws.opened ((api.close fd >> rest) w).1 ≡ n
  closing fd n rest w same is_open = elim (Result-cases (api.close fd w).0) [
    | inl (u, e) ↦ rw e (omega (arith, same (api.close fd w).1, laws.close_one fd w))
    | inr (x, e) ↦ rw e (omega (arith, laws.close_one fd w))
  ]

  -- the descriptors that stand for an opened directory
  abbrev pub count : Option ℕ → ℕ
  count none = 0
  count (some fd) = 1

  keep_parent-opened :
      (fd n : ℕ) (r : Result (Unit {0})) (w : W)
      → laws.opened w ≡ n + 1
      → laws.opened (keep_parent api fd r w).1 ≡ n + kept (keep_parent api fd r w).0
  unfolding keep_parent
  keep_parent-opened fd n (ok u) w is_open = is_open
  keep_parent-opened fd n (err x) w is_open = elim (Result-cases (api.close fd w).0) [
    | inl (u, e) ↦ rw e (omega (arith, laws.close_one fd w))
    | inr (y, e) ↦ rw e (omega (arith, laws.close_one fd w))
  ]

  check_opened-opened :
      (o : Option ℕ) (n : ℕ) (w : W)
      → laws.opened w ≡ n + count o
      → laws.opened (check_opened api o w).1 ≡ n + kept (check_opened api o w).0
  unfolding check_opened
  check_opened-opened none n w is_open = is_open
  check_opened-opened (some fd) n w is_open =
      keep_parent-opened fd n (assert_parent_identity api fd w).0
        (assert_parent_identity api fd w).1 (omega (arith, assert-Same fd w))

  -- what an opening leaves open
  abbrev pub Opens : Exec W (Option ℕ) → Type 0
  Opens m = (w : W) → laws.opened (m w).1 ≡ laws.opened w + kept (m w).0

  -- A step of an opening, and one that goes on with what it gave.
  pub bind-Opens :
      (m : Exec W (Option ℕ)) (f : Option ℕ → Exec W (Option ℕ))
      → Opens m
      → ((o : Option ℕ) (n : ℕ) (w : W)
          → laws.opened w ≡ n + count o
          → laws.opened (f o w).1 ≡ n + kept (f o w).0)
      → Opens (m >>= f)
  bind-Opens m f opens each w = elim (Result-cases (m w).0) [
    | inl (none, e) ↦ rw e (each none (laws.opened w) (m w).1 (rw e at (opens w)))
    | inl (some fd, e) ↦ rw e (each (some fd) (laws.opened w) (m w).1 (rw e at (opens w)))
    | inr (x, e) ↦ rw e (rw e at (opens w))
  ]

  missing_parent-Opens : (create : Bool) (e : Error) → Opens (missing_parent api create e)
  unfolding missing_parent insecure
  missing_parent-Opens create e w = elim (Bool-cases (is_not_found e.class && not create)) [
    | inl p ↦ rw p (omega arith)
    | inr p ↦ elim (Bool-cases (is_os_error e.class)) [
      | inl q ↦ rw (p, q) (omega arith)
      | inr q ↦ rw (p, q) (omega arith)
    ]
  ]

  opening-Opens :
      (create : Bool)
      → Opens (catch (do fd ← api.open_directory; pure (some fd)) (missing_parent api create))
  opening-Opens create w = elim (Result-cases (api.open_directory w).0) [
    | inl (fd, e) ↦ rw e (laws.open_directory_ok fd w e)
    | inr (x, e) ↦ rw e (
        omega (
          arith,
          laws.open_directory_err x w e,
          missing_parent-Opens create x (api.open_directory w).1,
        ))
  ]

  make_parent-Same : (create : Bool) → Same (make_parent api create)
  unfolding make_parent
  make_parent-Same true =
      secured-Same api.mkdir_parent "HEY queue directory is insecure" laws.mkdir_same
  make_parent-Same false = λ w. refl

  -- Opening the directory leaves one descriptor more if it gives one, and none if it does not.
  pub open_posix_parent-opened :
      (create : Bool) (w : W)
      → laws.opened (open_posix_parent api create w).1
        ≡ laws.opened w + kept (open_posix_parent api create w).0
  unfolding open_posix_parent
  open_posix_parent-opened create w =
      let opening =
        catch (do fd ← api.open_directory; pure (some fd)) (missing_parent api create) in
      let rest = bind-Opens opening (check_opened api) (opening-Opens create) check_opened-opened in
      elim (Result-cases (make_parent api create w).0) [
        | inl (u, e) ↦
            rw e (omega (arith, rest (make_parent api create w).1, make_parent-Same create w))
        | inr (x, e) ↦ rw e (omega (arith, make_parent-Same create w))
      ]
