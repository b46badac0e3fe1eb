-- ===== src/Posix/Parent.antt =====
-- `_assert_posix_parent_identity` and `_open_posix_parent` of hey_platform/engine.py.
use hermes_hey.Prelude.{
  ℕ, ◌==◌, Bool, not, ◌&&◌, Option, none, some, Error, runtime_error, is_os_error, is_not_found,
  if◌then◌else◌, err, ok, Result, String,
}
use hermes_hey.Exec.{Exec, pure, throw, lift, catch, ◌>>=◌, ◌>>◌}
use hermes_hey.Posix.Api.{PosixApi, Stat}

-- `(a.st_dev, a.st_ino) == (b.st_dev, b.st_ino)`
unfoldable pub same_file : Stat → Stat → Bool
same_file a b = a.dev == b.dev && a.ino == b.ino

-- `raise RuntimeError(m) from None` for an `OSError`, and the exception itself for another
unfoldable pub insecure {ℓ} : {W A : Type ℓ} → String → Error → Exec W A
insecure m e = if is_os_error e.class then throw runtime_error m else lift (err e)

-- `if not test: raise RuntimeError(m)`
unfoldable pub ensure {ℓ} : {W : Type ℓ} → Bool → String → Exec W (Unit {ℓ})
ensure test m = if test then pure tt else throw runtime_error m

module _ {W : Type 0} (api : PosixApi W) where
  -- a directory of the user's own with the mode 0o700, which the path leads to
  unfoldable pub is_parent : Stat → Stat → Bool
  unfolding same_file
  is_parent metadata path_metadata =
      metadata.is_dir
      && (metadata.uid == api.euid && (metadata.mode == 448 && same_file path_metadata metadata))

  -- `_assert_posix_parent_identity`
  unfoldable pub assert_parent_identity : ℕ → Exec W (Unit {0})
  unfolding insecure ensure
  assert_parent_identity directory_fd = do
    metadata ← api.fstat directory_fd
    path_metadata ← catch api.stat_parent (insecure "HEY queue directory is insecure")
    ensure (is_parent metadata path_metadata) "HEY queue directory is insecure"

  unfoldable pub make_parent : Bool → Exec W (Unit {0})
  unfolding insecure
  make_parent create =
      if create
      then catch api.mkdir_parent (insecure "HEY queue directory is insecure")
      else pure tt

  -- what is made of a failure to open the directory
  unfoldable pub missing_parent : Bool → Error → Exec W (Option ℕ)
  unfolding insecure
  missing_parent create e =
      if is_not_found e.class && not create
      then pure none
      else insecure "HEY queue directory is insecure" e

  -- `except BaseException: os.close; raise`
  unfoldable pub keep_parent : ℕ → Result (Unit {0}) → Exec W (Option ℕ)
  keep_parent directory_fd (ok u) = pure (some directory_fd)
  keep_parent directory_fd (err e) = do api.close directory_fd; lift (err e)

  unfoldable pub check_opened : Option ℕ → Exec W (Option ℕ)
  check_opened none w = (ok none, w)
  check_opened (some directory_fd) w =
      let (r, w') = assert_parent_identity directory_fd w in keep_parent directory_fd r w'

  -- `_open_posix_parent`
  unfoldable pub open_posix_parent : Bool → Exec W (Option ℕ)
  open_posix_parent create = do
    make_parent create
    opened ← catch (do fd ← api.open_directory; pure (some fd)) (missing_parent create)
    check_opened opened
