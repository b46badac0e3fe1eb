-- ===== src/Posix/Reading.antt =====
-- `_read_secure_state` of hey_platform/engine.py, and the check before it in `_load`.
use hermes_hey.Prelude.{
  ℕ, ◌==◌, Text, Bool, ◌&&◌, Option, none, some, Error, runtime_error, is_not_found, if◌then◌else◌,
}
use hermes_hey.Exec.{Exec, pure, throw, catch, finally, ◌>>=◌, ◌>>◌}
use hermes_hey.Posix.Api.{PosixApi, Stat, Bytes}
use hermes_hey.Posix.Parent.{same_file, insecure, ensure, assert_parent_identity}

module _ {W : Type 0} (api : PosixApi W) (name : Text) where
  -- a file of the user's own with the mode 0o600
  unfoldable pub is_private_file : Stat → Bool
  is_private_file metadata = metadata.is_reg && (metadata.uid == api.euid && metadata.mode == 384)

  -- what is made of a failure to open the file: no file is no state
  unfoldable pub missing_state : ℕ → Error → Exec W (Option ℕ)
  missing_state directory_fd e =
      if is_not_found e.class
      then (do assert_parent_identity api directory_fd; pure none)
      else insecure "HEY state file is insecure" e

  unfoldable pub open_state : ℕ → Exec W (Option ℕ)
  open_state directory_fd =
      catch
        (do
          assert_parent_identity api directory_fd
          fd ← api.open_at name directory_fd
          pure (some fd))
        (missing_state directory_fd)

  -- the checks of the open file
  unfoldable pub check_state : ℕ → ℕ → Exec W (Unit {0})
  check_state directory_fd fd = do
    metadata ← api.fstat fd
    ensure (is_private_file metadata) "HEY state file is insecure"
    path_metadata ← catch (api.stat_at name directory_fd) (insecure "HEY state file is insecure")
    ensure (same_file path_metadata metadata) "HEY state file is insecure"
    assert_parent_identity api directory_fd

  unfoldable pub read_opened : ℕ → ℕ → Option ℕ → Exec W (Option Bytes)
  read_opened directory_fd limit none = pure none
  read_opened directory_fd limit (some fd) =
      finally (do check_state directory_fd fd; b ← api.read fd limit; pure (some b)) (api.close fd)

  -- `_read_secure_state`
  unfoldable pub read_secure_state : Option ℕ → ℕ → Exec W (Option Bytes)
  read_secure_state none limit = throw runtime_error "HEY queue directory is insecure"
  read_secure_state (some directory_fd) limit = do
    opened ← open_state directory_fd
    read_opened directory_fd limit opened

  -- the reading of `_load` for a directory that the caller has opened
  unfoldable pub read_state : Option ℕ → ℕ → Exec W (Option Bytes)
  read_state none limit = throw runtime_error "HEY queue directory is insecure"
  read_state (some directory_fd) limit = do
    assert_parent_identity api directory_fd
    read_secure_state (some directory_fd) limit
