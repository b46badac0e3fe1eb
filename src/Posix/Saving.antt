-- ===== src/Posix/Saving.antt =====
-- `_save_posix` of hey_platform/engine.py.
use hermes_hey.Prelude.{
  ℕ, zero, suc, Text, codes, Bool, true, false, [], ◌∷◌, ◌++◌, length, drop, Option, none, some,
  runtime_error, os_error, is_os_error, if◌then◌else◌, ok, err, Result,
}
use hermes_hey.Exec.{Exec, pure, throw, lift, catch, finally, ◌>>=◌, ◌>>◌}
use hermes_hey.Posix.Api.{PosixApi, Stat, Bytes}
use hermes_hey.Posix.Parent.{same_file, insecure, ensure, assert_parent_identity, open_posix_parent}
use hermes_hey.Posix.Reading.{is_private_file}

module _ {W : Type 0} (api : PosixApi W) (name : Text) where
  -- the `while` loop over what remains, with the rounds that it may still take
  unfoldable pub write_all : ℕ → ℕ → Bytes → Exec W (Unit {0})
  write_all zero fd [] = pure tt
  write_all zero fd (b ∷ bs) = throw os_error "out of rounds"
  write_all (suc rounds) fd [] = pure tt
  write_all (suc rounds) fd (b ∷ bs) = do
    written ← api.write fd (b ∷ bs)
    elim written [
      | zero ↦ throw os_error "cannot write HEY state"
      | suc n ↦ write_all rounds fd (drop (suc n) (b ∷ bs))
    ]

  -- f".{self.path.name}.{secrets.token_hex(16)}.tmp"
  unfoldable pub temporary_name : W → Text
  temporary_name w = codes "." ++ (name ++ (codes "." ++ (api.token w ++ codes ".tmp")))

  unfoldable pub create_temporary : Text → ℕ → Exec W ℕ
  create_temporary temporary directory_fd = do
    assert_parent_identity api directory_fd
    catch (api.create_at temporary directory_fd) (insecure "HEY temporary state file is insecure")

  -- the part of the `try` from the new file to its bytes on the disk
  unfoldable pub fill : ℕ → Bytes → Exec W Stat
  fill fd encoded = do
    _ ← api.fstat fd
    api.fchmod fd 384
    metadata ← api.fstat fd
    ensure (is_private_file api name metadata) "HEY temporary state file is insecure"
    write_all (length encoded) fd encoded
    api.fsync fd
    pure metadata

  -- the part from there to the renaming
  unfoldable pub publish : Text → ℕ → Stat → Exec W (Unit {0})
  publish temporary directory_fd metadata = do
    temporary_metadata ← api.stat_at temporary directory_fd
    ensure (same_file temporary_metadata metadata) "HEY temporary state file is insecure"
    assert_parent_identity api directory_fd
    api.replace_at temporary name directory_fd

  unfoldable pub stage : Text → ℕ → ℕ → Bytes → Exec W Stat
  stage temporary directory_fd fd encoded = do
    metadata ← fill fd encoded
    publish temporary directory_fd metadata
    pure metadata

  -- the rest of the `try`, after the renaming
  unfoldable pub confirm : ℕ → Stat → Exec W (Unit {0})
  confirm directory_fd metadata = do
    state_metadata ← api.stat_at name directory_fd
    ensure (same_file state_metadata metadata) "HEY state file is insecure"
    assert_parent_identity api directory_fd
    api.fsync directory_fd

  -- `try: os.unlink except OSError: pass`
  unfoldable pub discard : Text → ℕ → Exec W (Unit {0})
  discard temporary directory_fd =
      catch (api.unlink_at temporary directory_fd)
        (λ e. if is_os_error e.class then pure tt else lift (err e))

  -- the end of the `finally` block
  unfoldable pub release : Bool → ℕ → Exec W (Unit {0})
  release owns_directory_fd directory_fd =
      if owns_directory_fd then api.close directory_fd else pure tt

  -- the `finally` block when the file was not renamed, or when it was
  unfoldable pub drop_temporary : Bool → Text → ℕ → ℕ → Exec W (Unit {0})
  drop_temporary owns temporary directory_fd fd = do
    api.close fd
    discard temporary directory_fd
    release owns directory_fd

  unfoldable pub close_renamed : Bool → ℕ → ℕ → Exec W (Unit {0})
  close_renamed owns directory_fd fd = do api.close fd; release owns directory_fd

  unfoldable pub after_stage : Bool → Text → ℕ → ℕ → Result Stat → Exec W (Unit {0})
  after_stage owns temporary directory_fd fd (err e) =
      finally (lift (err e)) (drop_temporary owns temporary directory_fd fd)
  after_stage owns temporary directory_fd fd (ok metadata) =
      finally (confirm directory_fd metadata) (close_renamed owns directory_fd fd)

  unfoldable pub after_creation : Bool → Text → ℕ → Bytes → Result ℕ → Exec W (Unit {0})
  after_creation owns temporary directory_fd encoded (err e) w =
      finally (lift (err e)) (release owns directory_fd) w
  after_creation owns temporary directory_fd encoded (ok fd) w =
      let (r, w') = stage temporary directory_fd fd encoded w in
      after_stage owns temporary directory_fd fd r w'

  -- the `try` statement, from the temporary name on
  unfoldable pub save_in : Bool → ℕ → Bytes → Exec W (Unit {0})
  save_in owns directory_fd encoded w =
      let temporary = temporary_name w in
      let (r, w') = create_temporary temporary directory_fd w in
      after_creation owns temporary directory_fd encoded r w'

  unfoldable pub save_opened : Bytes → Option ℕ → Exec W (Unit {0})
  save_opened encoded none = throw runtime_error "HEY queue directory is insecure"
  save_opened encoded (some directory_fd) = save_in true directory_fd encoded

  -- `_save_posix`
  unfoldable pub save_posix : Option ℕ → Bytes → Exec W (Unit {0})
  save_posix none encoded = do opened ← open_posix_parent api true; save_opened encoded opened
  save_posix (some directory_fd) encoded = do
    assert_parent_identity api directory_fd
    save_in false directory_fd encoded
