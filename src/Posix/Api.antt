-- ===== src/Posix/Api.antt =====
-- The calls of the operating system that `DurableQueue` of hey_platform/engine.py makes under POSIX.
use hermes_hey.Prelude.{ℕ, Text, List, Bool}
use hermes_hey.Exec.{Exec}

abbrev pub Bytes : Type 0
Bytes = List ℕ

-- What the code reads of `os.stat_result`: the type, the owner, `stat.S_IMODE`, the device and the inode.
pub record Stat : Type 0 where
  pub is_dir : Bool
  pub is_reg : Bool
  pub uid : ℕ
  pub mode : ℕ
  pub dev : ℕ
  pub ino : ℕ

-- Every call may raise. The path of the parent directory is fixed, and the flags are those that the
-- code passes: `open_directory` has O_DIRECTORY and O_NOFOLLOW, `open_at` O_NOFOLLOW, and
-- `create_at` O_CREAT, O_EXCL and O_NOFOLLOW with the mode 0o600. `token` is the random part of the
-- temporary name, and `read` is what `os.fdopen(fd).read(n)` returns.
pub record PosixApi (W : Type 0) : Type 0 where
  pub euid : ℕ
  pub token : W → Text
  pub mkdir_parent : Exec W (Unit {0})
  pub open_directory : Exec W ℕ
  pub stat_parent : Exec W Stat
  pub fstat : ℕ → Exec W Stat
  pub open_at : Text → ℕ → Exec W ℕ
  pub create_at : Text → ℕ → Exec W ℕ
  pub stat_at : Text → ℕ → Exec W Stat
  pub fchmod : ℕ → ℕ → Exec W (Unit {0})
  pub write : ℕ → Bytes → Exec W ℕ
  pub read : ℕ → ℕ → Exec W Bytes
  pub fsync : ℕ → Exec W (Unit {0})
  pub replace_at : Text → Text → ℕ → Exec W (Unit {0})
  pub unlink_at : Text → ℕ → Exec W (Unit {0})
  pub close : ℕ → Exec W (Unit {0})
