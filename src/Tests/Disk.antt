-- ===== src/Tests/Disk.antt =====
-- A small POSIX system: one directory, the state file and one temporary file.
use hermes_hey.Prelude.{
  ℕ, ◌+◌, ◌-◌, ◌==◌, Text, Bool, true, false, ◌≡◌, refl, sym, ap, ◌∙◌, Option, none, some, [], ◌∷◌,
  ◌++◌, length, take, Result, ok, err, Error, os_error, not_found, codes, Bool-cases, Option-cases,
  inl, inr, arith, if◌then◌else◌,
}
use hermes_hey.Exec.{Exec, pure, throw}
use hermes_hey.Posix.Api.{PosixApi, Stat, Bytes}
use hermes_hey.Posix.Files.{FileLaws}
use hermes_hey.Posix.Descriptors.{DescriptorLaws}

-- `opened` counts descriptors, `state` is the state file, and `temporary` the new one
pub record World : Type 0 where
  pub opened : ℕ
  pub state : Option Bytes
  pub temporary : Bytes

-- 3 is the directory, 4 the state file, and 5 the temporary file
abbrev held : ℕ → World → Bytes
held fd w = if fd == 5 then w.temporary else elim w.state [ none ↦ [] | some b ↦ b ]

abbrev opening : ℕ → Exec World ℕ
opening fd w = (ok fd, record { opened = w.opened + 1; state = w.state; temporary = w.temporary })

abbrev directory : Stat
directory = record { is_dir = true; is_reg = false; uid = 7; mode = 448; dev = 1; ino = 1 }

abbrev private_file : Stat
private_file = record { is_dir = false; is_reg = true; uid = 7; mode = 384; dev = 1; ino = 2 }

abbrev open_state_file : World → Option Bytes → Result ℕ × World
open_state_file w none = throw not_found "no file" w
open_state_file w (some b) = opening 4 w

abbrev append_to : Bool → Bytes → Exec World ℕ
append_to false bs w = throw os_error "read only" w
append_to true bs w =
    (ok (length bs), record { opened = w.opened; state = w.state; temporary = w.temporary ++ bs })

abbrev stat_of : ℕ → Stat
stat_of fd = if fd == 3 then directory else private_file

abbrev pub disk : PosixApi World
disk = record {
  euid = 7;
  token = λ w. codes "00";
  mkdir_parent = pure tt;
  open_directory = opening 3;
  stat_parent = pure directory;
  fstat = λ fd. pure (stat_of fd);
  open_at = λ n d w. open_state_file w w.state;
  create_at = λ n d w. (ok 5, record { opened = w.opened + 1; state = w.state; temporary = [] });
  stat_at = λ n d. pure private_file;
  fchmod = λ fd mode. pure tt;
  write = λ fd bs. append_to (fd == 5) bs;
  read = λ fd n w. (ok (take n (held fd w)), w);
  fsync = λ fd. pure tt;
  replace_at = λ from to d w.
      (ok tt, record { opened = w.opened; state = some w.temporary; temporary = w.temporary });
  unlink_at = λ n d. pure tt;
  close =
      λ fd w. (ok tt, record { opened = w.opened - 1; state = w.state; temporary = w.temporary });
}

held_state : (b : Bytes) (w : World) → w.state ≡ some b → w.state ≡ some (held 4 w)
held_state b w p =
    p ∙ ap some (sym (ap (λ (o : Option Bytes). elim o [ none ↦ [] | some c ↦ c ]) p))

pub open_state_file-ok :
    (o : Option Bytes) (fd : ℕ) (w : World)
    → w.state ≡ o
    → (open_state_file w o).0 ≡ ok fd
    → ((open_state_file w o).1.opened ≡ w.opened + 1)
      × (w.state ≡ some (held fd (open_state_file w o).1))
open_state_file-ok none fd w p e = absurd (ground (arith, e))
open_state_file-ok (some b) fd w p e =
    let same : 4 ≡ fd = ground (arith, e) in rw (sym same) (refl, held_state b w p)

pub open_state_file-err :
    (x : Error) (w : World)
    → (open_state_file w w.state).0 ≡ err x
    → ((open_state_file w w.state).1.opened ≡ w.opened) × (w.state ≡ none)
open_state_file-err x w e = elim (Option-cases w.state) [
  | inl p ↦ rw p (refl, refl)
  | inr (b, p) ↦ absurd (ground (arith, p, rw p at e))
]

pub append_to-opened : (b : Bool) (bs : Bytes) (w : World) → (append_to b bs w).1.opened ≡ w.opened
append_to-opened true bs w = refl
append_to-opened false bs w = refl

pub append_to-state : (b : Bool) (bs : Bytes) (w : World) → (append_to b bs w).1.state ≡ w.state
append_to-state true bs w = refl
append_to-state false bs w = refl

pub open_state_file-same : (o : Option Bytes) (w : World) → (open_state_file w o).1.state ≡ w.state
open_state_file-same none w = refl
open_state_file-same (some b) w = refl

take_all : (bs rest : Bytes) → take (length bs) bs ≡ bs
take_all [] rest = refl
take_all (b ∷ bs) rest = ap (◌∷◌ b) (take_all bs rest)

pub append_to-held :
    (fd n : ℕ) (bs : Bytes) (w : World)
    → (append_to (fd == 5) bs w).0 ≡ ok n
    → held fd (append_to (fd == 5) bs w).1 ≡ held fd w ++ take n bs
append_to-held fd n bs w e = elim (Bool-cases (fd == 5)) [
  | inl p ↦
      let written : length bs ≡ n = ground (arith, p, rw p at e) in
      rw (p, sym written, take_all bs []) refl
  | inr p ↦ absurd (ground (arith, p, rw p at e))
]

abbrev pub disk-DescriptorLaws : DescriptorLaws disk
disk-DescriptorLaws = record {
  opened = λ w. w.opened;
  open_directory_ok = λ fd w e. refl;
  open_directory_err = λ x w e. absurd (ground arith);
  open_at_ok = λ n d fd w e. (open_state_file-ok w.state fd w refl e).0;
  open_at_err = λ n d x w e. (open_state_file-err x w e).0;
  create_at_ok = λ n d fd w e. refl;
  create_at_err = λ n d x w e. absurd (ground arith);
  close_one = λ fd w. refl;
  mkdir_same = λ w. refl;
  stat_parent_same = λ w. refl;
  fstat_same = λ fd w. refl;
  stat_at_same = λ n d w. refl;
  fchmod_same = λ fd mode w. refl;
  write_same = λ fd bs w. append_to-opened (fd == 5) bs w;
  read_same = λ fd n w. refl;
  fsync_same = λ fd w. refl;
  replace_same = λ from to d w. refl;
  unlink_same = λ n d w. refl;
}

pub created_lem :
    (fd : ℕ) (w : World)
    → (disk.create_at [] 3 w).0 ≡ ok fd
    → (held fd (disk.create_at [] 3 w).1 ≡ []) × ((fd == 5) ≡ true)
created_lem fd w done = let same : 5 ≡ fd = ground (arith, done) in rw (sym same) (refl, refl)

abbrev pub disk-FileLaws : (name : Text) → FileLaws disk name
disk-FileLaws name = record {
  content = λ w. w.state;
  file = held;
  is_temporary = λ t fd w. fd == 5;
  view = λ t fd w. (w.state, (held fd w, fd == 5));
  view_lem = λ t fd w. refl;
  fstat_view = λ t fd other w. refl;
  stat_parent_view = λ t fd w. refl;
  stat_at_view = λ t fd n d w. refl;
  fchmod_view = λ t fd other mode w. refl;
  fsync_view = λ t fd other w. refl;
  mkdir_content = λ w. refl;
  open_directory_content = λ w. refl;
  open_at_content = λ n d w. open_state_file-same w.state w;
  create_at_content = λ t d apart w. refl;
  unlink_at_content = λ t d apart w. refl;
  read_content = λ fd n w. refl;
  close_content = λ fd w. refl;
  directory_missing = λ e w raised found. absurd (ground arith);
  file_missing = λ d e w raised found. (open_state_file-err e w raised).1;
  file_opened = λ d fd w done. (open_state_file-ok w.state fd w refl done).1;
  fstat_error = λ fd e w raised. absurd (ground arith);
  read_front = λ fd n b w done. ground arith;
  created = λ t d fd w done. created_lem fd w done;
  write_temporary = λ t fd bs w temporary. (append_to-state (fd == 5) bs w, temporary);
  write_appends = λ fd bs n w done. append_to-held fd n bs w done;
  replaced = λ t d fd w temporary done. rw temporary refl;
  replaced_or_not = λ t d fd w temporary. inr (rw temporary refl);
}

abbrev pub empty_disk : World
empty_disk = record { opened = 0; state = none; temporary = [] }
