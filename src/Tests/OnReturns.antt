-- ===== src/Tests/OnReturns.antt =====
-- That the queue returns, at the POSIX storage over a small POSIX system.
use hermes_hey.Prelude.{
  collect, ◌+◌, ℕ, suc, Bool, ◌≡◌, refl, none, some, zero, drop, take, Option, ◌++◌, [], ◌∷◌, ok,
  length,
}
use hermes_hey.Core.Event.{identity}
use hermes_hey.Json.{Value}
use hermes_hey.Queue.State.{durable_seen, encode_state, state_value, load_state}
use hermes_hey.Queue.Spec.{others}
use hermes_hey.Queue.Transaction.{ingest, complete}
use hermes_hey.Queue.Refinement.{Keeps, StorageLaws}
use hermes_hey.Queue.Returns.{Quiet, ingest-returns, complete-returns}
use hermes_hey.Posix.Api.{Bytes}
use hermes_hey.Posix.Parent.{
  same_file, insecure, ensure, is_parent, assert_parent_identity, make_parent, missing_parent,
  keep_parent, check_opened, open_posix_parent,
}
use hermes_hey.Posix.Reading.{
  is_private_file, missing_state, open_state, check_state, read_opened, read_secure_state,
  read_state,
}
use hermes_hey.Posix.Saving.{
  write_all, create_temporary, fill, publish, stage, confirm, release, close_renamed, after_stage,
  after_creation, save_in, save_posix,
}
use hermes_hey.Posix.Storing.{posix_storage, close_parent}
use hermes_hey.Posix.Refinement.{posix_storage-StorageLaws}
use hermes_hey.Tests.Disk.{World, disk, disk-FileLaws, empty_disk}
use hermes_hey.Tests.Fixtures.{mail, small_queue, no_entries, no_entries-Keeps}
use hermes_hey.Tests.OnPosix.{
  name, anybody, with_mail, one_value, one_value-CodecLaws, encode-mail, write_one-only, one_state,
  Value-discrete,
}

-- with the directory open, its descriptor is 3
abbrev Held : ℕ → World → Type 0
Held fd w = fd ≡ 3

drop_all : (bs : Bytes) → drop (length bs) bs ≡ []
drop_all [] = refl
drop_all (x ∷ bs) = drop_all bs

write_all-none : (rounds : ℕ) (w : World) → write_all disk name rounds 5 [] w ≡ (ok tt, w)
unfolding write_all
write_all-none zero w = refl
write_all-none (suc n) w = refl

-- one round writes all bytes
write_all-all : (bs : Bytes) (w : World) → (write_all disk name (length bs) 5 bs w).0 ≡ ok tt
unfolding write_all
write_all-all [] w = refl
write_all-all (x ∷ bs) w =
    rw (drop_all bs, write_all-none (length bs) (record w { temporary = w.temporary ++ x ∷ bs }))
      refl

saved : (b : Bytes) (w : World) → (save_posix disk name (some 3) b w).0 ≡ ok tt
unfolding save_posix save_in create_temporary after_creation stage fill publish after_stage confirm
    close_renamed release assert_parent_identity is_parent same_file insecure ensure is_private_file
saved b w = rw (write_all-all b (record w { opened = w.opened + 1; temporary = [] })) refl

reads :
    (o : Option Bytes) (n k : ℕ) (t : Bytes)
    → (x : Option Bytes) × ((read_state disk name
          (some 3)
          n
          (record { opened = k; state = o; temporary = t })).0
        ≡ ok x)
unfolding read_state read_secure_state open_state missing_state check_state read_opened
    assert_parent_identity is_parent same_file insecure ensure is_private_file
reads none n k t = (none, refl)
reads (some b) n k t = (some (take n b), refl)

disk-Quiet : Quiet (posix_storage disk name) (λ w. Unit {0}) Held
unfolding close_parent open_posix_parent make_parent missing_parent keep_parent check_opened
    assert_parent_identity is_parent same_file insecure ensure
disk-Quiet = record {
  open_returns = λ w up. (3, refl, refl);
  read_returns = λ fd n w is_held.
      let (o, gave) = reads w.state n w.opened w.temporary in (o, rw is_held gave, is_held);
  replace_returns = λ fd b w is_held. (rw is_held (saved b w), is_held);
  close_returns = λ fd w is_held. refl;
}

abbrev disk_laws : (v : Value) → StorageLaws (one_value v) (posix_storage disk name)
disk_laws v = posix_storage-StorageLaws (disk-FileLaws name) (one_value v) (λ n b. refl)

empty_disk-Keeps :
    (v : Value) → Keeps (one_value-CodecLaws v) (disk_laws v) small_queue empty_disk no_entries
unfolding load_state
empty_disk-Keeps v = record { loads = refl; good = no_entries-Keeps.good }

ingest-returns_example :
    (accepted : Bool) × ((ingest
        (posix_storage disk name)
        one_state
        small_queue
        mail
        anybody
        empty_disk).0
      ≡ ok accepted)
ingest-returns_example =
    ingest-returns (one_value-CodecLaws with_mail) (disk_laws with_mail) small_queue disk-Quiet mail
      anybody no_entries empty_disk (empty_disk-Keeps with_mail) tt refl (1 ∷ [], encode-mail)

-- the state with no event
abbrev with_none : Value
with_none = state_value (durable_seen small_queue [] []) []

encode_none : encode_state (one_value with_none) small_queue [] [] ≡ ok (1 ∷ [])
unfolding encode_state collect
encode_none = rw (write_one-only with_none (Value-discrete with_none with_none)) refl

complete-returns_example :
    (complete
      (posix_storage disk name)
      (one_value with_none)
      small_queue
      (identity mail)
      empty_disk).0
    ≡ ok tt
unfolding others
complete-returns_example =
    complete-returns (one_value-CodecLaws with_none) (disk_laws with_none) small_queue disk-Quiet
      (identity mail) no_entries empty_disk (empty_disk-Keeps with_none) tt (1 ∷ [], encode_none)
