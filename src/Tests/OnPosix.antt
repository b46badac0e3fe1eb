-- ===== src/Tests/OnPosix.antt =====
-- The theorems on the POSIX storage at a small POSIX system and a codec of one state.
use native.Mathlib.Decide.{ℕ_discrete}
use hermes_hey.Prelude.{
  List, collect, ℕ, zero, suc, ◌+◌, ◌≤◌, Text, Bool, true, false, ◌≡◌, ◌⊎◌, refl, sym, ap, none,
  some, [], ◌∷◌, map, length, take, String, str_eq, eq_iff, leb, ok, raise, value_error, codes,
  Bool-cases, inl, inr, arith, Result,
}
use hermes_hey.Json.{Fields, Value, object}
use hermes_hey.Core.Event.{HeyEvent, identity, to_dict}
use hermes_hey.Queue.State.{
  contains_text, encode_state, event_identity_of, durable_seen, Codec, state_value, load_state,
}
use hermes_hey.Queue.Format.{CodecLaws, Reads}
use hermes_hey.Queue.Spec.{Ledger, accept, stored}
use hermes_hey.Queue.Transaction.{ingest_new, load, save, transact, ingest, complete, pending}
use hermes_hey.Posix.Api.{Bytes}
use hermes_hey.Core.RoundTrip.{from_dict-to_dict}
use hermes_hey.Posix.Parent.{
  same_file, insecure, ensure, is_parent, assert_parent_identity, make_parent, missing_parent,
  keep_parent, check_opened, open_posix_parent,
}
use hermes_hey.Posix.Reading.{
  is_private_file, missing_state, open_state, check_state, read_opened, read_secure_state,
  read_state,
}
use hermes_hey.Posix.Saving.{
  write_all, create_temporary, fill, publish, stage, confirm, release, close_renamed, after_stage,
  after_creation, save_in, save_posix,
}
use hermes_hey.Posix.Storing.{posix_storage, close_parent}
use hermes_hey.Posix.Refinement.{PosixKeeps, posix_ingest-refines, posix_ingest-atomic}
use hermes_hey.Posix.Transactions.{posix_queue-opened}
use hermes_hey.Posix.Writing.{write_all-rounds}
use hermes_hey.Posix.Private.{IsOwn, read_state-IsOwn}
use hermes_hey.Posix.Replacing.{Staged, save_in-Staged}
use hermes_hey.Tests.Disk.{World, disk, disk-FileLaws, disk-DescriptorLaws, empty_disk}
use hermes_hey.Tests.Fixtures.{
  mail, mail-IsValid, small_queue, no_entries, stored_fields, stored_fields-Reads, no_entries-Keeps,
}

String-discrete : Discrete String
String-discrete s t = elim (Bool-cases (str_eq s t)) [
  | inl p ↦ yes (ground (arith, p, eq_iff s t))
  | inr p ↦ no (λ same. ground (arith, p, eq_iff s t, same))
]

pub Value-discrete : Discrete Value
Value-discrete = hlevel (ℕ_discrete, String-discrete)

abbrev pub mail_ids : List Text
mail_ids = identity mail ∷ []

-- the state with the one mail
abbrev pub with_mail : Value
with_mail = state_value (durable_seen small_queue mail_ids mail_ids) (to_dict mail ∷ [])

abbrev pub write_one : (v only : Value) → Dec (v ≡ only) → Result Bytes
write_one v only (yes same) = ok (1 ∷ [])
write_one v only (no other) = raise value_error "another state"

abbrev read_one : Value → Bytes → Result Value
read_one only [] = raise value_error "no state"
read_one only (b ∷ bs) = ok only

-- a codec that prints one state alone
abbrev pub one_value : Value → Codec Bytes
one_value only = record {
  size = λ b. length b;
  front = λ n b. take n b;
  dumps = λ v. write_one v only (Value-discrete v only);
  loads = read_one only;
}

abbrev pub one_state : Codec Bytes
one_state = one_value with_mail

front_size : (n : ℕ) (b : Bytes) → leb (length (take (suc n) b)) n ≡ leb (length b) n
front_size n [] = refl
front_size zero (x ∷ b) = ground arith
front_size (suc n) (x ∷ b) = let shorter = front_size n b in ground (arith, shorter)

take_of_le : (n : ℕ) (b : Bytes) → length b ≤ n → take n b ≡ b
take_of_le zero [] le = refl
take_of_le (suc n) [] le = refl
take_of_le zero (x ∷ b) le = absurd (omega (arith, le))
take_of_le (suc n) (x ∷ b) le = ap (◌∷◌ x) (take_of_le n b (omega (arith, le)))

write_one-same :
    (v only : Value) (b : Bytes) (d : Dec (v ≡ only))
    → write_one v only d ≡ ok b
    → (b ≡ 1 ∷ []) × (v ≡ only)
write_one-same v only b (yes same) h = (ground (arith, h), same)
write_one-same v only b (no other) h = absurd (ground (arith, h))

one_value-Reads :
    (only : Value) (seen : List Text) (events : List HeyEvent) (b : Bytes)
    → (one_value only).dumps (state_value seen (map to_dict events)) ≡ ok b
    → (w : Fields) × ((one_value only).loads b ≡ ok (object w)) × Reads w seen events
unfolding state_value
one_value-Reads only seen events b h =
    let v = object (stored_fields seen (map to_dict events)) in
    let (written, same) = write_one-same v only b (Value-discrete v only) h in
    (
      stored_fields seen (map to_dict events),
      rw written (ap ok (sym same)),
      stored_fields-Reads seen events,
    )

pub one_value-CodecLaws : (only : Value) → CodecLaws (one_value only)
one_value-CodecLaws only = record {
  size-front = λ n b. let same : n + 1 ≡ suc n = omega arith in rw same (front_size n b);
  front_of_size-le = λ n b le. take_of_le n b le;
  loads-dumps = one_value-Reads only;
}

one_state-CodecLaws : CodecLaws one_state
one_state-CodecLaws = one_value-CodecLaws with_mail

abbrev pub name : Text
name = codes "hey-queue.json"

abbrev pub anybody : HeyEvent → Bool
anybody e = true

abbrev Kept : World → Ledger → Type 0
Kept =
    PosixKeeps {api = disk} {name = name} one_state-CodecLaws (disk-FileLaws name) (λ n b. refl)
      small_queue

empty_disk-Kept : Kept empty_disk no_entries
unfolding load_state
empty_disk-Kept = record { loads = refl; good = no_entries-Keeps.good }

posix_ingest-atomic_example :
    Kept
      (ingest (posix_storage disk name) one_state small_queue mail anybody empty_disk).1
      no_entries
    ⊎ Kept
        (ingest (posix_storage disk name) one_state small_queue mail anybody empty_disk).1
        (stored small_queue (identity mail ∷ []) (mail ∷ []))
posix_ingest-atomic_example =
    posix_ingest-atomic one_state-CodecLaws (disk-FileLaws name) (λ n b. refl) small_queue mail
      anybody no_entries empty_disk empty_disk-Kept mail-IsValid

pub write_one-only : (only : Value) (d : Dec (only ≡ only)) → write_one only only d ≡ ok (1 ∷ [])
write_one-only only (yes same) = refl
write_one-only only (no other) = absurd (other refl)

pub encode-mail : encode_state one_state small_queue mail_ids (to_dict mail ∷ []) ≡ ok (1 ∷ [])
unfolding encode_state collect event_identity_of
encode-mail =
    rw (from_dict-to_dict mail mail-IsValid)
      (rw (write_one-only with_mail (Value-discrete with_mail with_mail)) refl)

-- a disk on which the directory is open
abbrev opened_disk : World
opened_disk = record { opened = 1; state = none; temporary = [] }

save-mail :
    save
      (posix_storage disk name)
      one_state
      small_queue
      mail_ids
      (to_dict mail ∷ [])
      (some 3)
      opened_disk
    ≡ (ok tt, record { opened = 1; state = some (1 ∷ []); temporary = 1 ∷ [] })
unfolding save save_posix save_in create_temporary after_creation stage fill write_all publish
    after_stage confirm close_renamed release assert_parent_identity is_parent same_file insecure
    ensure is_private_file
save-mail = rw encode-mail refl

ingest-mail :
    (ingest (posix_storage disk name) one_state small_queue mail anybody empty_disk).0 ≡ ok true
unfolding ingest transact load load_state ingest_new contains_text open_posix_parent make_parent
    missing_parent keep_parent check_opened read_state read_secure_state open_state missing_state
    check_state read_opened close_parent assert_parent_identity is_parent same_file insecure ensure
    is_private_file
ingest-mail = rw save-mail refl

posix_ingest-refines_example :
    (l' : Ledger) × (accept small_queue mail no_entries ≡ some (true, l'))
    × Kept (ingest (posix_storage disk name) one_state small_queue mail anybody empty_disk).1 l'
posix_ingest-refines_example =
    posix_ingest-refines one_state-CodecLaws (disk-FileLaws name) (λ n b. refl) small_queue mail
      anybody no_entries empty_disk true empty_disk-Kept mail-IsValid refl ingest-mail

posix_queue-opened_example :
    ((ingest (posix_storage disk name) one_state small_queue mail anybody empty_disk).1.opened ≡ 0)
    × ((complete
          (posix_storage disk name)
          one_state
          small_queue
          (identity mail)
          empty_disk).1.opened
        ≡ 0)
    × ((pending (posix_storage disk name) one_state small_queue empty_disk).1.opened ≡ 0)
posix_queue-opened_example =
    posix_queue-opened name disk-DescriptorLaws one_state small_queue mail anybody (identity mail)
      empty_disk

write_all-rounds_example :
    write_all disk name 9 5 (7 ∷ 8 ∷ []) empty_disk
    ≡ write_all disk name 2 5 (7 ∷ 8 ∷ []) empty_disk
write_all-rounds_example = write_all-rounds disk name 9 5 (7 ∷ 8 ∷ []) empty_disk (omega arith)

abbrev one_stored : World
one_stored = record { opened = 1; state = some (1 ∷ []); temporary = [] }

reads : (read_state disk name (some 3) 9 one_stored).0 ≡ ok (some (1 ∷ []))
unfolding read_state read_secure_state open_state missing_state check_state read_opened
    assert_parent_identity is_parent same_file insecure ensure is_private_file
reads = refl

read_state-IsOwn_example :
    (fd : ℕ) × ((open_state disk name 3 (assert_parent_identity disk 3 one_stored).1).0
      ≡ ok (some fd))
    × IsOwn disk name 3 fd (open_state disk name 3 (assert_parent_identity disk 3 one_stored).1).1
read_state-IsOwn_example = read_state-IsOwn disk name 3 9 (1 ∷ []) one_stored reads

save_in-Staged_example :
    Staged (disk-FileLaws name) none (1 ∷ []) (save_in disk name false 3 (1 ∷ []) opened_disk)
save_in-Staged_example = save_in-Staged (disk-FileLaws name) false 3 (1 ∷ []) opened_disk
