-- ===== src/Tests/OnWindows.antt =====
-- The handles of a transaction, over calls that only count them.
use hermes_hey.Prelude.{
  ℕ, ◌+◌, ◌-◌, Text, codes, true, ◌≡◌, refl, some, ok, raise, value_error, arith,
}
use hermes_hey.Core.Event.{identity}
use hermes_hey.Queue.State.{Codec}
use hermes_hey.Windows.Transaction.{WindowsApi}
use hermes_hey.Windows.Operations.{windows_ingest, windows_complete, windows_pending}
use hermes_hey.Windows.Released.{windows_queue-opened}
use hermes_hey.Tests.Fixtures.{mail, small_queue}
use hermes_hey.Windows.Handles.{HandleLaws}

abbrev folder : Text
folder = codes "C"

-- calls that succeed, where every path is resolved to the folder
abbrev counted : WindowsApi ℕ ℕ
counted = record {
  exists = λ p w. true;
  mkdir = λ p w. (ok tt, w);
  open_parent = λ p w. (ok 1, w + 1);
  open_state = λ p w. (ok (some 2), w + 1);
  temporary_path = λ p w. p;
  create_temp = λ p w. (ok 3, w + 1);
  final_path = λ h w. (ok folder, w);
  canonical = λ p w. p;
  assert_private = λ h directory w. (ok tt, w);
  set_private = λ h w. (ok tt, w);
  read = λ h n w. (ok n, w);
  write_through = λ h b w. (ok tt, w);
  rename_by_handle = λ h parent name w. (ok tt, w);
  delete_by_handle = λ h w. (ok tt, w);
  close = λ h w. (ok tt, w - 1);
}

abbrev counted-HandleLaws : HandleLaws counted
counted-HandleLaws = record {
  opened = λ w. w;
  open_state_some = λ p h w e. refl;
  open_state_none = λ p w e. absurd (ground arith);
  open_state_err = λ p x w e. absurd (ground arith);
  open_parent_ok = λ p h w e. refl;
  open_parent_err = λ p x w e. absurd (ground arith);
  mkdir_same = λ p w. refl;
  assert_private_same = λ h d w. refl;
  set_private_same = λ h w. refl;
  final_path_same = λ h w. refl;
  read_same = λ h n w. refl;
  create_temp_ok = λ p h w e. refl;
  create_temp_err = λ p x w e. absurd (ground arith);
  write_same = λ h b w. refl;
  rename_same = λ h parent n w. refl;
  delete_same = λ h w. refl;
  delete_error = λ h x w e. absurd (ground arith);
  close_one = λ h w. refl;
}

-- a codec that prints nothing
abbrev mute : Codec ℕ
mute = record {
  size = λ b. b;
  front = λ n b. b;
  dumps = λ v. raise value_error "no state";
  loads = λ b. raise value_error "no state";
}

windows_queue-opened_example :
    ((windows_ingest counted folder folder folder mute small_queue mail (λ e. true) 5).1 ≡ 5)
    × ((windows_complete counted folder folder folder mute small_queue (identity mail) 5).1 ≡ 5)
    × ((windows_pending counted folder folder folder mute small_queue 5).1 ≡ 5)
windows_queue-opened_example =
    windows_queue-opened counted-HandleLaws folder folder folder mute small_queue mail (λ e. true)
      (identity mail) 5
