-- ===== src/Posix/Storing.antt =====
-- The POSIX storage of hey_platform/engine.py does what the queue relies on.
use hermes_hey.Prelude.{
  ℕ, Text, true, false, ◌≡◌, refl, sym, Option, none, some, take, Result, ok, err, Result-cases,
  Option-cases, inl, inr, arith,
}
use hermes_hey.Exec.{Exec, pure}
use hermes_hey.Exec.Views.{Keeps}
use hermes_hey.Queue.State.{Codec}
use hermes_hey.Queue.Transaction.{Storage}
use hermes_hey.Posix.Api.{PosixApi, Bytes}
use hermes_hey.Posix.Parent.{assert_parent_identity, open_posix_parent}
use hermes_hey.Posix.Reading.{read_state}
use hermes_hey.Posix.Files.{FileLaws, assert_content}
use hermes_hey.Posix.Saving.{save_in, save_opened, save_posix}
use hermes_hey.Posix.Opening.{open_posix_parent-Same, open_posix_parent-some}
use hermes_hey.Posix.Found.{read_state-front_of}
use hermes_hey.Posix.Replacing.{Staged, OldOrNew, save_in-Staged}

module _ {W : Type 0} (api : PosixApi W) (name : Text) where
  unfoldable pub close_parent : Option ℕ → Exec W (Unit {0})
  close_parent none = pure tt
  close_parent (some directory_fd) = api.close directory_fd

  abbrev pub posix_storage : Storage Bytes W
  posix_storage = record {
    open_parent = open_posix_parent api;
    read_state = read_state api name;
    replace_state = save_posix api name;
    close_parent = close_parent;
  }

module _ {W : Type 0} {api : PosixApi W} {name : Text} (laws : FileLaws api name) where
  done_of_Staged :
      (old : Option Bytes) (encoded : Bytes) (r : Result (Unit {0}) × W)
      → Staged laws old encoded r
      → r.0 ≡ ok tt
      → laws.content r.1 ≡ some encoded
  done_of_Staged old encoded (ok u, w) staged done = staged
  done_of_Staged old encoded (err e, w) staged done = absurd (ground (arith, done))

  pub OldOrNew-of_Staged :
      (old : Option Bytes) (encoded : Bytes) (r : Result (Unit {0}) × W)
      → Staged laws old encoded r
      → OldOrNew laws old encoded r.1
  OldOrNew-of_Staged old encoded (ok u, w) staged = inr staged
  OldOrNew-of_Staged old encoded (err e, w) staged = staged

  -- A save from a directory that the caller opened.
  pub save_posix-Staged :
      (h : Option ℕ) (encoded : Bytes) (w : W)
      → Staged laws (laws.content w) encoded (save_posix api name h encoded w)
  unfolding save_posix save_opened
  save_posix-Staged (some d) encoded w = elim (Result-cases (assert_parent_identity api d w).0) [
    | inr (x, e) ↦ rw (e, Staged) (inl (assert_content laws d w))
    | inl (u, e) ↦
        let w1 = (assert_parent_identity api d w).1 in
        let staged : Staged laws (laws.content w1) encoded (save_in api name false d encoded w1) =
          save_in-Staged laws false d encoded w1 in
        rw e (rw (assert_content laws d w) at staged)
  ]
  save_posix-Staged none encoded w = elim (Result-cases (open_posix_parent api true w).0) [
    | inr (x, e) ↦ rw (e, Staged) (inl (open_posix_parent-Same laws true w))
    | inl (none, e) ↦ absurd (ground (arith, (open_posix_parent-some api w none e).1))
    | inl (some d, e) ↦
        let w1 = (open_posix_parent api true w).1 in
        let staged : Staged laws (laws.content w1) encoded (save_in api name true d encoded w1) =
          save_in-Staged laws true d encoded w1 in
        rw e (rw (open_posix_parent-Same laws true w) at staged)
  ]

  pub close_parent-Same : (h : Option ℕ) → Keeps laws.content (close_parent api name h)
  unfolding close_parent
  close_parent-Same none = λ w. refl
  close_parent-Same (some d) = laws.close_content d

  pub read_state-front :
      (codec : Codec Bytes) (fd n : ℕ) (w : W) (o : Option Bytes)
      → ((n : ℕ) (b : Bytes) → codec.front n b ≡ take n b)
      → (read_state api name (some fd) n w).0 ≡ ok o
      → o ≡ elim (laws.content w) [ none ↦ none | some b ↦ some (codec.front n b) ]
  read_state-front codec fd n w o front gave =
      let read = read_state-front_of laws fd n o w gave in
      elim (Option-cases (laws.content w)) [
        | inr (b, e) ↦ rw e (rw (e, sym (front n b)) at read)
        | inl e ↦ rw e (rw e at read)
      ]

  pub save_posix-done :
      (h : Option ℕ) (b : Bytes) (w : W)
      → (save_posix api name h b w).0 ≡ ok tt
      → laws.content (save_posix api name h b w).1 ≡ some b
  save_posix-done h b w done =
      done_of_Staged (laws.content w) b (save_posix api name h b w) (save_posix-Staged h b w) done
