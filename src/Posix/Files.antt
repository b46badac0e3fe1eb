-- ===== src/Posix/Files.antt =====
-- What the storage of hey_platform/engine.py relies on of files under POSIX, and the calls that leave the
-- state file as it is.
use hermes_hey.Prelude.{
  ErrorClass, value_error, decode_error, type_error, key_error, runtime_error, os_error,
  other_error, duplicate_key, not_found, ℕ, Text, Bool, true, false, ◌≡◌, ◌≢◌, ◌⊎◌, sym, ap, ◌∙◌,
  Option, none, some, [], ◌++◌, take, ok, err, Error, Result-cases, Bool-cases, inl, inr, arith,
  is_not_found, is_os_error, String,
}
use hermes_hey.Exec.{Exec, catch}
use hermes_hey.Exec.Views.{Keeps}
use hermes_hey.Posix.Api.{PosixApi, Bytes}
use hermes_hey.Posix.Kept.{ensure-Keeps, secured-Keeps, assert-Keeps}
use hermes_hey.Posix.Parent.{is_parent, insecure, ensure, assert_parent_identity}

-- `content` is what the state file holds, `none` if it is not there. `file fd` is what the file behind a
-- descriptor holds, and `is_temporary t fd` that the name t leads to that file, which is not the
-- state file.
pub record FileLaws {W : Type 0} (api : PosixApi W) (name : Text) : Type 0 where
  pub content : W → Option Bytes
  pub file : ℕ → W → Bytes
  pub is_temporary : Text → ℕ → W → Bool
  pub view : Text → ℕ → W → Option Bytes × (Bytes × Bool)
  pub view_lem :
      (t : Text) (fd : ℕ) (w : W) → view t fd w ≡ (content w, (file fd w, is_temporary t fd w))
  pub fstat_view : (t : Text) (fd other : ℕ) → Keeps (view t fd) (api.fstat other)
  pub stat_parent_view : (t : Text) (fd : ℕ) → Keeps (view t fd) api.stat_parent
  pub stat_at_view : (t : Text) (fd : ℕ) (n : Text) (d : ℕ) → Keeps (view t fd) (api.stat_at n d)
  pub fchmod_view : (t : Text) (fd other mode : ℕ) → Keeps (view t fd) (api.fchmod other mode)
  pub fsync_view : (t : Text) (fd other : ℕ) → Keeps (view t fd) (api.fsync other)
  pub mkdir_content : Keeps content api.mkdir_parent
  pub open_directory_content : Keeps content api.open_directory
  pub open_at_content : (n : Text) (d : ℕ) → Keeps content (api.open_at n d)
  pub create_at_content : (t : Text) (d : ℕ) → t ≢ name → Keeps content (api.create_at t d)
  pub unlink_at_content : (t : Text) (d : ℕ) → t ≢ name → Keeps content (api.unlink_at t d)
  pub read_content : (fd n : ℕ) → Keeps content (api.read fd n)
  pub close_content : (fd : ℕ) → Keeps content (api.close fd)
  pub directory_missing :
      (e : Error) (w : W)
      → (api.open_directory w).0 ≡ err e
      → is_not_found e.class ≡ true
      → content w ≡ none
  pub file_missing :
      (d : ℕ) (e : Error) (w : W)
      → (api.open_at name d w).0 ≡ err e
      → is_not_found e.class ≡ true
      → content w ≡ none
  pub file_opened :
      (d fd : ℕ) (w : W)
      → (api.open_at name d w).0 ≡ ok fd
      → content w ≡ some (file fd (api.open_at name d w).1)
  pub fstat_error :
      (fd : ℕ) (e : Error) (w : W) → (api.fstat fd w).0 ≡ err e → is_not_found e.class ≡ false
  pub read_front :
      (fd n : ℕ) (b : Bytes) (w : W) → (api.read fd n w).0 ≡ ok b → b ≡ take n (file fd w)
  pub created :
      (t : Text) (d fd : ℕ) (w : W)
      → (api.create_at t d w).0 ≡ ok fd
      → (file fd (api.create_at t d w).1 ≡ []) × (is_temporary t fd (api.create_at t d w).1 ≡ true)
  pub write_temporary :
      (t : Text) (fd : ℕ) (bs : Bytes) (w : W)
      → is_temporary t fd w ≡ true
      → (content (api.write fd bs w).1 ≡ content w)
        × (is_temporary t fd (api.write fd bs w).1 ≡ true)
  pub write_appends :
      (fd : ℕ) (bs : Bytes) (n : ℕ) (w : W)
      → (api.write fd bs w).0 ≡ ok n
      → file fd (api.write fd bs w).1 ≡ file fd w ++ take n bs
  pub replaced :
      (t : Text) (d fd : ℕ) (w : W)
      → is_temporary t fd w ≡ true
      → (api.replace_at t name d w).0 ≡ ok tt
      → content (api.replace_at t name d w).1 ≡ some (file fd w)
  pub replaced_or_not :
      (t : Text) (d fd : ℕ) (w : W)
      → is_temporary t fd w ≡ true
      → (content (api.replace_at t name d w).1 ≡ content w)
        ⊎ (content (api.replace_at t name d w).1 ≡ some (file fd w))

found_is_os : (c : ErrorClass) → is_not_found c ≡ true → is_os_error c ≡ false → ⊥
found_is_os not_found h k = ground (arith, k)
found_is_os value_error h k = ground (arith, h)
found_is_os decode_error h k = ground (arith, h)
found_is_os type_error h k = ground (arith, h)
found_is_os key_error h k = ground (arith, h)
found_is_os runtime_error h k = ground (arith, h)
found_is_os os_error h k = ground (arith, h)
found_is_os other_error h k = ground (arith, h)
found_is_os duplicate_key h k = ground (arith, h)

module _ {W : Type 0} {api : PosixApi W} {name : Text} (laws : FileLaws api name) where
  -- a call that keeps the views keeps the content
  pub content_of_view :
      {A : Type 0} (m : Exec W A)
      → ((t : Text) (fd : ℕ) → Keeps (laws.view t fd) m)
      → Keeps laws.content m
  content_of_view m same w =
      let seen : (laws.content (m w).1, (laws.file 0 (m w).1, laws.is_temporary [] 0 (m w).1))
          ≡ (laws.content w, (laws.file 0 w, laws.is_temporary [] 0 w)) =
        sym (laws.view_lem [] 0 (m w).1) ∙ same [] 0 w ∙ laws.view_lem [] 0 w in
      ap (λ (p : Option Bytes × (Bytes × Bool)). p.0) seen

  pub fstat_content : (fd : ℕ) → Keeps laws.content (api.fstat fd)
  fstat_content fd = content_of_view (api.fstat fd) (λ t other. laws.fstat_view t other fd)

  pub stat_parent_content : Keeps laws.content api.stat_parent
  stat_parent_content = content_of_view api.stat_parent laws.stat_parent_view

  pub secured_content :
      {A : Type 0} (m : Exec W A) (message : String)
      → Keeps laws.content m
      → Keeps laws.content (catch m (insecure message))
  secured_content = secured-Keeps api laws.content fstat_content stat_parent_content

  pub ensure_content : (b : Bool) (m : String) → Keeps laws.content (ensure b m)
  ensure_content = ensure-Keeps api laws.content fstat_content stat_parent_content

  pub assert_content : (fd : ℕ) → Keeps laws.content (assert_parent_identity api fd)
  assert_content = assert-Keeps api laws.content fstat_content stat_parent_content

  pub assert_view : (t : Text) (fd d : ℕ) → Keeps (laws.view t fd) (assert_parent_identity api d)
  assert_view t fd =
      assert-Keeps api (laws.view t fd) (laws.fstat_view t fd) (laws.stat_parent_view t fd)

  not_os : (e : Error) → is_os_error e.class ≡ false → is_not_found e.class ≡ false
  not_os e h = elim (Bool-cases (is_not_found e.class)) [
    | inr p ↦ p
    | inl p ↦ absurd (found_is_os e.class p h)
  ]

  -- The check of the directory never raises a `FileNotFoundError`.
  pub assert-error :
      (d : ℕ) (e : Error) (w : W)
      → (assert_parent_identity api d w).0 ≡ err e
      → is_not_found e.class ≡ false
  unfolding assert_parent_identity insecure ensure
  assert-error d e w raised = elim (Result-cases (api.fstat d w).0) [
    | inr (x, f) ↦ let known = laws.fstat_error d x w f in ground (arith, f, known)
    | inl (metadata, f) ↦
        let w1 = (api.fstat d w).1 in
        elim (Result-cases (api.stat_parent w1).0) [
          | inr (x, g) ↦ elim (Bool-cases (is_os_error x.class)) [
            | inl os ↦ ground (arith, f, g, os)
            | inr other ↦ let known = not_os x other in ground (arith, f, g, other, known)
          ]
          | inl (path_metadata, g) ↦ elim (Bool-cases (is_parent api metadata path_metadata)) [
            | inl good ↦ absurd (ground (arith, f, g, good))
            | inr bad ↦ ground (arith, f, g, bad)
          ]
        ]
  ]
