-- ===== src/Posix/Found.antt =====
-- What `_read_secure_state` of hey_platform/engine.py reads.
use hermes_hey.Prelude.{
  ℕ, Text, Bool, true, ◌≡◌, refl, sym, ap, ◌∙◌, Option, none, some, [], take, ok, Error,
  Result-cases, Bool-cases, inl, inr, arith, is_os_error, is_not_found,
}
use hermes_hey.Exec.{Exec, pure, catch, ◌>>=◌, ◌>>◌}
use hermes_hey.Exec.Views.{Keeps, bind-Keeps, catch-Keeps, finally-Keeps}
use hermes_hey.Posix.Api.{PosixApi, Bytes}
use hermes_hey.Posix.Parent.{same_file, insecure, ensure, assert_parent_identity}
use hermes_hey.Posix.Reading.{
  is_private_file, missing_state, open_state, check_state, read_opened, read_secure_state,
  read_state,
}
use hermes_hey.Posix.Files.{FileLaws, content_of_view, assert_content, assert-error}
use hermes_hey.Posix.Kept.{ensure-Keeps, secured-Keeps, assert-Keeps}

module _ {W : Type 0} {api : PosixApi W} {name : Text} (laws : FileLaws api name) where
  abbrev Same : {A : Type 0} → Exec W A → Type 0
  Same m = Keeps laws.content m

  missing_state-Same : (d : ℕ) (e : Error) → Same (missing_state api name d e)
  unfolding missing_state insecure
  missing_state-Same d e w = elim (Bool-cases (is_not_found e.class)) [
    | inl p ↦ rw p (
        bind-Keeps laws.content (assert_parent_identity api d) (λ u. pure {A = Option ℕ} none)
          (assert_content laws d) (λ u w'. refl) w)
    | inr p ↦ elim (Bool-cases (is_os_error e.class)) [
      | inl q ↦ rw (p, q) refl
      | inr q ↦ rw (p, q) refl
    ]
  ]

  open_state-Same : (d : ℕ) → Same (open_state api name d)
  unfolding open_state
  open_state-Same d =
      catch-Keeps laws.content _ (missing_state api name d)
        (bind-Keeps laws.content (assert_parent_identity api d) _ (assert_content laws d) (λ u.
          bind-Keeps laws.content (api.open_at name d) _ (laws.open_at_content name d)
            (λ fd w. refl)))
        (missing_state-Same d)

  check_state-view :
      (t : Text) (other d fd : ℕ) → Keeps (laws.view t other) (check_state api name d fd)
  unfolding check_state
  check_state-view t other d fd =
      let view = laws.view t other in
      let ensured =
        ensure-Keeps api view (laws.fstat_view t other) (laws.stat_parent_view t other) in
      bind-Keeps view (api.fstat fd) _ (laws.fstat_view t other fd) (λ metadata.
        bind-Keeps view (ensure (is_private_file api name metadata) _) _ (ensured _ _) (λ u.
          bind-Keeps view (catch (api.stat_at name d) (insecure "HEY state file is insecure")) _
            (secured-Keeps api view (laws.fstat_view t other) (laws.stat_parent_view t other)
              (api.stat_at name d) _ (laws.stat_at_view t other name d))
            (λ path_metadata.
              bind-Keeps view (ensure (same_file path_metadata metadata) _) _ (ensured _ _) (λ v.
                assert-Keeps api view (laws.fstat_view t other) (laws.stat_parent_view t other)
                  d))))

  check_state-Same : (d fd : ℕ) → Same (check_state api name d fd)
  check_state-Same d fd =
      content_of_view laws (check_state api name d fd) (λ t other. check_state-view t other d fd)

  read_opened-Same : (d limit : ℕ) (o : Option ℕ) → Same (read_opened api name d limit o)
  unfolding read_opened
  read_opened-Same d limit none = λ w. refl
  read_opened-Same d limit (some fd) =
      finally-Keeps laws.content
        (do check_state api name d fd; b ← api.read fd limit; pure (some b)) (api.close fd)
        (bind-Keeps laws.content (check_state api name d fd) _ (check_state-Same d fd) (λ u.
          bind-Keeps laws.content (api.read fd limit) _ (laws.read_content fd limit) (λ b w. refl)))
        (laws.close_content fd)

  pub read_state-Same : (h : Option ℕ) (limit : ℕ) → Same (read_state api name h limit)
  unfolding read_state read_secure_state
  read_state-Same none limit = λ w. refl
  read_state-Same (some d) limit =
      bind-Keeps laws.content (assert_parent_identity api d) _ (assert_content laws d) (λ u.
        bind-Keeps laws.content (open_state api name d) _ (open_state-Same d)
          (read_opened-Same d limit))

  -- What opening the state file tells of it: no file, or the file behind the descriptor.
  abbrev Found : Option ℕ → Option Bytes → W → Type 0
  Found none held w = held ≡ none
  Found (some fd) held w = held ≡ some (laws.file fd w)

  missing_state-none :
      (d : ℕ) (x : Error) (o : Option ℕ) (w : W)
      → (missing_state api name d x w).0 ≡ ok o
      → (is_not_found x.class ≡ true) × (o ≡ none)
  unfolding missing_state insecure
  missing_state-none d x o w gave = elim (Bool-cases (is_not_found x.class)) [
    | inl p ↦ elim (Result-cases (assert_parent_identity api d w).0) [
      | inl (u, e) ↦ (p, ground (arith, p, e, gave))
      | inr (y, e) ↦ absurd (ground (arith, p, e, gave))
    ]
    | inr p ↦ elim (Bool-cases (is_os_error x.class)) [
      | inl q ↦ absurd (ground (arith, p, q, gave))
      | inr q ↦ absurd (ground (arith, p, q, gave))
    ]
  ]

  open_state-Found :
      (d : ℕ) (o : Option ℕ) (w : W)
      → (open_state api name d w).0 ≡ ok o
      → Found o (laws.content w) (open_state api name d w).1
  unfolding open_state
  open_state-Found d o w gave = elim (Result-cases (assert_parent_identity api d w).0) [
    | inr (x, e) ↦
        let missing = missing_state-none d x o (assert_parent_identity api d w).1 (rw e at gave) in
        let other = assert-error laws d x w e in absurd (ground (arith, missing.0, other))
    | inl (u, e) ↦
        let w1 = (assert_parent_identity api d w).1 in
        let same : laws.content w1 ≡ laws.content w = assert_content laws d w in
        elim (Result-cases (api.open_at name d w1).0) [
          | inr (x, f) ↦
              let missing =
                missing_state-none d x o (api.open_at name d w1).1 (rw (e, f) at gave) in
              rw (missing.1, Found) (sym same ∙ laws.file_missing d x w1 f missing.0)
          | inl (fd, f) ↦
              let opened : some fd ≡ o = ground (arith, e, f, gave) in
              rw (sym opened, Found, e, f) (sym same ∙ laws.file_opened d fd w1 f)
        ]
  ]

  same_file_of_view :
      (d fd : ℕ) (w : W) → laws.file fd (check_state api name d fd w).1 ≡ laws.file fd w
  same_file_of_view d fd w =
      let w1 = (check_state api name d fd w).1 in
      let seen : (laws.content w1, (laws.file fd w1, laws.is_temporary [] fd w1))
          ≡ (laws.content w, (laws.file fd w, laws.is_temporary [] fd w)) =
        sym (laws.view_lem [] fd w1) ∙ check_state-view [] fd d fd w ∙ laws.view_lem [] fd w in
      ap (λ (p : Option Bytes × (Bytes × Bool)). p.1.0) seen

  -- What is read of an open file is the front of what it holds.
  read_opened-front :
      (d fd limit : ℕ) (o : Option Bytes) (w : W)
      → (read_opened api name d limit (some fd) w).0 ≡ ok o
      → o ≡ some (take limit (laws.file fd w))
  unfolding read_opened
  read_opened-front d fd limit o w gave = elim (Result-cases (check_state api name d fd w).0) [
    | inr (x, e) ↦ elim (Result-cases (api.close fd (check_state api name d fd w).1).0) [
      | inl (v, f) ↦ absurd (ground (arith, e, f, gave))
      | inr (y, f) ↦ absurd (ground (arith, e, f, gave))
    ]
    | inl (u, e) ↦
        let w1 = (check_state api name d fd w).1 in
        let same : laws.file fd w1 ≡ laws.file fd w = same_file_of_view d fd w in
        elim (Result-cases (api.read fd limit w1).0) [
          | inr (x, f) ↦ elim (Result-cases (api.close fd (api.read fd limit w1).1).0) [
            | inl (v, g) ↦ absurd (ground (arith, e, f, g, gave))
            | inr (y, g) ↦ absurd (ground (arith, e, f, g, gave))
          ]
          | inl (b, f) ↦
              let front : b ≡ take limit (laws.file fd w) =
                laws.read_front fd limit b w1 f ∙ ap (λ x. take limit x) same in
              elim (Result-cases (api.close fd (api.read fd limit w1).1).0) [
                | inl (v, g) ↦
                    let result : some b ≡ o = ground (arith, e, f, g, gave) in
                    sym result ∙ ap some front
                | inr (y, g) ↦ absurd (ground (arith, e, f, g, gave))
              ]
        ]
  ]

  -- What a reading gives of what the state file holds.
  abbrev pub front_of : ℕ → Option Bytes → Option Bytes
  front_of limit none = none
  front_of limit (some b) = some (take limit b)

  read_opened-Found :
      (d limit : ℕ) (o held : Option Bytes) (opened : Option ℕ) (w : W)
      → Found opened held w
      → (read_opened api name d limit opened w).0 ≡ ok o
      → o ≡ front_of limit held
  unfolding read_opened
  read_opened-Found d limit o held none w found gave =
      let result : none ≡ o = ground (arith, gave) in rw (found, sym result) refl
  read_opened-Found d limit o held (some fd) w found gave =
      rw found (read_opened-front d fd limit o w gave)

  pub read_state-front_of :
      (d limit : ℕ) (o : Option Bytes) (w : W)
      → (read_state api name (some d) limit w).0 ≡ ok o
      → o ≡ front_of limit (laws.content w)
  unfolding read_state read_secure_state
  read_state-front_of d limit o w gave = elim (Result-cases (assert_parent_identity api d w).0) [
    | inr (x, e) ↦ absurd (ground (arith, e, gave))
    | inl (u, e) ↦
        let w1 = (assert_parent_identity api d w).1 in
        elim (Result-cases (open_state api name d w1).0) [
          | inr (x, f) ↦ absurd (ground (arith, e, f, gave))
          | inl (opened, f) ↦ rw (sym (assert_content laws d w)) (
              read_opened-Found d limit o (laws.content w1) opened (open_state api name d w1).1
                (open_state-Found d opened w1 f) (rw (e, f) at gave))
        ]
  ]
