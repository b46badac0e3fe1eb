-- ===== src/Posix/Released.antt =====
-- Reading and saving the state file under POSIX leave no descriptor open.
use hermes_hey.Prelude.{
  ℕ, zero, suc, ◌+◌, Text, false, ◌≡◌, refl, ◌∙◌, Option, none, some, [], ◌∷◌, length, drop, Result,
  ok, err, Error, Result-cases, Bool-cases, inl, inr, arith, is_not_found, is_os_error,
}
use hermes_hey.Exec.{Exec, pure, catch, ◌>>=◌, ◌>>◌}
use hermes_hey.Exec.Views.{bind-Keeps, catch-Keeps}
use hermes_hey.Posix.Api.{PosixApi, Stat, Bytes}
use hermes_hey.Posix.Parent.{same_file, insecure, ensure, assert_parent_identity}
use hermes_hey.Posix.Reading.{
  is_private_file, missing_state, open_state, check_state, read_opened, read_secure_state,
  read_state,
}
use hermes_hey.Posix.Saving.{
  write_all, create_temporary, temporary_name, fill, publish, stage, confirm, discard, release,
  drop_temporary, close_renamed, after_stage, after_creation, save_in, save_posix,
}
use hermes_hey.Posix.Descriptors.{
  DescriptorLaws, Same, Opens, count, ensure-Same, secured-Same, assert-Same, closing,
}

module _ {W : Type 0} {api : PosixApi W} (laws : DescriptorLaws api) (name : Text) where
  open_named-Opens :
      (d : ℕ)
      → Opens laws (do assert_parent_identity api d; fd ← api.open_at name d; pure (some fd))
  open_named-Opens d w = elim (Result-cases (assert_parent_identity api d w).0) [
    | inr (x, e) ↦ rw e (omega (arith, assert-Same laws d w))
    | inl (u, e) ↦
        let w1 = (assert_parent_identity api d w).1 in
        elim (Result-cases (api.open_at name d w1).0) [
          | inl (fd, f) ↦
              rw (e, f) (omega (arith, assert-Same laws d w, laws.open_at_ok name d fd w1 f))
          | inr (x, f) ↦
              rw (e, f) (omega (arith, assert-Same laws d w, laws.open_at_err name d x w1 f))
        ]
  ]

  missing_state-Opens : (d : ℕ) (e : Error) → Opens laws (missing_state api name d e)
  unfolding missing_state insecure
  missing_state-Opens d e w = elim (Bool-cases (is_not_found e.class)) [
    | inl p ↦ elim (Result-cases (assert_parent_identity api d w).0) [
      | inl (u, f) ↦ rw (p, f) (omega (arith, assert-Same laws d w))
      | inr (x, f) ↦ rw (p, f) (omega (arith, assert-Same laws d w))
    ]
    | inr p ↦ elim (Bool-cases (is_os_error e.class)) [
      | inl q ↦ rw (p, q) (omega arith)
      | inr q ↦ rw (p, q) (omega arith)
    ]
  ]

  catch-Opens :
      (m : Exec W (Option ℕ)) (handler : Error → Exec W (Option ℕ))
      → Opens laws m
      → ((e : Error) → Opens laws (handler e))
      → Opens laws (catch m handler)
  catch-Opens m handler opens each w = elim (Result-cases (m w).0) [
    | inl (o, e) ↦ rw e (rw e at (opens w))
    | inr (x, e) ↦ rw e (omega (arith, each x (m w).1, rw e at (opens w)))
  ]

  open_state-Opens : (d : ℕ) → Opens laws (open_state api name d)
  unfolding open_state
  open_state-Opens d =
      catch-Opens _ (missing_state api name d) (open_named-Opens d) (missing_state-Opens d)

  check_state-Same : (d fd : ℕ) → Same laws (check_state api name d fd)
  unfolding check_state
  check_state-Same d fd = bind-Keeps laws.opened (api.fstat fd) _ (laws.fstat_same fd) (λ metadata.
      bind-Keeps laws.opened (ensure (is_private_file api name metadata) _) _ (ensure-Same laws _ _)
        (λ u.
          bind-Keeps laws.opened
            (catch (api.stat_at name d) (insecure "HEY state file is insecure")) _
            (secured-Same laws (api.stat_at name d) _ (laws.stat_at_same name d))
            (λ path_metadata.
              bind-Keeps laws.opened (ensure (same_file path_metadata metadata) _) _
                (ensure-Same laws _ _) (λ v. assert-Same laws d))))

  read_opened-closes :
      (d limit : ℕ) (o : Option ℕ) (n : ℕ) (w : W)
      → laws.opened w ≡ n + count laws o
      → laws.opened (read_opened api name d limit o w).1 ≡ n
  unfolding read_opened
  read_opened-closes d limit none n w is_open = omega (arith, is_open)
  read_opened-closes d limit (some fd) n w is_open =
      let body : Exec W (Option Bytes) = (do
        check_state api name d fd
        b ← api.read fd limit
        pure (some b)) in
      let same : laws.opened (body w).1 ≡ laws.opened w =
        bind-Keeps laws.opened (check_state api name d fd) _ (check_state-Same d fd)
          (λ u.
            bind-Keeps laws.opened (api.read fd limit) (λ b. pure (some b))
              (laws.read_same fd limit) (λ b w'. refl))
          w in
      laws.close_one fd (body w).1 ∙ omega (arith, same, is_open)

  -- Opening, and then code that closes what was opened.
  bind-closes :
      {A : Type 0} (m : Exec W (Option ℕ)) (f : Option ℕ → Exec W A)
      → Opens laws m
      → ((o : Option ℕ) (n : ℕ) (w : W)
          → laws.opened w ≡ n + count laws o
          → laws.opened (f o w).1 ≡ n)
      → Same laws (m >>= f)
  bind-closes m f opens closes w = elim (Result-cases (m w).0) [
    | inl (none, e) ↦ rw e (closes none (laws.opened w) (m w).1 (rw e at (opens w)))
    | inl (some fd, e) ↦ rw e (closes (some fd) (laws.opened w) (m w).1 (rw e at (opens w)))
    | inr (x, e) ↦ rw e (omega (arith, rw e at (opens w)))
  ]

  -- The reading closes the state file that it opens.
  pub read_state-released :
      (parent : Option ℕ) (limit : ℕ) (w : W)
      → laws.opened (read_state api name parent limit w).1 ≡ laws.opened w
  unfolding read_state read_secure_state
  read_state-released none limit w = refl
  read_state-released (some d) limit w =
      bind-Keeps laws.opened (assert_parent_identity api d) _ (assert-Same laws d)
        (λ u.
          bind-closes (open_state api name d) (read_opened api name d limit) (open_state-Opens d)
            (read_opened-closes d limit))
        w

  write_all-Same : (rounds fd : ℕ) (bs : Bytes) → Same laws (write_all api name rounds fd bs)
  unfolding write_all
  write_all-Same zero fd [] w = refl
  write_all-Same zero fd (b ∷ bs) w = refl
  write_all-Same (suc rounds) fd [] w = refl
  write_all-Same (suc rounds) fd (b ∷ bs) w = elim (Result-cases (api.write fd (b ∷ bs) w).0) [
    | inl (zero, e) ↦ rw e (laws.write_same fd (b ∷ bs) w)
    | inl (suc n, e) ↦ rw e (
        write_all-Same rounds fd (drop n bs) (api.write fd (b ∷ bs) w).1
        ∙ laws.write_same fd (b ∷ bs) w)
    | inr (x, e) ↦ rw e (laws.write_same fd (b ∷ bs) w)
  ]

  fill-Same : (fd : ℕ) (encoded : Bytes) → Same laws (fill api name fd encoded)
  unfolding fill
  fill-Same fd encoded = bind-Keeps laws.opened (api.fstat fd) _ (laws.fstat_same fd) (λ first.
      bind-Keeps laws.opened (api.fchmod fd 384) _ (laws.fchmod_same fd 384) (λ u.
        bind-Keeps laws.opened (api.fstat fd) _ (laws.fstat_same fd) (λ metadata.
          bind-Keeps laws.opened (ensure (is_private_file api name metadata) _) _
            (ensure-Same laws _ _)
            (λ v.
              bind-Keeps laws.opened (write_all api name (length encoded) fd encoded) _
                (write_all-Same (length encoded) fd encoded)
                (λ x.
                  bind-Keeps laws.opened (api.fsync fd) _ (laws.fsync_same fd) (λ y w. refl))))))

  publish-Same : (t : Text) (d : ℕ) (metadata : Stat) → Same laws (publish api name t d metadata)
  unfolding publish
  publish-Same t d metadata =
      bind-Keeps laws.opened (api.stat_at t d) _ (laws.stat_at_same t d) (λ found.
        bind-Keeps laws.opened (ensure (same_file found metadata) _) _ (ensure-Same laws _ _) (λ u.
          bind-Keeps laws.opened (assert_parent_identity api d) _ (assert-Same laws d)
            (λ v. laws.replace_same t name d)))

  stage-Same : (t : Text) (d fd : ℕ) (encoded : Bytes) → Same laws (stage api name t d fd encoded)
  unfolding stage
  stage-Same t d fd encoded =
      bind-Keeps laws.opened (fill api name fd encoded) _ (fill-Same fd encoded) (λ metadata.
        bind-Keeps laws.opened (publish api name t d metadata) _ (publish-Same t d metadata)
          (λ u w. refl))

  confirm-Same : (d : ℕ) (metadata : Stat) → Same laws (confirm api name d metadata)
  unfolding confirm
  confirm-Same d metadata =
      bind-Keeps laws.opened (api.stat_at name d) _ (laws.stat_at_same name d) (λ found.
        bind-Keeps laws.opened (ensure (same_file found metadata) _) _ (ensure-Same laws _ _) (λ u.
          bind-Keeps laws.opened (assert_parent_identity api d) _ (assert-Same laws d)
            (λ v. laws.fsync_same d)))

  discard-Same : (t : Text) (d : ℕ) → Same laws (discard api name t d)
  unfolding discard
  discard-Same t d =
      catch-Keeps laws.opened (api.unlink_at t d) _ (laws.unlink_same t d)
        (λ e w. elim (Bool-cases (is_os_error e.class)) [ inl p ↦ rw p refl | inr p ↦ rw p refl ])

  release-Same : (d : ℕ) → Same laws (release api name false d)
  unfolding release
  release-Same d w = refl

  after_stage-closes :
      (t : Text) (d fd n : ℕ) (r : Result Stat) (w : W)
      → laws.opened w ≡ n + 1
      → laws.opened (after_stage api name false t d fd r w).1 ≡ n
  unfolding after_stage drop_temporary close_renamed
  after_stage-closes t d fd n (err e) w is_open =
      closing laws fd n (do discard api name t d; release api name false d) w
        (bind-Keeps laws.opened (discard api name t d) _ (discard-Same t d) (λ u. release-Same d))
        is_open
  after_stage-closes t d fd n (ok metadata) w is_open =
      closing laws fd n (release api name false d) (confirm api name d metadata w).1
        (release-Same d) (confirm-Same d metadata w ∙ is_open)

  -- the descriptor of a created file
  abbrev created : Result ℕ → ℕ
  created (ok fd) = 1
  created (err e) = 0

  create_temporary-opened :
      (t : Text) (d : ℕ) (w : W)
      → laws.opened (create_temporary api name t d w).1
        ≡ laws.opened w + created (create_temporary api name t d w).0
  unfolding create_temporary insecure
  create_temporary-opened t d w = elim (Result-cases (assert_parent_identity api d w).0) [
    | inr (x, e) ↦ rw e (omega (arith, assert-Same laws d w))
    | inl (u, e) ↦
        let w1 = (assert_parent_identity api d w).1 in
        elim (Result-cases (api.create_at t d w1).0) [
          | inl (fd, f) ↦
              rw (e, f) (omega (arith, assert-Same laws d w, laws.create_at_ok t d fd w1 f))
          | inr (x, f) ↦
              let same = laws.create_at_err t d x w1 f in
              elim (Bool-cases (is_os_error x.class)) [
                | inl q ↦ rw (e, f, q) (omega (arith, assert-Same laws d w, same))
                | inr q ↦ rw (e, f, q) (omega (arith, assert-Same laws d w, same))
              ]
        ]
  ]

  save_in-Same : (d : ℕ) (encoded : Bytes) → Same laws (save_in api name false d encoded)
  unfolding save_in after_creation
  save_in-Same d encoded w =
      let t = temporary_name api name w in
      let made = create_temporary-opened t d w in
      elim (Result-cases (create_temporary api name t d w).0) [
        | inr (x, e) ↦
            rw e (release-Same d (create_temporary api name t d w).1 ∙ omega (arith, rw e at made))
        | inl (fd, e) ↦
            let w1 = (create_temporary api name t d w).1 in
            let more = rw e at made in
            rw e (
              after_stage-closes t d fd (laws.opened w) (stage api name t d fd encoded w1).0
                (stage api name t d fd encoded w1).1 (stage-Same t d fd encoded w1 ∙ more))
      ]

  -- A save into a directory that the caller opened closes the file that it makes.
  pub save_posix-released :
      (d : ℕ) (encoded : Bytes) (w : W)
      → laws.opened (save_posix api name (some d) encoded w).1 ≡ laws.opened w
  unfolding save_posix
  save_posix-released d encoded =
      bind-Keeps laws.opened (assert_parent_identity api d) _ (assert-Same laws d)
        (λ u. save_in-Same d encoded)
