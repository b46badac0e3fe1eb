-- ===== src/Posix/Replacing.antt =====
-- What `_save_posix` of hey_platform/engine.py leaves in the state file.
use hermes_hey.Prelude.{
  ℕ, Text, Bool, true, ◌≡◌, ◌≢◌, ◌⊎◌, refl, ap, ◌∙◌, Option, some, [], Result, ok, err, Error,
  Result-cases, Bool-cases, inl, inr, arith, is_os_error,
}
use hermes_hey.Exec.{Exec, pure, lift, finally}
use hermes_hey.Exec.Views.{Keeps, bind-Keeps, catch-Keeps, finally-Keeps, if-Keeps}
use hermes_hey.Posix.Api.{PosixApi, Stat, Bytes}
use hermes_hey.Posix.Parent.{same_file, insecure, ensure, assert_parent_identity}
use hermes_hey.Posix.Kept.{ensure-Keeps}
use hermes_hey.Posix.Files.{
  FileLaws, content_of_view, secured_content, ensure_content, assert_content, assert_view,
}
use hermes_hey.Posix.Saving.{
  create_temporary, temporary_name, fill, publish, stage, confirm, discard, release, drop_temporary,
  close_renamed, after_stage, after_creation, save_in,
}
use hermes_hey.Posix.Filling.{Filling, temporary_name-ne, step-view, fill-Filled}

module _ {W : Type 0} {api : PosixApi W} {name : Text} (laws : FileLaws api name) where
  abbrev Same : {A : Type 0} → Exec W A → Type 0
  Same m = Keeps laws.content m

  -- what is left by the code up to the renaming: the old file on an error, or the new one
  abbrev pub Staged : Option Bytes → Bytes → {A : Type 0} → Result A × W → Type 0
  Staged old encoded (ok a, w) = laws.content w ≡ some encoded
  Staged old encoded (err e, w) = (laws.content w ≡ old) ⊎ (laws.content w ≡ some encoded)

  publish-Staged :
      (t : Text) (d fd : ℕ) (old : Option Bytes) (encoded : Bytes) (metadata : Stat) (w : W)
      → Filling laws t fd old w
      → laws.file fd w ≡ encoded
      → Staged old encoded (publish api name t d metadata w)
  unfolding publish
  publish-Staged t d fd old encoded metadata w h full =
      let P : Result (Unit {0}) × W → Type 0 = λ r. Staged old encoded r in
      let fails : (e : Error) (w' : W) → Filling laws t fd old w' → P (err e, w') =
        λ e w' k. inl k.unchanged in
      step-view laws t fd old P (api.stat_at t d) _ w encoded (laws.stat_at_view t fd t d) h full
        (λ found w1 h1 f1.
          step-view laws t fd old P
            (ensure (same_file found metadata) "HEY temporary state file is insecure") _ w1 encoded
            (ensure-Keeps api (laws.view t fd) (laws.fstat_view t fd) (laws.stat_parent_view t fd)
              (same_file found metadata) "HEY temporary state file is insecure")
            h1 f1
            (λ u w2 h2 f2.
              step-view laws t fd old P (assert_parent_identity api d) _ w2 encoded
                (assert_view laws t fd d) h2 f2 (λ v w3 h3 f3. renamed w3 h3 f3) fails)
            fails)
        fails
    where
      renamed :
          (w3 : W)
          → Filling laws t fd old w3
          → laws.file fd w3 ≡ encoded
          → Staged old encoded (api.replace_at t name d w3)
      renamed w3 h3 f3 = elim (Result-cases (api.replace_at t name d w3).0) [
        | inl (u, e) ↦ rw (e, Staged) (laws.replaced t d fd w3 h3.temporary e ∙ ap some f3)
        | inr (x, e) ↦
            rw (e, Staged)
              (elim (laws.replaced_or_not t d fd w3 h3.temporary) [
                | inl same ↦ inl (same ∙ h3.unchanged)
                | inr new ↦ inr (new ∙ ap some f3)
              ])
      ]

  stage-Staged :
      (t : Text) (d fd : ℕ) (old : Option Bytes) (encoded : Bytes) (w : W)
      → Filling laws t fd old w
      → laws.file fd w ≡ []
      → Staged old encoded (stage api name t d fd encoded w)
  unfolding stage
  stage-Staged t d fd old encoded w h empty =
      let filled = fill-Filled laws t fd old encoded w h empty in
      elim (Result-cases (fill api name fd encoded w).0) [
        | inr (x, e) ↦ let kept = rw e at filled in rw e (inl kept.unchanged)
        | inl (metadata, e) ↦
            let (ready, full) = rw e at filled in
            let w1 = (fill api name fd encoded w).1 in
            let published = publish-Staged t d fd old encoded metadata w1 ready full in
            elim (Result-cases (publish api name t d metadata w1).0) [
              | inr (x, f) ↦ rw (e, f) (rw (f, Staged) at published)
              | inl (u, f) ↦ rw (e, f) (rw (f, Staged) at published)
            ]
      ]

  confirm-Same : (d : ℕ) (metadata : Stat) → Same (confirm api name d metadata)
  unfolding confirm
  confirm-Same d metadata =
      bind-Keeps laws.content (api.stat_at name d) _
        (content_of_view laws (api.stat_at name d) (λ t fd. laws.stat_at_view t fd name d))
        (λ found.
          bind-Keeps laws.content (ensure (same_file found metadata) _) _ (ensure_content laws _ _)
            (λ u.
              bind-Keeps laws.content (assert_parent_identity api d) _ (assert_content laws d)
                (λ v. content_of_view laws (api.fsync d) (λ t fd. laws.fsync_view t fd d))))

  release-Same : (owns : Bool) (d : ℕ) → Same (release api name owns d)
  unfolding release
  release-Same owns d =
      if-Keeps laws.content owns (api.close d) (pure tt) (laws.close_content d) (λ w. refl)

  discard-Same : (t : Text) (d : ℕ) → t ≢ name → Same (discard api name t d)
  unfolding discard
  discard-Same t d apart =
      catch-Keeps laws.content (api.unlink_at t d) _ (laws.unlink_at_content t d apart)
        (λ e w. elim (Bool-cases (is_os_error e.class)) [ inl p ↦ rw p refl | inr p ↦ rw p refl ])

  drop_temporary-Same :
      (owns : Bool) (t : Text) (d fd : ℕ) → t ≢ name → Same (drop_temporary api name owns t d fd)
  unfolding drop_temporary
  drop_temporary-Same owns t d fd apart =
      bind-Keeps laws.content (api.close fd) _ (laws.close_content fd) (λ u.
        bind-Keeps laws.content (discard api name t d) _ (discard-Same t d apart)
          (λ v. release-Same owns d))

  close_renamed-Same : (owns : Bool) (d fd : ℕ) → Same (close_renamed api name owns d fd)
  unfolding close_renamed
  close_renamed-Same owns d fd =
      bind-Keeps laws.content (api.close fd) _ (laws.close_content fd) (λ u. release-Same owns d)

  -- the old file or the new one
  abbrev pub OldOrNew : Option Bytes → Bytes → W → Type 0
  OldOrNew old encoded w = (laws.content w ≡ old) ⊎ (laws.content w ≡ some encoded)

  OldOrNew-same :
      (old : Option Bytes) (encoded : Bytes) (w w' : W)
      → laws.content w' ≡ laws.content w
      → OldOrNew old encoded w
      → OldOrNew old encoded w'
  OldOrNew-same old encoded w w' same (inl kept) = inl (same ∙ kept)
  OldOrNew-same old encoded w w' same (inr new) = inr (same ∙ new)

  -- A failure stays one after a clean-up.
  failed-Staged :
      (old : Option Bytes) (encoded : Bytes) (e : Error) (m : Exec W (Unit {0})) (w : W)
      → Same m
      → OldOrNew old encoded w
      → Staged old encoded (finally {A = Unit {0}} (lift (err e)) m w)
  failed-Staged old encoded e m w same before = elim (Result-cases (m w).0) [
    | inl (u, f) ↦ rw f (OldOrNew-same old encoded w (m w).1 (same w) before)
    | inr (x, f) ↦ rw f (OldOrNew-same old encoded w (m w).1 (same w) before)
  ]

  -- A file that is replaced stays so.
  done-Staged :
      (old : Option Bytes) (encoded : Bytes) (m : Exec W (Unit {0})) (w : W)
      → Same m
      → laws.content w ≡ some encoded
      → Staged old encoded (m w)
  done-Staged old encoded m w same new = elim (Result-cases (m w).0) [
    | inl (u, e) ↦ rw (e, Staged) (same w ∙ new)
    | inr (x, e) ↦ rw (e, Staged) (inr (same w ∙ new))
  ]

  -- The clean-up changes nothing, and a save that has not renamed the file raises.
  after_stage-Staged :
      (owns : Bool) (t : Text) (d fd : ℕ) (old : Option Bytes) (encoded : Bytes) (r : Result Stat)
      (w : W)
      → t ≢ name
      → Staged old encoded (r, w)
      → Staged old encoded (after_stage api name owns t d fd r w)
  unfolding after_stage
  after_stage-Staged owns t d fd old encoded (err e) w apart staged =
      failed-Staged old encoded e (drop_temporary api name owns t d fd) w
        (drop_temporary-Same owns t d fd apart) staged
  after_stage-Staged owns t d fd old encoded (ok metadata) w apart staged =
      done-Staged old encoded
        (finally (confirm api name d metadata) (close_renamed api name owns d fd)) w
        (finally-Keeps laws.content (confirm api name d metadata) (close_renamed api name owns d fd)
          (confirm-Same d metadata) (close_renamed-Same owns d fd))
        staged

  create_temporary-made :
      (t : Text) (d : ℕ) (w : W)
      → t ≢ name
      → (laws.content (create_temporary api name t d w).1 ≡ laws.content w)
        × ((fd : ℕ)
            → (create_temporary api name t d w).0 ≡ ok fd
            → (laws.file fd (create_temporary api name t d w).1 ≡ [])
              × (laws.is_temporary t fd (create_temporary api name t d w).1 ≡ true))
  unfolding create_temporary insecure
  create_temporary-made t d w apart = (
    bind-Keeps laws.content (assert_parent_identity api d) _ (assert_content laws d)
        (λ u.
          secured_content laws (api.create_at t d) "HEY temporary state file is insecure"
            (laws.create_at_content t d apart))
        w,
    λ fd made. elim (Result-cases (assert_parent_identity api d w).0) [
      | inr (x, e) ↦ absurd (ground (arith, e, made))
      | inl (u, e) ↦
          let w1 = (assert_parent_identity api d w).1 in
          elim (Result-cases (api.create_at t d w1).0) [
            | inr (x, f) ↦ elim (Bool-cases (is_os_error x.class)) [
              | inl os ↦ absurd (ground (arith, e, f, os, made))
              | inr other ↦ absurd (ground (arith, e, f, other, made))
            ]
            | inl (fd', f) ↦
                let same : fd' ≡ fd = ground (arith, e, f, made) in
                rw (e, f) (laws.created t d fd w1 (f ∙ ap ok same))
          ]
    ],
  )

  -- Over a POSIX system whose files behave as documented (`FileLaws`): a save that returns has
  -- left exactly the given bytes in the state file, and one that raises has left what the file
  -- held before, or the given bytes.
  pub save_in-Staged :
      (owns : Bool) (d : ℕ) (encoded : Bytes) (w : W)
      → Staged (laws.content w) encoded (save_in api name owns d encoded w)
  unfolding save_in after_creation
  save_in-Staged owns d encoded w =
      let t = temporary_name api name w in
      let apart = temporary_name-ne laws w in
      let (same, made) = create_temporary-made t d w apart in
      let w1 = (create_temporary api name t d w).1 in
      elim (Result-cases (create_temporary api name t d w).0) [
        | inr (x, e) ↦
            rw (e, Staged)
              (failed-Staged (laws.content w) encoded x (release api name owns d) w1
                (release-Same owns d) (inl same))
        | inl (fd, e) ↦
            let (empty, temporary) = made fd e in
            let ready : Filling laws t fd (laws.content w) w1 = record {
              unchanged = same;
              temporary = temporary;
            } in
            let staged = stage-Staged t d fd (laws.content w) encoded w1 ready empty in
            rw e (
              after_stage-Staged owns t d fd (laws.content w) encoded
                (stage api name t d fd encoded w1).0 (stage api name t d fd encoded w1).1 apart
                staged)
      ]
