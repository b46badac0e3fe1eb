-- ===== src/Posix/Filling.antt =====
-- The filling of the temporary file by `_save_posix` of hey_platform/engine.py.
use hermes_hey.Prelude.{
  ℕ, zero, suc, Text, codes, Bool, true, ◌≡◌, ◌≢◌, sym, ap, ◌∙◌, Option, [], ◌∷◌, ◌++◌, length,
  length-append, drop, Result, ok, err, Error, Result-cases, inl, inr, arith,
}
use hermes_hey.Exec.{Exec, pure, ◌>>=◌, ◌>>◌}
use hermes_hey.Exec.Views.{Keeps}
use hermes_hey.Posix.Api.{PosixApi, Stat, Bytes}
use hermes_hey.Posix.Parent.{ensure}
use hermes_hey.Posix.Reading.{is_private_file}
use hermes_hey.Posix.Kept.{ensure-Keeps}
use hermes_hey.Posix.Files.{FileLaws}
use hermes_hey.Posix.Saving.{write_all, temporary_name, fill}
use hermes_hey.Posix.Writing.{write_all-file}

module _ {W : Type 0} {api : PosixApi W} {name : Text} (laws : FileLaws api name) where
  -- The temporary name is longer than the name of the state file.
  pub temporary_name-ne : (w : W) → temporary_name api name w ≢ name
  unfolding temporary_name codes
  temporary_name-ne w same =
      let longer : length (temporary_name api name w) ≡ length name =
        ap (λ (t : Text). length t) same in
      let rest = codes "." ++ (api.token w ++ codes ".tmp") in
      omega (arith, longer, length-append name rest)

  -- what holds of the new file t behind fd while it is filled: the state file holds what it held
  pub record Filling (t : Text) (fd : ℕ) (old : Option Bytes) (w : W) : Type 0 where
    pub unchanged : laws.content w ≡ old
    pub temporary : laws.is_temporary t fd w ≡ true

  Filling-of_view :
      (t : Text) (fd : ℕ) (old : Option Bytes) (w w' : W)
      → laws.view t fd w' ≡ laws.view t fd w
      → Filling t fd old w
      → Filling t fd old w' × (laws.file fd w' ≡ laws.file fd w)
  Filling-of_view t fd old w w' same h =
      let seen : (laws.content w', (laws.file fd w', laws.is_temporary t fd w'))
          ≡ (laws.content w, (laws.file fd w, laws.is_temporary t fd w)) =
        sym (laws.view_lem t fd w') ∙ same ∙ laws.view_lem t fd w in
      (
        record {
          unchanged = ap (λ (p : Option Bytes × (Bytes × Bool)). p.0) seen ∙ h.unchanged;
          temporary = ap (λ (p : Option Bytes × (Bytes × Bool)). p.1.1) seen ∙ h.temporary;
        },
        ap (λ (p : Option Bytes × (Bytes × Bool)). p.1.0) seen,
      )

  write_all-Filling :
      (t : Text) (old : Option Bytes) (rounds fd : ℕ) (bs : Bytes) (w : W)
      → Filling t fd old w
      → Filling t fd old (write_all api name rounds fd bs w).1
  unfolding write_all
  write_all-Filling t old zero fd [] w h = h
  write_all-Filling t old zero fd (b ∷ bs) w h = h
  write_all-Filling t old (suc rounds) fd [] w h = h
  write_all-Filling t old (suc rounds) fd (b ∷ bs) w h =
      let (same, still) = laws.write_temporary t fd (b ∷ bs) w h.temporary in
      let next : Filling t fd old (api.write fd (b ∷ bs) w).1 = record {
        unchanged = same ∙ h.unchanged;
        temporary = still;
      } in
      elim (Result-cases (api.write fd (b ∷ bs) w).0) [
        | inl (zero, e) ↦ rw e next
        | inl (suc n, e) ↦
            rw e (write_all-Filling t old rounds fd (drop n bs) (api.write fd (b ∷ bs) w).1 next)
        | inr (x, e) ↦ rw e next
      ]

  -- Filling the file, and that it holds the bytes when this returns.
  abbrev pub Filled : Text → ℕ → Option Bytes → Bytes → {A : Type 0} → Result A × W → Type 0
  Filled t fd old encoded (ok a, w) = Filling t fd old w × (laws.file fd w ≡ encoded)
  Filled t fd old encoded (err e, w) = Filling t fd old w

  -- A step that keeps the views goes on with what holds.
  pub step-view :
      {A C : Type 0} (t : Text) (fd : ℕ) (old : Option Bytes) (P : Result C × W → Type 0)
      (m : Exec W A) (f : A → Exec W C) (w : W) (now : Bytes)
      → Keeps (laws.view t fd) m
      → Filling t fd old w
      → laws.file fd w ≡ now
      → ((a : A) (w' : W) → Filling t fd old w' → laws.file fd w' ≡ now → P (f a w'))
      → ((e : Error) (w' : W) → Filling t fd old w' → P (err e, w'))
      → P ((m >>= f) w)
  step-view t fd old P m f w now same h holds next fails =
      let (h', kept) = Filling-of_view t fd old w (m w).1 (same w) h in
      elim (Result-cases (m w).0) [
        | inl (a, e) ↦ rw e (next a (m w).1 h' (kept ∙ holds))
        | inr (x, e) ↦ rw e (fails x (m w).1 h')
      ]

  pub fill-Filled :
      (t : Text) (fd : ℕ) (old : Option Bytes) (encoded : Bytes) (w : W)
      → Filling t fd old w
      → laws.file fd w ≡ []
      → Filled t fd old encoded (fill api name fd encoded w)
  unfolding fill
  fill-Filled t fd old encoded w h empty =
      let P : Result Stat × W → Type 0 = λ r. Filled t fd old encoded r in
      let fails : (e : Error) (w' : W) → Filling t fd old w' → P (err e, w') = λ e w' k. k in
      step-view t fd old P (api.fstat fd) _ w [] (laws.fstat_view t fd fd) h empty
        (λ first w1 h1 f1.
          step-view t fd old P (api.fchmod fd 384) _ w1 [] (laws.fchmod_view t fd fd 384) h1 f1
            (λ u w2 h2 f2.
              step-view t fd old P (api.fstat fd) _ w2 [] (laws.fstat_view t fd fd) h2 f2
                (λ metadata w3 h3 f3.
                  step-view t fd old P
                    (ensure (is_private_file api name metadata)
                      "HEY temporary state file is insecure")
                    _ w3 []
                    (ensure-Keeps api (laws.view t fd) (laws.fstat_view t fd)
                      (laws.stat_parent_view t fd) (is_private_file api name metadata)
                      "HEY temporary state file is insecure")
                    h3 f3 (λ v w4 h4 f4. written metadata w4 h4 f4) fails)
                fails)
            fails)
        fails
    where
      written :
          (metadata : Stat) (w4 : W)
          → Filling t fd old w4
          → laws.file fd w4 ≡ []
          → Filled t fd old encoded
              ((do write_all api name (length encoded) fd encoded; api.fsync fd; pure metadata) w4)
      written metadata w4 h4 f4 =
          let w5 = (write_all api name (length encoded) fd encoded w4).1 in
          let h5 = write_all-Filling t old (length encoded) fd encoded w4 h4 in
          elim (Result-cases (write_all api name (length encoded) fd encoded w4).0) [
            | inr (x, e) ↦ rw e h5
            | inl (u, e) ↦
                let full : laws.file fd w5 ≡ encoded =
                  write_all-file api name (laws.file fd) fd (laws.write_appends fd) (length encoded)
                    encoded w4 e
                  ∙ ap (λ f. f ++ encoded) f4 in
                rw e (
                  step-view t fd old (λ (r : Result Stat × W). Filled t fd old encoded r)
                    (api.fsync fd) (λ y. pure metadata) w5 encoded (laws.fsync_view t fd fd) h5 full
                    (λ y w6 h6 f6. (h6, f6)) (λ e' w' k. k))
          ]
