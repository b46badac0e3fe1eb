-- ===== src/Exec/Views.antt =====
-- Code that leaves a view of the state as it is, whether it returns or raises.
use hermes_hey.Prelude.{◌≡◌, ◌∙◌, Bool, true, false, Error, Result-cases, inl, inr, if◌then◌else◌}
use hermes_hey.Exec.{Exec, catch, finally, ◌>>=◌}

module _ {W V : Type 0} (view : W → V) where
  abbrev pub Keeps : {A : Type 0} → Exec W A → Type 0
  Keeps m = (w : W) → view (m w).1 ≡ view w

  pub bind-Keeps :
      {A C : Type 0} (m : Exec W A) (f : A → Exec W C)
      → Keeps m
      → ((a : A) → Keeps (f a))
      → Keeps (m >>= f)
  bind-Keeps m f same each w = elim (Result-cases (m w).0) [
    | inl (a, e) ↦ rw e (each a (m w).1 ∙ same w)
    | inr (x, e) ↦ rw e (same w)
  ]

  pub catch-Keeps :
      {A : Type 0} (m : Exec W A) (handler : Error → Exec W A)
      → Keeps m
      → ((e : Error) → Keeps (handler e))
      → Keeps (catch m handler)
  catch-Keeps m handler same each w = elim (Result-cases (m w).0) [
    | inl (a, e) ↦ rw e (same w)
    | inr (x, e) ↦ rw e (each x (m w).1 ∙ same w)
  ]

  pub finally-Keeps :
      {A : Type 0} (m : Exec W A) (close : Exec W (Unit {0}))
      → Keeps m
      → Keeps close
      → Keeps (finally m close)
  finally-Keeps m close same closed w = closed (m w).1 ∙ same w

  pub if-Keeps :
      {A : Type 0} (b : Bool) (m n : Exec W A) → Keeps m → Keeps n → Keeps (if b then m else n)
  if-Keeps true m n h k = h
  if-Keeps false m n h k = k

-- Code that keeps a property of the state, whether it returns or raises.
module _ {W : Type 0} (P : W → Type 0) where
  abbrev pub Stays : {A : Type 0} → Exec W A → Type 0
  Stays m = (w : W) → P w → P (m w).1

  pub bind-Stays :
      {A C : Type 0} (m : Exec W A) (f : A → Exec W C)
      → Stays m
      → ((a : A) → Stays (f a))
      → Stays (m >>= f)
  bind-Stays m f stays each w h = elim (Result-cases (m w).0) [
    | inl (a, e) ↦ rw e (each a (m w).1 (stays w h))
    | inr (x, e) ↦ rw e (stays w h)
  ]
