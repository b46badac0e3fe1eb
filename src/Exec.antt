-- ===== src/Exec.antt =====
-- Code that changes a state and may raise. What was done before an exception stays done.
pub mod Views
use hermes_hey.Prelude.{String, Result, ok, err, ErrorClass, Error, lit}

abbrev pub Exec {ℓ} : Type ℓ → Type ℓ → Type ℓ
Exec S A = S → Result A × S

-- an exception of the `finally` block takes the place of what was returned or raised
abbrev pub prefer {ℓ} : {A : Type ℓ} → Result (Unit {0}) → Result A → Result A
prefer (ok u) r = r
prefer (err e) r = err e

module _ {ℓ} {S A : Type ℓ} where
  abbrev pub pure : A → Exec S A
  pure a s = (ok a, s)

  abbrev pub lift : Result A → Exec S A
  lift r s = (r, s)

  abbrev pub throw : ErrorClass → String → Exec S A
  throw c m s = (err (record { class = c; message = lit m }), s)

  -- `try: m finally: close`
  abbrev pub finally : Exec S A → (S → Result (Unit {0}) × S) → Exec S A
  finally m close s = let (r, s') = m s in let (c, s'') = close s' in (prefer c r, s'')

  -- `try: m except handler`, where the handler is given every exception
  abbrev pub handle : (Error → Exec S A) → Result A × S → Result A × S
  handle handler (ok a, s) = (ok a, s)
  handle handler (err e, s) = handler e s

  abbrev pub catch : Exec S A → (Error → Exec S A) → Exec S A
  catch m handler s = handle handler (m s)

module _ {ℓ} {S A B : Type ℓ} where
  abbrev pub continue : Result A → (A → Exec S B) → Exec S B
  continue (ok a) f s = f a s
  continue (err e) f s = (err e, s)

  infixl 5 ◌>>=◌
  abbrev pub ◌>>=◌ : Exec S A → (A → Exec S B) → Exec S B
  ◌>>=◌ m f s = let (r, s') = m s in continue r f s'

infixl 5 ◌>>◌
abbrev pub ◌>>◌ : {S B : Type 0} → Exec S (Unit {0}) → Exec S B → Exec S B
m >> k = m >>= λ _. k
