-- ===== src/Prelude/Results.antt =====
-- Python's exceptions as values. An exception has its class and its message.
use Prim.Native.String.{String}
use mathlib.Core.Path.{◌≡◌, refl}
use mathlib.Core.Logic.{◌⊎◌, inl, inr}
use mathlib.Core.Bool.{Bool, true, false}
use mathlib.Core.List.{List, [], ◌∷◌}
use hermes_hey.Prelude.Texts.{Text, codes}

pub data ErrorClass : Type 0 where
  duplicate_key : ErrorClass
  not_found : ErrorClass
  value_error decode_error type_error key_error runtime_error os_error other_error : ErrorClass

-- `UnicodeDecodeError` and `JSONDecodeError`, here `decode_error`, are subclasses of `ValueError`, and so is `_DuplicateJSONKey`, here `duplicate_key`.
abbrev pub is_key_type_or_value : ErrorClass → Bool
is_key_type_or_value value_error = true
is_key_type_or_value decode_error = true
is_key_type_or_value type_error = true
is_key_type_or_value key_error = true
is_key_type_or_value duplicate_key = true
is_key_type_or_value _ = false

-- `FileNotFoundError`, here `not_found`, is a subclass of `OSError`.
abbrev pub is_os_error : ErrorClass → Bool
is_os_error os_error = true
is_os_error not_found = true
is_os_error _ = false

abbrev pub is_not_found : ErrorClass → Bool
is_not_found not_found = true
is_not_found _ = false

-- A message that the source spells out, or one that it puts together.
pub data Message : Type 0 where
  lit : String → Message
  raw : Text → Message

pub record Error : Type 0 where
  pub class : ErrorClass
  pub message : Message

-- `str(exc)`
unfoldable pub str : Message → Text
unfolding codes
str (lit s) = codes s
str (raw t) = t

pub data Result {ℓ} (A : Type ℓ) : Type ℓ where
  ok : A → Result A
  err : Error → Result A

abbrev pub raise {ℓ} : {A : Type ℓ} → ErrorClass → String → Result A
raise c s = err (record { class = c; message = lit s })

infixl 5 ◌>>=◌
abbrev pub ◌>>=◌ {ℓ κ} : {A : Type ℓ} {B : Type κ} → Result A → (A → Result B) → Result B
err raised >>= next = err raised
ok value >>= next = next value

infixl 5 ◌>>◌
abbrev pub ◌>>◌ {κ} : {B : Type κ} → Result (Unit {0}) → Result B → Result B
first >> second = first >>= (λ done. second)

-- `if not test: raise c(s)`
abbrev pub require : Bool → ErrorClass → String → Result (Unit {0})
require true c s = ok tt
require false c s = raise c s

pub Result-cases {ℓ} :
    {A : Type ℓ} (r : Result A) → ((a : A) × (r ≡ ok a)) ⊎ ((e : Error) × (r ≡ err e))
Result-cases (ok a) = inl (a, refl)
Result-cases (err e) = inr (e, refl)

-- The list of the results, or the first error.
unfoldable pub collect {ℓ κ} : {A : Type ℓ} {B : Type κ} → (A → Result B) → List A → Result (List B)
collect f [] = ok []
collect f (x ∷ xs) = do y ← f x; ys ← collect f xs; ok (y ∷ ys)
