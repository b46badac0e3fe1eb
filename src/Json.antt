-- ===== src/Json.antt =====
-- The values that `json.loads` returns, and Python's dictionaries of them.
use hermes_hey.Prelude.{
  arith, ℕ, ◌+◌, ◌-◌, ◌*◌, ◌^◌, String, Text, text_eq, text_eq_refl, ◌≡◌, refl, Bool, true, false,
  ◌&&◌, ◌||◌, Option, none, some, List, [], ◌∷◌, Result, ok, raise, key_error, ◌==◌, ==_refl,
  str_eq, if◌then◌else◌,
}

-- `negsuc n` is -(n + 1).
pub data ℤ : Type 0 where
  pos : ℕ → ℤ
  negsuc : ℕ → ℤ

-- `real m k` is the double m / 2 ^ k. `non_finite` is a NaN or an infinity.
mutual
  pub data Value : Type 0 where
    null : Value
    boolean : Bool → Value
    integer : ℤ → Value
    real : ℤ → ℕ → Value
    non_finite : Value
    text : Text → Value
    array : Items → Value
    object : Fields → Value

  pub data Fields : Type 0 where
    end : Fields
    field : String → Value → Fields → Fields

  pub data Items : Type 0 where
    nil : Items
    cons : Value → Items → Items

unfoldable pub values : Items → List Value
values nil = []
values (cons v vs) = v ∷ values vs

unfoldable pub items : List Value → Items
items [] = nil
items (v ∷ vs) = cons v (items vs)

pub values-items : (vs : List Value) → values (items vs) ≡ vs
unfolding values items
values-items [] = refl
values-items (v ∷ vs) = λ i. v ∷ values-items vs i

-- `value.get(key)`
unfoldable pub get : String → Fields → Option Value
get k end = none
get k (field j v d) = if str_eq j k then some v else get k d

-- `value[key]`
unfoldable pub get_item : String → Fields → Result Value
unfolding get
get_item k d = elim (get k d) [ none ↦ raise key_error k | some v ↦ ok v ]

-- `key in value`
unfoldable pub has_key : String → Fields → Bool
has_key k end = false
has_key k (field j v d) = str_eq j k || has_key k d

unfoldable pub contains_key : String → List String → Bool
contains_key k [] = false
contains_key k (j ∷ js) = str_eq j k || contains_key k js

unfoldable pub has_keys : List String → Fields → Bool
unfolding has_key
has_keys [] d = true
has_keys (k ∷ ks) d = has_key k d && has_keys ks d

unfoldable pub keys_within : Fields → List String → Bool
unfolding contains_key
keys_within end ks = true
keys_within (field j v d) ks = contains_key j ks && keys_within d ks

-- `set(value) == keys`
unfoldable pub keys_eq : Fields → List String → Bool
unfolding has_keys keys_within
keys_eq d ks = has_keys ks d && keys_within d ks

ℤ_eq : ℤ → ℤ → Bool
ℤ_eq (pos m) (pos n) = m == n
ℤ_eq (negsuc m) (negsuc n) = m == n
ℤ_eq (pos m) (negsuc n) = false
ℤ_eq (negsuc m) (pos n) = false

abbrev scale : ℤ → ℕ → ℤ
scale (pos m) k = pos (m * 2 ^ k)
scale (negsuc m) k = negsuc ((m + 1) * 2 ^ k - 1)

-- Python's `==` between a `str` or an `int` on the left and any value. A `bool` is the number 0
-- or 1, and a float is compared by its exact value.
unfoldable pub plain_eq : Value → Value → Bool
unfolding ℤ_eq
plain_eq (text s) (text t) = text_eq s t
plain_eq (integer m) (integer n) = ℤ_eq m n
plain_eq (integer m) (boolean b) = ℤ_eq m (pos (if b then 1 else 0))
plain_eq (integer m) (real n k) = ℤ_eq (scale m k) n
plain_eq v w = false

unfoldable pub fields_within : Fields → Fields → Bool
unfolding plain_eq get
fields_within end e = true
fields_within (field k v d) e =
    elim (get k e) [ none ↦ false | some w ↦ plain_eq v w ] && fields_within d e

unfoldable pub keys_of : Fields → List String
keys_of end = []
keys_of (field k v d) = k ∷ keys_of d

-- `d == e` for dictionaries, where the values of `d` are `str` and `int`.
unfoldable pub dict_eq : Fields → Fields → Bool
unfolding fields_within keys_of keys_within
dict_eq d e = fields_within d e && keys_within e (keys_of d)

pub plain_eq-text : (t : Text) → plain_eq (text t) (text t) ≡ true
unfolding plain_eq
plain_eq-text t = text_eq_refl t

pub plain_eq-integer : (n : ℕ) → plain_eq (integer (pos n)) (integer (pos n)) ≡ true
unfolding plain_eq
plain_eq-integer n = ==_refl n

pub get_item_of : (k : String) (d : Fields) (v : Value) → get k d ≡ some v → get_item k d ≡ ok v
unfolding get_item
get_item_of k d v h = ground arith
