-- ===== src/Py.antt =====
-- Python's exceptions as values, and the bind of a call that may raise.
use morphling.Prelude.{◌≡◌, refl, Option, none, some}

-- The exception classes that the modelled code raises or catches.
pub data Error : Type 0 where
  value_error key_error index_error runtime_error import_error not_implemented : Error
  attribute_error zero_division_error overflow_error type_error file_not_found_error
        assertion_error :
      Error

pub data Result {ℓ} (A : Type ℓ) : Type ℓ where
  raise : (e : Error) → Result A
  ok : (value : A) → Result A

-- A missing value raises `e`.
abbrev pub or_raise {ℓ} : {A : Type ℓ} → Error → Option A → Result A
or_raise e (some a) = ok a
or_raise e none = raise e

-- What follows a call runs on its value, or not at all.
module _ {ℓ κ} {A : Type ℓ} {B : Type κ} where
  infixl 5 ◌>>=◌
  abbrev pub ◌>>=◌ : (call : Result A) (rest : A → Result B) → Result B
  raise e >>= rest = raise e
  ok value >>= rest = rest value

  -- When the whole returned, the call did.
  pub >>=-eq-ok :
      (call : Result A) (rest : A → Result B) {value : B}
      → (call >>= rest) ≡ ok value
      → (a : A) × (call ≡ ok a) × (rest a ≡ ok value)
  >>=-eq-ok (raise e) rest returned = cc
  >>=-eq-ok (ok a) rest returned = (a, refl, returned)
