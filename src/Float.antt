-- ===== src/Float.antt =====
-- Python's floats as a parameter: a type with the operations that the scripts use, and the laws of
-- its order, which hold where no value is NaN.
pub mod Order
use morphling.Prelude.{ℕ, ◌≡◌, Bool, true, false, Option, List, [], ◌∷◌, if◌then◌else◌}
use morphling.Prelude.Int.{ℤ}
use morphling.Str.{Str}
use morphling.Py.{Result}

-- `truth` is `bool` and `total` is `sum`; `less` and `at_most` are `<` and `<=`; `of_int` is exact or rounds; `int_of` raises ValueError at NaN and OverflowError at an infinity.
pub record Float (F : Type 0) : Type 0 where
  pub zero : F
  pub one : F
  pub plus : F → F → F
  pub times : F → F → F
  pub over : F → F → F
  pub total : List F → F
  pub less : F → F → Bool
  pub at_most : F → F → Bool
  pub truth : F → Bool
  pub of_int : ℤ → F
  pub of_text : Str → Option F
  pub int_of : F → Result ℤ

-- Less is an order on classes of equal values.
pub record IsOrder {F : Type 0} (f : Float F) : Type 0 where
  pub asym : (a b : F) → f.less a b ≡ true → f.less b a ≡ false
  pub trans : (a b c : F) → f.less b a ≡ false → f.less c b ≡ false → f.less c a ≡ false

module _ {F : Type 0} (f : Float F) where
  -- `max(a, b)` and `min(a, b)`: the first of equal values.
  abbrev pub max_of : F → F → F
  max_of a b = if f.less a b then b else a

  abbrev pub min_of : F → F → F
  min_of a b = if f.less b a then b else a

  -- `x > 0`
  abbrev pub is_positive : F → Bool
  is_positive x = f.less f.zero x

  -- A small number of a literal.
  abbrev pub literal : ℕ → F
  literal n = f.of_int (ℤ.pos n)

  -- `max(items, key=value)`: the first item of the greatest value.
  unfoldable pub best_from : {A : Type 0} → (A → F) → A → List A → A
  best_from value best [] = best
  best_from value best (item ∷ items) =
      best_from value (if f.less (value best) (value item) then item else best) items

  abbrev pub max_from : F → List F → F
  max_from x xs = best_from (λ (y : F). y) x xs
