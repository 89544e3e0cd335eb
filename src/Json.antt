-- ===== src/Json.antt =====
-- The values that `json.load` returns, over any type of floats, and the conversions that the
-- scripts make of them.
use morphling.Prelude.{Bool, true, false, not, none, some, List, [], ◌∷◌, ◌||◌, if◌then◌else◌}
use morphling.Prelude.Int.{ℤ, pos, eqb_ℤ}
use morphling.Str.{Str, codes, is_empty, str_eq, strip, lower, int_of}
use morphling.Py.{Error, Result, raise, ok}
use morphling.Dict.{lookup, str_key}
use morphling.Float.{Float}

mutual
  pub data Json (F : Type 0) : Type 0 where
    null : Json F
    boolean : Bool → Json F
    int : ℤ → Json F
    float : F → Json F
    text : Str → Json F
    array : Items F → Json F
    object : Fields F → Json F

  pub data Items (F : Type 0) : Type 0 where
    nil : Items F
    cons : Json F → Items F → Items F

  pub data Fields (F : Type 0) : Type 0 where
    end : Fields F
    field : Str → Json F → Fields F → Fields F

-- A dictionary as its pairs in order; `json.load` keeps one value of each key.
abbrev pub Object : Type 0 → Type 0
Object F = List (Str × Json F)

module _ {F : Type 0} where
  abbrev pub items_of : Items F → List (Json F)
  items_of nil = []
  items_of (cons x xs) = x ∷ items_of xs

  abbrev pub fields_of : Fields F → Object F
  fields_of end = []
  fields_of (field k v fs) = (k, v) ∷ fields_of fs

  -- `raw.get(k)`, where a missing key reads as None.
  abbrev pub get : Str → Object F → Json F
  get k raw = elim (lookup k raw) [ none ↦ null | some v ↦ v ]

  -- `raw.get(k, d)`
  abbrev pub get_or : Str → Json F → Object F → Json F
  get_or k d raw = elim (lookup k raw) [ none ↦ d | some v ↦ v ]

  -- `isinstance(x, dict)` of each, with the dictionaries that pass.
  unfoldable pub dicts : List (Json F) → List (Object F)
  dicts [] = []
  dicts (object fs ∷ xs) = fields_of fs ∷ dicts xs
  dicts (_ ∷ xs) = dicts xs

module _ {F : Type 0} (f : Float F) where
  -- `int(x)` of a float, where ValueError gives the default.
  abbrev int_or : ℤ → Result ℤ → Result ℤ
  int_or default (raise Error.value_error) = ok default
  int_or default call = call

  -- What `_to_int` does with a text: `int(text)`, then `int(float(text))`.
  unfoldable pub text_to_int : Str → ℤ → Result ℤ
  text_to_int s default = elim (int_of s) [
    | some n ↦ ok n
    | none ↦ elim (f.of_text s) [ none ↦ ok default | some x ↦ int_or default (f.int_of x) ]
  ]

  -- `_to_int`; OverflowError, of an infinity, is raised on.
  unfoldable pub to_int : Json F → ℤ → Result ℤ
  unfolding text_to_int
  to_int (boolean b) default = ok (if b then pos 1 else pos 0)
  to_int (int n) default = ok n
  to_int (float x) default = int_or default (f.int_of x)
  to_int (text s) default = text_to_int s default
  to_int _ default = ok default

  -- `_to_float`
  unfoldable pub to_float : Json F → F → F
  to_float (boolean b) default = if b then f.of_int (pos 1) else f.of_int (pos 0)
  to_float (int n) default = f.of_int n
  to_float (float x) default = x
  to_float (text s) default = elim (f.of_text s) [ none ↦ default | some x ↦ x ]
  to_float _ default = default

  -- `_to_bool`
  unfoldable pub to_bool : Json F → Bool → Bool
  to_bool null default = default
  to_bool (boolean b) default = b
  to_bool (int n) default = not (eqb_ℤ n (pos 0))
  to_bool (float x) default = f.truth x
  to_bool (text s) default =
      let lowered = lower (strip s) in
      if str_eq lowered (codes "1")
        || (str_eq lowered (codes "true")
            || (str_eq lowered (codes "yes") || str_eq lowered (codes "y")))
      then true
      else if str_eq lowered (codes "0")
          || (str_eq lowered (codes "false")
              || (str_eq lowered (codes "no") || str_eq lowered (codes "n")))
      then false
      else not (is_empty s)
  to_bool (array nil) default = false
  to_bool (array (cons _ _)) default = true
  to_bool (object end) default = false
  to_bool (object (field _ _ _)) default = true
