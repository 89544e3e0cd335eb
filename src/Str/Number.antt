-- ===== src/Str/Number.antt =====
-- `int(text)` for decimal text over ASCII digits, and the digits that an f-string prints.
use mathlib.Core.Option
use morphling.Prelude.{
  ℕ, zero, suc, ◌+◌, ◌-◌, ◌*◌, ◌/◌, ◌%◌, ◌<◌, ◌≡◌, refl, ◌∙◌, Bool, true, false, ◌&&◌, ◌||◌, Option,
  none, some, [], ◌∷◌, arith, All, ◌==◌, leb, ltb, Bool-cases, inl, inr, if◌then◌else◌,
}
use morphling.Prelude.Int.{ℤ, pos, negsuc, sub_ℕ}
use morphling.Str.Split.{Str, is_space, strip, EndsSolid, strip_solid, Lacks}

abbrev pub is_digit : ℕ → Bool
is_digit c = leb 48 c && leb c 57

-- The digits of `int(...)`: a single `_` may stand between two digits, and the last character is
-- a digit. `seen` says that the character before was a digit.
unfoldable pub digits_value : Bool → ℕ → Str → Option ℕ
digits_value seen n [] = if seen then some n else none
digits_value seen n (c ∷ s) =
    let rest = digits_value (is_digit c) (if is_digit c then n * 10 + (c - 48) else n) s in
    if is_digit c || c == b'_' && seen then rest else none

-- An optional sign and digits.
unfoldable pub signed_value : Str → Option ℤ
signed_value [] = none
signed_value (c ∷ s) =
    if c == b'-'
    then Option.map (λ n. sub_ℕ 0 n) (digits_value false 0 s)
    else if c == b'+'
    then Option.map pos (digits_value false 0 s)
    else Option.map pos (digits_value false 0 (c ∷ s))

-- `int(text)`; `none` is `ValueError`.
unfoldable pub int_of : Str → Option ℤ
int_of s = signed_value (strip s)

-- The digits of `n` in front of `acc`. Each round divides by ten, so fuel above `n` suffices.
unfoldable pub show_fuel : ℕ → ℕ → Str → Str
show_fuel zero n acc = acc
show_fuel (suc f) n acc =
    let rest = show_fuel f (n / 10) ((48 + n % 10) ∷ acc) in
    if ltb n 10 then (48 + n) ∷ acc else rest

unfoldable pub show_ℕ : ℕ → Str
show_ℕ n = show_fuel (suc n) n []

-- `str(n)`, and what `{n}` prints in an f-string.
unfoldable pub show : ℤ → Str
show (pos n) = show_ℕ n
show (negsuc n) = b'-' ∷ show_ℕ (suc n)

-- A digit is read as one more decimal place.
digits_step :
    (seen : Bool) (n d : ℕ) (acc : Str)
    → d < 10
    → digits_value seen n ((48 + d) ∷ acc) ≡ digits_value true (n * 10 + d) acc
unfolding digits_value
digits_step seen n d acc h = ground arith

digits_value-show_fuel :
    (f n : ℕ) (seen : Bool) (acc : Str)
    → n < f
    → digits_value seen 0 (show_fuel f n acc) ≡ digits_value true n acc
unfolding show_fuel
digits_value-show_fuel zero n seen acc h = elim h [ ]
digits_value-show_fuel (suc f) n seen acc h = elim (Bool-cases (ltb n 10)) [
  | inl small ↦ rw small (ground (arith, digits_step seen 0 n acc))
  | inr big ↦ rw big (
      ground (
        arith,
        digits_value-show_fuel f (n / 10) seen ((48 + n % 10) ∷ acc),
        digits_step true (n / 10) (n % 10) acc,
      ))
]

digits_value-show_ℕ : (n : ℕ) → digits_value false 0 (show_ℕ n) ≡ some n
unfolding show_ℕ digits_value
digits_value-show_ℕ n = digits_value-show_fuel (suc n) n false [] (omega arith)

abbrev pub Digits : Str → Type 0
Digits = All (λ c. is_digit c ≡ true)

show_fuel-Digits : (f n : ℕ) (acc : Str) → Digits acc → n < f → Digits (show_fuel f n acc)
unfolding show_fuel
show_fuel-Digits zero n acc d h = elim h [ ]
show_fuel-Digits (suc f) n acc d h = elim (Bool-cases (ltb n 10)) [
  | inl small ↦ rw small (ground arith, d)
  | inr big ↦
      rw big (show_fuel-Digits f (n / 10) ((48 + n % 10) ∷ acc) (ground arith, d) (ground arith))
]

pub show_ℕ-Digits : (n : ℕ) → Digits (show_ℕ n)
unfolding show_ℕ
show_ℕ-Digits n = show_fuel-Digits (suc n) n [] tt (omega arith)

digit-solid : (c : ℕ) → is_digit c ≡ true → is_space c ≡ false
unfolding is_space
digit-solid c h = ground arith

Digits-EndsSolid : (s : Str) → Digits s → EndsSolid s
Digits-EndsSolid [] d = tt
Digits-EndsSolid (c ∷ []) d = digit-solid c d.0
Digits-EndsSolid (c ∷ e ∷ s) d = Digits-EndsSolid (e ∷ s) d.1

Digits-Lacks : (sep : ℕ) (s : Str) → is_digit sep ≡ false → Digits s → Lacks sep s
Digits-Lacks sep [] h d = tt
Digits-Lacks sep (c ∷ s) h d = (ground arith, Digits-Lacks sep s h d.1)

int_of-Digits :
    (s : Str) (n : ℕ) → Digits s → digits_value false 0 s ≡ some n → int_of s ≡ some (pos n)
unfolding int_of
int_of-Digits [] n d h =
    unfold digits_value in cc (let e : digits_value false 0 [] ≡ some n = h in e)
int_of-Digits (c ∷ s) n d h =
    rw (strip_solid c s (digit-solid c d.0) (Digits-EndsSolid (c ∷ s) d))
      (unfold signed_value in ground arith)

minus-EndsSolid : (s : Str) → Digits s → EndsSolid (b'-' ∷ s)
unfolding is_space
minus-EndsSolid [] d = refl
minus-EndsSolid (c ∷ s) d = Digits-EndsSolid (c ∷ s) d

int_of-minus :
    (s : Str) (n : ℕ)
    → Digits s
    → digits_value false 0 s ≡ some n
    → int_of (b'-' ∷ s) ≡ some (sub_ℕ 0 n)
unfolding int_of
int_of-minus s n d h =
    rw (strip_solid b'-' s (unfold is_space in refl) (minus-EndsSolid s d))
      (unfold signed_value in ground arith)

-- What `str(n)` prints, `int` reads back.
pub int_of-show : (n : ℤ) → int_of (show n) ≡ some n
unfolding show
int_of-show (pos n) = int_of-Digits (show_ℕ n) n (show_ℕ-Digits n) (digits_value-show_ℕ n)
int_of-show (negsuc n) =
    int_of-minus (show_ℕ (suc n)) (suc n) (show_ℕ-Digits (suc n)) (digits_value-show_ℕ (suc n))
    ∙ ground arith

-- No printed integer holds the separator of a log line.
pub show-Lacks_comma : (n : ℤ) → Lacks b',' (show n)
unfolding show
show-Lacks_comma (pos n) = Digits-Lacks b',' (show_ℕ n) refl (show_ℕ-Digits n)
show-Lacks_comma (negsuc n) =
    (refl, Digits-Lacks b',' (show_ℕ (suc n)) refl (show_ℕ-Digits (suc n)))

-- A printed integer ends in no white space.
pub show-EndsSolid : (n : ℤ) → EndsSolid (show n)
unfolding show
show-EndsSolid (pos n) = Digits-EndsSolid (show_ℕ n) (show_ℕ-Digits n)
show-EndsSolid (negsuc n) = minus-EndsSolid (show_ℕ (suc n)) (show_ℕ-Digits (suc n))

-- A digit or a sign.
abbrev pub begins_number : ℕ → Bool
begins_number c = is_digit c || c == b'-'

first-of-Digits :
    (s : Str) (n : ℕ)
    → Digits s
    → digits_value false 0 s ≡ some n
    → (c : ℕ) × (t : Str) × (s ≡ c ∷ t) × (begins_number c ≡ true)
first-of-Digits [] n d h =
    absurd (unfold digits_value in cc (let e : digits_value false 0 [] ≡ some n = h in e))
first-of-Digits (c ∷ t) n d h = (c, t, refl, ground arith)

-- A printed integer is not empty and begins with a digit or a sign.
pub show_first : (n : ℤ) → (c : ℕ) × (t : Str) × (show n ≡ c ∷ t) × (begins_number c ≡ true)
unfolding show
show_first (pos n) = first-of-Digits (show_ℕ n) n (show_ℕ-Digits n) (digits_value-show_ℕ n)
show_first (negsuc n) = (b'-', show_ℕ (suc n), refl, refl)
