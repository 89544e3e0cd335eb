-- ===== src/Config/Units.antt =====
-- A whole number with a unit is read as the bytes that it stands for.
use mathlib.Core.Path.{subst}
use morphling.Prelude.{
  ℕ, ◌+◌, ◌*◌, ◌^◌, ◌<◌, ◌≡◌, refl, sym, ◌∙◌, ap, Bool, if◌then◌else◌, false, inl, inr, some, List,
  [], ◌∷◌, ◌++◌, All, Elem, arith,
}
use morphling.Prelude.Int.{pos}
use morphling.Str.{Str, strip, show_ℕ, Digits, show_ℕ-Digits, drop_while, rstrip, is_space}
use morphling.Py.{Error, Result, ok, or_raise, ◌>>=◌, >>=-eq-ok}
use morphling.Dict.{lookup, str_key}
use morphling.Float.{Float}
use morphling.Config.{
  whole, customary, customary_ext, iec, iec_ext, prefixes, find_set, has_symbol, symbol_of,
  all_digits, is_number, without_point, take_number, scaled, human2bytes,
}

abbrev powers_from : ℕ → List Str → List (Str × ℕ)
powers_from i [] = []
powers_from i (letter ∷ letters) = (letter, 1024 ^ i) ∷ powers_from (i + 1) letters

-- A unit and its bytes: the i-th symbol of each set stands for 1024 ^ i.
abbrev pub units : List (Str × ℕ)
units =
    powers_from 0 customary
    ++ (powers_from 0 customary_ext ++ (powers_from 0 iec ++ powers_from 0 iec_ext))

-- What `prefix[letter]` is, once the set of the letter was found.
abbrev factor_of : Str → Result ℕ
factor_of letter = do
  (symbols, name) ← symbol_of letter
  or_raise Error.key_error (lookup name (prefixes 1 symbols))

abbrev IsUnit : Str × ℕ → Type 0
IsUnit (letter, p) = (strip (b' ' ∷ letter) ≡ letter) × (factor_of letter ≡ ok p)

units-AreUnits : All IsUnit units
unfolding symbol_of find_set has_symbol prefixes lookup strip drop_while rstrip is_space
units-AreUnits = (
  (refl, refl),
  (
    (refl, refl),
    (
      (refl, refl),
      (
        (refl, refl),
        (
          (refl, refl),
          (
            (refl, refl),
            (
              (refl, refl),
              (
                (refl, refl),
                (
                  (refl, refl),
                  (
                    (refl, refl),
                    (
                      (refl, refl),
                      (
                        (refl, refl),
                        (
                          (refl, refl),
                          (
                            (refl, refl),
                            (
                              (refl, refl),
                              (
                                (refl, refl),
                                (
                                  (refl, refl),
                                  (
                                    (refl, refl),
                                    (
                                      (refl, refl),
                                      (
                                        (refl, refl),
                                        (
                                          (refl, refl),
                                          (
                                            (refl, refl),
                                            (
                                              (refl, refl),
                                              (
                                                (refl, refl),
                                                (
                                                  (refl, refl),
                                                  (
                                                    (refl, refl),
                                                    (
                                                      (refl, refl),
                                                      (
                                                        (refl, refl),
                                                        (
                                                          (refl, refl),
                                                          (
                                                            (refl, refl),
                                                            (
                                                            (refl, refl),
                                                            (
                                                            (refl, refl),
                                                            (
                                                            (refl, refl),
                                                            (
                                                            (refl, refl),
                                                            ((refl, refl), ((refl, refl), tt)),
                                                            ),
                                                            ),
                                                            ),
                                                            ),
                                                          ),
                                                        ),
                                                      ),
                                                    ),
                                                  ),
                                                ),
                                              ),
                                            ),
                                          ),
                                        ),
                                      ),
                                    ),
                                  ),
                                ),
                              ),
                            ),
                          ),
                        ),
                      ),
                    ),
                  ),
                ),
              ),
            ),
          ),
        ),
      ),
    ),
  ),
)

All-Elem : {A : Type 0} (P : A → Type 0) (x : A) (xs : List A) → All P xs → Elem x xs → P x
All-Elem P x [] all m = elim m [ ]
All-Elem P x (y ∷ xs) (here, later) (inl same) = subst P (sym same) here
All-Elem P x (y ∷ xs) (here, later) (inr m) = All-Elem P x xs later m

-- Behind digits, a space.
all_digits_space : (ds rest : Str) → Digits ds → all_digits (ds ++ b' ' ∷ rest) ≡ false
all_digits_space [] rest d = refl
all_digits_space (c ∷ ds) rest (digit, later) = rw digit (all_digits_space ds rest later)

is_number_space : (ds rest : Str) → Digits ds → is_number (ds ++ b' ' ∷ rest) ≡ false
is_number_space [] rest d = refl
is_number_space (c ∷ ds) rest d = all_digits_space (c ∷ ds) rest d

without_point_space :
    (ds rest : Str)
    → Digits ds
    → without_point (ds ++ b' ' ∷ rest) ≡ ds ++ b' ' ∷ without_point rest
unfolding without_point
without_point_space [] rest d = refl
without_point_space (c ∷ ds) rest (digit, later) = ground (arith, without_point_space ds rest later)

take_number_space :
    (ds rest : Str) → Digits ds → take_number (ds ++ b' ' ∷ rest) ≡ (ds, b' ' ∷ rest)
unfolding take_number
take_number_space [] rest d = refl
take_number_space (c ∷ ds) rest (digit, later) = rw (digit, take_number_space ds rest later) refl

-- Whole numbers below 2 ^ 53 are floats, and so are their products with the units' powers of two.
pub record IsExact {F : Type 0} (f : Float F) : Type 0 where
  pub reads : (n : ℕ) → n < 2 ^ 53 → f.of_text (show_ℕ n) ≡ some (f.of_int (pos n))
  pub multiplies :
      (n : ℕ) (letter : Str) (p : ℕ)
      → n < 2 ^ 53
      → Elem (letter, p) units
      → f.int_of (f.times (f.of_int (pos n)) (f.of_int (pos p))) ≡ ok (pos (n * p))

neither {ℓ} :
    {A : Type ℓ} (a b : Bool) (x y z : A)
    → a ≡ false
    → b ≡ false
    → (if a then x else if b then y else z) ≡ z
neither a b x y z not_a not_b = rw (not_a, not_b) refl

module _ {F : Type 0} (f : Float F) (exact : IsExact f) where
  scaled-units :
      (n : ℕ) (letter : Str) (p : ℕ)
      → n < 2 ^ 53
      → Elem (letter, p) units
      → scaled f (show_ℕ n, b' ' ∷ letter) ≡ ok (whole (pos (n * p)))
  unfolding scaled
  scaled-units n letter p small m =
      let (stripped, factor) = All-Elem IsUnit (letter, p) units units-AreUnits m in
      let ((symbols, name), found, value) =
        >>=-eq-ok (symbol_of letter)
          (λ (q : List Str × Str). or_raise Error.key_error (lookup q.1 (prefixes 1 q.0))) factor in
      rw (exact.reads n small, stripped, found, value, exact.multiplies n letter p small m) refl

  -- A whole number below 2 ^ 53, a space and a symbol of any of the four sets are read as the number
  -- times 1024 ^ i, where i is the symbol's place in its set, if floats are exact on such numbers.
  pub human2bytes-units :
      (n : ℕ) (letter : Str) (p : ℕ)
      → n < 2 ^ 53
      → Elem (letter, p) units
      → human2bytes f (show_ℕ n ++ b' ' ∷ letter) ≡ ok (whole (pos (n * p)))
  unfolding human2bytes
  human2bytes-units n letter p small m =
      let digits = show_ℕ-Digits n in
      let s = show_ℕ n ++ b' ' ∷ letter in
      neither (is_number s) (is_number (without_point s)) _ _ _
        (is_number_space (show_ℕ n) letter digits)
        (ap is_number (without_point_space (show_ℕ n) letter digits)
          ∙ is_number_space (show_ℕ n) (without_point letter) digits)
      ∙ ap (scaled f) (take_number_space (show_ℕ n) letter digits)
      ∙ scaled-units n letter p small m
