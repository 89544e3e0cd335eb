-- ===== src/Config.antt =====
-- morphling/common/config.py: sizes with units, and the configuration of the emulator. Floats are a
-- parameter, and so is the format that a caller gives.
pub mod Units
pub mod Emulator
mod Examples
use morphling.Prelude.{
  ℕ, ◌+◌, ◌-◌, ◌*◌, ◌==◌, Bool, true, false, not, ◌&&◌, ◌||◌, Option, none, some, List, [], ◌∷◌,
  ◌++◌, leb, if◌then◌else◌,
}
use morphling.Prelude.Int.{ℤ, pos, ltb_ℤ, leb_ℤ}
use morphling.Str.{Str, codes, is_empty, str_eq, strip, upper, int_of, is_digit}
use morphling.Py.{Error, Result, raise, ok, or_raise, ◌>>=◌}
use morphling.Dict.{lookup, str_key}
use morphling.Float.{Float}

abbrev pub customary : List Str
customary =
    codes "B"
    ∷ codes "K"
    ∷ codes "M"
    ∷ codes "G"
    ∷ codes "T"
    ∷ codes "P"
    ∷ codes "E"
    ∷ codes "Z"
    ∷ codes "Y"
    ∷ []

abbrev pub customary_ext : List Str
customary_ext =
    codes "byte"
    ∷ codes "kilo"
    ∷ codes "mega"
    ∷ codes "giga"
    ∷ codes "tera"
    ∷ codes "peta"
    ∷ codes "exa"
    ∷ codes "zetta"
    ∷ codes "iotta"
    ∷ []

abbrev pub iec : List Str
iec =
    codes "Bi"
    ∷ codes "Ki"
    ∷ codes "Mi"
    ∷ codes "Gi"
    ∷ codes "Ti"
    ∷ codes "Pi"
    ∷ codes "Ei"
    ∷ codes "Zi"
    ∷ codes "Yi"
    ∷ []

abbrev pub iec_ext : List Str
iec_ext =
    codes "byte"
    ∷ codes "kibi"
    ∷ codes "mebi"
    ∷ codes "gibi"
    ∷ codes "tebi"
    ∷ codes "pebi"
    ∷ codes "exbi"
    ∷ codes "zebi"
    ∷ codes "yobi"
    ∷ []

abbrev pub symbol_sets : List (List Str)
symbol_sets = customary ∷ customary_ext ∷ iec ∷ iec_ext ∷ []

-- `prefix`: the first symbol counts `p`, and each next one 1024 times as much.
unfoldable pub prefixes : ℕ → List Str → List (Str × ℕ)
prefixes p [] = []
prefixes p (s ∷ symbols) = (s, p) ∷ prefixes (p * 1024) symbols

-- `letter in sset`
unfoldable pub has_symbol : Str → List Str → Bool
has_symbol letter [] = false
has_symbol letter (s ∷ symbols) = str_eq letter s || has_symbol letter symbols

-- The first set with the symbol.
unfoldable pub find_set : Str → List (List Str) → Option (List Str)
unfolding has_symbol
find_set letter [] = none
find_set letter (symbols ∷ sets) =
    let rest = find_set letter sets in if has_symbol letter symbols then some symbols else rest

-- A number that is an integer or a float.
pub data Value (F : Type 0) : Type 0 where
  whole : ℤ → Value F
  fraction : F → Value F

abbrev pub all_digits : Str → Bool
all_digits [] = true
all_digits (c ∷ s) = is_digit c && all_digits s

-- `s.isdigit()`
abbrev pub is_number : Str → Bool
is_number s = not (is_empty s) && all_digits s

-- `s.replace(".", "", 1)`
unfoldable pub without_point : Str → Str
without_point [] = []
without_point (c ∷ s) = let rest = without_point s in if c == b'.' then s else c ∷ rest

-- The loop over digits and points: what it takes, and what is left.
unfoldable pub take_number : Str → Str × Str
take_number [] = ([], [])
take_number (c ∷ s) =
    let (num, rest) = take_number s in
    if is_digit c || c == b'.' then (c ∷ num, rest) else ([], c ∷ s)

-- The set of symbols and the symbol in it, where `k` stands for `K`.
unfoldable pub symbol_of : Str → Result (List Str × Str)
unfolding find_set
symbol_of letter = elim (find_set letter symbol_sets) [
  | some symbols ↦ ok (symbols, letter)
  | none ↦
      if str_eq letter (codes "k") then ok (customary, upper letter) else raise Error.value_error
]

module _ {F : Type 0} (f : Float F) where
  -- From the greatest prefix down, without the first symbol.
  unfoldable pub greatest : ℤ → List (Str × ℕ) → Option (Str × ℕ) → Option (Str × ℕ)
  greatest n [] best = best
  greatest n ((s, p) ∷ prefix) best =
      greatest n prefix (if leb_ℤ (pos p) n then some (s, p) else best)

  unfoldable pub bytes2human : (Value F → Str → Str) → List Str → ℤ → Result Str
  unfolding greatest prefixes
  bytes2human format [] n = raise Error.index_error
  bytes2human format (first ∷ symbols) n =
      if ltb_ℤ n (pos 0)
      then raise Error.value_error
      else elim (greatest n (prefixes 1024 symbols) none) [
        | none ↦ ok (format (whole n) first)
        | some (s, p) ↦ ok (format (fraction (f.over (f.of_int n) (f.of_int (pos p)))) s)
      ]

  unfoldable pub scaled : Str × Str → Result (Value F)
  unfolding symbol_of prefixes
  scaled (num, rest) = do
    number ← or_raise Error.value_error (f.of_text num)
    (symbols, letter) ← symbol_of (strip rest)
    p ← or_raise Error.key_error (lookup letter (prefixes 1 symbols))
    n ← f.int_of (f.times number (f.of_int (pos p)))
    ok (whole n)

  unfoldable pub human2bytes : Str → Result (Value F)
  unfolding take_number without_point scaled
  human2bytes s =
      if is_number s
      then (do n ← or_raise Error.value_error (int_of s); ok (whole n))
      else if is_number (without_point s)
      then (do x ← or_raise Error.value_error (f.of_text s); ok (fraction x))
      else scaled (take_number s)
