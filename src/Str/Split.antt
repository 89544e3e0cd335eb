-- ===== src/Str/Split.antt =====
-- `str` as a list of code points, `strip`, `startswith`, `split(",")`, `split("=", 1)[1]`.
use Prim.Native.Char.{code}
use morphling.Prelude.{
  ℕ, String, ◌≡◌, refl, Bool, true, false, ◌&&◌, ◌||◌, List, [], ◌∷◌, ◌++◌, arith, All, ◌==◌, leb,
  if◌then◌else◌,
}

abbrev pub Str : Type 0
Str = List ℕ

abbrev pub codes : String → Str
codes String.[] = []
codes (String.◌∷◌ c s) = code c ∷ codes s

abbrev pub is_empty : Str → Bool
is_empty [] = true
is_empty (_ ∷ _) = false

abbrev pub str_eq : Str → Str → Bool
str_eq [] [] = true
str_eq (c ∷ s) (d ∷ t) = c == d && str_eq s t
str_eq _ _ = false

-- `str.isspace` of one character: Unicode's white space, as CPython lists it.
unfoldable pub is_space : ℕ → Bool
is_space c =
    leb 9 c && leb c 13
    || leb 28 c && leb c 32
    || c == 0x85
    || c == 0xa0
    || c == 0x1680
    || leb 0x2000 c && leb c 0x200a
    || c == 0x2028
    || c == 0x2029
    || c == 0x202f
    || c == 0x205f
    || c == 0x3000

-- Drops the leading characters that pass a test: `lstrip()`, `lstrip("#")`.
unfoldable pub drop_while : (ℕ → Bool) → Str → Str
drop_while p [] = []
drop_while p (c ∷ s) = let rest = drop_while p s in if p c then rest else c ∷ s

unfoldable pub rstrip : Str → Str
rstrip [] = []
rstrip (c ∷ s) = let rest = rstrip s in if is_space c && is_empty rest then [] else c ∷ rest

unfoldable pub strip : Str → Str
unfolding is_space drop_while rstrip
strip s = rstrip (drop_while is_space s)

unfoldable pub starts_with : Str → Str → Bool
starts_with s [] = true
starts_with [] (_ ∷ _) = false
starts_with (c ∷ s) (d ∷ prefix) = c == d && starts_with s prefix

-- `s.split(sep, 1)[1]`, on a text that holds `sep`: what stands behind the first one.
unfoldable pub after_first : ℕ → Str → Str
after_first sep [] = []
after_first sep (c ∷ s) = let rest = after_first sep s in if c == sep then s else rest

abbrev pub cons_first : ℕ → List Str → List Str
cons_first c [] = (c ∷ []) ∷ []
cons_first c (w ∷ ws) = (c ∷ w) ∷ ws

unfoldable pub split : ℕ → Str → List Str
split sep [] = [] ∷ []
split sep (c ∷ s) = let rest = split sep s in if c == sep then [] ∷ rest else cons_first c rest

-- The fields of a line joined by `sep`, as an f-string writes them.
unfoldable pub join : ℕ → List Str → Str
join sep [] = []
join sep (w ∷ []) = w
join sep (w ∷ v ∷ ws) = w ++ sep ∷ join sep (v ∷ ws)

abbrev pub Lacks : ℕ → Str → Type 0
Lacks sep = All (λ c. (c == sep) ≡ false)

split-field : (sep : ℕ) (w : Str) → Lacks sep w → split sep w ≡ w ∷ []
unfolding split
split-field sep [] h = refl
split-field sep (c ∷ w) h = ground (arith, split-field sep w h.1)

pub split-append : (sep : ℕ) (w s : Str) → Lacks sep w → split sep (w ++ sep ∷ s) ≡ w ∷ split sep s
unfolding split
split-append sep [] s h = ground arith
split-append sep (c ∷ w) s h = ground (arith, split-append sep w s h.1)

-- Splitting what was joined gives the fields back, when there is one and none holds `sep`.
pub split-join :
    (sep : ℕ) (w : Str) (ws : List Str)
    → Lacks sep w
    → All (Lacks sep) ws
    → split sep (join sep (w ∷ ws)) ≡ w ∷ ws
unfolding join
split-join sep w [] h hs = split-field sep w h
split-join sep w (v ∷ ws) h hs =
    cc (split-append sep w (join sep (v ∷ ws)) h, split-join sep v ws hs.0 hs.1)

-- A text whose ends are no white space is its own `strip`.
abbrev pub EndsSolid : Str → Type 0
EndsSolid [] = Unit
EndsSolid (c ∷ []) = is_space c ≡ false
EndsSolid (c ∷ d ∷ s) = EndsSolid (d ∷ s)

pub rstrip_solid : (s : Str) → EndsSolid s → rstrip s ≡ s
unfolding rstrip
rstrip_solid [] h = refl
rstrip_solid (c ∷ []) h = ground arith
rstrip_solid (c ∷ d ∷ s) h = ground (arith, rstrip_solid (d ∷ s) h)

pub strip_solid : (c : ℕ) (s : Str) → is_space c ≡ false → EndsSolid (c ∷ s) → strip (c ∷ s) ≡ c ∷ s
unfolding strip
strip_solid c s h k = ground (arith, rstrip_solid (c ∷ s) k)

pub EndsSolid-append : (s : Str) (c : ℕ) (t : Str) → EndsSolid (c ∷ t) → EndsSolid (s ++ c ∷ t)
EndsSolid-append [] c t h = h
EndsSolid-append (d ∷ []) c t h = h
EndsSolid-append (d ∷ f ∷ s) c t h = EndsSolid-append (f ∷ s) c t h

pub EndsSolid-comma : (s : Str) → EndsSolid s → EndsSolid (b',' ∷ s)
unfolding is_space
EndsSolid-comma [] h = refl
EndsSolid-comma (c ∷ s) h = h

-- One more field in front.
pub field-EndsSolid : (w s : Str) → EndsSolid (b',' ∷ s) → EndsSolid (b',' ∷ (w ++ b',' ∷ s))
field-EndsSolid w s h = EndsSolid-comma (w ++ b',' ∷ s) (EndsSolid-append w b',' s h)
