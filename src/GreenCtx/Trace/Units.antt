-- ===== src/GreenCtx/Trace/Units.antt =====
-- The time unit of a file without directives.
use morphling.Prelude.{◌≡◌, refl, ◌∙◌, true, false, Option, none, some, List, [], ◌∷◌, arith, All}
use morphling.Prelude.Int.{ℤ}
use morphling.Str.{Str, codes, strip, starts_with, split, int_of}
use morphling.GreenCtx.Trace.{
  Parsed, start, append_row, row, first_int, after_header, parse_line, parse_lines,
  parse_trace_file,
}

time_unit-append_row : (a b : Option ℤ) (p : Parsed) → (append_row a b p).time_unit ≡ p.time_unit
unfolding append_row
time_unit-append_row none b p = refl
time_unit-append_row (some ts) none p = refl
time_unit-append_row (some ts) (some sms) p = refl

time_unit-row : (parts : List Str) (p : Parsed) → (row parts p).time_unit ≡ p.time_unit
unfolding row
time_unit-row [] p = refl
time_unit-row (a ∷ []) p = refl
time_unit-row (a ∷ b ∷ parts) p = time_unit-append_row (int_of a) (int_of b) p

time_unit-after_header :
    (parts : List Str) (n : Option ℤ) (p : Parsed)
    → (after_header parts n p).time_unit ≡ p.time_unit
unfolding after_header
time_unit-after_header parts none p = ground (arith, time_unit-row parts p)
time_unit-after_header parts (some n) p = time_unit-row parts (record p { header_skipped = true })

-- The line is no comment and sets no unit.
abbrev pub SetsNoUnit : Str → Type 0
SetsNoUnit line =
    (starts_with (strip line) (codes "#") ≡ false)
    × (starts_with (strip line) (codes "time_unit=") ≡ false)

time_unit-parse_line :
    (line : Str) (p : Parsed)
    → starts_with line (codes "#") ≡ false
    → starts_with line (codes "time_unit=") ≡ false
    → (parse_line line p).time_unit ≡ p.time_unit
unfolding parse_line
time_unit-parse_line line p no_comment no_unit =
    ground (arith, time_unit-after_header (split b',' line) (first_int (split b',' line)) p)

time_unit-parse_lines :
    (lines : List Str) (p : Parsed)
    → All SetsNoUnit lines
    → (parse_lines p lines).time_unit ≡ p.time_unit
unfolding parse_lines
time_unit-parse_lines [] p h = refl
time_unit-parse_lines (line ∷ lines) p h =
    time_unit-parse_lines lines (parse_line (strip line) p) h.1
    ∙ time_unit-parse_line (strip line) p h.0.0 h.0.1

pub parse_trace_file-time_unit :
    (lines : List Str) → All SetsNoUnit lines → (parse_trace_file lines).time_unit ≡ codes "us"
unfolding parse_trace_file
parse_trace_file-time_unit lines h = time_unit-parse_lines lines start h
