-- ===== src/GreenCtx/Trace/Rows.antt =====
-- The entries that `parse_trace_file` collects, against a description with no parser state.
use morphling.Prelude.{
  ℕ, ◌≡◌, refl, ap, ◌∙◌, sym, Bool, true, ◌&&◌, not, Option, none, some, List, [], ◌∷◌, ◌++◌, arith,
  ◌==◌, leb, Option-cases, inl, inr,
}
use mathlib.Core.List.{append-nil, append_assoc}
use morphling.Prelude.Int.{ℤ}
use morphling.Str.{
  Str, codes, strip, starts_with, split, int_of, is_space, rstrip, drop_while, signed_value,
  digits_value, cons_first,
}
use morphling.GreenCtx.Trace.{
  Parsed, start, directive, append_row, row, first_int, after_header, parse_line, parse_lines,
  parse_trace_file,
}

-- A row of a trace: two fields or more, of which the first two are integers.
abbrev pub both : Option ℤ → Option ℤ → List (ℤ × ℤ)
both (some ts) (some sms) = (ts, sms) ∷ []
both _ _ = []

abbrev pub row_of : List Str → List (ℤ × ℤ)
row_of (a ∷ b ∷ _) = both (int_of a) (int_of b)
row_of _ = []

-- The rows of a file, whatever else stands in it.
abbrev pub rows : List Str → List (ℤ × ℤ)
rows [] = []
rows (line ∷ lines) = row_of (split b',' (strip line)) ++ rows lines

-- Neither part of a number nor white space nor the separator.
abbrev is_foreign : ℕ → Bool
is_foreign c =
    not (is_space c)
    && not (leb 48 c && leb c 57)
    && (not (c == b'-') && (not (c == b'+') && not (c == b',')))

int_of_foreign : (c : ℕ) (w : Str) → is_foreign c ≡ true → int_of (c ∷ w) ≡ none
unfolding int_of strip drop_while rstrip signed_value digits_value
int_of_foreign c w h = ground arith

both-none : (o : Option ℤ) → both none o ≡ []
both-none none = refl
both-none (some n) = refl

row_of-cons_first : (c : ℕ) (ws : List Str) → is_foreign c ≡ true → row_of (cons_first c ws) ≡ []
row_of-cons_first c [] h = refl
row_of-cons_first c (w ∷ []) h = refl
row_of-cons_first c (w ∷ v ∷ ws) h = rw (int_of_foreign c w h) (both-none (int_of v))

row_of-foreign : (c : ℕ) (s : Str) → is_foreign c ≡ true → row_of (split b',' (c ∷ s)) ≡ []
unfolding split
row_of-foreign c s h = ground (arith, row_of-cons_first c (split b',' s) h)

-- A line that begins like a directive is no row.
row_of-directive :
    (d : ℕ) (prefix s : Str)
    → is_foreign d ≡ true
    → starts_with s (d ∷ prefix) ≡ true
    → row_of (split b',' s) ≡ []
unfolding starts_with
row_of-directive d prefix [] f h = cc
row_of-directive d prefix (c ∷ s) f h = row_of-foreign c s (ground arith)

entries-directive : (d : Str) (p : Parsed) → (directive d p).entries ≡ p.entries
unfolding directive
entries-directive d p = ground arith

entries-append_row :
    (a b : Option ℤ) (p : Parsed) → (append_row a b p).entries ≡ p.entries ++ both a b
unfolding append_row
entries-append_row none b p = sym (append-nil p.entries)
entries-append_row (some ts) none p = sym (append-nil p.entries)
entries-append_row (some ts) (some sms) p = refl

entries-row : (parts : List Str) (p : Parsed) → (row parts p).entries ≡ p.entries ++ row_of parts
unfolding row
entries-row [] p = sym (append-nil p.entries)
entries-row (a ∷ []) p = sym (append-nil p.entries)
entries-row (a ∷ b ∷ parts) p = entries-append_row (int_of a) (int_of b) p

-- A row whose first field is no integer is none, with the header read or not.
row_of-header : (parts : List Str) → first_int parts ≡ none → row_of parts ≡ []
unfolding first_int
row_of-header [] h = refl
row_of-header (a ∷ []) h = refl
row_of-header (a ∷ b ∷ parts) h = rw h (both-none (int_of b))

entries-after_header :
    (parts : List Str) (p : Parsed)
    → (after_header parts (first_int parts) p).entries ≡ p.entries ++ row_of parts
unfolding after_header
entries-after_header parts p = elim (Option-cases (first_int parts)) [
  | inl e ↦
      rw e (ground (arith, entries-row parts p, row_of-header parts e, append-nil {0} p.entries))
  | inr (n, e) ↦ rw e (entries-row parts (record p { header_skipped = true }))
]

entries-parse_line :
    (line : Str) (p : Parsed) → (parse_line line p).entries ≡ p.entries ++ row_of (split b',' line)
unfolding parse_line
entries-parse_line [] p = unfold split in sym (append-nil p.entries)
entries-parse_line (c ∷ s) p = ground (
  arith,
  entries-directive (strip (drop_while (λ c. c == b'#') (c ∷ s))) p,
  row_of-directive b'#' [] (c ∷ s) (unfold is_space in refl),
  row_of-directive b't' (codes "ime_unit=") (c ∷ s) (unfold is_space in refl),
  row_of-directive b'c' (codes "lock_mode=") (c ∷ s) (unfold is_space in refl),
  entries-after_header (split b',' (c ∷ s)) p,
  append-nil {0} p.entries,
)

entries-parse_lines :
    (lines : List Str) (p : Parsed) → (parse_lines p lines).entries ≡ p.entries ++ rows lines
unfolding parse_lines
entries-parse_lines [] p = sym (append-nil p.entries)
entries-parse_lines (line ∷ lines) p =
    entries-parse_lines lines (parse_line (strip line) p)
    ∙ ap (λ e. e ++ rows lines) (entries-parse_line (strip line) p)
    ∙ append_assoc p.entries (row_of (split b',' (strip line))) (rows lines)

-- The entries are, in the order of the lines, the lines whose first two comma-separated fields are
-- integers: comments, directives, blank lines, the header line and malformed lines add nothing.
pub parse_trace_file-rows : (lines : List Str) → (parse_trace_file lines).entries ≡ rows lines
unfolding parse_trace_file
parse_trace_file-rows lines = entries-parse_lines lines start
