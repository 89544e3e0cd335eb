-- ===== src/Violations/Parse.antt =====
-- scripts/analyze_violations.py, parse_gemm_log to parse_trace: the calls and the slots that the
-- logs hold. A row is what `csv.DictReader` gives: a dictionary whose value is None where the line
-- had fewer fields than the header.
use morphling.Prelude.{
  ℕ, zero, suc, ◌+◌, Bool, ◌||◌, Option, none, some, List, [], ◌∷◌, ◌++◌, map, if◌then◌else◌,
}
use morphling.Prelude.Int.{ℤ, pos, ◌+ℤ◌, ◌-ℤ◌, scale, leb_ℤ}
use morphling.Str.{Str, codes, is_empty, strip, starts_with, split, int_of}
use morphling.Py.{Error, Result, raise, ok, or_raise, ◌>>=◌}
use morphling.Dict.{lookup, str_key, keys}
use morphling.Float.{Float, literal}
use morphling.Json.{
  Json, boolean, int, float, text, array, object, Object, items_of, fields_of, get_or,
}
use morphling.Sort.{sort}
use morphling.Violations.{GemmCall, StepSlot}

abbrev pub DictRow : Type 0
DictRow = List (Str × Option Str)

-- `row[k]`
abbrev cell : {A : Type 0} → Str → List (Str × A) → Result A
cell k row = or_raise Error.key_error (lookup k row)

-- `int(x)` of a value of a row.
unfoldable pub int_cell : Option Str → Result ℤ
int_cell none = raise Error.type_error
int_cell (some s) = or_raise Error.value_error (int_of s)

-- `int(row[k])`
unfoldable pub int_at : Str → DictRow → Result ℤ
unfolding int_cell
int_at k row = do value ← cell k row; int_cell value

-- `int(row.get(k, 0))`
unfoldable pub int_or_zero : Str → DictRow → Result ℤ
unfolding int_cell
int_or_zero k row = elim (lookup k row) [ none ↦ ok (pos 0) | some value ↦ int_cell value ]

-- The text that a name prints as.
abbrev name_text : Option Str → Str
name_text none = codes "None"
name_text (some s) = s

unfoldable pub gemm_of : DictRow → Result GemmCall
unfolding int_at int_or_zero
gemm_of row = do
  name ← cell (codes "function_name") row
  start_ns ← int_at (codes "start_ns") row
  end_ns ← int_at (codes "end_ns") row
  duration_ns ← int_at (codes "duration_ns") row
  m ← int_or_zero (codes "m") row
  n ← int_or_zero (codes "n") row
  k ← int_or_zero (codes "k") row
  ok (record {
    name = name_text name;
    start_ns = start_ns;
    end_ns = end_ns;
    duration_ns = duration_ns;
    m = m;
    n = n;
    k = k;
  })

-- `except (KeyError, ValueError)`: what a row adds in front of the later ones.
unfoldable pub kept : Result GemmCall → Result (List GemmCall) → Result (List GemmCall)
kept (ok g) later = do calls ← later; ok (g ∷ calls)
kept (raise Error.key_error) later = later
kept (raise Error.value_error) later = later
kept (raise e) later = raise e

unfoldable pub gemms_of : List DictRow → Result (List GemmCall)
unfolding gemm_of kept
gemms_of [] = ok []
gemms_of (row ∷ rows) = kept (gemm_of row) (gemms_of rows)

abbrev pub starts_before : GemmCall → GemmCall → Bool
starts_before a b = leb_ℤ a.start_ns b.start_ns

abbrev pub slot_before : StepSlot → StepSlot → Bool
slot_before a b = leb_ℤ a.start_ns b.start_ns

unfoldable pub parse_gemm_log : List DictRow → Result (List GemmCall)
unfolding gemms_of
parse_gemm_log rows = do calls ← gemms_of rows; ok (sort starts_before calls)

unfoldable pub slot_of : DictRow → Result StepSlot
unfolding int_at
slot_of row = do
  step ← int_at (codes "step") row
  start_ns ← int_at (codes "start_ns") row
  end_ns ← int_at (codes "end_ns") row
  sm_count ← int_at (codes "sm_count") row
  ok (record { step = step; start_ns = start_ns; end_ns = end_ns; sm_count = sm_count })

unfoldable pub slots_of : List DictRow → Result (List StepSlot)
unfolding slot_of
slots_of [] = ok []
slots_of (row ∷ rows) = do slot ← slot_of row; slots ← slots_of rows; ok (slot ∷ slots)

unfoldable pub parse_step_boundaries : List DictRow → Result (List StepSlot)
unfolding slots_of
parse_step_boundaries rows = do slots ← slots_of rows; ok (sort slot_before slots)

-- `s * 1000` of a text.
unfoldable pub repeat : ℕ → Str → Str
repeat zero s = []
repeat (suc n) s = s ++ repeat n s

module _ {F : Type 0} (f : Float F) (str_of : Json F → Str) where
  -- `int(x)` of a value of a JSON file.
  unfoldable pub int_of_json : Json F → Result ℤ
  int_of_json (boolean b) = ok (if b then pos 1 else pos 0)
  int_of_json (int n) = ok n
  int_of_json (float x) = f.int_of x
  int_of_json (text s) = or_raise Error.value_error (int_of s)
  int_of_json _ = raise Error.type_error

  -- `int(x * 1000)`
  unfoldable pub ns_of_us : Json F → Result ℤ
  unfolding repeat
  ns_of_us (boolean b) = ok (if b then pos 1000 else pos 0)
  ns_of_us (int n) = ok (scale n 1000)
  ns_of_us (float x) = f.int_of (f.times x (literal f 1000))
  ns_of_us (text s) = or_raise Error.value_error (int_of (repeat 1000 s))
  ns_of_us _ = raise Error.type_error

  unfoldable pub entry_of : Object F → Result GemmCall
  unfolding int_of_json ns_of_us
  entry_of e = do
    start_us ← cell (codes "start_us") e
    start_ns ← ns_of_us start_us
    end_us ← cell (codes "end_us") e
    end_ns ← ns_of_us end_us
    m ← int_of_json (get_or (codes "m") (int (pos 0)) e)
    n ← int_of_json (get_or (codes "n") (int (pos 0)) e)
    k ← int_of_json (get_or (codes "k") (int (pos 0)) e)
    ok (record {
      name = str_of (get_or (codes "phase") (text (codes "unknown")) e);
      start_ns = start_ns;
      end_ns = end_ns;
      duration_ns = end_ns -ℤ start_ns;
      m = m;
      n = n;
      k = k;
    })

  -- Only a dictionary has values by text.
  unfoldable pub entries_of : List (Json F) → Result (List GemmCall)
  unfolding entry_of
  entries_of [] = ok []
  entries_of (object fs ∷ xs) = do
    call ← entry_of (fields_of fs)
    calls ← entries_of xs
    ok (call ∷ calls)
  entries_of (_ ∷ xs) = raise Error.type_error

  -- What a loop over a JSON value runs over.
  unfoldable pub elements : Json F → Result (List (Json F))
  elements (array xs) = ok (items_of xs)
  elements (object fs) = ok (map text (keys (fields_of fs)))
  elements (text s) = ok (map (λ c. text (c ∷ [])) s)
  elements _ = raise Error.type_error

  unfoldable pub parse_autograd_log : Json F → Result (List GemmCall)
  unfolding entries_of elements
  parse_autograd_log entries = do
    xs ← elements entries
    calls ← entries_of xs
    ok (sort starts_before calls)

-- A row of the table that pandas reads: what `int` makes of each cell.
abbrev pub TableRow : Type 0
TableRow = List (Str × Result ℤ)

-- `int(row[k])`
abbrev int_column : Str → TableRow → Result ℤ
int_column k row = do value ← cell k row; value

unfoldable pub table_slots : ℕ → List TableRow → Result (List StepSlot)
table_slots i [] = ok []
table_slots i (row ∷ rows) = do
  start_ns ← int_column (codes "time_slot_sched_ns") row
  sm_count ← int_column (codes "sm_count") row
  slots ← table_slots (i + 1) rows
  ok (record { step = pos i; start_ns = start_ns; end_ns = pos 0; sm_count = sm_count } ∷ slots)

-- Each slot ends where the next one starts, and the last one after a millisecond.
unfoldable pub set_ends : List StepSlot → List StepSlot
set_ends [] = []
set_ends (slot ∷ []) = record slot { end_ns = slot.start_ns +ℤ pos 1000000 } ∷ []
set_ends (slot ∷ next ∷ slots) = record slot { end_ns = next.start_ns } ∷ set_ends (next ∷ slots)

unfoldable pub parse_trace_boundaries : List TableRow → Result (List StepSlot)
unfolding table_slots set_ends
parse_trace_boundaries rows = do slots ← table_slots 0 rows; ok (set_ends slots)

-- `entries.append((ts, sms))`, unless one of the two is no number.
unfoldable pub add_entry : List Str → List (ℤ × ℤ) → List (ℤ × ℤ)
add_entry (ts ∷ sms ∷ parts) entries = elim (int_of (strip ts)) [
  | none ↦ entries
  | some t ↦ elim (int_of (strip sms)) [ none ↦ entries | some n ↦ (t, n) ∷ entries ]
]
add_entry _ entries = entries

unfoldable pub parse_trace : List Str → List (ℤ × ℤ)
unfolding add_entry
parse_trace [] = []
parse_trace (line ∷ lines) =
    let rest = parse_trace lines in
    let stripped = strip line in
    if is_empty stripped || starts_with stripped (codes "#")
    then rest
    else add_entry (split b',' stripped) rest
