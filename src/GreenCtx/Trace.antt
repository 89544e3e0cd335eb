-- ===== src/GreenCtx/Trace.antt =====
-- morphling/runtime/greenctx/trace.py: the trace file's parser, over the lines of the file, and
-- the step function that a trace stands for.
pub mod Rows
pub mod Lookup
pub mod Units
mod Examples
use morphling.Prelude.{
  ℕ, Bool, true, false, Option, none, some, List, [], ◌∷◌, ◌++◌, ◌==◌, if◌then◌else◌,
}
use morphling.Prelude.Int.{ℤ, leb_ℤ, scale}
use morphling.Str.{
  Str, codes, is_empty, str_eq, strip, starts_with, after_first, drop_while, split, int_of,
}

-- The variables of the parser's loop.
pub record Parsed : Type 0 where
  pub entries : List (ℤ × ℤ)
  pub time_unit : Str
  pub clock_mode : Str
  pub header_skipped : Bool

abbrev pub start : Parsed
start = record {
  entries = [];
  time_unit = codes "us";
  clock_mode = codes "step";
  header_skipped = false;
}

-- `time_unit=` and `clock_mode=` set their field to what stands behind the first `=`.
directive : Str → Parsed → Parsed
directive d p =
    if starts_with d (codes "time_unit=")
    then record p { time_unit = after_first b'=' d }
    else if starts_with d (codes "clock_mode=")
    then record p { clock_mode = after_first b'=' d }
    else p

-- `entries.append((ts, sms))`, where both are integers.
append_row : Option ℤ → Option ℤ → Parsed → Parsed
append_row (some ts) (some sms) p = record p { entries = p.entries ++ (ts, sms) ∷ [] }
append_row _ _ p = p

-- The last `if` of the body; `split` gives at least one field.
row : List Str → Parsed → Parsed
row (a ∷ b ∷ _) p = append_row (int_of a) (int_of b) p
row _ p = p

first_int : List Str → Option ℤ
first_int [] = none
first_int (a ∷ _) = int_of a

-- The `if not header_skipped` block: the first line that is no directive is passed over if its
-- first field is no integer.
after_header : List Str → Option ℤ → Parsed → Parsed
after_header parts none p =
    if p.header_skipped then row parts p else record p { header_skipped = true }
after_header parts (some _) p = row parts (record p { header_skipped = true })

-- One line of the file, stripped.
parse_line : Str → Parsed → Parsed
parse_line line p =
    if is_empty line
    then p
    else if starts_with line (codes "#")
    then directive (strip (drop_while (λ c. c == b'#') line)) p
    else if starts_with line (codes "time_unit=")
    then record p { time_unit = after_first b'=' line }
    else if starts_with line (codes "clock_mode=")
    then record p { clock_mode = after_first b'=' line }
    else (let parts = split b',' line in after_header parts (first_int parts) p)

pub parse_lines : Parsed → List Str → Parsed
parse_lines p [] = p
parse_lines p (line ∷ lines) = parse_lines (parse_line (strip line) p) lines

unfoldable pub parse_trace_file : List Str → Parsed
parse_trace_file lines = parse_lines start lines

-- The loop of `_sm_count_at_step`: `break` at the first entry that lies ahead.
unfoldable pub sm_count_at_step : List (ℤ × ℤ) → ℤ → ℤ → ℤ
sm_count_at_step [] step result = result
sm_count_at_step ((ts, sms) ∷ entries) step result =
    let rest = sm_count_at_step entries step sms in if leb_ℤ ts step then rest else result

-- Microseconds for one unit of the trace's time stamps.
unfoldable pub scale_of : Str → ℕ
scale_of time_unit =
    if str_eq time_unit (codes "s")
    then 1_000_000
    else if str_eq time_unit (codes "ms")
    then 1_000
    else 1

unfoldable pub sm_count_loop : List (ℤ × ℤ) → ℤ → ℕ → ℤ → ℤ
sm_count_loop [] elapsed_us k result = result
sm_count_loop ((ts, sms) ∷ entries) elapsed_us k result =
    let rest = sm_count_loop entries elapsed_us k sms in
    if leb_ℤ (scale ts k) elapsed_us then rest else result

unfoldable pub sm_count_at_time : List (ℤ × ℤ) → ℤ → Str → ℤ → ℤ
sm_count_at_time entries elapsed_us time_unit default_sm =
    sm_count_loop entries elapsed_us (scale_of time_unit) default_sm
