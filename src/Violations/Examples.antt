-- ===== src/Violations/Examples.antt =====
-- Two steps of 30 and 40 multiprocessors that meet at 100, and a call from 50 to 120.
use morphling.Prelude.{Elem, suc, ◌≤◌, ◌≡◌, ◌↔◌, refl, none, some, List, [], ◌∷◌, length, arith}
use morphling.Prelude.Int.{ℤ, pos, ◌≤ℤ◌, ◌+ℤ◌, ◌-ℤ◌}
use morphling.Str.{codes, int_of, signed_value, strip, digits_value}
use morphling.Py.{Error, raise, ok}
use morphling.Dict.{lookup, put}
use morphling.Sort.{sort}
use morphling.Violations.{
  GemmCall, StepSlot, StepViolationSummary, assign_gemms_to_steps, detect_violations,
  merged_intervals, intervals_of, slot_map_from, compute_violation_time_ns,
}
use morphling.Violations.Bisect.{rank}
use morphling.Violations.Assign.{starts, Has, assign_gemms_to_steps-rank}
use morphling.Violations.Detect.{report, summary_of, detect_violations-report}
use morphling.Violations.Parse.{
  DictRow, TableRow, gemm_of, gemms_of, kept, parse_gemm_log, table_slots, set_ends,
  parse_trace_boundaries,
}
use morphling.Violations.Report.{total_violations, total_wall_ns}
use morphling.Violations.Run.{analyze}
use morphling.Violations.Wall.{AreSequential, analyze_fits}
use morphling.Violations.Boundaries.{AreAdjacent, parse_trace_boundaries-AreAdjacent}
use morphling.Violations.Merge.{covers, AreApart, merged_intervals-covers}

abbrev call : GemmCall
call = record {
  name = [];
  start_ns = pos 50;
  end_ns = pos 120;
  duration_ns = pos 70;
  m = pos 1;
  n = pos 1;
  k = pos 1;
}

abbrev slot : ℤ → ℤ → ℤ → ℤ → StepSlot
slot step start end sm = record { step = step; start_ns = start; end_ns = end; sm_count = sm }

abbrev slots : List StepSlot
slots = slot (pos 0) (pos 0) (pos 100) (pos 30) ∷ slot (pos 1) (pos 100) (pos 200) (pos 40) ∷ []

abbrev summaries : List StepViolationSummary
summaries =
    summary_of (slot (pos 0) (pos 0) (pos 100) (pos 30)) (slot (pos 1) (pos 100) (pos 200) (pos 40))
      (call ∷ [])
    ∷ []

assign_gemms_to_steps-rank_example :
    Has slots 0 call (assign_gemms_to_steps (call ∷ []) slots)
    ↔ (Elem call (call ∷ []) × (rank (pos 50) (starts slots) ≡ suc 0))
assign_gemms_to_steps-rank_example =
    assign_gemms_to_steps-rank (call ∷ []) slots 0 call ((omega arith, tt), (tt, tt))

detect_violations-report_example :
    detect_violations slots ((0, call ∷ []) ∷ []) (pos 48)
    ≡ report 0 slots ((0, call ∷ []) ∷ []) (pos 48)
detect_violations-report_example = detect_violations-report slots ((0, call ∷ []) ∷ []) (pos 48)

merged_intervals-covers_example :
    AreApart (merged_intervals summaries slots)
    × (covers (pos 110) (merged_intervals summaries slots)
        ≡ covers (pos 110) (intervals_of (slot_map_from [] slots) summaries))
merged_intervals-covers_example = merged_intervals-covers summaries slots (pos 110)

analyze_fits_example :
    (total_violations (analyze (call ∷ [], slots) (pos 48)).0 ≤ 1)
    × (length (analyze (call ∷ [], slots) (pos 48)).0 ≤ 1)
    × (pos 0 ≤ℤ (analyze (call ∷ [], slots) (pos 48)).1)
    × ((analyze (call ∷ [], slots) (pos 48)).1 ≤ℤ total_wall_ns slots)
analyze_fits_example =
    analyze_fits (call ∷ []) (slot (pos 0) (pos 0) (pos 100) (pos 30))
      (slot (pos 1) (pos 100) (pos 200) (pos 40) ∷ []) (pos 48)
      (omega arith, omega arith, omega arith)

-- The call runs into the second step for 20 ns.
analyze_one_call : (analyze (call ∷ [], slots) (pos 48)).1 ≡ pos 20
unfolding analyze compute_violation_time_ns sort detect_violations ◌+ℤ◌ lookup assign_gemms_to_steps
    put ◌-ℤ◌
analyze_one_call = refl

abbrev trace_row : ℤ → ℤ → TableRow
trace_row t n = (codes "time_slot_sched_ns", ok t) ∷ (codes "sm_count", ok n) ∷ []

abbrev trace_rows : List TableRow
trace_rows = trace_row (pos 0) (pos 30) ∷ trace_row (pos 100) (pos 40) ∷ []

abbrev trace_slots : List StepSlot
trace_slots =
    slot (pos 0) (pos 0) (pos 100) (pos 30) ∷ slot (pos 1) (pos 100) (pos 1000100) (pos 40) ∷ []

trace_slots_read : parse_trace_boundaries trace_rows ≡ ok trace_slots
unfolding parse_trace_boundaries table_slots set_ends lookup ◌+ℤ◌
trace_slots_read = refl

parse_trace_boundaries-AreAdjacent_example : AreAdjacent trace_slots × AreSequential trace_slots
parse_trace_boundaries-AreAdjacent_example =
    parse_trace_boundaries-AreAdjacent trace_rows trace_slots trace_slots_read (omega arith, tt)

-- The line "gemm,5" under the columns that the interceptor writes.
abbrev short_row : DictRow
short_row =
    (codes "function_name", some (codes "gemm"))
    ∷ (codes "start_ns", some (codes "5"))
    ∷ (codes "end_ns", none)
    ∷ (codes "duration_ns", none)
    ∷ []

short_row_raises : parse_gemm_log (short_row ∷ []) ≡ raise Error.type_error
unfolding parse_gemm_log gemms_of gemm_of kept lookup int_of signed_value strip digits_value
short_row_raises = refl
