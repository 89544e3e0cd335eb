-- ===== src/Violations/Run.antt =====
-- scripts/analyze_violations.py, main: the analysis over the files that the arguments name.
use morphling.Prelude.{Bool, true, false, Option, none, some, List, [], ◌∷◌}
use morphling.Prelude.Int.{ℤ}
use morphling.Str.{Str}
use morphling.Py.{Result, ok, ◌>>=◌}
use morphling.Float.{Float}
use morphling.Json.{Json}
use morphling.Violations.{
  GemmCall, StepSlot, StepViolationSummary, assign_gemms_to_steps, detect_violations,
  compute_violation_time_ns,
}
use morphling.Violations.Parse.{
  DictRow, TableRow, parse_gemm_log, parse_step_boundaries, parse_autograd_log,
  parse_trace_boundaries,
}
use morphling.Violations.Report.{Printing, write_report}
use morphling.Violations.Summaries.{write_csv_summary, write_json_summary}

-- A path that the command line may name: `some none` is a path without a file.
abbrev pub File : Type 0 → Type 0
File A = Option (Option A)

-- The parsed command line; the trace is read as a table.
pub record Args (F : Type 0) : Type 0 where
  pub autograd : Bool
  pub gemm_log : File (List DictRow)
  pub autograd_log : File (Json F)
  pub step_log : File (List DictRow)
  pub trace : File (List TableRow)
  pub max_sm_count : ℤ
  pub has_output_csv : Bool
  pub has_output_json : Bool
  pub top_n : ℤ
  pub verbose : Bool

pub record Written (F : Type 0) : Type 0 where
  pub report : Str
  pub csv : Option Str
  pub json : Option (Json F)

-- How the program ends, unless an exception does.
pub data Outcome (F : Type 0) : Type 0 where
  exit_one : Outcome F
  insufficient_steps : Outcome F
  written : Written F → Outcome F

-- The tests on two paths in the order of the code; exit with 1 is `none`.
abbrev both : {A B : Type 0} → File A → File B → Option (A × B)
both (some (some a)) (some (some b)) = some (a, b)
both _ _ = none

abbrev pub Logs : Type 0
Logs = List GemmCall × List StepSlot

-- The violations and their time.
unfoldable pub analyze : Logs → ℤ → List StepViolationSummary × ℤ
analyze (gemms, slots) max_sm =
    let summaries = detect_violations slots (assign_gemms_to_steps gemms slots) max_sm in
    (summaries, compute_violation_time_ns summaries slots)

module _ {F : Type 0} (f : Float F) (str_of : Json F → Str) (printing : Printing F) where
  -- The calls and the slots of the logs; the trace beside CSV logs is only counted in a message.
  unfoldable pub load_logs : Args F → Result (Option Logs)
  load_logs args = elim args.autograd [
    | true ↦ elim (both args.autograd_log args.trace) [
      | none ↦ ok none
      | some (entries, table) ↦ do
        gemms ← parse_autograd_log f str_of entries
        slots ← parse_trace_boundaries table
        ok (some (gemms, slots))
    ]
    | false ↦ elim (both args.gemm_log args.step_log) [
      | none ↦ ok none
      | some (calls, steps) ↦ do
        gemms ← parse_gemm_log calls
        slots ← parse_step_boundaries steps
        ok (some (gemms, slots))
    ]
  ]

  abbrev when : {A : Type 0} → Bool → A → Option A
  when true a = some a
  when false a = none

  unfoldable pub report_on : Args F → Logs → Outcome F
  unfolding analyze
  report_on args (gemms, slots) =
      let (summaries, time) = analyze (gemms, slots) args.max_sm_count in
      written record {
        report =
            write_report f printing gemms slots summaries time args.max_sm_count args.top_n
              args.verbose;
        csv = when args.has_output_csv (write_csv_summary summaries);
        json = when args.has_output_json (write_json_summary f gemms slots summaries time);
      }

  -- Fewer than two slots have no boundary.
  unfoldable pub conclude : Args F → Option Logs → Outcome F
  unfolding report_on
  conclude args none = exit_one
  conclude args (some (gemms, [])) = insufficient_steps
  conclude args (some (gemms, slot ∷ [])) = insufficient_steps
  conclude args (some (gemms, slot ∷ next ∷ slots)) = report_on args (gemms, slot ∷ next ∷ slots)

  unfoldable pub main : Args F → Result (Outcome F)
  unfolding load_logs conclude
  main args = do logs ← load_logs args; ok (conclude args logs)
