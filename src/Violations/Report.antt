-- ===== src/Violations/Report.antt =====
-- scripts/analyze_violations.py, format_ns and write_report: the report as a text. How a float
-- prints is a parameter.
use morphling.Prelude.{
  ℕ, zero, suc, ◌-◌, Bool, List, [], ◌∷◌, ◌++◌, map, sum, length, ltb, if◌then◌else◌,
}
use morphling.Prelude.Int.{ℤ, pos, negsuc, ◌+ℤ◌, ◌-ℤ◌, ltb_ℤ, leb_ℤ, eqb_ℤ}
use morphling.Str.{Str, codes, show, show_ℕ}
use morphling.Float.{Float, literal}
use morphling.Sort.{sort}
use morphling.Violations.{GemmCall, StepSlot, Violation, StepViolationSummary}

-- `fixed d x` is the text of x with d decimals, and `quotient a b` is a / b of two integers.
pub record Printing (F : Type 0) : Type 0 where
  pub fixed : ℕ → F → Str
  pub quotient : ℤ → ℕ → F

abbrev concat : List Str → Str
concat [] = []
concat (s ∷ parts) = s ++ concat parts

abbrev pub newline : Str
newline = 10 ∷ []

-- `max(n, 1)`
abbrev pub at_least_one : ℕ → ℕ
at_least_one n = if ltb n 1 then 1 else n

unfoldable pub total_violations : List StepViolationSummary → ℕ
total_violations summaries = sum (map (λ (s : StepViolationSummary). s.num_violations) summaries)

-- `slots[-1].end_ns`, after the slots before it.
abbrev pub last_end : ℤ → List StepSlot → ℤ
last_end e [] = e
last_end e (slot ∷ slots) = last_end slot.end_ns slots

unfoldable pub total_wall_ns : List StepSlot → ℤ
total_wall_ns [] = pos 0
total_wall_ns (slot ∷ slots) = last_end slot.end_ns slots -ℤ slot.start_ns

abbrev take : {A : Type 0} → ℕ → List A → List A
take zero xs = []
take (suc n) [] = []
take (suc n) (x ∷ xs) = x ∷ take n xs

-- `xs[:n]`, where a negative bound counts from the end.
unfoldable pub take_to : {A : Type 0} → ℤ → List A → List A
take_to (pos n) xs = take n xs
take_to (negsuc n) xs = take (length xs - suc n) xs

-- `sorted(summaries, key=max_overshoot_ns, reverse=True)`: equal keys keep their order.
unfoldable pub ranked : List StepViolationSummary → List StepViolationSummary
ranked summaries = sort (λ a b. leb_ℤ b.max_overshoot_ns a.max_overshoot_ns) summaries

abbrev all_violations : List StepViolationSummary → List Violation
all_violations [] = []
all_violations (s ∷ summaries) = s.violations ++ all_violations summaries

module _ {F : Type 0} (f : Float F) (printing : Printing F) where
  unfoldable pub format_ns : ℤ → Str
  format_ns ns =
      if ltb_ℤ ns (pos 1000)
      then show ns ++ codes "ns"
      else if ltb_ℤ ns (pos 1000000)
      then printing.fixed 2 (printing.quotient ns 1000) ++ codes "us"
      else if ltb_ℤ ns (pos 1000000000)
      then printing.fixed 2 (printing.quotient ns 1000000) ++ codes "ms"
      else printing.fixed 3 (printing.quotient ns 1000000000) ++ codes "s"

  -- `100.0 * part / whole`
  abbrev percent : ℤ → ℤ → F
  percent part whole = f.over (f.times (literal f 100) (f.of_int part)) (f.of_int whole)

  unfoldable pub configuration_text : ℤ → List GemmCall → List StepSlot → Str
  unfolding format_ns total_wall_ns
  configuration_text max_sm gemms slots = concat (
      codes "=== SM Partition Violation Analysis ==="
      ∷ newline
      ∷ newline
      ∷ codes "Configuration:"
      ∷ newline
      ∷ codes "  Max SM count threshold: "
      ∷ show max_sm
      ∷ newline
      ∷ codes "  GEMM log entries: "
      ∷ show_ℕ (length gemms)
      ∷ newline
      ∷ codes "  Training steps: "
      ∷ show_ℕ (length slots)
      ∷ newline
      ∷ codes "  Total wall time: "
      ∷ format_ns (total_wall_ns slots)
      ∷ newline
      ∷ newline
      ∷ [])

  unfoldable pub summary_text : List GemmCall → List StepSlot → List StepViolationSummary → ℤ → Str
  unfolding format_ns total_wall_ns total_violations
  summary_text gemms slots summaries violation_time_ns =
      let total_boundaries = at_least_one (length slots - 1) in
      let wall = total_wall_ns slots in
      let violating = total_violations summaries in
      let pct_time = if eqb_ℤ wall (pos 0) then f.zero else percent violation_time_ns wall in
      concat (
        codes "Summary:"
        ∷ newline
        ∷ codes "  Slots with violations: "
        ∷ show_ℕ (length summaries)
        ∷ codes "/"
        ∷ show_ℕ total_boundaries
        ∷ codes " ("
        ∷ printing.fixed 2 (percent (pos (length summaries)) (pos total_boundaries))
        ∷ codes "%)"
        ∷ newline
        ∷ codes "  Time with violations: "
        ∷ format_ns violation_time_ns
        ∷ codes " / "
        ∷ format_ns wall
        ∷ codes " ("
        ∷ printing.fixed 4 pct_time
        ∷ codes "%)"
        ∷ newline
        ∷ codes "  Total violating GEMM calls: "
        ∷ show_ℕ violating
        ∷ codes "/"
        ∷ show_ℕ (length gemms)
        ∷ codes " ("
        ∷ printing.fixed 2 (percent (pos violating) (pos (at_least_one (length gemms))))
        ∷ codes "%)"
        ∷ newline
        ∷ newline
        ∷ [])

  unfoldable pub step_text : ℤ → StepViolationSummary → Str
  unfolding format_ns
  step_text max_sm s = concat (
      codes "  Step "
      ∷ show s.step
      ∷ codes "->"
      ∷ show s.next_step
      ∷ codes ": "
      ∷ show_ℕ s.num_violations
      ∷ codes " violations, max_overshoot="
      ∷ format_ns s.max_overshoot_ns
      ∷ codes ", sm_pressure="
      ∷ show s.sm_this
      ∷ codes "+"
      ∷ show s.sm_next
      ∷ codes "="
      ∷ show s.sm_total
      ∷ codes " > "
      ∷ show max_sm
      ∷ newline
      ∷ [])

  unfoldable pub violation_text : Violation → Str
  unfolding format_ns
  violation_text v = concat (
      codes "  step="
      ∷ show v.step
      ∷ codes " gemm="
      ∷ v.gemm.name
      ∷ codes " m="
      ∷ show v.gemm.m
      ∷ codes " n="
      ∷ show v.gemm.n
      ∷ codes " k="
      ∷ show v.gemm.k
      ∷ codes " overshoot="
      ∷ format_ns v.overshoot_ns
      ∷ codes " sm="
      ∷ show v.sm_this
      ∷ codes "+"
      ∷ show v.sm_next
      ∷ codes "="
      ∷ show (v.sm_this +ℤ v.sm_next)
      ∷ newline
      ∷ [])

  -- The two lists of the report: steps by overshoot, and violations, twenty at most unless
  -- `verbose`.
  unfoldable pub ranking_text : ℤ → ℤ → Bool → List StepViolationSummary → Str
  unfolding step_text violation_text ranked take_to
  ranking_text max_sm top_n verbose summaries =
      let steps = ranked summaries in
      let shown = if verbose then steps else take_to top_n steps in
      let found = all_violations steps in
      concat (
        codes "Per-step violations (top "
        ∷ show_ℕ (length shown)
        ∷ codes " by overshoot):"
        ∷ newline
        ∷ concat (map (step_text max_sm) shown)
        ∷ newline
        ∷ codes "Detailed violations (first "
        ∷ (if verbose then codes "all" else codes "20")
        ∷ codes "):"
        ∷ newline
        ∷ concat (map violation_text (if verbose then found else take 20 found))
        ∷ newline
        ∷ [])

  unfoldable pub write_report :
      List GemmCall → List StepSlot → List StepViolationSummary → ℤ → ℤ → ℤ → Bool → Str
  unfolding configuration_text summary_text ranking_text
  write_report gemms slots summaries violation_time_ns max_sm top_n verbose =
      configuration_text max_sm gemms slots
      ++ (summary_text gemms slots summaries violation_time_ns ++ elim summaries [
        | [] ↦ codes "No violations detected." ++ newline
        | s ∷ later ↦ ranking_text max_sm top_n verbose (s ∷ later)
      ])
