-- ===== src/Violations/Summaries.antt =====
-- scripts/analyze_violations.py, write_csv_summary and write_json_summary: a line for each summary,
-- and the JSON value that is written.
use morphling.Prelude.{ℕ, ◌-◌, List, [], ◌∷◌, ◌++◌, map, length}
use morphling.Prelude.Int.{ℤ, pos}
use morphling.Str.{Str, codes, join, show, show_ℕ}
use morphling.Float.{Float, literal}
use morphling.Json.{Json, int, float, array, object, Items, Fields, nil, cons, end, field}
use morphling.Violations.{GemmCall, StepSlot, StepViolationSummary}
use morphling.Violations.Report.{newline, at_least_one, total_violations}

-- A row of the CSV summary and its end of line.
unfoldable pub csv_row : List Str → Str
csv_row cells = join b',' cells ++ 13 ∷ newline

unfoldable pub csv_summaries : List StepViolationSummary → Str
unfolding csv_row
csv_summaries [] = []
csv_summaries (s ∷ summaries) =
    csv_row (
      show s.step
      ∷ show s.next_step
      ∷ show s.sm_this
      ∷ show s.sm_next
      ∷ show s.sm_total
      ∷ show_ℕ s.num_violations
      ∷ show s.max_overshoot_ns
      ∷ show s.total_overshoot_ns
      ∷ [])
    ++ csv_summaries summaries

unfoldable pub write_csv_summary : List StepViolationSummary → Str
unfolding csv_summaries
write_csv_summary summaries =
    csv_row (
      codes "step"
      ∷ codes "next_step"
      ∷ codes "sm_this"
      ∷ codes "sm_next"
      ∷ codes "sm_total"
      ∷ codes "num_violations"
      ∷ codes "max_overshoot_ns"
      ∷ codes "total_overshoot_ns"
      ∷ [])
    ++ csv_summaries summaries

module _ {F : Type 0} (f : Float F) where
  abbrev fields : List (Str × Json F) → Fields F
  fields [] = end
  fields ((k, v) ∷ kvs) = field k v (fields kvs)

  abbrev items : List (Json F) → Items F
  items [] = nil
  items (x ∷ xs) = cons x (items xs)

  abbrev count : ℕ → Json F
  count n = int (pos n)

  -- An item of `violations_per_step`, of `per_step_violations` and of `per_slot_summary`.
  unfoldable pub step_count : StepViolationSummary → Json F
  step_count s =
      object
        (fields ((codes "step", int s.step) ∷ (codes "violations", count s.num_violations) ∷ []))

  unfoldable pub step_overshoot : StepViolationSummary → Json F
  step_overshoot s = object (
      fields (
        (codes "step", int s.step)
        ∷ (codes "violations", count s.num_violations)
        ∷ (codes "max_overshoot_ns", int s.max_overshoot_ns)
        ∷ (codes "total_overshoot_ns", int s.total_overshoot_ns)
        ∷ []))

  unfoldable pub slot_summary : StepViolationSummary → Json F
  slot_summary s = object (
      fields (
        (codes "step", int s.step)
        ∷ (codes "next_step", int s.next_step)
        ∷ (codes "sm_this", int s.sm_this)
        ∷ (codes "sm_next", int s.sm_next)
        ∷ (codes "sm_total", int s.sm_total)
        ∷ (codes "num_violations", count s.num_violations)
        ∷ (codes "max_overshoot_ns", int s.max_overshoot_ns)
        ∷ (codes "total_overshoot_ns", int s.total_overshoot_ns)
        ∷ []))

  unfoldable pub write_json_summary :
      List GemmCall → List StepSlot → List StepViolationSummary → ℤ → Json F
  unfolding step_count step_overshoot slot_summary total_violations
  write_json_summary gemms slots summaries violation_time_ns =
      let total_boundaries = at_least_one (length slots - 1) in
      let total = total_violations summaries in
      let time = f.of_int violation_time_ns in
      object (
        fields (
          (codes "total_violations", count total)
          ∷ (codes "total_violation_time_ms", float (f.over time (literal f 1000000)))
          ∷ (codes "violations_per_step", array (items (map step_count summaries)))
          ∷ (
            codes "avg_violation_duration_us",
            float (f.over (f.over time (literal f (at_least_one total))) (literal f 1000)),
          )
          ∷ (codes "per_slot_summary", array (items (map slot_summary summaries)))
          ∷ (codes "total_slots", count (length slots))
          ∷ (codes "slots_with_violations", count (length summaries))
          ∷ (
            codes "violation_pct",
            float (
                f.over (f.times (literal f 100) (literal f (length summaries)))
                  (literal f total_boundaries)),
          )
          ∷ (codes "total_gemms", count (length gemms))
          ∷ (codes "violating_gemms", count total)
          ∷ (codes "total_violation_time_ns", int violation_time_ns)
          ∷ (codes "per_step_violations", array (items (map step_overshoot summaries)))
          ∷ []))
