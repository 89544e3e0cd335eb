-- ===== src/Violations.antt =====
-- scripts/analyze_violations.py: GEMM calls that run past the end of their step while the step and
-- the next one take more multiprocessors together than there are.
pub mod Bisect
pub mod Assign
pub mod Detect
pub mod Merge
pub mod Parse
pub mod Counts
pub mod Wall
pub mod Boundaries
pub mod Report
pub mod Summaries
pub mod Run
mod Examples
use morphling.Prelude.{
  ℕ, zero, suc, ◌+◌, ◌-◌, ◌/◌, Bool, true, false, ◌&&◌, ◌||◌, Option, none, some, List, [], ◌∷◌,
  ◌++◌, map, length, get_elem?, ltb, if◌then◌else◌,
}
use morphling.Prelude.Int.{ℤ, pos, ◌+ℤ◌, ◌-ℤ◌, ltb_ℤ, leb_ℤ, eqb_ℤ, min_ℤ, max_ℤ}
use morphling.Str.{Str}
use morphling.Dict.{lookup, put, int_eq, nat_eq}
use morphling.Sort.{sort}

pub record GemmCall : Type 0 where
  pub name : Str
  pub start_ns : ℤ
  pub end_ns : ℤ
  pub duration_ns : ℤ
  pub m : ℤ
  pub n : ℤ
  pub k : ℤ

pub record StepSlot : Type 0 where
  pub step : ℤ
  pub start_ns : ℤ
  pub end_ns : ℤ
  pub sm_count : ℤ

pub record Violation : Type 0 where
  pub step : ℤ
  pub next_step : ℤ
  pub sm_this : ℤ
  pub sm_next : ℤ
  pub gemm : GemmCall
  pub overshoot_ns : ℤ

pub record StepViolationSummary : Type 0 where
  pub step : ℤ
  pub next_step : ℤ
  pub sm_this : ℤ
  pub sm_next : ℤ
  pub sm_total : ℤ
  pub num_violations : ℕ
  pub max_overshoot_ns : ℤ
  pub total_overshoot_ns : ℤ
  pub violations : List Violation

-- Python's `bisect.bisect_right`: the search halves `hi - lo`, which the fuel bounds.
unfoldable pub bisect_loop : ℕ → List ℤ → ℤ → ℕ → ℕ → ℕ
bisect_loop zero a x lo hi = lo
bisect_loop (suc f) a x lo hi =
    let mid = (lo + hi) / 2 in
    let left = bisect_loop f a x lo mid in
    let right = bisect_loop f a x (mid + 1) hi in
    if ltb lo hi
    then elim (get_elem? a mid) [ some v ↦ if ltb_ℤ x v then left else right | none ↦ lo ]
    else lo

unfoldable pub bisect_right : List ℤ → ℤ → ℕ
unfolding bisect_loop
bisect_right a x = bisect_loop (length a) a x 0 (length a)

-- `{i: [] for i in range(len(slots))}`
unfoldable pub empty_from : ℕ → List StepSlot → List (ℕ × List GemmCall)
empty_from i [] = []
empty_from i (slot ∷ slots) = (i, []) ∷ empty_from (i + 1) slots

abbrev pub or_empty : Option (List GemmCall) → List GemmCall
or_empty none = []
or_empty (some gs) = gs

-- `result[idx].append(g)`, where `idx` is the insertion point less one.
abbrev pub append_at : ℕ → GemmCall → List (ℕ × List GemmCall) → List (ℕ × List GemmCall)
append_at idx g result = put idx (or_empty (lookup idx result) ++ g ∷ []) result

abbrev pub place : ℕ → ℕ → GemmCall → List (ℕ × List GemmCall) → List (ℕ × List GemmCall)
place count zero g result = result
place count (suc idx) g result = if ltb idx count then append_at idx g result else result

unfoldable pub assign_loop :
    List StepSlot → List GemmCall → List (ℕ × List GemmCall) → List (ℕ × List GemmCall)
unfolding bisect_right
assign_loop slots [] result = result
assign_loop slots (g ∷ gemms) result =
    assign_loop slots gemms
      (place (length slots) (bisect_right (map (λ s. s.start_ns) slots) g.start_ns) g result)

unfoldable pub assign_gemms_to_steps : List GemmCall → List StepSlot → List (ℕ × List GemmCall)
unfolding assign_loop empty_from
assign_gemms_to_steps gemms slots = assign_loop slots gemms (empty_from 0 slots)

-- The summary of two slots, before any violation.
unfoldable pub new_summary : StepSlot → StepSlot → StepViolationSummary
new_summary cur nxt = record {
  step = cur.step;
  next_step = nxt.step;
  sm_this = cur.sm_count;
  sm_next = nxt.sm_count;
  sm_total = cur.sm_count +ℤ nxt.sm_count;
  num_violations = 0;
  max_overshoot_ns = pos 0;
  total_overshoot_ns = pos 0;
  violations = [];
}

unfoldable pub violation : StepSlot → StepSlot → GemmCall → Violation
violation cur nxt g = record {
  step = cur.step;
  next_step = nxt.step;
  sm_this = cur.sm_count;
  sm_next = nxt.sm_count;
  gemm = g;
  overshoot_ns = g.end_ns -ℤ nxt.start_ns;
}

unfoldable pub add_violation : Violation → StepViolationSummary → StepViolationSummary
add_violation v s = record s {
  num_violations = s.num_violations + 1;
  total_overshoot_ns = s.total_overshoot_ns +ℤ v.overshoot_ns;
  max_overshoot_ns = max_ℤ s.max_overshoot_ns v.overshoot_ns;
  violations = s.violations ++ v ∷ [];
}

-- The loop over the GEMM calls of a step.
unfoldable pub tally :
    StepSlot → StepSlot → List GemmCall → StepViolationSummary → StepViolationSummary
unfolding violation add_violation
tally cur nxt [] s = s
tally cur nxt (g ∷ gs) s =
    tally cur nxt gs
      (if ltb_ℤ nxt.start_ns g.end_ns then add_violation (violation cur nxt g) s else s)

-- The body of the loop over the boundaries, in front of what the later boundaries give.
unfoldable pub at_boundary :
    StepSlot → StepSlot → List GemmCall → ℤ → List StepViolationSummary → List StepViolationSummary
unfolding new_summary tally
at_boundary cur nxt gs max_sm later =
    let s = tally cur nxt gs (new_summary cur nxt) in
    if leb_ℤ (cur.sm_count +ℤ nxt.sm_count) max_sm
    then later
    else if ltb 0 s.num_violations
    then s ∷ later
    else later

unfoldable pub detect_from :
    ℕ → List StepSlot → List (ℕ × List GemmCall) → ℤ → List StepViolationSummary
unfolding at_boundary
detect_from i [] step_gemms max_sm = []
detect_from i (cur ∷ []) step_gemms max_sm = []
detect_from i (cur ∷ nxt ∷ slots) step_gemms max_sm =
    at_boundary cur nxt (or_empty (lookup i step_gemms)) max_sm
      (detect_from (i + 1) (nxt ∷ slots) step_gemms max_sm)

unfoldable pub detect_violations :
    List StepSlot → List (ℕ × List GemmCall) → ℤ → List StepViolationSummary
unfolding detect_from
detect_violations slots step_gemms max_sm = detect_from 0 slots step_gemms max_sm

-- `{s.step: s for s in slots}`
unfoldable pub slot_map_from : List (ℤ × StepSlot) → List StepSlot → List (ℤ × StepSlot)
slot_map_from d [] = d
slot_map_from d (s ∷ slots) = slot_map_from (put s.step s d) slots

-- `[nxt.start_ns, min(v.gemm.end_ns, nxt.end_ns))` of each violation, if it is not empty.
unfoldable pub cut_all : StepSlot → List Violation → List (ℤ × ℤ)
cut_all nxt [] = []
cut_all nxt (v ∷ vs) =
    let rest = cut_all nxt vs in
    let end_ns = min_ℤ v.gemm.end_ns nxt.end_ns in
    if ltb_ℤ nxt.start_ns end_ns then (nxt.start_ns, end_ns) ∷ rest else rest

unfoldable pub intervals_of : List (ℤ × StepSlot) → List StepViolationSummary → List (ℤ × ℤ)
unfolding cut_all
intervals_of slot_map [] = []
intervals_of slot_map (s ∷ summaries) =
    let rest = intervals_of slot_map summaries in
    elim (lookup s.next_step slot_map) [ none ↦ rest | some nxt ↦ cut_all nxt s.violations ++ rest ]

-- The order of pairs.
abbrev pub pair_leb : ℤ × ℤ → ℤ × ℤ → Bool
pair_leb p q = ltb_ℤ p.0 q.0 || eqb_ℤ p.0 q.0 && leb_ℤ p.1 q.1

-- The loop that merges, with the last merged interval at hand.
unfoldable pub merge_from : ℤ × ℤ → List (ℤ × ℤ) → List (ℤ × ℤ)
merge_from last [] = last ∷ []
merge_from last ((s, e) ∷ intervals) =
    let joined = merge_from (last.0, max_ℤ last.1 e) intervals in
    let apart = last ∷ merge_from (s, e) intervals in if leb_ℤ s last.1 then joined else apart

unfoldable pub merge : List (ℤ × ℤ) → List (ℤ × ℤ)
unfolding merge_from
merge [] = []
merge (i ∷ intervals) = merge_from i intervals

unfoldable pub total_length : List (ℤ × ℤ) → ℤ
total_length [] = pos 0
total_length ((s, e) ∷ intervals) = (e -ℤ s) +ℤ total_length intervals

unfoldable pub merged_intervals : List StepViolationSummary → List StepSlot → List (ℤ × ℤ)
unfolding intervals_of slot_map_from merge
merged_intervals summaries slots =
    merge (sort pair_leb (intervals_of (slot_map_from [] slots) summaries))

unfoldable pub compute_violation_time_ns : List StepViolationSummary → List StepSlot → ℤ
unfolding merged_intervals total_length
compute_violation_time_ns summaries slots = total_length (merged_intervals summaries slots)
