-- ===== src/Violations/Counts.antt =====
-- The counts of the analysis: at most one violation for each call, and one summary for each
-- boundary.
use morphling.Prelude.{
  ℕ, zero, suc, ◌+◌, ◌-◌, ◌≤◌, ◌≡◌, refl, Bool-cases, inl, inr, List, [], ◌∷◌, ◌++◌, arith, length,
  length-append, map, ltb, leb, ◌==◌, if_ind, if◌then◌else◌,
}
use morphling.Prelude.Int.{ℤ, leb_ℤ, ltb_ℤ, ◌+ℤ◌}
use morphling.Dict.{lookup, put, nat_eq}
use morphling.Violations.{
  GemmCall, StepSlot, StepViolationSummary, or_empty, append_at, place, bisect_right, assign_loop,
  assign_gemms_to_steps, empty_from, tally, add_violation, violation, new_summary, at_boundary,
  detect_from, detect_violations,
}
use morphling.Violations.Report.{total_violations}

abbrev Steps : Type 0
Steps = List (ℕ × List GemmCall)

-- How many calls the steps from `i` on hold.
abbrev size_from : ℕ → Steps → ℕ
size_from i [] = 0
size_from i ((j, gs) ∷ d) = (if leb i j then length gs else 0) + size_from i d

size_from-step :
    (i : ℕ) (d : Steps) → length (or_empty (lookup i d)) + size_from (i + 1) d ≤ size_from i d
unfolding lookup
size_from-step i [] = omega arith
size_from-step i ((j, gs) ∷ d) = elim (Bool-cases (j == i)) [
  | inl same ↦ rw same (ground (arith, size_from-step i d))
  | inr other ↦ rw other (ground (arith, size_from-step i d))
]

size_from-put :
    (i idx : ℕ) (v : List GemmCall) (d : Steps)
    → length (or_empty (lookup idx d)) ≤ length v
    → size_from i (put idx v d) + length (or_empty (lookup idx d)) ≤ size_from i d + length v
unfolding lookup put
size_from-put i idx v [] h = ground arith
size_from-put i idx v ((j, gs) ∷ d) h = elim (Bool-cases (j == idx)) [
  | inl same ↦ let h' : length gs ≤ length v = rw same at h in rw same (ground arith)
  | inr other ↦
      let h' : length (or_empty (lookup idx d)) ≤ length v = rw other at h in
      rw other (ground (arith, size_from-put i idx v d h'))
]

size_from-append_at :
    (i idx : ℕ) (g : GemmCall) (d : Steps) → size_from i (append_at idx g d) ≤ size_from i d + 1
size_from-append_at i idx g d =
    let old = or_empty (lookup idx d) in
    let longer = length-append old (g ∷ []) in
    omega (arith, longer, size_from-put i idx (old ++ g ∷ []) d (omega (arith, longer)))

size_from-place :
    (i count idx : ℕ) (g : GemmCall) (d : Steps)
    → size_from i (place count idx g d) ≤ size_from i d + 1
size_from-place i count zero g d = omega arith
size_from-place i count (suc idx) g d =
    if_ind (λ r. size_from i r ≤ size_from i d + 1) (ltb idx count)
      (λ _. size_from-append_at i idx g d) (λ _. omega arith)

size_from-assign_loop :
    (i : ℕ) (slots : List StepSlot) (gemms : List GemmCall) (d : Steps)
    → size_from i (assign_loop slots gemms d) ≤ size_from i d + length gemms
unfolding assign_loop
size_from-assign_loop i slots [] d = omega arith
size_from-assign_loop i slots (g ∷ gemms) d =
    let idx = bisect_right (map (λ (s : StepSlot). s.start_ns) slots) g.start_ns in
    let placed = place (length slots) idx g d in
    omega
      (arith, size_from-assign_loop i slots gemms placed, size_from-place i (length slots) idx g d)

size_from-empty : (i j : ℕ) (slots : List StepSlot) → size_from i (empty_from j slots) ≡ 0
unfolding empty_from
size_from-empty i j [] = refl
size_from-empty i j (slot ∷ slots) = ground (arith, size_from-empty i (j + 1) slots)

tally_bound :
    (cur nxt : StepSlot) (gs : List GemmCall) (s : StepViolationSummary)
    → (tally cur nxt gs s).num_violations ≤ s.num_violations + length gs
unfolding tally add_violation
tally_bound cur nxt [] s = omega arith
tally_bound cur nxt (g ∷ gs) s =
    if_ind
      (λ (t : StepViolationSummary).
        (tally cur nxt gs t).num_violations ≤ s.num_violations + length (g ∷ gs))
      (ltb_ℤ nxt.start_ns g.end_ns)
      (λ _. omega (arith, tally_bound cur nxt gs (add_violation (violation cur nxt g) s)))
      (λ _. omega (arith, tally_bound cur nxt gs s))

-- A boundary adds at most one summary, with at most as many violations as its step has calls.
at_boundary_bound :
    (cur nxt : StepSlot) (gs : List GemmCall) (max_sm : ℤ) (later : List StepViolationSummary)
    → (total_violations (at_boundary cur nxt gs max_sm later) ≤ length gs + total_violations later)
      × (length (at_boundary cur nxt gs max_sm later) ≤ 1 + length later)
unfolding at_boundary total_violations new_summary
at_boundary_bound cur nxt gs max_sm later =
    let bound = tally_bound cur nxt gs (new_summary cur nxt) in
    let Fits = λ (r : List StepViolationSummary).
      (total_violations r ≤ length gs + total_violations later) × (length r ≤ 1 + length later) in
    if_ind Fits (leb_ℤ (cur.sm_count +ℤ nxt.sm_count) max_sm) (λ _. (omega arith, omega arith))
      (λ _.
        if_ind Fits (ltb 0 (tally cur nxt gs (new_summary cur nxt)).num_violations)
          (λ _. (omega arith, omega arith)) (λ _. (omega arith, omega arith)))

detect_from_bound :
    (i : ℕ) (slots : List StepSlot) (d : Steps) (max_sm : ℤ)
    → (total_violations (detect_from i slots d max_sm) ≤ size_from i d)
      × (length (detect_from i slots d max_sm) ≤ length slots - 1)
unfolding detect_from total_violations
detect_from_bound i [] d max_sm = (omega arith, omega arith)
detect_from_bound i (cur ∷ []) d max_sm = (omega arith, omega arith)
detect_from_bound i (cur ∷ nxt ∷ slots) d max_sm =
    let later = detect_from_bound (i + 1) (nxt ∷ slots) d max_sm in
    let here =
      at_boundary_bound cur nxt (or_empty (lookup i d)) max_sm
        (detect_from (i + 1) (nxt ∷ slots) d max_sm) in
    (omega (arith, here.0, later.0, size_from-step i d), omega (arith, here.1, later.1))

-- What is found is at most what there is: calls, and boundaries.
pub detect_violations_bound :
    (gemms : List GemmCall) (slots : List StepSlot) (max_sm : ℤ)
    → (total_violations (detect_violations slots (assign_gemms_to_steps gemms slots) max_sm)
        ≤ length gemms)
      × (length (detect_violations slots (assign_gemms_to_steps gemms slots) max_sm)
          ≤ length slots - 1)
unfolding detect_violations assign_gemms_to_steps
detect_violations_bound gemms slots max_sm =
    let d = assign_gemms_to_steps gemms slots in
    let found = detect_from_bound 0 slots d max_sm in
    (
      omega (
        arith,
        found.0,
        size_from-assign_loop 0 slots gemms (empty_from 0 slots),
        size_from-empty 0 0 slots,
      ),
      found.1,
    )
