-- ===== src/Violations/Detect.antt =====
-- What a summary counts.
use morphling.Prelude.{
  ℕ, ◌+◌, ◌≡◌, refl, sym, ◌∙◌, ap, ◌&&◌, List, [], ◌∷◌, ◌++◌, arith, length, ltb, inl, inr,
  Bool-cases, if◌then◌else◌,
}
use mathlib.Core.List.{append_assoc, append-nil}
use morphling.Prelude.Int.{ℤ, pos, ◌+ℤ◌, ◌≤ℤ◌, ltb_ℤ, leb_ℤ, max_ℤ, eq_of_parts, int_laws}
use morphling.Dict.{lookup, nat_eq}
use morphling.Violations.{
  GemmCall, StepSlot, Violation, StepViolationSummary, or_empty, new_summary, violation,
  add_violation, tally, at_boundary, detect_from, detect_violations,
}

-- The violations of the calls that end after the next step has begun.
abbrev pub spills : StepSlot → StepSlot → List GemmCall → List Violation
spills cur nxt [] = []
spills cur nxt (g ∷ gs) =
    let rest = spills cur nxt gs in
    if ltb_ℤ nxt.start_ns g.end_ns then violation cur nxt g ∷ rest else rest

abbrev pub overshoot_sum : List Violation → ℤ
overshoot_sum [] = pos 0
overshoot_sum (v ∷ vs) = v.overshoot_ns +ℤ overshoot_sum vs

abbrev pub overshoot_max : List Violation → ℤ
overshoot_max [] = pos 0
overshoot_max (v ∷ vs) = max_ℤ v.overshoot_ns (overshoot_max vs)

-- The summary of a boundary, described by the calls of the step.
abbrev pub summary_of : StepSlot → StepSlot → List GemmCall → StepViolationSummary
summary_of cur nxt gs = record {
  step = cur.step;
  next_step = nxt.step;
  sm_this = cur.sm_count;
  sm_next = nxt.sm_count;
  sm_total = cur.sm_count +ℤ nxt.sm_count;
  num_violations = length (spills cur nxt gs);
  max_overshoot_ns = overshoot_max (spills cur nxt gs);
  total_overshoot_ns = overshoot_sum (spills cur nxt gs);
  violations = spills cur nxt gs;
}

-- The fields that the loop changes, after some violations.
abbrev after : StepViolationSummary → List Violation → StepViolationSummary
after s vs = record s {
  num_violations = s.num_violations + length vs;
  max_overshoot_ns = max_ℤ s.max_overshoot_ns (overshoot_max vs);
  total_overshoot_ns = s.total_overshoot_ns +ℤ overshoot_sum vs;
  violations = s.violations ++ vs;
}

assoc_ℤ : (a b c : ℤ) → a +ℤ b +ℤ c ≡ a +ℤ (b +ℤ c)
assoc_ℤ a b c = omega int_laws

max_assoc : (a b c : ℤ) → max_ℤ (max_ℤ a b) c ≡ max_ℤ a (max_ℤ b c)
max_assoc a b c = ground (arith, eq_of_parts (max_ℤ (max_ℤ a b) c) (max_ℤ a (max_ℤ b c)))

-- Summaries agree where the four fields that the loop changes do.
counts_eq :
    (s : StepViolationSummary) {n n' : ℕ} {m m' t t' : ℤ} {vs vs' : List Violation}
    → n ≡ n'
    → m ≡ m'
    → t ≡ t'
    → vs ≡ vs'
    → record s { num_violations = n; max_overshoot_ns = m; total_overshoot_ns = t; violations = vs }
      ≡ record s {
        num_violations = n';
        max_overshoot_ns = m';
        total_overshoot_ns = t';
        violations = vs';
      }
counts_eq s p q r w i = record s {
  num_violations = p i;
  max_overshoot_ns = q i;
  total_overshoot_ns = r i;
  violations = w i;
}

max_zero : (a : ℤ) → pos 0 ≤ℤ a → a ≡ max_ℤ a (pos 0)
max_zero a h = ground (arith, eq_of_parts a (max_ℤ a (pos 0)))

plus_zero : (a : ℤ) → a ≡ a +ℤ pos 0
plus_zero a = omega int_laws

max_nonneg : (a b : ℤ) → pos 0 ≤ℤ a → pos 0 ≤ℤ max_ℤ a b
max_nonneg a b h = ground arith

after-add_violation :
    (s : StepViolationSummary) (v : Violation) (vs : List Violation)
    → after (add_violation v s) vs ≡ after s (v ∷ vs)
unfolding add_violation
after-add_violation s v vs =
    counts_eq s (omega arith) (max_assoc s.max_overshoot_ns v.overshoot_ns (overshoot_max vs))
      (assoc_ℤ s.total_overshoot_ns v.overshoot_ns (overshoot_sum vs))
      (append_assoc s.violations (v ∷ []) vs)

tally-after :
    (cur nxt : StepSlot) (gs : List GemmCall) (s : StepViolationSummary)
    → pos 0 ≤ℤ s.max_overshoot_ns
    → tally cur nxt gs s ≡ after s (spills cur nxt gs)
unfolding tally
tally-after cur nxt [] s h =
    counts_eq s (omega arith) (max_zero s.max_overshoot_ns h) (plus_zero s.total_overshoot_ns)
      (sym (append-nil s.violations))
tally-after cur nxt (g ∷ gs) s h = elim (Bool-cases (ltb_ℤ nxt.start_ns g.end_ns)) [
  | inl over ↦ rw over (
      tally-after cur nxt gs (add_violation (violation cur nxt g) s)
        (max_nonneg s.max_overshoot_ns _ h)
      ∙ after-add_violation s (violation cur nxt g) (spills cur nxt gs))
  | inr inside ↦ rw inside (tally-after cur nxt gs s h)
]

-- The summaries of the boundaries that the code reports, with a list of calls for each slot.
abbrev pub report : ℕ → List StepSlot → List (ℕ × List GemmCall) → ℤ → List StepViolationSummary
report i [] step_gemms max_sm = []
report i (cur ∷ []) step_gemms max_sm = []
report i (cur ∷ nxt ∷ slots) step_gemms max_sm =
    let later = report (i + 1) (nxt ∷ slots) step_gemms max_sm in
    let gs = or_empty (lookup i step_gemms) in
    if ltb_ℤ max_sm (cur.sm_count +ℤ nxt.sm_count) && ltb 0 (length (spills cur nxt gs))
    then summary_of cur nxt gs ∷ later
    else later

zero_max : (m : ℤ) → pos 0 ≤ℤ m → max_ℤ (pos 0) m ≡ m
zero_max m h = ground (arith, eq_of_parts (max_ℤ (pos 0) m) m)

zero_plus : (a : ℤ) → pos 0 +ℤ a ≡ a
zero_plus a = omega int_laws

max_right : (a b : ℤ) → pos 0 ≤ℤ b → pos 0 ≤ℤ max_ℤ a b
max_right a b h = ground arith

overshoot_max_nonneg : (vs : List Violation) → pos 0 ≤ℤ overshoot_max vs
overshoot_max_nonneg [] = omega arith
overshoot_max_nonneg (v ∷ vs) =
    max_right v.overshoot_ns (overshoot_max vs) (overshoot_max_nonneg vs)

tally-summary_of :
    (cur nxt : StepSlot) (gs : List GemmCall)
    → tally cur nxt gs (new_summary cur nxt) ≡ summary_of cur nxt gs
unfolding new_summary
tally-summary_of cur nxt gs =
    let vs = spills cur nxt gs in
    tally-after cur nxt gs (new_summary cur nxt) (omega arith)
    ∙ counts_eq (new_summary cur nxt) (omega arith)
        (zero_max (overshoot_max vs) (overshoot_max_nonneg vs)) (zero_plus (overshoot_sum vs)) refl

branches :
    (total max_sm : ℤ) (n : ℕ) (later found : List StepViolationSummary)
    → (if leb_ℤ total max_sm then later else if ltb 0 n then found else later)
      ≡ (if ltb_ℤ max_sm total && ltb 0 n then found else later)
branches total max_sm n later found = ground arith

detect_from-report :
    (i : ℕ) (slots : List StepSlot) (step_gemms : List (ℕ × List GemmCall)) (max_sm : ℤ)
    → detect_from i slots step_gemms max_sm ≡ report i slots step_gemms max_sm
unfolding detect_from at_boundary
detect_from-report i [] step_gemms max_sm = refl
detect_from-report i (cur ∷ []) step_gemms max_sm = refl
detect_from-report i (cur ∷ nxt ∷ slots) step_gemms max_sm =
    let gs = or_empty (lookup i step_gemms) in
    ap (at_boundary cur nxt gs max_sm) (detect_from-report (i + 1) (nxt ∷ slots) step_gemms max_sm)
    ∙ ap
        (λ s.
          if leb_ℤ (cur.sm_count +ℤ nxt.sm_count) max_sm
          then report (i + 1) (nxt ∷ slots) step_gemms max_sm
          else if ltb 0 s.num_violations
          then s ∷ report (i + 1) (nxt ∷ slots) step_gemms max_sm
          else report (i + 1) (nxt ∷ slots) step_gemms max_sm)
        (tally-summary_of cur nxt gs)
    ∙ branches (cur.sm_count +ℤ nxt.sm_count) max_sm (length (spills cur nxt gs))
        (report (i + 1) (nxt ∷ slots) step_gemms max_sm)
        (summary_of cur nxt gs ∷ report (i + 1) (nxt ∷ slots) step_gemms max_sm)

-- The summaries are those of the boundaries where the two steps take more than `max_sm`
-- multiprocessors together and some call of the step ends after the next step has begun; each
-- holds all these calls in their order, their number, and the sum and the greatest of their
-- overshoots.
pub detect_violations-report :
    (slots : List StepSlot) (step_gemms : List (ℕ × List GemmCall)) (max_sm : ℤ)
    → detect_violations slots step_gemms max_sm ≡ report 0 slots step_gemms max_sm
unfolding detect_violations
detect_violations-report slots step_gemms max_sm = detect_from-report 0 slots step_gemms max_sm
