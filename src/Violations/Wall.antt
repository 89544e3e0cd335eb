-- ===== src/Violations/Wall.antt =====
-- The violation time lies in the time from the first slot's start to the last one's end.
use mathlib.Core.Path.{subst}
use morphling.Prelude.{
  ◌≤◌, ◌≡◌, Bool-cases, inl, inr, some, List, [], ◌∷◌, arith, All, All-append, length, Option-cases,
  if_ind,
}
use morphling.Prelude.Int.{ℤ, pos, ◌-ℤ◌, ◌≤ℤ◌, ltb_ℤ, leb_ℤ, min_ℤ, max_ℤ, int_laws}
use morphling.Dict.{lookup, put, lookup-put, int_eq}
use morphling.Sort.{sort}
use morphling.Violations.{
  GemmCall, StepSlot, Violation, StepViolationSummary, pair_leb, merge_from, merge,
  merged_intervals, cut_all, intervals_of, slot_map_from, total_length, compute_violation_time_ns,
  assign_gemms_to_steps, detect_violations,
}
use morphling.Violations.Merge.{AreApart, sort-All, merged_intervals-covers}
use morphling.Violations.Report.{last_end, total_wall_ns, total_violations}
use morphling.Violations.Run.{analyze}
use morphling.Violations.Counts.{detect_violations_bound}

-- Each slot ends after its start, and by the start of the next one.
abbrev pub AreSequential : List StepSlot → Type 0
AreSequential [] = Unit
AreSequential (s ∷ []) = s.start_ns ≤ℤ s.end_ns
AreSequential (s ∷ t ∷ slots) =
    (s.start_ns ≤ℤ s.end_ns) × (s.end_ns ≤ℤ t.start_ns) × AreSequential (t ∷ slots)

-- The interval is none that ends before it begins, and lies between `lo` and `hi`.
abbrev IsInside : ℤ → ℤ → ℤ × ℤ → Type 0
IsInside lo hi (s, e) = (lo ≤ℤ s) × (s ≤ℤ e) × (e ≤ℤ hi)

abbrev IsWithin : ℤ → ℤ → StepSlot → Type 0
IsWithin lo hi s = (lo ≤ℤ s.start_ns) × (s.end_ns ≤ℤ hi)

ends_after_start :
    (t : StepSlot) (slots : List StepSlot) → AreSequential (t ∷ slots) → t.start_ns ≤ℤ t.end_ns
ends_after_start t [] ordered = ordered
ends_after_start t (u ∷ slots) ordered = ordered.0

slots-AreWithin :
    (lo : ℤ) (s : StepSlot) (slots : List StepSlot)
    → lo ≤ℤ s.start_ns
    → AreSequential (s ∷ slots)
    → All (IsWithin lo (last_end s.end_ns slots)) (s ∷ slots)
slots-AreWithin lo s [] h ordered = ((h, omega arith), tt)
slots-AreWithin lo s (t ∷ slots) h (own, meet, later) =
    let rest = slots-AreWithin lo t slots (omega (arith, ends_after_start t slots later)) later in
    ((h, omega (arith, rest.0.1, ends_after_start t slots later)), rest)

slot_map-IsWithin :
    (lo hi : ℤ) (d : List (ℤ × StepSlot)) (slots : List StepSlot)
    → ((k : ℤ) (s : StepSlot) → lookup k d ≡ some s → IsWithin lo hi s)
    → All (IsWithin lo hi) slots
    → (k : ℤ) (s : StepSlot) → lookup k (slot_map_from d slots) ≡ some s
    → IsWithin lo hi s
unfolding slot_map_from
slot_map-IsWithin lo hi d [] held within k s found = held k s found
slot_map-IsWithin lo hi d (t ∷ slots) held (first, within) k s found =
    slot_map-IsWithin lo hi (put t.step t d) slots still within k s found
  where
    still : (k : ℤ) (s : StepSlot) → lookup k (put t.step t d) ≡ some s → IsWithin lo hi s
    still k s found = elim (Bool-cases (int_eq.eqb t.step k)) [
      | inl same ↦
          subst (IsWithin lo hi) {x = t} {y = s}
            (let e : some t ≡ some s = rw (lookup-put, same) at found in cc) first
      | inr other ↦ held k s (rw (lookup-put, other) at found)
    ]

cut_all-IsInside :
    (lo hi : ℤ) (nxt : StepSlot) (vs : List Violation)
    → IsWithin lo hi nxt
    → All (IsInside lo hi) (cut_all nxt vs)
unfolding cut_all
cut_all-IsInside lo hi nxt [] within = tt
cut_all-IsInside lo hi nxt (v ∷ vs) within =
    elim (Bool-cases (ltb_ℤ nxt.start_ns (min_ℤ v.gemm.end_ns nxt.end_ns))) [
      | inl e ↦ rw e ((within.0, ground arith, ground arith), cut_all-IsInside lo hi nxt vs within)
      | inr e ↦ rw e (cut_all-IsInside lo hi nxt vs within)
    ]

intervals_of-IsInside :
    (lo hi : ℤ) (d : List (ℤ × StepSlot)) (summaries : List StepViolationSummary)
    → ((k : ℤ) (s : StepSlot) → lookup k d ≡ some s → IsWithin lo hi s)
    → All (IsInside lo hi) (intervals_of d summaries)
unfolding intervals_of
intervals_of-IsInside lo hi d [] held = tt
intervals_of-IsInside lo hi d (s ∷ summaries) held = elim (Option-cases (lookup s.next_step d)) [
  | inl missing ↦ rw (intervals_of, missing) (intervals_of-IsInside lo hi d summaries held)
  | inr (nxt, found) ↦
      rw (intervals_of, found)
        (All-append (IsInside lo hi) (cut_all nxt s.violations) (intervals_of d summaries)
          (cut_all-IsInside lo hi nxt s.violations (held s.next_step nxt found))
          (intervals_of-IsInside lo hi d summaries held))
]

merge_from-IsInside :
    (lo hi : ℤ) (last : ℤ × ℤ) (intervals : List (ℤ × ℤ))
    → IsInside lo hi last
    → All (IsInside lo hi) intervals
    → All (IsInside lo hi) (merge_from last intervals)
unfolding merge_from
merge_from-IsInside lo hi last [] here later = (here, tt)
merge_from-IsInside lo hi last ((s, e) ∷ intervals) here (next, later) =
    if_ind (All (IsInside lo hi)) (leb_ℤ s last.1)
      (λ _.
        merge_from-IsInside lo hi (last.0, max_ℤ last.1 e) intervals
          (here.0, ground arith, ground arith) later)
      (λ _. (here, merge_from-IsInside lo hi (s, e) intervals next later))

merge-IsInside :
    (lo hi : ℤ) (intervals : List (ℤ × ℤ))
    → All (IsInside lo hi) intervals
    → All (IsInside lo hi) (merge intervals)
unfolding merge
merge-IsInside lo hi [] inside = tt
merge-IsInside lo hi (i ∷ intervals) (first, later) =
    merge_from-IsInside lo hi i intervals first later

-- Intervals that lie apart are together no longer than the time that they lie in.
apart_bound :
    (lo hi : ℤ) (i : ℤ × ℤ) (intervals : List (ℤ × ℤ))
    → AreApart (i ∷ intervals)
    → All (IsInside lo hi) (i ∷ intervals)
    → (pos 0 ≤ℤ total_length (i ∷ intervals)) × (total_length (i ∷ intervals) ≤ℤ hi -ℤ i.0)
unfolding total_length
apart_bound lo hi i [] apart inside = (omega int_laws, omega int_laws)
apart_bound lo hi i (j ∷ intervals) (before, apart) (here, later) =
    let rest = apart_bound lo hi j intervals apart later in
    (omega (int_laws, rest.0), omega (int_laws, rest.1))

total_length_bound :
    (lo hi : ℤ) (intervals : List (ℤ × ℤ))
    → lo ≤ℤ hi
    → AreApart intervals
    → All (IsInside lo hi) intervals
    → (pos 0 ≤ℤ total_length intervals) × (total_length intervals ≤ℤ hi -ℤ lo)
unfolding total_length
total_length_bound lo hi [] h apart inside = (omega arith, omega int_laws)
total_length_bound lo hi (i ∷ intervals) h apart inside =
    let found = apart_bound lo hi i intervals apart inside in (found.0, omega (int_laws, found.1))

empty-IsWithin : (lo hi k : ℤ) (t : StepSlot) → lookup k [] ≡ some t → IsWithin lo hi t
unfolding lookup
empty-IsWithin lo hi k t h = cc

violation_time_bound :
    (summaries : List StepViolationSummary) (s : StepSlot) (slots : List StepSlot)
    → AreSequential (s ∷ slots)
    → (pos 0 ≤ℤ compute_violation_time_ns summaries (s ∷ slots))
      × (compute_violation_time_ns summaries (s ∷ slots) ≤ℤ total_wall_ns (s ∷ slots))
unfolding compute_violation_time_ns merged_intervals total_wall_ns
violation_time_bound summaries s slots ordered =
    let hi = last_end s.end_ns slots in
    let within = slots-AreWithin s.start_ns s slots (omega arith) ordered in
    let slot_map = slot_map_from [] (s ∷ slots) in
    let found =
      intervals_of-IsInside s.start_ns hi slot_map summaries
        (slot_map-IsWithin s.start_ns hi [] (s ∷ slots) (empty-IsWithin s.start_ns hi) within) in
    total_length_bound s.start_ns hi (merged_intervals summaries (s ∷ slots))
      (omega (arith, ends_after_start s slots ordered, within.0.1))
      (merged_intervals-covers summaries (s ∷ slots) (pos 0)).0
      (merge-IsInside s.start_ns hi (sort pair_leb (intervals_of slot_map summaries))
        (sort-All (IsInside s.start_ns hi) (intervals_of slot_map summaries) found))

-- Over slots that follow each other in time, the analysis finds at most one violation for each
-- call, at most one summary for each boundary, and a violation time from 0 to the time between the
-- first slot's start and the last one's end.
pub analyze_fits :
    (gemms : List GemmCall) (s : StepSlot) (slots : List StepSlot) (max_sm : ℤ)
    → AreSequential (s ∷ slots)
    → (total_violations (analyze (gemms, s ∷ slots) max_sm).0 ≤ length gemms)
      × (length (analyze (gemms, s ∷ slots) max_sm).0 ≤ length slots)
      × (pos 0 ≤ℤ (analyze (gemms, s ∷ slots) max_sm).1)
      × ((analyze (gemms, s ∷ slots) max_sm).1 ≤ℤ total_wall_ns (s ∷ slots))
unfolding analyze
analyze_fits gemms s slots max_sm ordered =
    let found = detect_violations_bound gemms (s ∷ slots) max_sm in
    let summaries =
      detect_violations (s ∷ slots) (assign_gemms_to_steps gemms (s ∷ slots)) max_sm in
    let time = violation_time_bound summaries s slots ordered in
    (found.0, omega (arith, found.1), time.0, time.1)
