-- ===== src/Violations/Merge.antt =====
-- The merged intervals lie apart, and cover what the intervals covered.
use mathlib.Core.Path.{subst}
use morphling.Prelude.{
  ◌≡◌, refl, sym, ◌∙◌, ap, Bool, true, false, ◌&&◌, ◌||◌, List, [], ◌∷◌, arith, All, All-append,
  inl, inr, Option-cases, Bool-cases,
}
use morphling.Prelude.Int.{ℤ, ◌≤ℤ◌, ◌<ℤ◌, ltb_ℤ, leb_ℤ, min_ℤ, max_ℤ}
use morphling.Dict.{lookup, int_eq}
use morphling.Sort.{sort, insert, IsOrdered, sort-IsOrdered}
use morphling.Violations.{
  StepSlot, Violation, StepViolationSummary, pair_leb, merge_from, merge, merged_intervals, cut_all,
  intervals_of, slot_map_from,
}

-- Some interval holds the time `t`.
abbrev pub covers : ℤ → List (ℤ × ℤ) → Bool
covers t [] = false
covers t ((s, e) ∷ intervals) = leb_ℤ s t && ltb_ℤ t e || covers t intervals

-- Each interval ends before the next one begins.
abbrev pub AreApart : List (ℤ × ℤ) → Type 0
AreApart [] = Unit
AreApart (i ∷ []) = Unit
AreApart (i ∷ j ∷ intervals) = (i.1 <ℤ j.0) × AreApart (j ∷ intervals)

-- The intervals begin in order, and none is empty.
abbrev pub BeginInOrder : List (ℤ × ℤ) → Type 0
BeginInOrder [] = Unit
BeginInOrder (i ∷ intervals) =
    (i.0 <ℤ i.1) × All (λ j. i.0 ≤ℤ j.0) intervals × BeginInOrder intervals

joined-covers :
    (t a b s e : ℤ) (rest : Bool)
    → a ≤ℤ s
    → leb_ℤ s b ≡ true
    → s <ℤ e
    → (leb_ℤ a t && ltb_ℤ t (max_ℤ b e) || rest)
      ≡ (leb_ℤ a t && ltb_ℤ t b || (leb_ℤ s t && ltb_ℤ t e || rest))
joined-covers t a b s e rest h k l = ground arith

merge_from-covers :
    (t : ℤ) (last : ℤ × ℤ) (intervals : List (ℤ × ℤ))
    → BeginInOrder (last ∷ intervals)
    → covers t (merge_from last intervals) ≡ covers t (last ∷ intervals)
unfolding merge_from
merge_from-covers t last [] h = refl
merge_from-covers t last ((s, e) ∷ intervals) (filled, (before, later), (filled', later', order)) =
    elim (Bool-cases (leb_ℤ s last.1)) [
      | inl meet ↦ rw meet (
          merge_from-covers t (last.0, max_ℤ last.1 e) intervals (ground arith, later, order)
          ∙ joined-covers t last.0 last.1 s e (covers t intervals) before meet filled')
      | inr apart ↦ rw apart (
          ap (λ c. leb_ℤ last.0 t && ltb_ℤ t last.1 || c)
            (merge_from-covers t (s, e) intervals (filled', later', order)))
    ]

-- The merged list begins where the interval at hand begins.
merge_from-head :
    (last : ℤ × ℤ) (intervals : List (ℤ × ℤ))
    → (end : ℤ) × (rest : List (ℤ × ℤ)) × (merge_from last intervals ≡ (last.0, end) ∷ rest)
unfolding merge_from
merge_from-head last [] = (last.1, [], refl)
merge_from-head last ((s, e) ∷ intervals) = elim (Bool-cases (leb_ℤ s last.1)) [
  | inl meet ↦ rw meet (merge_from-head (last.0, max_ℤ last.1 e) intervals)
  | inr apart ↦ (last.1, merge_from (s, e) intervals, rw apart refl)
]

apart-cons :
    (last : ℤ × ℤ) (s end : ℤ) (rest merged : List (ℤ × ℤ))
    → merged ≡ (s, end) ∷ rest
    → last.1 <ℤ s
    → AreApart merged
    → AreApart (last ∷ merged)
apart-cons last s end rest merged e h a =
    subst (λ m. AreApart (last ∷ m)) (sym e) (h, subst AreApart e a)

merge_from-AreApart :
    (last : ℤ × ℤ) (intervals : List (ℤ × ℤ)) → AreApart (merge_from last intervals)
unfolding merge_from
merge_from-AreApart last [] = tt
merge_from-AreApart last ((s, e) ∷ intervals) = elim (Bool-cases (leb_ℤ s last.1)) [
  | inl meet ↦ rw meet (merge_from-AreApart (last.0, max_ℤ last.1 e) intervals)
  | inr apart ↦
      let (end, rest, begins) = merge_from-head (s, e) intervals in
      rw apart (
        apart-cons last s end rest (merge_from (s, e) intervals) begins (ground arith)
          (merge_from-AreApart (s, e) intervals))
]

pair_total : (p q : ℤ × ℤ) → pair_leb p q ≡ false → pair_leb q p ≡ true
pair_total p q h = ground arith

pair_trans : (p q r : ℤ × ℤ) → pair_leb p q ≡ true → pair_leb q r ≡ true → pair_leb p r ≡ true
pair_trans p q r h k = ground arith

abbrev IsFilled : ℤ × ℤ → Type 0
IsFilled i = i.0 <ℤ i.1

All-insert :
    (P : ℤ × ℤ → Type 0) (x : ℤ × ℤ) (ys : List (ℤ × ℤ))
    → P x
    → All P ys
    → All P (insert pair_leb x ys)
unfolding insert
All-insert P x [] h a = (h, tt)
All-insert P x (y ∷ ys) h a = elim (Bool-cases (pair_leb x y)) [
  | inl e ↦ rw e (h, a)
  | inr e ↦ rw e (a.0, All-insert P x ys h a.1)
]

pub sort-All : (P : ℤ × ℤ → Type 0) (xs : List (ℤ × ℤ)) → All P xs → All P (sort pair_leb xs)
unfolding sort
sort-All P [] a = tt
sort-All P (x ∷ xs) a = All-insert P x (sort pair_leb xs) a.0 (sort-All P xs a.1)

or_swap : (a b c : Bool) → (a || (b || c)) ≡ (b || (a || c))
or_swap a b c = ground arith

covers-insert :
    (t : ℤ) (x : ℤ × ℤ) (ys : List (ℤ × ℤ)) → covers t (insert pair_leb x ys) ≡ covers t (x ∷ ys)
unfolding insert
covers-insert t x [] = refl
covers-insert t x (y ∷ ys) = elim (Bool-cases (pair_leb x y)) [
  | inl e ↦ rw e refl
  | inr e ↦ rw e (
      ap (λ c. leb_ℤ y.0 t && ltb_ℤ t y.1 || c) (covers-insert t x ys)
      ∙ or_swap (leb_ℤ y.0 t && ltb_ℤ t y.1) (leb_ℤ x.0 t && ltb_ℤ t x.1) (covers t ys))
]

covers-sort : (t : ℤ) (xs : List (ℤ × ℤ)) → covers t (sort pair_leb xs) ≡ covers t xs
unfolding sort
covers-sort t [] = refl
covers-sort t (x ∷ xs) =
    covers-insert t x (sort pair_leb xs)
    ∙ ap (λ c. leb_ℤ x.0 t && ltb_ℤ t x.1 || c) (covers-sort t xs)

pair_begins : (p q : ℤ × ℤ) → pair_leb p q ≡ true → p.0 ≤ℤ q.0
pair_begins p q h = ground arith

All-begins :
    (p : ℤ × ℤ) (qs : List (ℤ × ℤ)) → All (λ q. pair_leb p q ≡ true) qs → All (λ q. p.0 ≤ℤ q.0) qs
All-begins p [] a = tt
All-begins p (q ∷ qs) a = (pair_begins p q a.0, All-begins p qs a.1)

ordered-BeginInOrder :
    (xs : List (ℤ × ℤ)) → IsOrdered pair_leb xs → All IsFilled xs → BeginInOrder xs
ordered-BeginInOrder [] o f = tt
ordered-BeginInOrder (x ∷ xs) o f = (f.0, All-begins x xs o.0, ordered-BeginInOrder xs o.1 f.1)

cut_all-IsFilled : (nxt : StepSlot) (vs : List Violation) → All IsFilled (cut_all nxt vs)
unfolding cut_all
cut_all-IsFilled nxt [] = tt
cut_all-IsFilled nxt (v ∷ vs) =
    elim (Bool-cases (ltb_ℤ nxt.start_ns (min_ℤ v.gemm.end_ns nxt.end_ns))) [
      | inl e ↦ rw e (ground arith, cut_all-IsFilled nxt vs)
      | inr e ↦ rw e (cut_all-IsFilled nxt vs)
    ]

intervals_of-IsFilled :
    (slot_map : List (ℤ × StepSlot)) (summaries : List StepViolationSummary)
    → All IsFilled (intervals_of slot_map summaries)
unfolding intervals_of
intervals_of-IsFilled slot_map [] = tt
intervals_of-IsFilled slot_map (s ∷ summaries) = elim (Option-cases (lookup s.next_step slot_map)) [
  | inl missing ↦ rw (intervals_of, missing) (intervals_of-IsFilled slot_map summaries)
  | inr (nxt, found) ↦
      rw (intervals_of, found)
        (All-append IsFilled (cut_all nxt s.violations) (intervals_of slot_map summaries)
          (cut_all-IsFilled nxt s.violations) (intervals_of-IsFilled slot_map summaries))
]

merge-covers :
    (t : ℤ) (intervals : List (ℤ × ℤ))
    → BeginInOrder intervals
    → covers t (merge intervals) ≡ covers t intervals
unfolding merge
merge-covers t [] o = refl
merge-covers t (i ∷ intervals) o = merge_from-covers t i intervals o

merge-AreApart : (intervals : List (ℤ × ℤ)) → AreApart (merge intervals)
unfolding merge
merge-AreApart [] = tt
merge-AreApart (i ∷ intervals) = merge_from-AreApart i intervals

-- The intervals whose lengths are the violation time lie apart, and a time lies in one of them
-- exactly if it lies in the interval of some violation: no time is counted twice or left out.
pub merged_intervals-covers :
    (summaries : List StepViolationSummary) (slots : List StepSlot) (t : ℤ)
    → AreApart (merged_intervals summaries slots)
      × (covers t (merged_intervals summaries slots)
          ≡ covers t (intervals_of (slot_map_from [] slots) summaries))
unfolding merged_intervals
merged_intervals-covers summaries slots t =
    let found = intervals_of (slot_map_from [] slots) summaries in
    (
      merge-AreApart (sort pair_leb found),
      merge-covers t (sort pair_leb found) (
            ordered-BeginInOrder (sort pair_leb found)
              (sort-IsOrdered pair_leb pair_total pair_trans found)
              (sort-All IsFilled found (intervals_of-IsFilled (slot_map_from [] slots) summaries)))
          ∙ covers-sort t found,
    )
