-- ===== src/Ldpc/Changes.antt =====
-- The rows that detect_violations and detect_inefficiencies report.
use morphling.Prelude.{
  ℕ, zero, suc, ◌+◌, ◌≡◌, refl, ◌∙◌, ap, ◌↔◌, Bool, true, false, inl, inr, some, List, [], ◌∷◌,
  arith, All, ◌≤◌, ◌<◌, Elem, get_elem?, if_ind, ◌⊎◌, if◌then◌else◌,
}
use morphling.Prelude.Int.{ℤ, pos, negsuc, pos_part, neg_part, ◌-ℤ◌, ltb_ℤ}
use morphling.Ldpc.{
  Row, LdpcTraceAdapter, Delta, wrap64, deltas_from, detect_deltas, detect_violations,
  detect_inefficiencies,
}

-- A row without rounding: its index, the count before it and its own, and the time from its schedule
-- to its start.
abbrev pub exact_delta : ℕ → ℤ → Row → Delta
exact_delta i prev r = record {
  row_idx = i;
  prev_sm = prev;
  curr_sm = r.sm_count;
  switch_gap_ns = r.time_decode_start_actual_ns -ℤ r.time_slot_sched_ns;
}

-- The count lies above the one before, or below it.
abbrev pub moved : Bool → Row → Row → Bool
moved increase p r = if increase then ltb_ℤ p.sm_count r.sm_count else ltb_ℤ r.sm_count p.sm_count

-- The change is that from the row at `j` to the next one, under the index `base + j`.
abbrev IsChangeAt : Bool → ℕ → List Row → Delta → ℕ → Type 0
IsChangeAt increase base rows d j =
    (p : Row) × (r : Row) × (get_elem? rows j ≡ some p)
    × (get_elem? rows (suc j) ≡ some r)
    × (moved increase p r ≡ true)
    × (d ≡ exact_delta (base + j) p.sm_count r)

abbrev pub IsChange : Bool → ℕ → List Row → Delta → Type 0
IsChange increase base rows d = (j : ℕ) × IsChangeAt increase base rows d j

-- A row further on.
IsChange-later :
    (increase : Bool) (base : ℕ) (p : Row) (rows : List Row) (d : Delta)
    → IsChange increase (base + 1) rows d
    → IsChange increase base (p ∷ rows) d
IsChange-later increase base p rows d (j, (q, r, eq, er, m, e)) = (
  suc j,
  (
    q,
    r,
    eq,
    er,
    m,
    e
        ∙ ap (λ i. exact_delta i q.sm_count r)
            (let same : base + 1 + j ≡ base + suc j = omega arith in same),
  ),
)

-- The change of the first two rows, or a later one.
IsChange-cases :
    (increase : Bool) (base : ℕ) (p r : Row) (rows : List Row) (d : Delta)
    → IsChange increase base (p ∷ r ∷ rows) d
    → ((moved increase p r ≡ true) × (d ≡ exact_delta base p.sm_count r))
      ⊎ IsChange increase (base + 1) (r ∷ rows) d
IsChange-cases increase base p r rows d (zero, (p', r', ep, er, m, e)) =
    let same_p : p' ≡ p = cc in
    let same_r : r' ≡ r = cc in
    let start : base + 0 ≡ base = omega arith in
    inl (rw (same_p, same_r) at m, rw (same_p, same_r, start) at e)
IsChange-cases increase base p r rows d (suc j, (p', r', ep, er, m, e)) =
    let same : base + suc j ≡ base + 1 + j = omega arith in
    inr (j, (p', r', ep, er, m, e ∙ ap (λ i. exact_delta i p'.sm_count r') same))

-- The loop without rounding.
abbrev exact_deltas : Bool → ℕ → ℤ → List Row → List Delta
exact_deltas increase i prev [] = []
exact_deltas increase i prev (r ∷ rows) =
    let rest = exact_deltas increase (i + 1) r.sm_count rows in
    if (if increase then ltb_ℤ prev r.sm_count else ltb_ℤ r.sm_count prev)
    then exact_delta i prev r ∷ rest
    else rest

exact_deltas-IsChange :
    (increase : Bool) (base : ℕ) (p : Row) (rows : List Row) (d : Delta)
    → Elem d (exact_deltas increase base p.sm_count rows) ↔ IsChange increase base (p ∷ rows) d
exact_deltas-IsChange increase base p [] d =
    (λ m. elim m [ ], λ (j, (p', r', ep, er, m, e)). absurd cc)
exact_deltas-IsChange increase base p (r ∷ rows) d =
    let (there, back) = exact_deltas-IsChange increase (base + 1) r rows d in
    let later = IsChange-later increase base p (r ∷ rows) d in
    let start : base ≡ base + 0 = omega arith in
    (
      if_ind (λ l. Elem d l → IsChange increase base (p ∷ r ∷ rows) d) (moved increase p r)
          (λ m h. elim h [
            | inl e ↦ (0, (p, r, refl, refl, m, e ∙ ap (λ i. exact_delta i p.sm_count r) start))
            | inr h' ↦ later (there h')
          ])
          (λ _ h. later (there h)),
      λ c. elim (IsChange-cases increase base p r rows d c) [
        | inl (m, e) ↦ if_ind (Elem d) (moved increase p r) (λ _. inl e) (λ still. absurd cc)
        | inr c' ↦ if_ind (Elem d) (moved increase p r) (λ _. inr (back c')) (λ _. back c')
      ],
    )

-- A double holds the count exactly.
abbrev pub IsExact : ℤ → Type 0
IsExact n = pos_part n + neg_part n ≤ 9007199254740992

abbrev pub IsInt64 : ℤ → Type 0
IsInt64 n = (pos_part n < 9223372036854775808) × (neg_part n ≤ 9223372036854775808)

-- The count of the row is small, and the time between its schedule and its start fits.
abbrev pub IsSmall : Row → Type 0
IsSmall r = IsExact r.sm_count × IsInt64 (r.time_decode_start_actual_ns -ℤ r.time_slot_sched_ns)

wrap64_small : (n : ℤ) → IsInt64 n → wrap64 n ≡ n
unfolding wrap64
wrap64_small (pos n) (low, high) = ground arith
wrap64_small (negsuc n) (low, high) = ground arith

module _ (doubled : ℤ → ℤ) (exact : (n : ℤ) → IsExact n → doubled n ≡ n) where
  wrap64-doubled : (n : ℤ) → IsExact n → wrap64 (doubled n) ≡ n
  wrap64-doubled n small = rw (exact n small) (wrap64_small n (omega arith, omega arith))

  deltas_from-exact_deltas :
      (increase : Bool) (i : ℕ) (prev : ℤ) (rows : List Row)
      → IsExact prev
      → All IsSmall rows
      → deltas_from doubled increase i prev rows ≡ exact_deltas increase i prev rows
  unfolding deltas_from
  deltas_from-exact_deltas increase i prev [] before small = refl
  deltas_from-exact_deltas increase i prev (r ∷ rows) before ((count, gap), small) =
      rw
        (
          wrap64-doubled prev before,
          exact prev before,
          exact r.sm_count count,
          wrap64_small (r.time_decode_start_actual_ns -ℤ r.time_slot_sched_ns) gap,
          deltas_from-exact_deltas increase (i + 1) r.sm_count rows count small,
        )
        refl

  -- `detect_deltas` over any table.
  detect_deltas-IsChange :
      (increase : Bool) (rows : List Row) (d : Delta)
      → All IsSmall rows
      → Elem d (detect_deltas doubled increase rows) ↔ IsChange increase 1 rows d
  unfolding detect_deltas
  detect_deltas-IsChange increase [] d small =
      (λ m. elim m [ ], λ (j, (p, r, ep, er, m, e)). absurd cc)
  detect_deltas-IsChange increase (p ∷ rows) d ((count, gap), small) =
      rw (deltas_from-exact_deltas increase 1 p.sm_count rows count small)
        (exact_deltas-IsChange increase 1 p rows d)

  -- Where doubles are exact up to 2^53, no SM count of the trace is above that in size, and the time
  -- from the schedule of each row to its start fits in 64 bits, a change is reported as a violation
  -- exactly if it leads from a row to a row after it that has more SMs, and as an inefficiency
  -- exactly if to one that has fewer: with that row's index, both counts, and the time from its
  -- schedule to its start.
  pub detect_changes :
      (a : LdpcTraceAdapter) (d : Delta)
      → All IsSmall a.rows
      → (Elem d (detect_violations doubled a) ↔ IsChange true 1 a.rows d)
        × (Elem d (detect_inefficiencies doubled a) ↔ IsChange false 1 a.rows d)
  unfolding detect_violations detect_inefficiencies
  detect_changes a d small =
      (detect_deltas-IsChange true a.rows d small, detect_deltas-IsChange false a.rows d small)
