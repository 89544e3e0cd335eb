-- ===== src/GreenCtx/Trace/Lookup.antt =====
-- The trace as a step function: what `sm_count_at_step` and `sm_count_at_time` find.
use morphling.Prelude.{
  ℕ, ◌≡◌, refl, false, List, [], ◌∷◌, arith, All, get_last_or, Bool-cases, inl, inr, if◌then◌else◌,
}
use morphling.Prelude.Int.{ℤ, leb_ℤ, ◌≤ℤ◌, scale, scale_mono}
use morphling.Str.{Str}
use morphling.GreenCtx.Trace.{sm_count_at_step, scale_of, sm_count_loop, sm_count_at_time}

-- Time stamps do not fall along the trace.
abbrev pub IsSorted : List (ℤ × ℤ) → Type 0
IsSorted [] = Unit
IsSorted (e ∷ es) = All (λ f. e.0 ≤ℤ f.0) es × IsSorted es

-- The SM counts of all entries whose time has come, in order, wherever they stand.
abbrev pub due : List (ℤ × ℤ) → ℤ → List ℤ
due [] t = []
due ((ts, sms) ∷ es) t = let rest = due es t in if leb_ℤ ts t then sms ∷ rest else rest

abbrev pub scaled : ℕ → List (ℤ × ℤ) → List (ℤ × ℤ)
scaled k [] = []
scaled k ((ts, sms) ∷ es) = (scale ts k, sms) ∷ scaled k es

due-later :
    (ts t : ℤ) (es : List (ℤ × ℤ)) → leb_ℤ ts t ≡ false → All (λ f. ts ≤ℤ f.0) es → due es t ≡ []
due-later ts t [] late h = refl
due-later ts t ((u, sms) ∷ es) late h = ground (arith, due-later ts t es late h.1)

-- On a trace in order of time, the count at a step is that of the last entry at or before it, and
-- the default when there is none.
pub sm_count_at_step-last :
    (es : List (ℤ × ℤ)) (step default_sm : ℤ)
    → IsSorted es
    → sm_count_at_step es step default_sm ≡ get_last_or (due es step) default_sm
unfolding sm_count_at_step
sm_count_at_step-last [] step d h = refl
sm_count_at_step-last ((ts, sms) ∷ es) step d h = elim (Bool-cases (leb_ℤ ts step)) [
  | inl e ↦ rw e (sm_count_at_step-last es step sms h.1)
  | inr e ↦ rw e (rw (due-later ts step es e h.0))
]

sm_count_loop-scaled :
    (es : List (ℤ × ℤ)) (t : ℤ) (k : ℕ) (d : ℤ)
    → sm_count_loop es t k d ≡ sm_count_at_step (scaled k es) t d
unfolding sm_count_loop sm_count_at_step
sm_count_loop-scaled [] t k d = refl
sm_count_loop-scaled ((ts, sms) ∷ es) t k d = ground (arith, sm_count_loop-scaled es t k sms)

scaled-All :
    (ts : ℤ) (k : ℕ) (es : List (ℤ × ℤ))
    → All (λ f. ts ≤ℤ f.0) es
    → All (λ f. scale ts k ≤ℤ f.0) (scaled k es)
scaled-All ts k [] h = tt
scaled-All ts k ((u, sms) ∷ es) h = (scale_mono ts u k h.0, scaled-All ts k es h.1)

scaled-IsSorted : (k : ℕ) (es : List (ℤ × ℤ)) → IsSorted es → IsSorted (scaled k es)
scaled-IsSorted k [] h = tt
scaled-IsSorted k ((ts, sms) ∷ es) h = (scaled-All ts k es h.0, scaled-IsSorted k es h.1)

-- On a trace in order of time, the count at an elapsed time is that of the last entry whose time
-- stamp, multiplied by the trace's unit, is at or before it, and the default when there is none.
pub sm_count_at_time-last :
    (es : List (ℤ × ℤ)) (elapsed_us : ℤ) (time_unit : Str) (default_sm : ℤ)
    → IsSorted es
    → sm_count_at_time es elapsed_us time_unit default_sm
      ≡ get_last_or (due (scaled (scale_of time_unit) es) elapsed_us) default_sm
unfolding sm_count_at_time
sm_count_at_time-last es t u d h =
    rw (sm_count_loop-scaled es t (scale_of u) d)
      (sm_count_at_step-last (scaled (scale_of u) es) t d (scaled-IsSorted (scale_of u) es h))
