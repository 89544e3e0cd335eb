-- ===== src/Batch/Overlay.antt =====
-- Which baselines run as a pipeline, from _baseline_uses_pipeline_overlay.
use morphling.Prelude.{
  ℕ, ◌+◌, ◌≡◌, ◌↔◌, refl, Bool, true, false, ◌&&◌, ◌||◌, ◌⊎◌, inl, inr, [], ◌∷◌, leb, arith, Elem,
  Bool-cases, if◌then◌else◌,
}
use morphling.Prelude.Int.{ℤ, pos, ltb_ℤ, ◌<ℤ◌}
use morphling.Str.{Str, codes, str_eq, str_eq_iff, lower, has_part}
use morphling.Float.{Float}
use morphling.Batch.Runtime.{baseline_uses_pipeline_overlay}

-- The name holds "pp" or is one of four, or there is more than one stage.
abbrev pub IsPipelined : Str → ℤ → Type 0
IsPipelined baseline stages =
    (has_part (codes "pp") baseline ≡ true)
    ⊎ (Elem baseline (codes "dtfm" ∷ codes "asteroid" ∷ codes "confident" ∷ codes "alpa" ∷ [])
        ⊎ (pos 1 <ℤ stages))

lower_letter :
    (c : ℕ)
    → (let d = if leb 65 c && leb c 90 then c + 32 else c in
        (if leb 65 d && leb d 90 then d + 32 else d) ≡ d)
lower_letter c = ground arith

pub lower-lower : (s : Str) → lower (lower s) ≡ lower s
lower-lower [] = refl
lower-lower (c ∷ s) = rw (lower_letter c, lower-lower s) refl

-- The name is one of four.
str_eq-Elem :
    (b d a c p : Str)
    → ((str_eq b d || (str_eq b a || (str_eq b c || str_eq b p))) ≡ true)
      ↔ Elem b (d ∷ a ∷ c ∷ p ∷ [])
str_eq-Elem b d a c p = (
  λ h. elim (Bool-cases (str_eq b d)) [
    | inl e ↦ inl ((str_eq_iff b d).0 e)
    | inr n ↦ elim (Bool-cases (str_eq b a)) [
      | inl e ↦ inr (inl ((str_eq_iff b a).0 e))
      | inr n' ↦ elim (Bool-cases (str_eq b c)) [
        | inl e ↦ inr (inr (inl ((str_eq_iff b c).0 e)))
        | inr n'' ↦ inr (inr (inr (inl ((str_eq_iff b p).0 (rw (n, n', n'') at h)))))
      ]
    ]
  ],
  λ m. elim m [
    | inl e ↦ ground (arith, (str_eq_iff b d).1 e)
    | inr (inl e) ↦ ground (arith, (str_eq_iff b a).1 e)
    | inr (inr (inl e)) ↦ ground (arith, (str_eq_iff b c).1 e)
    | inr (inr (inr (inl e))) ↦ ground (arith, (str_eq_iff b p).1 e)
    | inr (inr (inr (inr empty))) ↦ absurd empty
  ],
)

-- A test after another, as a sum of what they test.
or_iff :
    {P Q : Type 0} (b c d : Bool)
    → (c ≡ true) ↔ P
    → (d ≡ true) ↔ Q
    → ((if b || c then true else d) ≡ true) ↔ ((b ≡ true) ⊎ (P ⊎ Q))
or_iff true c d p q = (λ _. inl refl, λ _. refl)
or_iff false true d p q = (λ _. inr (inl (p.0 refl)), λ _. refl)
or_iff false false d p q = (
  λ h. inr (inr (q.0 h)),
  λ s. elim s [
    | inl h ↦ absurd cc
    | inr (inl h) ↦ absurd (let same = p.1 h in cc)
    | inr (inr h) ↦ q.1 h
  ],
)

-- The overlay is used exactly for what is pipelined.
pub overlay-IsPipelined :
    {F : Type 0} (f : Float F) (name : Str) (stages : ℤ)
    → str_eq (lower name) (codes "cleave") ≡ false
    → (baseline_uses_pipeline_overlay f name stages ≡ true) ↔ IsPipelined (lower name) stages
unfolding baseline_uses_pipeline_overlay
overlay-IsPipelined f name stages other = rw other (
    or_iff (has_part (codes "pp") (lower name)) _ (ltb_ℤ (pos 1) stages)
      (str_eq-Elem (lower name) (codes "dtfm") (codes "asteroid") (codes "confident")
        (codes "alpa"))
      (λ h. ground arith, λ h. ground arith))
