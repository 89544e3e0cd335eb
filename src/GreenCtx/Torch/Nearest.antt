-- ===== src/GreenCtx/Torch/Nearest.antt =====
-- `min(self._sm_counts, key=lambda x: abs(x - sm))`.
use mathlib.Core.Path.{subst}
use morphling.Prelude.{
  ◌≤◌, ltb, ◌≡◌, refl, ◌⊎◌, inl, inr, List, [], ◌∷◌, arith, All, Elem, if◌then◌else◌,
}
use morphling.Prelude.Int.{ℤ, dist}
use morphling.Py.{ok}
use morphling.GreenCtx.Torch.{nearest_from, nearest}

abbrev closer : ℤ → ℤ → ℤ → ℤ
closer sm best x = if ltb (dist x sm) (dist best sm) then x else best

closer_le :
    (sm best x : ℤ)
    → (dist (closer sm best x) sm ≤ dist best sm) × (dist (closer sm best x) sm ≤ dist x sm)
closer_le sm best x = ground arith

closer-cases : (sm best x : ℤ) → (closer sm best x ≡ best) ⊎ (closer sm best x ≡ x)
closer-cases sm best x = ground arith

abbrev pub NoFurther : ℤ → ℤ → List ℤ → Type 0
NoFurther sm r = All (λ x. dist r sm ≤ dist x sm)

nearest_from-best : (sm best : ℤ) (xs : List ℤ) → dist (nearest_from sm best xs) sm ≤ dist best sm
unfolding nearest_from
nearest_from-best sm best [] = omega arith
nearest_from-best sm best (x ∷ xs) =
    omega (arith, nearest_from-best sm (closer sm best x) xs, closer_le sm best x)

nearest_from-NoFurther : (sm best : ℤ) (xs : List ℤ) → NoFurther sm (nearest_from sm best xs) xs
unfolding nearest_from
nearest_from-NoFurther sm best [] = tt
nearest_from-NoFurther sm best (x ∷ xs) = (
  omega (arith, nearest_from-best sm (closer sm best x) xs, closer_le sm best x),
  nearest_from-NoFurther sm (closer sm best x) xs,
)

Elem-closer :
    (sm best x r : ℤ) (xs : List ℤ) → Elem r (closer sm best x ∷ xs) → Elem r (best ∷ x ∷ xs)
Elem-closer sm best x r xs (inl e) = elim (closer-cases sm best x) [
  | inl old ↦ inl (cc)
  | inr new ↦ inr (inl (cc))
]
Elem-closer sm best x r xs (inr m) = inr (inr m)

nearest_from-Elem : (sm best : ℤ) (xs : List ℤ) → Elem (nearest_from sm best xs) (best ∷ xs)
unfolding nearest_from
nearest_from-Elem sm best [] = inl refl
nearest_from-Elem sm best (x ∷ xs) =
    Elem-closer sm best x (nearest_from sm (closer sm best x) xs) xs
      (nearest_from-Elem sm (closer sm best x) xs)

-- A count that `nearest` returns is one of the available counts, and none of them is nearer to the
-- count that was asked for.
pub nearest_best : (sm r : ℤ) (xs : List ℤ) → nearest sm xs ≡ ok r → Elem r xs × NoFurther sm r xs
unfolding nearest
nearest_best sm r [] h = cc
nearest_best sm r (x ∷ xs) h =
    let e : nearest_from sm x xs ≡ r = cc in
    subst (λ c. Elem c (x ∷ xs) × NoFurther sm c (x ∷ xs)) e
      (nearest_from-Elem sm x xs, (nearest_from-best sm x xs, nearest_from-NoFurther sm x xs))
