-- ===== src/Violations/Bisect.antt =====
-- The binary search, against the number of elements that are not greater.
use mathlib.Core.Path.{subst}
use morphling.Prelude.{
  ℕ, zero, suc, ◌+◌, ◌-◌, ◌/◌, ◌<◌, ◌≤◌, ◌≡◌, refl, ap, ◌∙◌, true, false, some, List, [], ◌∷◌,
  arith, All, length, get_elem?, ltb, inl, inr, Bool-cases, if◌then◌else◌,
}
use morphling.Prelude.Int.{ℤ, ◌≤ℤ◌, ltb_ℤ}
use morphling.Violations.{bisect_loop, bisect_right}

-- Numbers that do not fall.
abbrev pub IsRising : List ℤ → Type 0
IsRising [] = Unit
IsRising (v ∷ vs) = All (λ w. v ≤ℤ w) vs × IsRising vs

-- How many of the numbers are at most `x`.
abbrev pub rank : ℤ → List ℤ → ℕ
rank x [] = 0
rank x (v ∷ vs) = let rest = rank x vs in if ltb_ℤ x v then rest else suc rest

rank-none : (x v : ℤ) (vs : List ℤ) → ltb_ℤ x v ≡ true → All (λ w. v ≤ℤ w) vs → rank x vs ≡ 0
rank-none x v [] h a = refl
rank-none x v (w ∷ vs) h a = ground (arith, rank-none x v vs h a.1)

pub rank-length : (x : ℤ) (vs : List ℤ) → rank x vs ≤ length vs
rank-length x [] = omega arith
rank-length x (v ∷ vs) = ground (arith, rank-length x vs)

get-le :
    (u : ℤ) (vs : List ℤ) (i : ℕ) (v : ℤ) → All (λ w. u ≤ℤ w) vs → get_elem? vs i ≡ some v → u ≤ℤ v
get-le u [] i v a h = cc
get-le u (w ∷ vs) zero v a h = let same : w ≡ v = cc in subst (λ z. u ≤ℤ z) same a.0
get-le u (w ∷ vs) (suc i) v a h = get-le u vs i v a.1 h

get-within : (vs : List ℤ) (i : ℕ) → i < length vs → (v : ℤ) × (get_elem? vs i ≡ some v)
get-within [] i h = elim h [ ]
get-within (v ∷ vs) zero h = (v, refl)
get-within (v ∷ vs) (suc i) h = get-within vs i (omega arith)

-- An element's side of the search.
rank-left :
    (x : ℤ) (vs : List ℤ) (i : ℕ) (v : ℤ)
    → IsRising vs
    → get_elem? vs i ≡ some v
    → ltb_ℤ x v ≡ true
    → rank x vs ≤ i
rank-left x [] i v r h l = cc
rank-left x (u ∷ vs) zero v r h l =
    let same : u ≡ v = cc in
    let l' : ltb_ℤ x u ≡ true = ap (ltb_ℤ x) same ∙ l in
    rw l' (omega (arith, rank-none x u vs l' r.0))
rank-left x (u ∷ vs) (suc i) v r h l = ground (arith, rank-left x vs i v r.1 h l)

rank-right :
    (x : ℤ) (vs : List ℤ) (i : ℕ) (v : ℤ)
    → IsRising vs
    → get_elem? vs i ≡ some v
    → ltb_ℤ x v ≡ false
    → i < rank x vs
rank-right x [] i v r h l = cc
rank-right x (u ∷ vs) zero v r h l =
    let same : u ≡ v = cc in
    let l' : ltb_ℤ x u ≡ false = ap (ltb_ℤ x) same ∙ l in rw l' (omega arith)
rank-right x (u ∷ vs) (suc i) v r h l =
    ground (arith, rank-right x vs i v r.1 h l, get-le u vs i v r.0 h)

-- While the number lies between the bounds, the search ends at it.
bisect_loop-rank :
    (f : ℕ) (vs : List ℤ) (x : ℤ) (lo hi : ℕ)
    → IsRising vs
    → lo ≤ rank x vs
    → rank x vs ≤ hi
    → hi ≤ length vs
    → hi - lo ≤ f
    → bisect_loop f vs x lo hi ≡ rank x vs
unfolding bisect_loop
bisect_loop-rank zero vs x lo hi r below above within fuel = omega arith
bisect_loop-rank (suc f) vs x lo hi r below above within fuel = elim (Bool-cases (ltb lo hi)) [
  | inl open_range ↦
      let mid = (lo + hi) / 2 in
      let lower : lo ≤ mid = ground arith in
      let upper : mid < hi = ground arith in
      let (v, found) = get-within vs mid (omega arith) in
      rw open_range (
        rw found (elim (Bool-cases (ltb_ℤ x v)) [
          | inl left ↦ rw left (
              bisect_loop-rank f vs x lo mid r below (rank-left x vs mid v r found left)
                (omega arith) (omega arith))
          | inr right ↦ rw right (
              bisect_loop-rank f vs x (mid + 1) hi r
                (omega (arith, rank-right x vs mid v r found right)) above within (omega arith))
        ]))
  | inr closed ↦ rw closed (ground arith)
]

-- On numbers that do not fall, the search gives how many are at most `x`.
pub bisect_right-rank : (vs : List ℤ) (x : ℤ) → IsRising vs → bisect_right vs x ≡ rank x vs
unfolding bisect_right
bisect_right-rank vs x r =
    bisect_loop-rank (length vs) vs x 0 (length vs) r (omega arith) (rank-length x vs) (omega arith)
      (omega arith)
