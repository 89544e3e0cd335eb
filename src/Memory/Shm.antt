-- ===== src/Memory/Shm.antt =====
-- The shared-memory offsets of `compute_shm_offsets`. The code takes the sums up to and with each
-- slot, less the first slot, where the sum of the slots before it is meant: the offset of every
-- slot but the first is too large by its own slot and too small by the first one.
use morphling.Prelude.{
  ℕ, ◌+◌, ◌-◌, ◌*◌, ◌≤◌, ◌≡◌, ◌≢◌, ◌↔◌, refl, ◌∙◌, ap, some, List, [], ◌∷◌, ◌++◌, ==_iff, arith,
  All, sum, map,
}
use morphling.Py.{ok, ◌>>=◌}
use morphling.Dict.{Eq, lookup, keys, nat_eq, eqb_false}
use morphling.Memory.{
  sizes, slots, counter_of, cumsum, less_first, zip_dict, shm_layout, compute_shm_offsets,
}

-- The slot of a size that occurs `count` times: the data, and four bytes for each tensor.
abbrev pub slot : ℕ × ℕ → ℕ
slot (size, count) = size + 4 * count

-- The offsets of the slots behind the first one, as the code computes them.
abbrev pub shifted : ℕ → List (ℕ × ℕ) → List ℕ
shifted acc [] = []
shifted acc (c ∷ cs) = (acc + slot c) ∷ shifted (acc + slot c) cs

map-cumsum :
    (first acc : ℕ) (cs : List (ℕ × ℕ))
    → map (λ x. x - first) (cumsum (first + acc) (slots cs)) ≡ shifted acc cs
unfolding cumsum
map-cumsum first acc [] = refl
map-cumsum first acc (c ∷ cs) =
    let regroup : first + acc + slot c ≡ first + (acc + slot c) = omega arith in
    let head : first + (acc + slot c) - first ≡ acc + slot c = omega arith in
    rw regroup (rw head (ap (λ xs. (acc + slot c) ∷ xs) (map-cumsum first (acc + slot c) cs)))

less_first-shifted :
    (first : ℕ) (cs : List (ℕ × ℕ))
    → less_first (first ∷ cumsum first (slots cs)) ≡ ok (0 ∷ shifted 0 cs)
unfolding less_first
less_first-shifted first cs =
    let none_left : first - first ≡ 0 = omega arith in
    let regroup : first ≡ first + 0 = omega arith in
    rw none_left (
      ap (λ os. ok (0 ∷ os))
        (ap (λ n. map (λ x. x - first) (cumsum n (slots cs))) regroup ∙ map-cumsum first 0 cs))

-- The layout of a counter that is not empty.
shm_layout-cons :
    (c : ℕ × ℕ) (cs : List (ℕ × ℕ))
    → shm_layout (c ∷ cs) ≡ ok (sum (slots (c ∷ cs)), zip_dict (c.0 ∷ keys cs) (0 ∷ shifted 0 cs))
unfolding shm_layout cumsum
shm_layout-cons c cs =
    ap (λ offsets. offsets >>= λ os. ok (sum (slots (c ∷ cs)), zip_dict (c.0 ∷ keys cs) os))
      (less_first-shifted (0 + slot c) cs)

-- The size is none of the keys.
abbrev pub IsNew : ℕ → List (ℕ × ℕ) → Type 0
IsNew size = All (λ c. c.0 ≢ size)

shifted-at :
    (acc : ℕ) (before : List (ℕ × ℕ)) (c : ℕ × ℕ) (after : List (ℕ × ℕ))
    → IsNew c.0 before
    → lookup c.0 (zip_dict (keys (before ++ c ∷ after)) (shifted acc (before ++ c ∷ after)))
      ≡ some (acc + sum (slots before) + slot c)
unfolding lookup
shifted-at acc [] c after f = rw ((==_iff c.0 c.0).1 refl) (ap some (omega arith))
shifted-at acc (b ∷ before) c after f =
    rw (eqb_false b.0 c.0 f.0)
      (shifted-at (acc + slot b) before c after f.1 ∙ ap some (omega arith))

sum-slots : (xs ys : List (ℕ × ℕ)) → sum (slots (xs ++ ys)) ≡ sum (slots xs) + sum (slots ys)
sum-slots [] ys = omega arith
sum-slots (x ∷ xs) ys = omega (arith, sum-slots xs ys)

module _ {K : Type 0} ⦃e : Eq K⦄ where
  -- Where the sizes count as `first`, `before`, `c`, `after`, the offset of c's size is the sum of
  -- the slots of `before` and of c itself, which is the slots of `first` and `before` plus c's own
  -- slot less the first one; the total is the sum of all slots.
  pub shm_offset-sum :
      (params : List (K × ℕ)) (first : ℕ × ℕ) (before : List (ℕ × ℕ)) (c : ℕ × ℕ)
      (after : List (ℕ × ℕ))
      → counter_of [] (sizes params) ≡ first ∷ before ++ c ∷ after
      → IsNew c.0 (first ∷ before)
      → (total : ℕ) × (offsets : List (ℕ × ℕ)) × (offset : ℕ) × (compute_shm_offsets params
          ≡ ok (total, offsets))
        × (lookup first.0 offsets ≡ some 0)
        × (lookup c.0 offsets ≡ some offset)
        × (offset + slot first ≡ sum (slots (first ∷ before)) + slot c)
        × (total ≡ sum (slots (first ∷ before)) + slot c + sum (slots after))
  unfolding compute_shm_offsets lookup
  shm_offset-sum params first before c after counted new =
      let rest = before ++ c ∷ after in
      (
        sum (slots (first ∷ rest)),
        zip_dict (first.0 ∷ keys rest) (0 ∷ shifted 0 rest),
        sum (slots before) + slot c,
        rw counted (shm_layout-cons first rest),
        rw ((==_iff first.0 first.0).1 refl) refl,
        rw (eqb_false first.0 c.0 new.0)
            (shifted-at 0 before c after new.1 ∙ ap some (omega arith)),
        omega arith,
        omega (arith, sum-slots before (c ∷ after)),
      )

  -- The last region lies inside the memory of the total size exactly if its slot is no larger than
  -- the first one.
  pub last_region_fits :
      (params : List (K × ℕ)) (first : ℕ × ℕ) (before : List (ℕ × ℕ)) (last : ℕ × ℕ)
      → counter_of [] (sizes params) ≡ first ∷ before ++ last ∷ []
      → IsNew last.0 (first ∷ before)
      → (total : ℕ) × (offsets : List (ℕ × ℕ)) × (offset : ℕ) × (compute_shm_offsets params
          ≡ ok (total, offsets))
        × (lookup last.0 offsets ≡ some offset)
        × ((offset + slot last ≤ total) ↔ (slot last ≤ slot first))
  last_region_fits params first before last counted new =
      let (total, offsets, offset, computed, at_first, at_last, placed, summed) =
        shm_offset-sum params first before last [] counted new in
      (total, offsets, offset, computed, at_last, (λ h. omega arith, λ h. omega arith))
