-- ===== src/Memory/Pin.antt =====
-- The pinned regions lie one behind the other.
use mathlib.Core.Path.{subst}
use mathlib.Core.List.{append_assoc}
use morphling.Prelude.{
  ℕ, ◌+◌, ◌≤◌, ◌≡◌, ◌≢◌, refl, sym, ◌∙◌, ap, some, List, [], ◌∷◌, ◌++◌, arith, All, sum,
}
use morphling.Dict.{Eq, lookup, put, lookup-put, lookup-put_self, eqb_false}
use morphling.Memory.{sizes, pin_loop, compute_pin_offsets}

module _ {K : Type 0} ⦃e : Eq K⦄ where
  -- No parameter of the list has the name.
  abbrev pub IsFresh : K → List (K × ℕ) → Type 0
  IsFresh name = All (λ p. p.0 ≢ name)

  -- The names of a dictionary differ.
  abbrev pub AreDistinct : List (K × ℕ) → Type 0
  AreDistinct [] = Unit
  AreDistinct (p ∷ params) = IsFresh p.0 params × AreDistinct params

  pin_loop-fresh :
      (name : K) (params offsets : List (K × ℕ)) (offset : ℕ)
      → IsFresh name params
      → lookup name (pin_loop offset offsets params) ≡ lookup name offsets
  unfolding pin_loop
  pin_loop-fresh name [] offsets offset f = refl
  pin_loop-fresh name ((other, size) ∷ params) offsets offset f =
      pin_loop-fresh name params (put other offset offsets) (offset + size) f.1
      ∙ (lookup-put other name offset offsets ∙ rw (eqb_false other name f.0) refl)

  pin_loop-at :
      (before : List (K × ℕ)) (name : K) (size : ℕ) (after offsets : List (K × ℕ)) (offset : ℕ)
      → AreDistinct (before ++ (name, size) ∷ after)
      → lookup name (pin_loop offset offsets (before ++ (name, size) ∷ after))
        ≡ some (offset + sum (sizes before))
  unfolding pin_loop
  pin_loop-at [] name size after offsets offset d =
      pin_loop-fresh name after (put name offset offsets) (offset + size) d.0
      ∙ (lookup-put_self name offset offsets ∙ ap some (omega arith))
  pin_loop-at ((other, s) ∷ before) name size after offsets offset d =
      pin_loop-at before name size after (put other offset offsets) (offset + s) d.1
      ∙ ap some (omega arith)

  sizes-append : (xs ys : List (K × ℕ)) → sum (sizes (xs ++ ys)) ≡ sum (sizes xs) + sum (sizes ys)
  sizes-append [] ys = omega arith
  sizes-append (x ∷ xs) ys = omega (arith, sizes-append xs ys)

  -- A dictionary with the two parameters at any two places.
  abbrev pub with_two : List (K × ℕ) → K → ℕ → List (K × ℕ) → K → ℕ → List (K × ℕ) → List (K × ℕ)
  with_two before a size_a between b size_b after =
      before ++ (a, size_a) ∷ (between ++ (b, size_b) ∷ after)

  -- Of two parameters, the one that stands first ends in pinned memory where the other begins, or
  -- before, and both end inside the memory of the total size.
  pub pin_regions_apart :
      (before : List (K × ℕ)) (a : K) (size_a : ℕ) (between : List (K × ℕ)) (b : K) (size_b : ℕ)
      (after : List (K × ℕ))
      → AreDistinct (with_two before a size_a between b size_b after)
      → (offset_a : ℕ) × (offset_b : ℕ) × (lookup a
            (compute_pin_offsets (with_two before a size_a between b size_b after)).1
          ≡ some offset_a)
        × (lookup b (compute_pin_offsets (with_two before a size_a between b size_b after)).1
            ≡ some offset_b)
        × (offset_a + size_a ≤ offset_b)
        × (offset_b + size_b
            ≤ (compute_pin_offsets (with_two before a size_a between b size_b after)).0)
  unfolding compute_pin_offsets
  pin_regions_apart before a size_a between b size_b after d =
      let front = before ++ (a, size_a) ∷ between in
      let regroup : front ++ (b, size_b) ∷ after ≡ with_two before a size_a between b size_b after =
        append_assoc before ((a, size_a) ∷ between) ((b, size_b) ∷ after) in
      (
        sum (sizes before),
        sum (sizes front),
        pin_loop-at before a size_a (between ++ (b, size_b) ∷ after) [] 0 d ∙ ap some (omega arith),
        subst (λ l. lookup b (pin_loop 0 [] l) ≡ some (sum (sizes front))) regroup
            (pin_loop-at front b size_b after [] 0 (subst AreDistinct (sym regroup) d)
              ∙ ap some (omega arith)),
        omega (arith, sizes-append before ((a, size_a) ∷ between)),
        omega (
          arith,
          sizes-append before ((a, size_a) ∷ between),
          sizes-append before ((a, size_a) ∷ (between ++ (b, size_b) ∷ after)),
          sizes-append between ((b, size_b) ∷ after),
        ),
      )
