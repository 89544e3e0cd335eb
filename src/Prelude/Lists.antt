-- ===== src/Prelude/Lists.antt =====
-- Lists measured by native numbers, predicates on their elements, and sums.
use Prim.Native.Nat.{ℕ, zero, suc, ◌+◌}
use mathlib.Core.Path.{◌≡◌, sym, subst}
use mathlib.Core.Logic.{◌⊎◌, inl, inr}
use mathlib.Core.List.{List, [], ◌∷◌, ◌++◌}
use mathlib.Core.Option.{Option, none, some}
use native.Mathlib.Omega.{arith}

module _ {ℓ} {A : Type ℓ} where
  abbrev pub length : List A → ℕ
  length [] = 0
  length (x ∷ xs) = suc (length xs)

  abbrev pub get_elem? : List A → ℕ → Option A
  get_elem? [] i = none
  get_elem? (x ∷ xs) zero = some x
  get_elem? (x ∷ xs) (suc i) = get_elem? xs i

  -- The last element, or a default.
  abbrev pub get_last_or : List A → A → A
  get_last_or [] d = d
  get_last_or (x ∷ xs) d = get_last_or xs x

  pub length-append : (xs ys : List A) → length (xs ++ ys) ≡ length xs + length ys
  length-append [] ys = omega arith
  length-append (x ∷ xs) ys = omega (arith, length-append xs ys)

abbrev pub All {ℓ κ} : {A : Type ℓ} → (A → Type κ) → List A → Type κ
All P [] = Unit
All P (x ∷ xs) = P x × All P xs

module _ {ℓ κ} {A : Type ℓ} (P : A → Type κ) where
  pub All-append : (xs ys : List A) → All P xs → All P ys → All P (xs ++ ys)
  All-append [] ys hx hy = hy
  All-append (x ∷ xs) ys hx hy = (hx.0, All-append xs ys hx.1 hy)

-- Membership, with the place kept.
abbrev pub Elem : {A : Type 0} → A → List A → Type 0
Elem a [] = ⊥
Elem a (x ∷ xs) = (a ≡ x) ⊎ Elem a xs

module _ {κ} {A : Type 0} (P : A → Type κ) where
  pub All-at : {a : A} (xs : List A) → All P xs → Elem a xs → P a
  All-at [] h m = elim m [ ]
  All-at (x ∷ xs) h (inl e) = subst P (sym e) h.0
  All-at (x ∷ xs) h (inr m) = All-at xs h.1 m

abbrev pub sum : List ℕ → ℕ
sum [] = 0
sum (x ∷ xs) = x + sum xs

pub sum-append : (xs ys : List ℕ) → sum (xs ++ ys) ≡ sum xs + sum ys
sum-append [] ys = omega arith
sum-append (x ∷ xs) ys = omega (arith, sum-append xs ys)

module _ {A : Type 0} (a : A) where
  pub Elem-append_of : (xs ys : List A) → Elem a xs ⊎ Elem a ys → Elem a (xs ++ ys)
  Elem-append_of [] ys (inl m) = elim m [ ]
  Elem-append_of [] ys (inr m) = m
  Elem-append_of (x ∷ xs) ys (inl (inl e)) = inl e
  Elem-append_of (x ∷ xs) ys (inl (inr m)) = inr (Elem-append_of xs ys (inl m))
  Elem-append_of (x ∷ xs) ys (inr m) = inr (Elem-append_of xs ys (inr m))

  pub Elem-append_cases : (xs ys : List A) → Elem a (xs ++ ys) → Elem a xs ⊎ Elem a ys
  Elem-append_cases [] ys m = inr m
  Elem-append_cases (x ∷ xs) ys (inl e) = inl (inl e)
  Elem-append_cases (x ∷ xs) ys (inr m) = elim (Elem-append_cases xs ys m) [
    | inl l ↦ inl (inr l)
    | inr r ↦ inr r
  ]
