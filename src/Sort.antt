-- ===== src/Sort.antt =====
-- Python's stable `sorted` over a Boolean order.
use mathlib.Core.List.{Perm}
use mathlib.Core.List.Perm
use morphling.Prelude.{
  suc, ◌≡◌, refl, ap, ◌∙◌, length, inl, inr, Bool, true, false, List, [], ◌∷◌, All, Elem,
  Bool-cases, if_ind, if◌then◌else◌,
}

module _ {A : Type 0} (leb : A → A → Bool) where
  -- In front of the first element that is not less, so that equal elements keep their order.
  unfoldable pub insert : A → List A → List A
  insert x [] = x ∷ []
  insert x (y ∷ ys) = let rest = insert x ys in if leb x y then x ∷ y ∷ ys else y ∷ rest

  unfoldable pub sort : List A → List A
  unfolding insert
  sort [] = []
  sort (x ∷ xs) = insert x (sort xs)

  abbrev pub IsOrdered : List A → Type 0
  IsOrdered [] = Unit
  IsOrdered (x ∷ xs) = All (λ y. leb x y ≡ true) xs × IsOrdered xs

  insert-perm : (x : A) (ys : List A) → Perm (insert x ys) (x ∷ ys)
  unfolding insert
  insert-perm x [] = Perm.refl (x ∷ [])
  insert-perm x (y ∷ ys) = elim (Bool-cases (leb x y)) [
    | inl e ↦ rw e (Perm.refl (x ∷ y ∷ ys))
    | inr e ↦ rw e (Perm.trans (Perm.cons y (insert-perm x ys)) (Perm.swap x y ys))
  ]

  pub sort-perm : (xs : List A) → Perm (sort xs) xs
  unfolding sort
  sort-perm [] = Perm.refl []
  sort-perm (x ∷ xs) = Perm.trans (insert-perm x (sort xs)) (Perm.cons x (sort-perm xs))

module _ {A : Type 0} (leb : A → A → Bool) where
  length-insert : (x : A) (ys : List A) → length (insert leb x ys) ≡ suc (length ys)
  unfolding insert
  length-insert x [] = refl
  length-insert x (y ∷ ys) = elim (Bool-cases (leb x y)) [
    | inl e ↦ rw e refl
    | inr e ↦ rw e (ap suc (length-insert x ys))
  ]

  pub length-sort : (xs : List A) → length (sort leb xs) ≡ length xs
  unfolding sort
  length-sort [] = refl
  length-sort (x ∷ xs) = length-insert x (sort leb xs) ∙ ap suc (length-sort xs)

module _ {A : Type 0} (leb : A → A → Bool) where
  Elem-insert : (a x : A) (ys : List A) → Elem a (x ∷ ys) → Elem a (insert leb x ys)
  unfolding insert
  Elem-insert a x [] m = m
  Elem-insert a x (y ∷ ys) m = if_ind (Elem a) (leb x y) (λ _. m) (λ _. pass m (Elem-insert a x ys))
    where
      pass :
          Elem a (x ∷ y ∷ ys)
          → (Elem a (x ∷ ys) → Elem a (insert leb x ys))
          → Elem a (y ∷ insert leb x ys)
      pass (inl e) ih = inr (ih (inl e))
      pass (inr (inl e)) ih = inl e
      pass (inr (inr r)) ih = inr (ih (inr r))

  pub Elem-sort : (a : A) (xs : List A) → Elem a xs → Elem a (sort leb xs)
  unfolding sort
  Elem-sort a [] m = m
  Elem-sort a (x ∷ xs) (inl e) = Elem-insert a x (sort leb xs) (inl e)
  Elem-sort a (x ∷ xs) (inr m) = Elem-insert a x (sort leb xs) (inr (Elem-sort a xs m))

  insert-Elem : (a x : A) (ys : List A) → Elem a (insert leb x ys) → Elem a (x ∷ ys)
  unfolding insert
  insert-Elem a x [] = λ m. m
  insert-Elem a x (y ∷ ys) =
      if_ind (λ l. Elem a l → Elem a (x ∷ y ∷ ys)) (leb x y) (λ _ m. m)
        (λ _. pass (insert-Elem a x ys))
    where
      pass :
          (Elem a (insert leb x ys) → Elem a (x ∷ ys))
          → Elem a (y ∷ insert leb x ys)
          → Elem a (x ∷ y ∷ ys)
      pass ih (inl e) = inr (inl e)
      pass ih (inr m) = elim (ih m) [ inl e ↦ inl e | inr r ↦ inr (inr r) ]

  pub sort-Elem : (a : A) (xs : List A) → Elem a (sort leb xs) → Elem a xs
  unfolding sort
  sort-Elem a [] m = m
  sort-Elem a (x ∷ xs) m = elim (insert-Elem a x (sort leb xs) m) [
    | inl e ↦ inl e
    | inr r ↦ inr (sort-Elem a xs r)
  ]

module _ {A : Type 0} (leb : A → A → Bool) (total : (x y : A) → leb x y ≡ false → leb y x ≡ true)
    (trans : (x y z : A) → leb x y ≡ true → leb y z ≡ true → leb x z ≡ true) where
  insert-All :
      (w x : A) (ys : List A)
      → leb w x ≡ true
      → All (λ y. leb w y ≡ true) ys
      → All (λ y. leb w y ≡ true) (insert leb x ys)
  unfolding insert
  insert-All w x [] h a = (h, tt)
  insert-All w x (y ∷ ys) h a = elim (Bool-cases (leb x y)) [
    | inl e ↦ rw e (h, a)
    | inr e ↦ rw e (a.0, insert-All w x ys h a.1)
  ]

  le-All :
      (x y : A) (ys : List A)
      → leb x y ≡ true
      → All (λ z. leb y z ≡ true) ys
      → All (λ z. leb x z ≡ true) ys
  le-All x y [] h a = tt
  le-All x y (z ∷ ys) h a = (trans x y z h a.0, le-All x y ys h a.1)

  insert-IsOrdered : (x : A) (ys : List A) → IsOrdered leb ys → IsOrdered leb (insert leb x ys)
  unfolding insert
  insert-IsOrdered x [] o = (tt, tt)
  insert-IsOrdered x (y ∷ ys) o = elim (Bool-cases (leb x y)) [
    | inl e ↦ rw e ((e, le-All x y ys e o.0), o)
    | inr e ↦ rw e (insert-All y x ys (total x y e) o.0, insert-IsOrdered x ys o.1)
  ]

  pub sort-IsOrdered : (xs : List A) → IsOrdered leb (sort leb xs)
  unfolding sort
  sort-IsOrdered [] = tt
  sort-IsOrdered (x ∷ xs) = insert-IsOrdered x (sort leb xs) (sort-IsOrdered xs)
