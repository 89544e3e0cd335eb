-- ===== src/Shapes/Unique.antt =====
-- The loop over `unique_shapes` keeps one of each shape.
use morphling.Prelude.{
  ◌≡◌, refl, sym, ◌↔◌, ◌⊎◌, inl, inr, true, List, [], ◌∷◌, ◌++◌, arith, Elem, Bool-cases, if_ind,
  if◌then◌else◌, Elem-append_of, Elem-append_cases,
}
use morphling.Dict.{Eq}
use morphling.Shapes.Shards.{contains, unique_loop}

module _ {A : Type 0} where
  -- No element stands twice.
  abbrev pub IsUnique : List A → Type 0
  IsUnique [] = Unit
  IsUnique (x ∷ xs) = (Elem x xs → ⊥) × IsUnique xs

  pub IsUnique-snoc :
      (xs : List A) (a : A) → IsUnique xs → (Elem a xs → ⊥) → IsUnique (xs ++ a ∷ [])
  IsUnique-snoc [] a u new = (λ m. m, tt)
  IsUnique-snoc (x ∷ xs) a u new = (
    λ m. elim (Elem-append_cases x xs (a ∷ []) m) [
      | inl old ↦ u.0 old
      | inr (inl same) ↦ new (inl (sym same))
      | inr (inr empty) ↦ empty
    ],
    IsUnique-snoc xs a u.1 (λ m. new (inr m)),
  )

module _ {A : Type 0} ⦃e : Eq A⦄ where
  pub contains_iff : (x : A) (ys : List A) → (contains x ys ≡ true) ↔ Elem x ys
  unfolding contains
  contains_iff x [] = (λ h. cc, λ m. elim m [ ])
  contains_iff x (y ∷ ys) = (
    λ h. elim (Bool-cases (e.eqb y x)) [
      | inl same ↦ inl (sym ((e.eqb_iff y x).0 same))
      | inr other ↦ inr ((contains_iff x ys).0 (rw other at h))
    ],
    λ m. elim m [
      | inl here ↦ rw ((e.eqb_iff y x).1 (sym here)) refl
      | inr there ↦ ground (arith, (contains_iff x ys).1 there)
    ],
  )

  pub unique_loop-IsUnique : (u xs : List A) → IsUnique u → IsUnique (unique_loop u xs)
  unfolding unique_loop
  unique_loop-IsUnique u [] h = h
  unique_loop-IsUnique u (x ∷ xs) h =
      unique_loop-IsUnique (if contains x u then u else u ++ x ∷ []) xs (
        if_ind IsUnique (contains x u) (λ _. h)
          (λ new. IsUnique-snoc u x h (λ m. absurd (cc ((contains_iff x u).1 m)))))

  -- Nothing is lost and nothing added.
  pub unique_loop-Elem :
      (a : A) (u xs : List A) → Elem a (unique_loop u xs) ↔ (Elem a u ⊎ Elem a xs)
  unfolding unique_loop
  unique_loop-Elem a u [] = (λ m. inl m, λ m. elim m [ inl old ↦ old | inr empty ↦ elim empty [ ] ])
  unique_loop-Elem a u (x ∷ xs) =
      let next : List A = if contains x u then u else u ++ x ∷ [] in
      let ih = unique_loop-Elem a next xs in
      (
        λ m. elim (ih.0 m) [
          | inr later ↦ inr (inr later)
          | inl kept ↦
              if_ind (λ v. Elem a v → Elem a u ⊎ Elem a (x ∷ xs)) (contains x u) (λ _ o. inl o)
                (λ _ o. elim (Elem-append_cases a u (x ∷ []) o) [
                  | inl old ↦ inl old
                  | inr (inl here) ↦ inr (inl here)
                  | inr (inr empty) ↦ elim empty [ ]
                ])
                kept
        ],
        λ m. elim m [
          | inl old ↦ ih.1 (
              inl (
                if_ind (Elem a) (contains x u) (λ _. old)
                  (λ _. Elem-append_of a u (x ∷ []) (inl old))))
          | inr (inl here) ↦ ih.1 (
              inl (
                if_ind (Elem a) (contains x u) (λ found. rw here ((contains_iff x u).0 found))
                  (λ _. Elem-append_of a u (x ∷ []) (inr (inl here)))))
          | inr (inr later) ↦ ih.1 (inr later)
        ],
      )
