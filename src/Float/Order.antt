-- ===== src/Float/Order.antt =====
-- The greatest of a list is one of its items, and no value is above it.
use morphling.Prelude.{
  ◌≡◌, refl, false, Bool-cases, inl, inr, List, [], ◌∷◌, All, Elem, if◌then◌else◌,
}
use morphling.Float.{Float, IsOrder, best_from}

module _ {F : Type 0} (f : Float F) {A : Type 0} (value : A → F) where
  -- The item is in the list, and no value is above its value.
  abbrev pub IsTop : A → List A → Type 0
  IsTop b items = Elem b items × All (λ item. f.less (value b) (value item) ≡ false) items

module _ {F : Type 0} (f : Float F) (order : IsOrder f) where
  irrefl : (a : F) → f.less a a ≡ false
  irrefl a = elim (Bool-cases (f.less a a)) [ inl h ↦ order.asym a a h | inr h ↦ h ]

  module _ {A : Type 0} (value : A → F) where
    IsTop-step :
        (best item b : A) (items : List A)
        → IsTop f value b ((if f.less (value best) (value item) then item else best) ∷ items)
        → IsTop f value b (best ∷ item ∷ items)
    IsTop-step best item b items top = elim (Bool-cases (f.less (value best) (value item))) [
      | inl above ↦
          let (m, all) = let t : IsTop f value b (item ∷ items) = rw above at top in t in
          (
            inr m,
            (order.trans (value best) (value item) (value b) (order.asym _ _ above) all.0, all),
          )
      | inr below ↦
          let (m, all) = let t : IsTop f value b (best ∷ items) = rw below at top in t in
          (
            elim m [ inl here ↦ inl here | inr there ↦ inr (inr there) ],
            (all.0, (order.trans (value item) (value best) (value b) below all.0, all.1)),
          )
    ]

    pub best_from-IsTop :
        (best : A) (items : List A) → IsTop f value (best_from f value best items) (best ∷ items)
    unfolding best_from
    best_from-IsTop best [] = (inl refl, (irrefl (value best), tt))
    best_from-IsTop best (item ∷ items) =
        let next : A = if f.less (value best) (value item) then item else best in
        IsTop-step best item (best_from f value next items) items (best_from-IsTop next items)
