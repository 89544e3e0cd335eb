-- ===== src/Violations/Assign.antt =====
-- The step that a GEMM call is assigned to.
use morphling.Prelude.{
  ℕ, zero, suc, ◌+◌, ◌<◌, ◌≡◌, refl, sym, ◌∙◌, ap, true, Option, none, some, List, [], ◌∷◌, ◌++◌,
  arith, All, All-append, All-at, ◌⊎◌, ◌↔◌, Elem, map, length, ltb, ◌==◌, ==_iff, inl, inr,
  Bool-cases, if◌then◌else◌,
}
use mathlib.Core.Path.{subst}
use morphling.Prelude.Int.{ℤ}
use morphling.Dict.{lookup, lookup-put, lookup-put_self, nat_eq}
use morphling.Violations.{
  GemmCall, StepSlot, bisect_right, empty_from, or_empty, append_at, place, assign_loop,
  assign_gemms_to_steps,
}
use morphling.Violations.Bisect.{IsRising, rank, rank-length, bisect_right-rank}

abbrev pub starts : List StepSlot → List ℤ
starts slots = map (λ s. s.start_ns) slots

module _ (slots : List StepSlot) (calls : List GemmCall) where
  -- The call is one of all the calls, and has the step's place.
  abbrev StandsAt : ℕ → GemmCall → Type 0
  StandsAt idx g = (bisect_right (starts slots) g.start_ns ≡ suc idx) × Elem g calls

  -- Each call that stands under a step does so.
  abbrev IsPlaced : List (ℕ × List GemmCall) → Type 0
  IsPlaced result =
      (idx : ℕ) (gs : List GemmCall) → lookup idx result ≡ some gs → All (StandsAt idx) gs

  empty_from-IsPlaced : (i : ℕ) (ss : List StepSlot) → IsPlaced (empty_from i ss)
  unfolding empty_from lookup
  empty_from-IsPlaced i [] idx gs h = cc
  empty_from-IsPlaced i (s ∷ ss) idx gs h = elim (Bool-cases (i == idx)) [
    | inl same ↦
        let k : some [] ≡ some gs = rw same at h in
        let e : [] ≡ gs = cc in subst (All (StandsAt idx)) e tt
    | inr other ↦ empty_from-IsPlaced (i + 1) ss idx gs (rw other at h)
  ]

  or_empty-All :
      (P : GemmCall → Type 0) (o : Option (List GemmCall))
      → ((gs : List GemmCall) → o ≡ some gs → All P gs)
      → All P (or_empty o)
  or_empty-All P none h = tt
  or_empty-All P (some gs) h = h gs refl

  append_at-IsPlaced :
      (idx : ℕ) (g : GemmCall) (result : List (ℕ × List GemmCall))
      → StandsAt idx g
      → IsPlaced result
      → IsPlaced (append_at idx g result)
  append_at-IsPlaced idx g result at placed j gs h =
      let new = or_empty (lookup idx result) ++ g ∷ [] in
      let h' : (if idx == j then some new else lookup j result) ≡ some gs =
        sym (lookup-put idx j new result) ∙ h in
      elim (Bool-cases (idx == j)) [
        | inl same ↦
            let found : some new ≡ some gs = rw same at h' in
            let all : new ≡ gs = cc in
            subst (λ xs. All (StandsAt j) xs) all
              (subst (λ k. All (StandsAt k) new) ((==_iff idx j).0 same)
                (All-append (StandsAt idx) (or_empty (lookup idx result)) (g ∷ [])
                  (or_empty-All (StandsAt idx) (lookup idx result) (placed idx)) (at, tt)))
        | inr other ↦ placed j gs (rw other at h')
      ]

  place-IsPlaced :
      (count n : ℕ) (g : GemmCall) (result : List (ℕ × List GemmCall))
      → (bisect_right (starts slots) g.start_ns ≡ n)
      → Elem g calls
      → IsPlaced result
      → IsPlaced (place count n g result)
  place-IsPlaced count zero g result at m placed = placed
  place-IsPlaced count (suc idx) g result at m placed = elim (Bool-cases (ltb idx count)) [
    | inl e ↦ rw e (append_at-IsPlaced idx g result (at, m) placed)
    | inr e ↦ rw e placed
  ]

  assign_loop-IsPlaced :
      (gemms : List GemmCall) (result : List (ℕ × List GemmCall))
      → All (λ g. Elem g calls) gemms
      → IsPlaced result
      → IsPlaced (assign_loop slots gemms result)
  unfolding assign_loop
  assign_loop-IsPlaced [] result all placed = placed
  assign_loop-IsPlaced (g ∷ gemms) result (m, all) placed =
      assign_loop-IsPlaced gemms
        (place (length slots) (bisect_right (starts slots) g.start_ns) g result) all
        (place-IsPlaced (length slots) (bisect_right (starts slots) g.start_ns) g result refl m
          placed)

module _ (slots : List StepSlot) where
  -- The call stands under the step.
  abbrev pub Has : ℕ → GemmCall → List (ℕ × List GemmCall) → Type 0
  Has idx g result = (gs : List GemmCall) × (lookup idx result ≡ some gs) × Elem g gs

  Elem-append : (g : GemmCall) (xs ys : List GemmCall) → Elem g xs ⊎ Elem g ys → Elem g (xs ++ ys)
  Elem-append g [] ys (inl m) = elim m [ ]
  Elem-append g [] ys (inr m) = m
  Elem-append g (x ∷ xs) ys (inl (inl here)) = inl here
  Elem-append g (x ∷ xs) ys (inl (inr there)) = inr (Elem-append g xs ys (inl there))
  Elem-append g (x ∷ xs) ys (inr m) = inr (Elem-append g xs ys (inr m))

  append_at-Has :
      (idx : ℕ) (g : GemmCall) (result : List (ℕ × List GemmCall))
      → Has idx g (append_at idx g result)
  append_at-Has idx g result = (
    or_empty (lookup idx result) ++ g ∷ [],
    lookup-put_self idx (or_empty (lookup idx result) ++ g ∷ []) result,
    Elem-append g (or_empty (lookup idx result)) (g ∷ []) (inr (inl refl)),
  )

  append_at-keeps :
      (j idx : ℕ) (f g : GemmCall) (result : List (ℕ × List GemmCall))
      → Has idx g result
      → Has idx g (append_at j f result)
  append_at-keeps j idx f g result (gs, found, m) =
      let new = or_empty (lookup j result) ++ f ∷ [] in
      elim (Bool-cases (j == idx)) [
        | inl same ↦ (
          new,
          lookup-put j idx new result ∙ rw same refl,
          Elem-append g (or_empty (lookup j result)) (f ∷ [])
              (inl (rw ((==_iff j idx).0 same) (rw found m))),
        )
        | inr other ↦ (gs, lookup-put j idx new result ∙ rw other found, m)
      ]

  place-keeps :
      (count n idx : ℕ) (f g : GemmCall) (result : List (ℕ × List GemmCall))
      → Has idx g result
      → Has idx g (place count n f result)
  place-keeps count zero idx f g result h = h
  place-keeps count (suc j) idx f g result h = elim (Bool-cases (ltb j count)) [
    | inl e ↦ rw e (append_at-keeps j idx f g result h)
    | inr e ↦ rw e h
  ]

  assign_loop-keeps :
      (gemms : List GemmCall) (idx : ℕ) (g : GemmCall) (result : List (ℕ × List GemmCall))
      → Has idx g result
      → Has idx g (assign_loop slots gemms result)
  unfolding assign_loop
  assign_loop-keeps [] idx g result h = h
  assign_loop-keeps (f ∷ gemms) idx g result h =
      assign_loop-keeps gemms idx g
        (place (length slots) (bisect_right (starts slots) f.start_ns) f result)
        (place-keeps (length slots) (bisect_right (starts slots) f.start_ns) idx f g result h)

  place-Has :
      (count n idx : ℕ) (g : GemmCall) (result : List (ℕ × List GemmCall))
      → n ≡ suc idx
      → idx < count
      → Has idx g (place count n g result)
  place-Has count zero idx g result e h = absurd (omega arith)
  place-Has count (suc j) idx g result e h =
      let same : j ≡ idx = omega arith in
      let inside : ltb j count ≡ true = ground arith in
      rw inside (subst (λ k. Has k g (append_at j g result)) same (append_at-Has j g result))

  assign_loop-Has :
      (gemms : List GemmCall) (idx : ℕ) (g : GemmCall) (result : List (ℕ × List GemmCall))
      → Elem g gemms
      → bisect_right (starts slots) g.start_ns ≡ suc idx
      → idx < length slots
      → Has idx g (assign_loop slots gemms result)
  unfolding assign_loop
  assign_loop-Has [] idx g result m e h = elim m [ ]
  assign_loop-Has (f ∷ gemms) idx g result (inl here) e h =
      assign_loop-keeps gemms idx g
        (place (length slots) (bisect_right (starts slots) f.start_ns) f result)
        (subst
          (λ x. Has idx g (place (length slots) (bisect_right (starts slots) x.start_ns) x result))
          here (place-Has (length slots) (bisect_right (starts slots) g.start_ns) idx g result e h))
  assign_loop-Has (f ∷ gemms) idx g result (inr there) e h =
      assign_loop-Has gemms idx g
        (place (length slots) (bisect_right (starts slots) f.start_ns) f result) there e h

length-map : (slots : List StepSlot) → length (starts slots) ≡ length slots
length-map [] = refl
length-map (s ∷ slots) = ap suc (length-map slots)

-- Each element of a list is one, also of a longer list.
own_elements :
    (gemms all : List GemmCall)
    → ((g : GemmCall) → Elem g gemms → Elem g all)
    → All (λ g. Elem g all) gemms
own_elements [] all inside = tt
own_elements (g ∷ gemms) all inside =
    (inside g (inl refl), own_elements gemms all (λ f m. inside f (inr m)))

-- On slots in order of their starts, a call stands under a step exactly if it is one of the calls
-- and that step's slot is the last one that begins at or before the call.
pub assign_gemms_to_steps-rank :
    (gemms : List GemmCall) (slots : List StepSlot) (idx : ℕ) (g : GemmCall)
    → IsRising (starts slots)
    → Has slots idx g (assign_gemms_to_steps gemms slots)
      ↔ (Elem g gemms × (rank g.start_ns (starts slots) ≡ suc idx))
unfolding assign_gemms_to_steps
assign_gemms_to_steps-rank gemms slots idx g rising =
    let search = bisect_right-rank (starts slots) g.start_ns rising in
    (
      λ (gs, found, within).
          let (at, m) =
            All-at (StandsAt slots gemms idx) gs
              (assign_loop-IsPlaced slots gemms gemms (empty_from 0 slots)
                (own_elements gemms gemms (λ f m. m)) (empty_from-IsPlaced slots gemms 0 slots) idx
                gs found)
              within in
          (m, sym search ∙ at),
      λ (m, ranked).
          assign_loop-Has slots gemms idx g (empty_from 0 slots) m (search ∙ ranked)
            (omega (arith, rank-length g.start_ns (starts slots), length-map slots)),
    )
