-- ===== src/Batch/Durations.antt =====
-- The table of measured times, which has each phase of a GEMM once, with the sum of its events.
use morphling.Prelude.{
  ◌≡◌, refl, sym, ◌∙◌, ap, ◌&&◌, Bool-cases, inl, inr, ◌⊎◌, Option, none, some, List, [], ◌∷◌, map,
  arith, Elem, if_ind, if◌then◌else◌,
}
use morphling.Prelude.Int.{ℤ, pos, max_ℤ}
use morphling.Str.{Str}
use morphling.Dict.{Eq, lookup, put, lookup-put, keys, int_eq, str_key}
use morphling.Shapes.Unique.{IsUnique}
use morphling.Float.{Float}
use morphling.Batch.{VtimeEvent}
use morphling.Batch.Collective.{or_nil}
use morphling.Batch.Phases.{PhaseMap, scale_phase}
use morphling.Batch.Tables.{or_zero, add_at_both, add_events}

module _ {K V : Type 0} ⦃e : Eq K⦄ where
  Elem-keys-put :
      (a k : K) (v : V) (d : List (K × V)) → Elem a (keys (put k v d)) → (a ≡ k) ⊎ Elem a (keys d)
  unfolding put
  Elem-keys-put a k v [] = λ m. m
  Elem-keys-put a k v ((j, w) ∷ d) =
      if_ind (λ (l : List (K × V)). Elem a (keys l) → (a ≡ k) ⊎ Elem a (j ∷ keys d)) (e.eqb j k)
        (λ _ m. inr m)
        (λ _ m. elim m [
          | inl here ↦ inr (inl here)
          | inr there ↦ elim (Elem-keys-put a k v d there) [
            | inl new ↦ inl new
            | inr old ↦ inr (inr old)
          ]
        ])

  put-IsUnique :
      (k : K) (v : V) (d : List (K × V)) → IsUnique (keys d) → IsUnique (keys (put k v d))
  unfolding put
  put-IsUnique k v [] u = (λ m. elim m [ ], tt)
  put-IsUnique k v ((j, w) ∷ d) (new, u) =
      if_ind (λ (l : List (K × V)). IsUnique {A = K} (keys l)) (e.eqb j k) (λ _. (new, u))
        (λ other. (
          λ m. elim (Elem-keys-put j k v d m) [
            | inl same ↦ absurd (let h = (e.eqb_iff j k).1 same in cc)
            | inr old ↦ new old
          ],
          put-IsUnique k v d u,
        ))

module _ {F : Type 0} (f : Float F) where
  -- What a table holds under two keys, if anything.
  abbrev pub held :
      {K J : Type 0} ⦃e : Eq K⦄ ⦃g : Eq J⦄ → K → J → List (K × List (J × F)) → Option F
  held k j d = lookup j (or_nil (lookup k d))

  held-add_at_both :
      {K J : Type 0} ⦃e : Eq K⦄ ⦃g : Eq J⦄ (k k' : K) (j j' : J) (x : F)
      (d : List (K × List (J × F)))
      → held k j (add_at_both f k' j' x d) ≡ (
          if e.eqb k' k && g.eqb j' j then some (f.plus (or_zero f (held k j d)) x) else held k j d)
  held-add_at_both ⦃e⦄ ⦃g⦄ k k' j j' x d =
      let row = or_nil (lookup k' d) in
      let y : F = f.plus (or_zero f (lookup j' row)) x in
      ground (
        arith,
        lookup-put k' k (put j' y row) d,
        lookup-put j' j y row,
        (e.eqb_iff k' k).0,
        (g.eqb_iff j' j).0,
      )

  -- Added up from the left.
  abbrev pub plus_left : F → List F → F
  plus_left x [] = x
  plus_left x (y ∷ ys) = plus_left (f.plus x y) ys

  -- The durations of the events of a GEMM and phase, none below 0.
  abbrev pub durations : ℤ → Str → List VtimeEvent → List F
  durations gemm phase [] = []
  durations gemm phase (ev ∷ events) =
      let rest = durations gemm phase events in
      if int_eq.eqb ev.gemm_id gemm && str_key.eqb ev.phase phase
      then f.of_int (max_ℤ ev.vt_duration_us (pos 0)) ∷ rest
      else rest

  -- An entry of a table after more was added to it.
  abbrev grown : Option F → List F → Option F
  grown o [] = o
  grown o (x ∷ xs) = grown (some (f.plus (or_zero f o) x)) xs

  held-add_events :
      (gemm : ℤ) (phase : Str) (events : List VtimeEvent) (d : List (ℤ × PhaseMap F))
      → held gemm phase (add_events f events d)
        ≡ grown (held gemm phase d) (durations gemm phase events)
  unfolding add_events
  held-add_events gemm phase [] d = refl
  held-add_events gemm phase (ev ∷ events) d =
      let x : F = f.of_int (max_ℤ ev.vt_duration_us (pos 0)) in
      let here = held-add_at_both gemm ev.gemm_id phase ev.phase x d in
      held-add_events gemm phase events (add_at_both f ev.gemm_id ev.phase x d)
      ∙ elim (Bool-cases (int_eq.eqb ev.gemm_id gemm && str_key.eqb ev.phase phase)) [
        | inl counted ↦ rw (here, counted) refl
        | inr other ↦ rw (here, other) refl
      ]

  abbrev AreOnce : List (ℤ × PhaseMap F) → Type 0
  AreOnce d = (gemm : ℤ) → IsUnique (keys (or_nil (lookup gemm d)))

  add_events-AreOnce :
      (events : List VtimeEvent) (d : List (ℤ × PhaseMap F))
      → AreOnce d
      → AreOnce (add_events f events d)
  unfolding add_events
  add_events-AreOnce [] d once = once
  add_events-AreOnce (ev ∷ events) d once =
      let x : F = f.of_int (max_ℤ ev.vt_duration_us (pos 0)) in
      let row = or_nil (lookup ev.gemm_id d) in
      let y : F = f.plus (or_zero f (lookup ev.phase row)) x in
      add_events-AreOnce events (add_at_both f ev.gemm_id ev.phase x d) (λ gemm.
        rw (lookup-put ev.gemm_id gemm (put ev.phase y row) d) (
          if_ind (λ (o : Option (PhaseMap F)). IsUnique (keys (or_nil o)))
            (int_eq.eqb ev.gemm_id gemm) (λ _. put-IsUnique ev.phase y row (once ev.gemm_id))
            (λ _. once gemm)))

  -- The durations of a phase in a map, scaled.
  abbrev pub scaled : Str → F × F × F → PhaseMap F → List F
  scaled phase mult [] = []
  scaled phase mult ((p, dur_us) ∷ phases) =
      let rest = scaled phase mult phases in
      if str_key.eqb p phase then scale_phase f p dur_us mult ∷ rest else rest

  -- A time, scaled, if there is one.
  abbrev scaled_time : Str → F × F × F → Option F → List F
  scaled_time phase mult none = []
  scaled_time phase mult (some x) = scale_phase f phase x mult ∷ []

  scaled_nothing :
      (phase : Str) (mult : F × F × F) (d : PhaseMap F)
      → (Elem phase (keys d) → ⊥)
      → scaled phase mult d ≡ []
  scaled_nothing phase mult [] new = refl
  scaled_nothing phase mult ((p, x) ∷ d) new = elim (Bool-cases (str_key.eqb p phase)) [
    | inl same ↦ absurd (new (inl (sym ((str_key.eqb_iff p phase).0 same))))
    | inr other ↦ rw other (scaled_nothing phase mult d (λ m. new (inr m)))
  ]

  scaled_once :
      (phase : Str) (mult : F × F × F) (d : PhaseMap F)
      → IsUnique (keys d)
      → scaled phase mult d ≡ scaled_time phase mult (lookup phase d)
  unfolding lookup
  scaled_once phase mult [] u = refl
  scaled_once phase mult ((p, x) ∷ d) (new, u) = elim (Bool-cases (str_key.eqb p phase)) [
    | inl same ↦
        let name : p ≡ phase = (str_key.eqb_iff p phase).0 same in
        let only = scaled_nothing phase mult d (λ m. new (rw name m)) in rw (same, only, name) refl
    | inr other ↦ rw other (scaled_once phase mult d u)
  ]

  -- The measured time of a GEMM in a phase: the sum of its durations, if there are any.
  abbrev pub measured : List F → List F
  measured [] = []
  measured (x ∷ xs) = plus_left f.zero (x ∷ xs) ∷ []

  scaled_time-grown :
      (phase : Str) (mult : F × F × F) (xs : List F)
      → scaled_time phase mult (grown none xs) ≡ map (λ x. scale_phase f phase x mult) (measured xs)
  scaled_time-grown phase mult [] = refl
  scaled_time-grown phase mult (x ∷ xs) = ap (scaled_time phase mult) (sums (f.plus f.zero x) xs)
    where
      sums : (y : F) (ys : List F) → grown (some y) ys ≡ some (plus_left y ys)
      sums y [] = refl
      sums y (z ∷ zs) = sums (f.plus y z) zs

  -- What a GEMM gives to a phase is its measured time there, scaled.
  pub scaled-add_events :
      (gemm : ℤ) (phase : Str) (mult : F × F × F) (events : List VtimeEvent)
      → scaled phase mult (or_nil (lookup gemm (add_events f events [])))
        ≡ map (λ x. scale_phase f phase x mult) (measured (durations gemm phase events))
  unfolding lookup
  scaled-add_events gemm phase mult events =
      scaled_once phase mult (or_nil (lookup gemm (add_events f events [])))
        (add_events-AreOnce events [] (λ g. tt) gemm)
      ∙ ap (scaled_time phase mult) (held-add_events gemm phase events [])
      ∙ scaled_time-grown phase mult (durations gemm phase events)
