-- ===== src/Batch/Measured.antt =====
-- The table of the times by key and phase, where the times were measured.
use morphling.Prelude.{
  ◌≡◌, refl, sym, ◌∙◌, ap, ◌&&◌, Bool-cases, inl, inr, Option, List, [], ◌∷◌, map, ◌++◌, arith,
  Option-cases, if_ind, if◌then◌else◌,
}
use morphling.Prelude.Int.{ℤ}
use morphling.Str.{Str}
use morphling.Py.{Result, raise, ok, >>=-eq-ok}
use morphling.Dict.{Eq, lookup, put, lookup-put, int_eq, pair_eq, str_key}
use morphling.Float.{Float}
use morphling.Batch.{VtimeEvent}
use morphling.Batch.Durations.{plus_left, durations, scaled, measured, scaled-add_events}
use morphling.Batch.Entries.{Entry, Profile}
use morphling.Batch.Collective.{or_nil}
use morphling.Batch.Phases.{
  WithinBatch, PhaseKey, PhaseMap, bool_key, within_batch_multiplier, scale_phase,
}
use morphling.Batch.Tables.{
  PhaseTable, key_of, or_zero, add_at_both, add_events, add_phases, add_measured, phase_us_by_key,
}

abbrev pub phase_key : Eq PhaseKey
phase_key = pair_eq

module _ {F : Type 0} (f : Float F) where
  -- What a table holds under two keys, 0 if nothing.
  abbrev pub cell : {K J : Type 0} ⦃e : Eq K⦄ ⦃g : Eq J⦄ → K → J → List (K × List (J × F)) → F
  cell k j d = or_zero f (lookup j (or_nil (lookup k d)))

  cell-add_at_both :
      {K J : Type 0} ⦃e : Eq K⦄ ⦃g : Eq J⦄ (k k' : K) (j j' : J) (x : F)
      (d : List (K × List (J × F)))
      → cell k j (add_at_both f k' j' x d)
        ≡ (if e.eqb k' k && g.eqb j' j then f.plus (cell k j d) x else cell k j d)
  cell-add_at_both ⦃e⦄ ⦃g⦄ k k' j j' x d =
      let row = or_nil (lookup k' d) in
      let y : F = f.plus (or_zero f (lookup j' row)) x in
      ground (
        arith,
        lookup-put k' k (put j' y row) d,
        lookup-put j' j y row,
        (e.eqb_iff k' k).0,
        (g.eqb_iff j' j).0,
      )

  plus_left-append :
      (x : F) (ys zs : List F) → plus_left f x (ys ++ zs) ≡ plus_left f (plus_left f x ys) zs
  plus_left-append x [] zs = refl
  plus_left-append x (y ∷ ys) zs = plus_left-append (f.plus x y) ys zs

  add_phases-cell :
      (key' key : PhaseKey) (phase : Str) (mult : F × F × F) (phases : PhaseMap F)
      (table : PhaseTable F)
      → cell key phase (add_phases f key' mult phases table)
        ≡ plus_left f
            (cell key phase table)
            (if phase_key.eqb key' key then scaled f phase mult phases else [])
  unfolding add_phases
  add_phases-cell key' key phase mult [] table =
      if_ind (λ l. cell key phase table ≡ plus_left f (cell key phase table) l)
        (phase_key.eqb key' key) {x = []} {y = []} (λ _. refl) (λ _. refl)
  add_phases-cell key' key phase mult ((p, dur_us) ∷ phases) table =
      let x : F = scale_phase f p dur_us mult in
      let here = cell-add_at_both key key' phase p x table in
      add_phases-cell key' key phase mult phases (add_at_both f key' p x table)
      ∙ elim (Bool-cases (phase_key.eqb key' key)) [
        | inr other ↦ rw (here, other) refl
        | inl same ↦ elim (Bool-cases (str_key.eqb p phase)) [
          | inl counted ↦ rw (here, same, counted) refl
          | inr apart ↦ rw (here, same, apart) refl
        ]
      ]

  module _ (trace : Option (WithinBatch F)) (num_levels : ℤ) where
    -- The multipliers of an entry; where the trace cannot be read, none.
    abbrev pub multipliers : Entry F → F × F × F
    multipliers e = elim (within_batch_multiplier f trace e.device_id e.level num_levels) [
      | ok mult ↦ mult
      | raise _ ↦ (f.one, f.one, f.one)
    ]

    -- What the entries with the key take of a phase: the measured times of their GEMMs, scaled.
    abbrev pub shares : List (ℤ × PhaseMap F) → PhaseKey → Str → List (Entry F) → List F
    shares vtime key phase [] = []
    shares vtime key phase (e ∷ entries) =
        (if phase_key.eqb (key_of e) key
          then scaled f phase (multipliers e) (or_nil (lookup e.gemm_id vtime))
          else [])
        ++ shares vtime key phase entries

    add_measured-cell :
        (vtime : List (ℤ × PhaseMap F)) (key : PhaseKey) (phase : Str) (entries : List (Entry F))
        (table : PhaseTable F) {after : PhaseTable F}
        → add_measured f trace num_levels vtime entries table ≡ ok after
        → cell key phase after ≡ plus_left f (cell key phase table) (shares vtime key phase entries)
    unfolding add_measured
    add_measured-cell vtime key phase [] table {after} returned =
        let same : table ≡ after = cc in ap (cell key phase) (sym same)
    add_measured-cell vtime key phase (e ∷ entries) table {after} returned =
        let rest : List F = shares vtime key phase entries in
        elim (Option-cases (lookup e.gemm_id vtime)) [
          | inl missing ↦ rw missing (
              add_measured-cell vtime key phase entries table
                (rw (missing, add_measured) at returned)
              ∙ if_ind
                  (λ l.
                    plus_left f (cell key phase table) rest
                    ≡ plus_left f (cell key phase table) (l ++ rest))
                  (phase_key.eqb (key_of e) key) {x = []} {y = []} (λ _. refl) (λ _. refl))
          | inr (phases, found) ↦
              let loop = λ (t : PhaseTable F). add_measured f trace num_levels vtime entries t in
              let (mult, read, later) =
                >>=-eq-ok (within_batch_multiplier f trace e.device_id e.level num_levels)
                  (λ mult. loop (add_phases f (key_of e) mult phases table))
                  (rw (found, add_measured) at returned) in
              let mine : List F =
                if phase_key.eqb (key_of e) key then scaled f phase mult phases else [] in
              let ih =
                add_measured-cell vtime key phase entries
                  (add_phases f (key_of e) mult phases table) later in
              let read' : multipliers e ≡ mult =
                ap
                  (λ (m : Result (F × F × F)). elim m as (λ _. F × F × F) [
                    | ok q ↦ q
                    | raise _ ↦ (f.one, f.one, f.one)
                  ])
                  read in
              rw found (
                ih
                ∙ ap (λ (x : F). plus_left f x rest)
                    (add_phases-cell (key_of e) key phase mult phases table)
                ∙ sym (plus_left-append (cell key phase table) mine rest)
                ∙ ap
                    (λ (m : F × F × F). plus_left f (cell key phase table) (
                      (if phase_key.eqb (key_of e) key then scaled f phase m phases else [])
                      ++ rest))
                    (sym read'))
        ]

    -- The same from the events.
    abbrev pub event_shares : List VtimeEvent → PhaseKey → Str → List (Entry F) → List F
    event_shares events key phase [] = []
    event_shares events key phase (e ∷ entries) =
        (if phase_key.eqb (key_of e) key
          then map (λ x. scale_phase f phase x (multipliers e))
              (measured f (durations f e.gemm_id phase events))
          else [])
        ++ event_shares events key phase entries

    shares-add_events :
        (events : List VtimeEvent) (key : PhaseKey) (phase : Str) (entries : List (Entry F))
        → shares (add_events f events []) key phase entries ≡ event_shares events key phase entries
    shares-add_events events key phase [] = refl
    shares-add_events events key phase (e ∷ entries) =
        rw
          (
            scaled-add_events f e.gemm_id phase (multipliers e) events,
            shares-add_events events key phase entries,
          )
          refl

    -- When the times were measured, what the table holds for a key and a phase is the sum of what
    -- the entries with that key take. Each takes the measured time of its GEMM in that phase, once
    -- and scaled by its multiplier, if the GEMM has an event in that phase, and else nothing; the
    -- measured time is the sum of the durations of those events, none of them counted below 0.
    pub measured_time :
        (ev : VtimeEvent) (events : List VtimeEvent) (profiles : List (ℤ × Profile F)) (bytes : F)
        (entries : List (Entry F)) {table : PhaseTable F}
        → phase_us_by_key f trace num_levels (ev ∷ events) profiles bytes entries ≡ ok table
        → (key : PhaseKey) (phase : Str)
        → cell key phase table ≡ plus_left f f.zero (event_shares (ev ∷ events) key phase entries)
    unfolding phase_us_by_key lookup
    measured_time ev events profiles bytes entries returned key phase =
        add_measured-cell (add_events f (ev ∷ events) []) key phase entries [] returned
        ∙ ap (plus_left f f.zero) (shares-add_events (ev ∷ events) key phase entries)
