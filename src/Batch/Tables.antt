-- ===== src/Batch/Tables.antt =====
-- The tables of compute_batch_runtime that add up durations: `vtime_phases` and
-- `phase_us_by_key`.
use morphling.Prelude.{Option, none, some, List, [], ◌∷◌}
use morphling.Prelude.Int.{ℤ, pos, max_ℤ}
use morphling.Py.{Result, ok, ◌>>=◌}
use morphling.Dict.{Eq, lookup, put, int_eq, pair_eq, str_key}
use morphling.Float.{Float, max_of}
use morphling.Batch.{VtimeEvent}
use morphling.Batch.Entries.{Entry, Profile}
use morphling.Batch.Collective.{or_nil}
use morphling.Batch.Phases.{
  WithinBatch, PhaseKey, PhaseMap, bool_key, compute_analytical_phase_us, within_batch_multiplier,
  scale_phase,
}

abbrev pub PhaseTable : Type 0 → Type 0
PhaseTable F = List (PhaseKey × PhaseMap F)

abbrev pub key_of : {F : Type 0} → Entry F → PhaseKey
key_of e = ((e.level, (e.device_id, e.gemm_id)), (e.parallelism_type, (e.stage_id, e.is_local)))

module _ {F : Type 0} (f : Float F) where
  open f use {zero, plus, of_int}

  abbrev pub or_zero : Option F → F
  or_zero none = zero
  or_zero (some x) = x

  -- `d[k] += x` on a `defaultdict(float)`.
  abbrev pub add_at : {K : Type 0} ⦃e : Eq K⦄ → K → F → List (K × F) → List (K × F)
  add_at k x d = put k (plus (or_zero (lookup k d)) x) d

  -- `d[k][j] += x`
  abbrev pub add_at_both :
      {K J : Type 0} ⦃e : Eq K⦄ ⦃g : Eq J⦄
      → K
      → J
      → F
      → List (K × List (J × F))
      → List (K × List (J × F))
  add_at_both k j x d = put k (add_at j x (or_nil (lookup k d))) d

  -- The measured time of each GEMM in each phase.
  unfoldable pub add_events : List VtimeEvent → List (ℤ × PhaseMap F) → List (ℤ × PhaseMap F)
  add_events [] phases = phases
  add_events (ev ∷ events) phases =
      add_events events
        (add_at_both ev.gemm_id ev.phase (of_int (max_ℤ ev.vt_duration_us (pos 0))) phases)

  -- The loop over the phases of an entry.
  unfoldable pub add_phases : PhaseKey → F × F × F → PhaseMap F → PhaseTable F → PhaseTable F
  add_phases key mult [] table = table
  add_phases key mult ((phase, dur_us) ∷ phases) table =
      add_phases key mult phases (add_at_both key phase (scale_phase f phase dur_us mult) table)

  module _ (trace : Option (WithinBatch F)) (num_levels : ℤ) where
    -- Each entry takes the time of its GEMM, if that was measured.
    unfoldable pub add_measured :
        List (ℤ × PhaseMap F) → List (Entry F) → PhaseTable F → Result (PhaseTable F)
    unfolding add_phases
    add_measured vtime [] table = ok table
    add_measured vtime (e ∷ entries) table =
        let rest = add_measured vtime entries in
        elim (lookup e.gemm_id vtime) [
          | none ↦ rest table
          | some phases ↦ within_batch_multiplier f trace e.device_id e.level num_levels >>= λ mult.
              rest (add_phases (key_of e) mult phases table)
        ]

    abbrev nonnegative : PhaseMap F → PhaseMap F
    nonnegative [] = []
    nonnegative ((phase, dur_us) ∷ phases) = (phase, max_of f dur_us zero) ∷ nonnegative phases

    unfoldable pub add_computed :
        List (ℤ × Profile F) → F → List (Entry F) → PhaseTable F → Result (PhaseTable F)
    unfolding add_phases
    add_computed profiles bytes [] table = ok table
    add_computed profiles bytes (e ∷ entries) table =
        within_batch_multiplier f trace e.device_id e.level num_levels >>= λ mult.
        add_computed profiles bytes entries (
          add_phases (key_of e) mult (nonnegative (compute_analytical_phase_us f e profiles bytes))
            table)

    -- `phase_us_by_key`, measured if there are events.
    unfoldable pub phase_us_by_key :
        List VtimeEvent → List (ℤ × Profile F) → F → List (Entry F) → Result (PhaseTable F)
    unfolding add_measured add_computed add_events
    phase_us_by_key [] profiles bytes entries = add_computed profiles bytes entries []
    phase_us_by_key (ev ∷ events) profiles bytes entries =
        add_measured (add_events (ev ∷ events) []) entries []
