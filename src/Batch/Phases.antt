-- ===== src/Batch/Phases.antt =====
-- The time that each entry spends in each phase, measured or computed:
-- _compute_analytical_phase_us, _within_batch_multiplier, _scale_phase and the first part of
-- compute_batch_runtime.
use morphling.Prelude.{
  ℕ, ◌-◌, ◌≡◌, ◌↔◌, arith, Bool, true, not, ◌&&◌, Option, none, some, List, [], ◌∷◌, get_elem?,
  get_last_or, ◌==◌, if◌then◌else◌,
}
use morphling.Prelude.Int.{ℤ, pos, pos_part, leb_ℤ, min_ℤ}
use morphling.Str.{Str, codes, str_eq}
use morphling.Py.{Result, ok, ◌>>=◌}
use morphling.Dict.{Eq, lookup, int_eq, pair_eq, str_key}
use morphling.Float.{Float, max_of, min_of, is_positive, literal}
use morphling.Batch.Entries.{Entry, Profile}

-- Of a trace within a batch what is read: a number of bins, and three lists for each device.
pub record Multipliers (F : Type 0) : Type 0 where
  pub flops_mult : List F
  pub ul_bw_mult : List F
  pub dl_bw_mult : List F

pub record WithinBatch (F : Type 0) : Type 0 where
  pub num_bins : ℕ
  pub devices : List (ℤ × Multipliers F)

-- `phase_us_by_key`'s keys: level, device and GEMM, and type, stage and whether it is local.
abbrev pub PhaseKey : Type 0
PhaseKey = (ℤ × (ℤ × ℤ)) × (Str × (ℤ × Bool))

abbrev eqb_bool : Bool → Bool → Bool
eqb_bool a b = if a then b else not b

pub eqb_bool_iff : (a b : Bool) → (eqb_bool a b ≡ true) ↔ (a ≡ b)
eqb_bool_iff a b = ground arith

instance abbrev pub bool_key : Eq Bool
bool_key = record { eqb = eqb_bool; eqb_iff = eqb_bool_iff }

-- The durations of the phases, by their names.
abbrev pub PhaseMap : Type 0 → Type 0
PhaseMap F = List (Str × F)

module _ {F : Type 0} (f : Float F) where
  open f use {zero, one, plus, times, over, less, of_int, int_of}

  abbrev field_of : (Profile F → F) → Option (Profile F) → F
  field_of field none = zero
  field_of field (some p) = field p

  abbrev micro : F → F
  micro s = times s (literal f 1_000_000)

  unfoldable pub compute_analytical_phase_us : Entry F → List (ℤ × Profile F) → F → PhaseMap F
  compute_analytical_phase_us e profiles bytes_per_element =
      let profile = lookup e.device_id profiles in
      let flops = field_of (λ p. p.flops) profile in
      let dl_bw = field_of (λ p. p.dl_bw) profile in
      let ul_bw = field_of (λ p. p.ul_bw) profile in
      let dl_lat = field_of (λ p. p.dl_lat) profile in
      let ul_lat = field_of (λ p. p.ul_lat) profile in
      let alpha = max_of f e.alpha zero in
      let beta = max_of f e.beta zero in
      let n = max_of f e.n zero in
      let sized = is_positive f alpha && is_positive f beta in
      let compute_s =
        if is_positive f flops && (sized && is_positive f n)
        then over (times (times (times (literal f 2) alpha) beta) n) flops
        else zero in
      let download_bytes =
        plus (times (times alpha n) bytes_per_element) (times (times n beta) bytes_per_element) in
      let download_s =
        if is_positive f dl_bw && (sized && is_positive f n)
        then plus (over download_bytes dl_bw) dl_lat
        else zero in
      let upload_s =
        if is_positive f ul_bw && sized
        then plus (over (times (times alpha beta) bytes_per_element) ul_bw) ul_lat
        else zero in
      (codes "SEND", zero)
      ∷ (codes "DOWNLOAD", micro download_s)
      ∷ (codes "COMPUTE", micro compute_s)
      ∷ (codes "UPLOAD", micro upload_s)
      ∷ (codes "RECEIVE", zero)
      ∷ []

  -- `_at`: the bin's value, or the last one, at least a millionth; no list reads as 1.
  unfoldable pub multiplier_at : ℕ → List F → F
  multiplier_at b [] = one
  multiplier_at b (x ∷ xs) =
      let floor = over one (literal f 1_000_000) in
      let v : F = elim (get_elem? (x ∷ xs) b) [ some y ↦ y | none ↦ get_last_or xs x ] in
      if less floor v then v else floor

  -- The progress of the batch, below 1.
  abbrev progress : ℤ → ℤ → F
  progress level num_levels =
      if leb_ℤ num_levels (pos 1)
      then zero
      else min_of f (over (literal f 999_999) (literal f 1_000_000))
          (max_of f zero (over (of_int level) (of_int num_levels)))

  -- `num_bins`, where 0 reads as 1.
  abbrev bins : ℕ → ℕ
  bins n = if n == 0 then 1 else n

  unfoldable pub bin_of : ℕ → ℤ → ℤ → Result ℕ
  bin_of num_bins level num_levels = do
    at ← int_of (times (progress level num_levels) (literal f (bins num_bins)))
    ok (pos_part (min_ℤ (pos (bins num_bins - 1)) at))

  -- The multipliers of the FLOPs, the uplink and the downlink.
  unfoldable pub within_batch_multiplier : Option (WithinBatch F) → ℤ → ℤ → ℤ → Result (F × F × F)
  unfolding bin_of multiplier_at
  within_batch_multiplier none device_id level num_levels = ok (one, one, one)
  within_batch_multiplier (some trace) device_id level num_levels =
      elim (lookup device_id trace.devices) [
        | none ↦ ok (one, one, one)
        | some dev ↦ bin_of trace.num_bins level num_levels >>= λ b. ok (
          multiplier_at b dev.flops_mult,
          multiplier_at b dev.ul_bw_mult,
          multiplier_at b dev.dl_bw_mult,
        )
      ]

  unfoldable pub scale_phase : Str → F → F × F × F → F
  scale_phase phase dur_us (fm, um, dm) =
      if str_eq phase (codes "COMPUTE")
      then over dur_us fm
      else if str_eq phase (codes "DOWNLOAD")
      then over dur_us dm
      else if str_eq phase (codes "UPLOAD")
      then over dur_us um
      else dur_us
