-- ===== src/Batch/Compute.antt =====
-- compute_batch_runtime, over the values of its arguments.
use morphling.Prelude.{Option, List, [], ◌∷◌, if◌then◌else◌}
use morphling.Prelude.Int.{ℤ}
use morphling.Str.{Str, codes, str_eq, lower}
use morphling.Py.{Error, Result, raise, ok, ◌>>=◌}
use morphling.Dict.{Eq, int_eq}
use morphling.Sort.{sort}
use morphling.Float.{Float}
use morphling.Json.{Json}
use morphling.Batch.{VtimeEvent}
use morphling.Batch.Entries.{Entry, Profile, extract_manifest_entries, normalize_all}
use morphling.Batch.Collective.{build_collective_groups}
use morphling.Batch.Phases.{WithinBatch}
use morphling.Batch.Tables.{phase_us_by_key}
use morphling.Batch.Totals.{Totals, nothing, add_table, add_collectives}
use morphling.Batch.Runtime.{
  BatchRuntimeResult, key_leb, per_level, optimizer_tail, total_runtime, count_levels,
}

-- The arguments besides the manifest.
pub record Arguments (F : Type 0) : Type 0 where
  pub vtime_events : List VtimeEvent
  pub baseline_type : Str
  pub pp_size : Option ℤ
  pub num_microbatches : Option ℤ
  pub optimizer_tail_ms : Option F
  pub device_profiles : List (ℤ × Profile F)
  pub bytes_per_element : F
  pub allreduce_bandwidth_bps : Option F
  pub within_batch_trace : Option (WithinBatch F)

module _ {F K : Type 0} ⦃key : Eq K⦄ (name_of : Json F → Result K) (f : Float F)
    (str_of : Json F → Str) (a : Arguments F) (manifest : Json F) where
  open f use {zero}

  unfoldable pub result_of : F → F × F → Totals F → BatchRuntimeResult F
  unfolding per_level
  result_of tail (runtime, bubble) t = record {
    baseline_name = lower a.baseline_type;
    total_runtime_ms = runtime;
    compute_time_ms = t.compute_time_ms;
    network_time_ms = t.network_time_ms;
    pipeline_bubble_ms = bubble;
    allreduce_time_ms = t.allreduce_time_ms;
    optimizer_tail_ms = if str_eq (lower a.baseline_type) (codes "cleave") then tail else zero;
    per_device_breakdown = sort key_leb t.per_device;
    per_level_breakdown = per_level f t;
  }

  -- The times of all entries.
  unfoldable pub totals_of : Entry F → List (Entry F) → Result (Totals F)
  totals_of first entries = do
    groups ← build_collective_groups name_of (first ∷ entries)
    table ←
        phase_us_by_key f a.within_batch_trace (count_levels f first.level entries) a.vtime_events
          a.device_profiles a.bytes_per_element (first ∷ entries)
    let keyed = add_table f (str_eq (lower a.baseline_type) (codes "cleave")) table (nothing f)
    (seen, t) ←
        add_collectives name_of f groups a.device_profiles a.bytes_per_element
          a.allreduce_bandwidth_bps (first ∷ entries) ([], keyed)
    ok t

  unfoldable pub runtime_of : List (Entry F) → Result (BatchRuntimeResult F)
  unfolding totals_of result_of
  runtime_of [] = raise Error.value_error
  runtime_of (first ∷ entries) = do
    t ← totals_of first entries
    let tail : F = optimizer_tail f manifest a.optimizer_tail_ms
    runtime ←
        total_runtime f (lower a.baseline_type) manifest (first ∷ entries) a.pp_size
          a.num_microbatches tail t
    ok (result_of tail runtime t)

  unfoldable pub compute_batch_runtime : Result (BatchRuntimeResult F)
  unfolding extract_manifest_entries normalize_all runtime_of
  compute_batch_runtime = do
    raws ← extract_manifest_entries manifest
    entries ← normalize_all f str_of raws
    runtime_of entries
