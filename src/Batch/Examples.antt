-- ===== src/Batch/Examples.antt =====
-- Two devices, a GEMM on the first that was measured, and an all-reduce of both.
use morphling.Prelude.{
  ℕ, ◌+◌, ◌*◌, ◌/◌, ◌≡◌, refl, false, not, ◌==◌, ltb, leb, sum, none, some, List, [], ◌∷◌, arith,
  All, Elem, if◌then◌else◌,
}
use morphling.Prelude.Int.{ℤ, pos, pos_part, ◌-ℤ◌}
use morphling.Str.{Str, codes, has_part}
use morphling.Py.{Error, Result, raise, ok}
use morphling.Dict.{str_key, int_eq, pair_eq, lookup, put}
use morphling.Sort.{sort}
use morphling.Shapes.Shards.{contains}
use morphling.Shapes.Unique.{IsUnique}
use morphling.Float.{Float, IsOrder, best_from}
use morphling.Json.{
  dicts, to_int, to_float, Json, Fields, null, int, text, array, object, cons, nil, field, end,
}
use morphling.Batch.{VtimeEvent}
use morphling.Batch.Entries.{Entry}
use morphling.Batch.Collective.{GroupKey, build_collective_groups}
use morphling.Batch.Estimate.{estimate_allreduce_ms}
use morphling.Batch.Totals.{add_table, add_collectives}
use morphling.Batch.Phases.{within_batch_multiplier, scale_phase, bool_key}
use morphling.Batch.Tables.{PhaseTable, key_of, phase_us_by_key}
use morphling.Batch.Runtime.{
  BatchRuntimeResult, infer_pipeline_params, total_runtime, optimizer_tail, stage_maxima,
  bottleneck_stage_time,
}
use morphling.Batch.Compute.{Arguments, compute_batch_runtime}
use morphling.Batch.Run.{Run}
use morphling.Batch.Levels.{IsBottleneck, HasLevel, cleave_runtime}
use morphling.Batch.Pipeline.{IsSlowest, IsTimed, pipeline_runtime}
use morphling.Batch.Once.{IsTimeOf, TakesTime, firsts, plus_all}
use morphling.Batch.Walltime.{allreduce_once}
use morphling.Batch.Durations.{plus_left}
use morphling.Batch.Measured.{cell, event_shares, measured_time}

-- Floats without fractions, for a run by hand.
abbrev whole : Float ℕ
whole = record {
  zero = 0;
  one = 1;
  plus = ◌+◌;
  times = ◌*◌;
  over = ◌/◌;
  total = sum;
  less = ltb;
  at_most = leb;
  truth = λ n. not (n == 0);
  of_int = pos_part;
  of_text = λ s. none;
  int_of = λ n. ok (pos n);
}

whole-IsOrder : IsOrder whole
whole-IsOrder = record { asym = λ a b h. ground arith; trans = λ a b c h k. ground arith }

abbrev name_of : Json ℕ → Result Str
name_of null = ok []
name_of (text s) = ok s
name_of _ = raise Error.type_error

abbrev entry : Str → ℕ → Fields ℕ → Json ℕ
entry kind device more = object (
    field (codes "gemm_id") (int (pos 7))
      (field (codes "device_id") (int (pos device)) (field (codes "type") (text kind) more)))

abbrev ring : Fields ℕ
ring =
    field (codes "group_size") (int (pos 2))
      (field (codes "data_bytes") (int (pos 6)) (field (codes "bandwidth_bps") (int (pos 2)) end))

abbrev manifest : Json ℕ
manifest = array (
    cons (entry (codes "cleave_tp") 0 end) (
      cons (entry (codes "pp_local") 1 end) (
        cons (entry (codes "dp_allreduce") 0 ring)
          (cons (entry (codes "dp_allreduce") 1 ring) nil))))

abbrev measured : VtimeEvent
measured = record {
  timestamp_us = pos 0;
  device_id = pos 0;
  gemm_id = pos 7;
  phase = codes "COMPUTE";
  event = codes "END";
  vt_start_us = pos 0;
  vt_end_us = pos 5000;
  vt_duration_us = pos 5000;
}

abbrev arguments : Str → Arguments ℕ
arguments baseline = record {
  vtime_events = measured ∷ [];
  baseline_type = baseline;
  pp_size = some (pos 2);
  num_microbatches = some (pos 4);
  optimizer_tail_ms = some 9;
  device_profiles = [];
  bytes_per_element = 2;
  allreduce_bandwidth_bps = none;
  within_batch_trace = none;
}

abbrev result : Str → ℕ → ℕ → ℕ → ℕ → ℕ → BatchRuntimeResult ℕ
result baseline total bubble tail first second = record {
  baseline_name = baseline;
  total_runtime_ms = total;
  compute_time_ms = 5;
  network_time_ms = 0;
  pipeline_bubble_ms = bubble;
  allreduce_time_ms = 3000;
  optimizer_tail_ms = tail;
  per_device_breakdown =
      (pos 0, record { compute_ms = first; network_ms = 3000; total_ms = 3000 + first })
      ∷ (pos 1, record { compute_ms = second; network_ms = 3000; total_ms = 3000 + second })
      ∷ [];
  per_level_breakdown =
      record {
        level = pos 0;
        runtime_ms = 3005;
        bottleneck_device = if ltb first second then pos 1 else pos 0;
      }
      ∷ [];
}

abbrev cleave_result : BatchRuntimeResult ℕ
cleave_result = result (codes "cleave") 3014 0 9 5 0

abbrev alpa_result : BatchRuntimeResult ℕ
alpa_result = result (codes "alpa") 15025 3005 0 0 5

abbrev str_of : Json ℕ → Str
str_of v = []

-- The time on the network of an all-reduce is in the devices' breakdown, and not in
-- `network_time_ms`.
run_cleave :
    compute_batch_runtime name_of whole str_of (arguments (codes "cleave")) manifest
    ≡ ok cleave_result
unfolding compute_batch_runtime dicts to_int lookup put build_collective_groups phase_us_by_key
    within_batch_multiplier add_collectives estimate_allreduce_ms total_runtime sort to_float ◌-ℤ◌
    add_table best_from scale_phase optimizer_tail
run_cleave = refl

run_alpa :
    compute_batch_runtime name_of whole str_of (arguments (codes "alpa")) manifest ≡ ok alpa_result
unfolding compute_batch_runtime dicts to_int lookup put build_collective_groups phase_us_by_key
    within_batch_multiplier add_collectives estimate_allreduce_ms total_runtime sort to_float ◌-ℤ◌
    add_table best_from scale_phase optimizer_tail stage_maxima bottleneck_stage_time
    infer_pipeline_params has_part
run_alpa = refl

cleave_runtime_example :
    (run : Run name_of whole str_of (arguments (codes "cleave")) manifest cleave_result) × (◌≡◌
      {A = ℕ} 3014
      (sum (3005 ∷ []) + 9))
    × (◌≡◌ {A = ℕ} 0 0)
    × All
        (IsBottleneck whole whole-IsOrder run.totals.level_device)
        cleave_result.per_level_breakdown
    × ((level : ℤ) (item : ℤ × ℕ) (items : List (ℤ × ℕ))
        → Elem (level, item ∷ items) run.totals.level_device
        → HasLevel whole level cleave_result.per_level_breakdown)
cleave_runtime_example =
    cleave_runtime name_of whole whole-IsOrder str_of (arguments (codes "cleave")) manifest
      run_cleave refl

pipeline_runtime_example :
    (run : Run name_of whole str_of (arguments (codes "alpa")) manifest alpa_result) × (stages : ℤ)
    × (microbatches : ℤ) × (slowest : ℕ) × (infer_pipeline_params whole manifest
          (run.first ∷ run.entries)
          (some (pos 2))
          (some (pos 4))
        ≡ ok (stages, microbatches))
    × IsSlowest whole slowest run.totals.stage_device
    × IsTimed whole
        (codes "alpa")
        alpa_result.per_level_breakdown
        slowest
        stages
        microbatches
        (15025, 3005)
pipeline_runtime_example =
    pipeline_runtime name_of whole whole-IsOrder str_of (arguments (codes "alpa")) manifest run_alpa
      refl

allreduce_once_example :
    (run : Run name_of whole str_of (arguments (codes "alpa")) manifest alpa_result)
    × (groups : List (GroupKey Str × List ℤ)) × (counted : List (GroupKey Str × ℕ))
    × (build_collective_groups name_of (run.first ∷ run.entries) ≡ ok groups)
    × (3000 ≡ plus_all name_of whole groups [] 2 none 0 counted)
    × IsUnique (firsts name_of whole groups [] 2 none counted)
    × All (IsTimeOf name_of whole groups [] 2 none (run.first ∷ run.entries)) counted
    × ((k : GroupKey Str) (ms : ℕ) (e : Entry ℕ)
        → Elem e (run.first ∷ run.entries)
        → TakesTime name_of whole groups [] 2 none k ms e
        → Elem k (firsts name_of whole groups [] 2 none counted))
allreduce_once_example =
    allreduce_once name_of whole str_of (arguments (codes "alpa")) manifest run_alpa

abbrev collective : ℕ → Entry ℕ
collective device = record {
  gemm_id = pos 7;
  level = pos 0;
  device_id = pos device;
  alpha = 0;
  beta = 0;
  n = 0;
  m_total = 0;
  q_total = 0;
  is_local = false;
  stage_id = pos 0;
  parallelism_type = codes "dp_allreduce";
  raw = (codes "group_id", text (codes "a")) ∷ [];
}

abbrev group : GroupKey Str
group = ((codes "dp_allreduce", pos 0), (pos 0, codes "a"))

grouped :
    build_collective_groups name_of (collective 0 ∷ collective 1 ∷ [])
    ≡ ok ((group, pos 0 ∷ pos 1 ∷ []) ∷ [])
unfolding build_collective_groups lookup put contains
grouped = refl

abbrev table : PhaseTable ℕ
table =
    (key_of (collective 0), (codes "COMPUTE", 10000) ∷ [])
    ∷ (key_of (collective 1), (codes "COMPUTE", 10000) ∷ [])
    ∷ []

tabled :
    phase_us_by_key whole none
      (pos 1)
      (measured ∷ measured ∷ [])
      []
      2
      (collective 0 ∷ collective 1 ∷ [])
    ≡ ok table
unfolding phase_us_by_key lookup put within_batch_multiplier scale_phase
tabled = refl

measured_time_example :
    cell whole (key_of (collective 0)) (codes "COMPUTE") table
    ≡ plus_left whole 0 (
        event_shares whole none
          (pos 1)
          (measured ∷ measured ∷ [])
          (key_of (collective 0))
          (codes "COMPUTE")
          (collective 0 ∷ collective 1 ∷ []))
measured_time_example =
    measured_time whole none (pos 1) measured (measured ∷ []) [] 2
      (collective 0 ∷ collective 1 ∷ []) tabled (key_of (collective 0)) (codes "COMPUTE")
