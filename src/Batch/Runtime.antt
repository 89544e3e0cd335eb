-- ===== src/Batch/Runtime.antt =====
-- The last part of compute_batch_runtime: bottlenecks, the pipeline and the result; and
-- _infer_pipeline_params and _baseline_uses_pipeline_overlay.
use morphling.Prelude.{
  Bool, true, false, ◌||◌, Option, none, some, List, [], ◌∷◌, map, length, if◌then◌else◌,
}
use morphling.Prelude.Int.{ℤ, pos, ◌+ℤ◌, ◌-ℤ◌, ltb_ℤ, leb_ℤ, max_ℤ}
use morphling.Str.{Str, codes, str_eq, lower, has_part}
use morphling.Py.{Result, ok, ◌>>=◌}
use morphling.Dict.{int_eq}
use morphling.Sort.{sort}
use morphling.Float.{Float, max_of, max_from, best_from}
use morphling.Json.{Json, object, fields_of, get, to_int, to_float}
use morphling.Batch.Entries.{Entry}
use morphling.Batch.Collective.{add}
use morphling.Batch.Totals.{DeviceTime, Totals}

pub record LevelTime (F : Type 0) : Type 0 where
  pub level : ℤ
  pub runtime_ms : F
  pub bottleneck_device : ℤ

pub record BatchRuntimeResult (F : Type 0) : Type 0 where
  pub baseline_name : Str
  pub total_runtime_ms : F
  pub compute_time_ms : F
  pub network_time_ms : F
  pub pipeline_bubble_ms : F
  pub allreduce_time_ms : F
  pub optimizer_tail_ms : F
  pub per_device_breakdown : List (ℤ × DeviceTime F)
  pub per_level_breakdown : List (LevelTime F)

-- The order in which `sorted` puts the keys of a dictionary.
abbrev pub key_leb : {A : Type 0} → ℤ × A → ℤ × A → Bool
key_leb p q = leb_ℤ p.0 q.0

module _ {F : Type 0} (f : Float F) where
  open f use {zero, plus, times, total, less, of_int}

  -- `max(items, key=lambda kv: kv[1])`
  abbrev pub bottleneck : ℤ × F → List (ℤ × F) → ℤ × F
  bottleneck item items = best_from f (λ (kv : ℤ × F). kv.1) item items

  -- The loop over the sorted levels; a level without times is passed over.
  unfoldable pub level_breakdown : List (ℤ × List (ℤ × F)) → List (LevelTime F)
  level_breakdown [] = []
  level_breakdown ((level, []) ∷ levels) = level_breakdown levels
  level_breakdown ((level, item ∷ items) ∷ levels) =
      let (device, runtime) = bottleneck item items in
      record { level = level; runtime_ms = runtime; bottleneck_device = device }
      ∷ level_breakdown levels

  unfoldable pub per_level : Totals F → List (LevelTime F)
  unfolding level_breakdown
  per_level t = level_breakdown (sort key_leb t.level_device)

  -- `max(dev_times.values())` of each stage that has times.
  unfoldable pub stage_maxima : List (ℤ × List (ℤ × F)) → List F
  stage_maxima [] = []
  stage_maxima ((stage, []) ∷ stages) = stage_maxima stages
  stage_maxima ((stage, item ∷ items) ∷ stages) =
      max_from f item.1 (map (λ (kv : ℤ × F). kv.1) items) ∷ stage_maxima stages

  -- The stage that is slowest; without stages, 0.
  unfoldable pub bottleneck_stage_time : List F → F
  bottleneck_stage_time [] = zero
  bottleneck_stage_time (x ∷ xs) = max_from f x xs

  abbrev tail_of : Json F → F
  tail_of (object fs) = to_float f (get (codes "optimizer_tail_ms") (fields_of fs)) zero
  tail_of _ = zero

  unfoldable pub optimizer_tail : Json F → Option F → F
  optimizer_tail manifest none = tail_of manifest
  optimizer_tail manifest (some tail) = max_of f tail zero

  -- An argument, or the number under the key of a manifest that is a dictionary.
  unfoldable pub param_of : Str → Json F → Option ℤ → Result (Option ℤ)
  param_of k manifest (some n) = ok (some n)
  param_of k (object fs) none = do n ← to_int f (get k (fields_of fs)) (pos 0); ok (some n)
  param_of k _ none = ok none

  -- `{entry["stage_id"] for entry in entries}`
  unfoldable pub stage_ids : List (Entry F) → List ℤ
  stage_ids [] = []
  stage_ids (e ∷ entries) = add e.stage_id (stage_ids entries)

  abbrev or_default : ℤ → Option ℤ → ℤ
  or_default default none = default
  or_default default (some n) = if leb_ℤ n (pos 0) then default else n

  abbrev stage_count : List ℤ → ℤ
  stage_count [] = pos 1
  stage_count (s ∷ stages) = pos (length (s ∷ stages))

  unfoldable pub infer_pipeline_params :
      Json F → List (Entry F) → Option ℤ → Option ℤ → Result (ℤ × ℤ)
  unfolding param_of stage_ids
  infer_pipeline_params manifest entries pp_size_arg num_microbatches_arg = do
    pp_size ← param_of (codes "pp_size") manifest pp_size_arg
    num_microbatches ← param_of (codes "num_microbatches") manifest num_microbatches_arg
    ok (or_default (stage_count (stage_ids entries)) pp_size, or_default (pos 1) num_microbatches)

  -- A baseline with pipeline stages runs its microbatches through the slowest of them.
  unfoldable pub baseline_uses_pipeline_overlay : Str → ℤ → Bool
  baseline_uses_pipeline_overlay baseline_type pp_size =
      let b = lower baseline_type in
      if str_eq b (codes "cleave")
      then false
      else if has_part (codes "pp") b
          || (str_eq b (codes "dtfm")
              || (str_eq b (codes "asteroid")
                  || (str_eq b (codes "confident") || str_eq b (codes "alpa"))))
      then true
      else ltb_ℤ (pos 1) pp_size

  -- The runtime and the bubble.
  unfoldable pub total_runtime :
      Str → Json F → List (Entry F) → Option ℤ → Option ℤ → F → Totals F → Result (F × F)
  unfolding per_level infer_pipeline_params baseline_uses_pipeline_overlay
  total_runtime baseline manifest entries pp_size num_microbatches tail t =
      let level_total = total (map (λ (l : LevelTime F). l.runtime_ms) (per_level t)) in
      let slowest = bottleneck_stage_time (stage_maxima t.stage_device) in
      let pipelined : Result (F × F) = do
        (stages, microbatches) ← infer_pipeline_params manifest entries pp_size num_microbatches
        let bubble : F = times (of_int (max_ℤ (stages -ℤ pos 1) (pos 0))) slowest
        ok (
            if baseline_uses_pipeline_overlay baseline stages
            then (plus (times (of_int microbatches) slowest) bubble, bubble)
            else (level_total, zero))
      in if str_eq baseline (codes "cleave") then ok (plus level_total tail, zero) else pipelined

  -- `max(levels) + 1`
  unfoldable pub count_levels : ℤ → List (Entry F) → ℤ
  count_levels top [] = top +ℤ pos 1
  count_levels top (e ∷ entries) = count_levels (max_ℤ top e.level) entries
