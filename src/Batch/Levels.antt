-- ===== src/Batch/Levels.antt =====
-- The bottleneck of each level.
use mathlib.Core.Path.{subst}
use morphling.Prelude.{
  ◌≡◌, refl, sym, ◌∙◌, ap, true, inl, inr, List, [], ◌∷◌, map, All, Elem, if◌then◌else◌,
}
use morphling.Prelude.Int.{ℤ}
use morphling.Str.{Str, codes, str_eq, lower}
use morphling.Py.{Result, ok}
use morphling.Dict.{Eq}
use morphling.Sort.{sort, Elem-sort, sort-Elem}
use morphling.Float.{Float, IsOrder}
use morphling.Float.Order.{IsTop, best_from-IsTop}
use morphling.Json.{Json}
use morphling.Batch.Runtime.{
  LevelTime, BatchRuntimeResult, key_leb, level_breakdown, per_level, optimizer_tail, total_runtime,
}
use morphling.Batch.Compute.{Arguments, result_of, compute_batch_runtime}
use morphling.Batch.Run.{Run, compute_batch_runtime-Run}

module _ {F : Type 0} (f : Float F) (order : IsOrder f) where
  -- The level's runtime is that of its bottleneck among the times of the level.
  abbrev pub IsBottleneck : List (ℤ × List (ℤ × F)) → LevelTime F → Type 0
  IsBottleneck levels l =
      (times : List (ℤ × F)) × Elem (l.level, times) levels
      × IsTop f (λ (kv : ℤ × F). kv.1) (l.bottleneck_device, l.runtime_ms) times

  level_breakdown-IsBottleneck :
      (levels part : List (ℤ × List (ℤ × F)))
      → ((level : ℤ × List (ℤ × F)) → Elem level part → Elem level levels)
      → All (IsBottleneck levels) (level_breakdown f part)
  unfolding level_breakdown
  level_breakdown-IsBottleneck levels [] within = tt
  level_breakdown-IsBottleneck levels ((level, []) ∷ part) within =
      level_breakdown-IsBottleneck levels part (λ l m. within l (inr m))
  level_breakdown-IsBottleneck levels ((level, item ∷ items) ∷ part) within = (
    (item ∷ items, within _ (inl refl), best_from-IsTop f order (λ (kv : ℤ × F). kv.1) item items),
    level_breakdown-IsBottleneck levels part (λ l m. within l (inr m)),
  )

module _ {F : Type 0} (f : Float F) where
  -- The level is in the breakdown.
  abbrev pub HasLevel : ℤ → List (LevelTime F) → Type 0
  HasLevel level breakdown = (l : LevelTime F) × Elem l breakdown × (l.level ≡ level)

  level_breakdown-HasLevel :
      (level : ℤ) (item : ℤ × F) (items : List (ℤ × F)) (levels : List (ℤ × List (ℤ × F)))
      → Elem (level, item ∷ items) levels
      → HasLevel level (level_breakdown f levels)
  unfolding level_breakdown
  level_breakdown-HasLevel level item items [] m = elim m [ ]
  level_breakdown-HasLevel level item items ((level', []) ∷ levels) (inl e) = absurd (cc)
  level_breakdown-HasLevel level item items ((level', []) ∷ levels) (inr m) =
      level_breakdown-HasLevel level item items levels m
  level_breakdown-HasLevel level item items ((level', item' ∷ items') ∷ levels) (inl e) =
      (_, inl refl, cc)
  level_breakdown-HasLevel level item items ((level', item' ∷ items') ∷ levels) (inr m) =
      let (l, m', e) = level_breakdown-HasLevel level item items levels m in (l, inr m', e)

module _ {F K : Type 0} ⦃key : Eq K⦄ (name_of : Json F → Result K) (f : Float F) (order : IsOrder f)
    (str_of : Json F → Str) (a : Arguments F) (manifest : Json F) {r : BatchRuntimeResult F}
    (returned : compute_batch_runtime name_of f str_of a manifest ≡ ok r) where
  -- Under CLEAVE the runtime is the sum of the times of the levels and the optimizer's tail, with no
  -- bubble. Each level's time is the greatest among its devices' and names a device that took it,
  -- and each level in which a device took time is there.
  pub cleave_runtime :
      str_eq (lower a.baseline_type) (codes "cleave") ≡ true
      → (run : Run name_of f str_of a manifest r) × (r.total_runtime_ms
          ≡ f.plus
              (f.total (map (λ (l : LevelTime F). l.runtime_ms) r.per_level_breakdown))
              r.optimizer_tail_ms)
        × (r.pipeline_bubble_ms ≡ f.zero)
        × All (IsBottleneck f order run.totals.level_device) r.per_level_breakdown
        × ((level : ℤ) (item : ℤ × F) (items : List (ℤ × F))
            → Elem (level, item ∷ items) run.totals.level_device
            → HasLevel f level r.per_level_breakdown)
  unfolding total_runtime result_of per_level
  cleave_runtime cleave =
      let run = compute_batch_runtime-Run name_of f str_of a manifest returned in
      let levels = run.totals.level_device in
      let tail : F = optimizer_tail f manifest a.optimizer_tail_ms in
      let timed : ok (
        f.plus (f.total (map (λ (l : LevelTime F). l.runtime_ms) (per_level f run.totals))) tail,
        f.zero,
      )
          ≡ ok run.times =
        rw cleave at run.timed in
      let broken : per_level f run.totals ≡ r.per_level_breakdown =
        ap (λ (q : BatchRuntimeResult F). q.per_level_breakdown) run.result in
      let tail_kept : (if str_eq (lower a.baseline_type) (codes "cleave") then tail else f.zero)
          ≡ r.optimizer_tail_ms =
        ap (λ (q : BatchRuntimeResult F). q.optimizer_tail_ms) run.result in
      let tailed : tail ≡ r.optimizer_tail_ms = rw cleave at tail_kept in
      let total : run.times.0 ≡ r.total_runtime_ms =
        ap (λ (q : BatchRuntimeResult F). q.total_runtime_ms) run.result in
      let bubble : run.times.1 ≡ r.pipeline_bubble_ms =
        ap (λ (q : BatchRuntimeResult F). q.pipeline_bubble_ms) run.result in
      let both : (
        f.plus (f.total (map (λ (l : LevelTime F). l.runtime_ms) (per_level f run.totals))) tail,
        f.zero,
      )
          ≡ run.times =
        cc in
      (
        run,
        rw (← broken) (rw (← tailed) (sym total ∙ sym (ap (λ (q : F × F). q.0) both))),
        sym bubble ∙ sym (ap (λ (q : F × F). q.1) both),
        subst (All (IsBottleneck f order levels)) broken (
            level_breakdown-IsBottleneck f order levels (sort key_leb levels)
              (λ l m. sort-Elem key_leb l levels m)),
        λ level item items m. subst (HasLevel f level) broken (
            level_breakdown-HasLevel f level item items (sort key_leb levels)
              (Elem-sort key_leb (level, item ∷ items) levels m)),
      )
