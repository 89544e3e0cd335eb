-- ===== src/Batch/Pipeline.antt =====
-- The runtime of a baseline that is not CLEAVE.
use mathlib.Core.Path.{subst}
use morphling.Prelude.{
  ◌≡◌, refl, sym, ◌∙◌, ap, false, inl, inr, ◌⊎◌, List, [], ◌∷◌, map, All-at, if_ind, Elem,
  if◌then◌else◌,
}
use morphling.Prelude.Int.{ℤ, pos, ◌-ℤ◌, max_ℤ}
use morphling.Str.{Str, codes, str_eq, lower}
use morphling.Py.{Result, ok, >>=-eq-ok}
use morphling.Dict.{Eq}
use morphling.Float.{Float, IsOrder, max_from}
use morphling.Float.Order.{best_from-IsTop}
use morphling.Json.{Json}
use morphling.Batch.Runtime.{
  LevelTime, BatchRuntimeResult, per_level, stage_maxima, bottleneck_stage_time,
  infer_pipeline_params, baseline_uses_pipeline_overlay, total_runtime,
}
use morphling.Batch.Compute.{Arguments, result_of, compute_batch_runtime}
use morphling.Batch.Overlay.{IsPipelined, lower-lower, overlay-IsPipelined}
use morphling.Batch.Run.{Run, compute_batch_runtime-Run}

module _ {F : Type 0} (f : Float F) where
  -- A device of a stage took the time.
  abbrev pub Took : F → List (ℤ × List (ℤ × F)) → Type 0
  Took x stages =
      (stage : ℤ) × (times : List (ℤ × F)) × (device : ℤ) × Elem (stage, times) stages
      × Elem (device, x) times

  -- No device of any stage took longer; and one took as long, or the time is 0 and none took any.
  abbrev pub IsSlowest : F → List (ℤ × List (ℤ × F)) → Type 0
  IsSlowest x stages =
      ((y : F) → Took y stages → f.less x y ≡ false)
      × (Took x stages ⊎ ((x ≡ f.zero) × ((y : F) → Took y stages → ⊥)))

module _ {F : Type 0} (f : Float F) (order : IsOrder f) where
  value-Elem :
      (x : F) (items : List (ℤ × F))
      → Elem x (map (λ (kv : ℤ × F). kv.1) items)
      → (device : ℤ) × Elem (device, x) items
  value-Elem x [] m = elim m [ ]
  value-Elem x ((d, y) ∷ items) (inl e) = (d, inl (rw e refl))
  value-Elem x ((d, y) ∷ items) (inr m) = let (d', m') = value-Elem x items m in (d', inr m')

  Elem-value :
      (d : ℤ) (x : F) (items : List (ℤ × F))
      → Elem (d, x) items
      → Elem x (map (λ (kv : ℤ × F). kv.1) items)
  Elem-value d x [] m = elim m [ ]
  Elem-value d x ((d', y) ∷ items) (inl e) = inl (ap (λ (kv : ℤ × F). kv.1) e)
  Elem-value d x ((d', y) ∷ items) (inr m) = inr (Elem-value d x items m)

  -- Each of the stages' maxima was taken.
  stage_maxima-Took :
      (x : F) (stages : List (ℤ × List (ℤ × F))) → Elem x (stage_maxima f stages) → Took f x stages
  unfolding stage_maxima
  stage_maxima-Took x [] m = elim m [ ]
  stage_maxima-Took x ((s, []) ∷ stages) m =
      let (s', ts, d, ms, mt) = stage_maxima-Took x stages m in (s', ts, d, inr ms, mt)
  stage_maxima-Took x ((s, item ∷ items) ∷ stages) (inl e) =
      let top = best_from-IsTop f order (λ (y : F). y) item.1 (map (λ (kv : ℤ × F). kv.1) items) in
      let (d, m) =
        value-Elem x (item ∷ items)
          (subst (λ y. Elem y (item.1 ∷ map (λ (kv : ℤ × F). kv.1) items)) (sym e) top.0) in
      (s, item ∷ items, d, inl refl, m)
  stage_maxima-Took x ((s, item ∷ items) ∷ stages) (inr m) =
      let (s', ts, d, ms, mt) = stage_maxima-Took x stages m in (s', ts, d, inr ms, mt)

  -- Each time that was taken is below one of the maxima.
  Took-maximum :
      (y : F) (stages : List (ℤ × List (ℤ × F)))
      → Took f y stages
      → (x : F) × Elem x (stage_maxima f stages) × (f.less x y ≡ false)
  unfolding stage_maxima
  Took-maximum y [] (s, ts, d, ms, mt) = elim ms [ ]
  Took-maximum y ((s', []) ∷ stages) (s, ts, d, inl e, mt) =
      let none_left : Elem {A = ℤ × F} (d, y) [] =
        rw (ap (λ (p : ℤ × List (ℤ × F)). p.1) e) at mt in
      elim none_left [ ]
  Took-maximum y ((s', []) ∷ stages) (s, ts, d, inr ms, mt) =
      Took-maximum y stages (s, ts, d, ms, mt)
  Took-maximum y ((s', item ∷ items) ∷ stages) (s, ts, d, inl e, mt) =
      let top = best_from-IsTop f order (λ (y : F). y) item.1 (map (λ (kv : ℤ × F). kv.1) items) in
      let here : Elem {A = ℤ × F} (d, y) (item ∷ items) =
        rw (ap (λ (p : ℤ × List (ℤ × F)). p.1) e) at mt in
      (
        max_from f item.1 (map (λ (kv : ℤ × F). kv.1) items),
        inl refl,
        All-at (λ z. f.less (max_from f item.1 (map (λ (kv : ℤ × F). kv.1) items)) z ≡ false)
            (item.1 ∷ map (λ (kv : ℤ × F). kv.1) items) top.1 (Elem-value d y (item ∷ items) here),
      )
  Took-maximum y ((s', item ∷ items) ∷ stages) (s, ts, d, inr ms, mt) =
      let (x, m, below) = Took-maximum y stages (s, ts, d, ms, mt) in (x, inr m, below)

  bottleneck_stage_time-IsSlowest :
      (stages : List (ℤ × List (ℤ × F)))
      → IsSlowest f (bottleneck_stage_time f (stage_maxima f stages)) stages
  unfolding bottleneck_stage_time
  bottleneck_stage_time-IsSlowest stages =
      slowest (stage_maxima f stages) (λ x. stage_maxima-Took x stages) (λ y. Took-maximum y stages)
    where
      slowest :
          (maxima : List F)
          → ((x : F) → Elem x maxima → Took f x stages)
          → ((y : F) → Took f y stages → (x : F) × Elem x maxima × (f.less x y ≡ false))
          → IsSlowest f (bottleneck_stage_time f maxima) stages
      slowest [] taken below = (
        λ y t. let (z, m, _) = below y t in elim m [ ],
        inr (refl, λ y t. let (z, m, _) = below y t in m),
      )
      slowest (x ∷ xs) taken below =
          let top = best_from-IsTop f order (λ (y : F). y) x xs in
          let most : F = max_from f x xs in
          (
            λ y t.
                let (z, m, above) = below y t in
                order.trans y z most above (All-at (λ z. f.less most z ≡ false) (x ∷ xs) top.1 m),
            inl (taken most top.0),
          )

module _ {F : Type 0} (f : Float F) where
  -- What a pipelined run takes, and what one without a pipeline does: the bubble, and the runtime.
  abbrev pub IsTimed : Str → List (LevelTime F) → F → ℤ → ℤ → F × F → Type 0
  IsTimed baseline levels slowest stages microbatches (runtime, bubble) =
      (IsPipelined baseline stages
        × (bubble ≡ f.times (f.of_int (max_ℤ (stages -ℤ pos 1) (pos 0))) slowest)
        × (runtime ≡ f.plus (f.times (f.of_int microbatches) slowest) bubble))
      ⊎ ((IsPipelined baseline stages → ⊥)
          × (bubble ≡ f.zero)
          × (runtime ≡ f.total (map (λ (l : LevelTime F). l.runtime_ms) levels)))

  -- The two times as the code tests for them.
  abbrev times_at : Str → List (LevelTime F) → F → ℤ × ℤ → F × F
  times_at baseline levels slowest (stages, microbatches) =
      let bubble : F = f.times (f.of_int (max_ℤ (stages -ℤ pos 1) (pos 0))) slowest in
      if baseline_uses_pipeline_overlay f baseline stages
      then (f.plus (f.times (f.of_int microbatches) slowest) bubble, bubble)
      else (f.total (map (λ (l : LevelTime F). l.runtime_ms) levels), f.zero)

  times_at-IsTimed :
      (name : Str) (levels : List (LevelTime F)) (slowest : F) (p : ℤ × ℤ)
      → str_eq (lower name) (codes "cleave") ≡ false
      → IsTimed (lower name) levels slowest p.0 p.1 (times_at (lower name) levels slowest p)
  times_at-IsTimed name levels slowest (stages, microbatches) other =
      let overlay = overlay-IsPipelined f (lower name) stages (rw lower-lower other) in
      if_ind (IsTimed (lower name) levels slowest stages microbatches)
        (baseline_uses_pipeline_overlay f (lower name) stages)
        (λ used. inl (rw lower-lower at overlay.0 used, refl, refl))
        (λ unused.
          inr
            (λ pipelined. absurd (let h = overlay.1 (rw lower-lower pipelined) in cc), refl, refl))

module _ {F K : Type 0} ⦃key : Eq K⦄ (name_of : Json F → Result K) (f : Float F) (order : IsOrder f)
    (str_of : Json F → Str) (a : Arguments F) (manifest : Json F) {r : BatchRuntimeResult F}
    (returned : compute_batch_runtime name_of f str_of a manifest ≡ ok r) where
  -- A baseline other than CLEAVE whose lower-case name holds "pp" or is dtfm, asteroid, confident or
  -- alpa, or that has more than one stage, has as its bubble the time of the slowest stage for each
  -- stage but one, and as its runtime that time for each microbatch and the bubble. Any other has no
  -- bubble, and its runtime is the sum of the times of the levels. The slowest stage's time is that
  -- of a device, or 0 where no stage has a device, and no device of a stage took longer.
  pub pipeline_runtime :
      str_eq (lower a.baseline_type) (codes "cleave") ≡ false
      → (run : Run name_of f str_of a manifest r) × (stages : ℤ) × (microbatches : ℤ)
        × (slowest : F) × (infer_pipeline_params f manifest
              (run.first ∷ run.entries)
              a.pp_size
              a.num_microbatches
            ≡ ok (stages, microbatches))
        × IsSlowest f slowest run.totals.stage_device
        × IsTimed f
            (lower a.baseline_type)
            r.per_level_breakdown
            slowest
            stages
            microbatches
            (r.total_runtime_ms, r.pipeline_bubble_ms)
  unfolding total_runtime result_of
  pipeline_runtime other =
      let run = compute_batch_runtime-Run name_of f str_of a manifest returned in
      let entries = run.first ∷ run.entries in
      let name : Str = lower a.baseline_type in
      let slowest : F = bottleneck_stage_time f (stage_maxima f run.totals.stage_device) in
      let (p, inferred, times) =
        >>=-eq-ok (infer_pipeline_params f manifest entries a.pp_size a.num_microbatches)
          (λ p. ok (times_at f name (per_level f run.totals) slowest p)) (rw other at run.timed) in
      let both : ◌≡◌ {A = F × F} run.times (r.total_runtime_ms, r.pipeline_bubble_ms) =
        ap (λ (q : BatchRuntimeResult F). (q.total_runtime_ms, q.pipeline_bubble_ms)) run.result in
      let at : times_at f name (per_level f run.totals) slowest p ≡ run.times = cc in
      let same : per_level f run.totals ≡ r.per_level_breakdown =
        ap (λ (q : BatchRuntimeResult F). q.per_level_breakdown) run.result in
      (
        run,
        p.0,
        p.1,
        slowest,
        inferred,
        bottleneck_stage_time-IsSlowest f order run.totals.stage_device,
        subst
            (λ levels.
              IsTimed f name levels slowest p.0 p.1 (r.total_runtime_ms, r.pipeline_bubble_ms))
            same
            (subst (IsTimed f name (per_level f run.totals) slowest p.0 p.1) (at ∙ both)
              (times_at-IsTimed f a.baseline_type (per_level f run.totals) slowest p other)),
      )
