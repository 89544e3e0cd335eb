-- ===== src/Batch/Walltime.antt =====
-- The collectives in the result of compute_batch_runtime.
use mathlib.Core.Path.{subst}
use morphling.Prelude.{◌≡◌, refl, sym, ◌∙◌, ap, Bool, List, [], ◌∷◌, arith, All, Elem}
use morphling.Prelude.Int.{ℤ}
use morphling.Str.{Str, codes, str_eq, lower}
use morphling.Py.{Result, ok, ◌>>=◌, >>=-eq-ok}
use morphling.Dict.{Eq}
use morphling.Shapes.Unique.{IsUnique}
use morphling.Float.{Float}
use morphling.Json.{Json}
use morphling.Batch.Entries.{Entry}
use morphling.Batch.Collective.{GroupKey, build_collective_groups}
use morphling.Batch.Phases.{PhaseKey}
use morphling.Batch.Tables.{PhaseTable, phase_us_by_key}
use morphling.Batch.Totals.{Totals, nothing, add_time, add_ms, add_table, add_collectives}
use morphling.Batch.Runtime.{BatchRuntimeResult, count_levels}
use morphling.Batch.Compute.{Arguments, totals_of, result_of, compute_batch_runtime}
use morphling.Batch.Run.{Run, compute_batch_runtime-Run}
use morphling.Batch.Once.{IsTimeOf, TakesTime, firsts, plus_all, add_collectives-Counted}

module _ {F : Type 0} (f : Float F) where
  add_ms-allreduce :
      (cleave : Bool) (key : PhaseKey) (send dl comp ul recv : F) (t : Totals F)
      → (add_ms f cleave key send dl comp ul recv t).allreduce_time_ms ≡ t.allreduce_time_ms
  unfolding add_ms add_time
  add_ms-allreduce cleave ((level, (device, gemm)), (ptype, (stage, local))) send dl comp ul recv
        t =
      ground arith

  add_table-allreduce :
      (cleave : Bool) (table : PhaseTable F) (t : Totals F)
      → (add_table f cleave table t).allreduce_time_ms ≡ t.allreduce_time_ms
  unfolding add_table
  add_table-allreduce cleave [] t = refl
  add_table-allreduce cleave ((key, phases) ∷ table) t =
      add_table-allreduce cleave table _ ∙ add_ms-allreduce cleave key _ _ _ _ _ t

module _ {F K : Type 0} ⦃key : Eq K⦄ (name_of : Json F → Result K) (f : Float F)
    (str_of : Json F → Str) (a : Arguments F) (manifest : Json F) {r : BatchRuntimeResult F}
    (returned : compute_batch_runtime name_of f str_of a manifest ≡ ok r) where
  -- The time of the collectives in the result adds up one time for each collective that takes time,
  -- whatever the number of its entries: that of one of its entries, over the devices of the group.
  pub allreduce_once :
      (run : Run name_of f str_of a manifest r) × (groups : List (GroupKey K × List ℤ))
      × (counted : List (GroupKey K × F)) × (build_collective_groups name_of
            (run.first ∷ run.entries)
          ≡ ok groups)
      × (r.allreduce_time_ms
          ≡ plus_all name_of f groups a.device_profiles a.bytes_per_element
              a.allreduce_bandwidth_bps f.zero counted)
      × IsUnique (
          firsts name_of f groups a.device_profiles a.bytes_per_element a.allreduce_bandwidth_bps
            counted)
      × All
          (IsTimeOf name_of f groups a.device_profiles a.bytes_per_element a.allreduce_bandwidth_bps
            (run.first ∷ run.entries))
          counted
      × ((k : GroupKey K) (ms : F) (e : Entry F)
          → Elem e (run.first ∷ run.entries)
          → TakesTime name_of f groups a.device_profiles a.bytes_per_element
              a.allreduce_bandwidth_bps k ms e
          → Elem k (
              firsts name_of f groups a.device_profiles a.bytes_per_element
                a.allreduce_bandwidth_bps counted))
  unfolding totals_of result_of
  allreduce_once =
      let run = compute_batch_runtime-Run name_of f str_of a manifest returned in
      let entries = run.first ∷ run.entries in
      let cleave : Bool = str_eq (lower a.baseline_type) (codes "cleave") in
      let table_of =
        phase_us_by_key f a.within_batch_trace (count_levels f run.first.level run.entries)
          a.vtime_events a.device_profiles a.bytes_per_element entries in
      let loop = λ (groups : List (GroupKey K × List ℤ)) (table : PhaseTable F).
        add_collectives name_of f groups a.device_profiles a.bytes_per_element
          a.allreduce_bandwidth_bps entries ([], add_table f cleave table (nothing f)) in
      let last = λ (w : List (GroupKey K) × Totals F). ok w.1 in
      let (groups, grouped, rest) =
        >>=-eq-ok (build_collective_groups name_of entries)
          (λ groups. table_of >>= λ table. loop groups table >>= last) run.added in
      let (table, tabled, rest') = >>=-eq-ok table_of (λ table. loop groups table >>= last) rest in
      let (walk, walked, kept) = >>=-eq-ok (loop groups table) last rest' in
      let (counted, seen, time, all, unique, complete) =
        add_collectives-Counted name_of f groups a.device_profiles a.bytes_per_element
          a.allreduce_bandwidth_bps entries ([], add_table f cleave table (nothing f)) walked in
      let totals : walk.1 ≡ run.totals = cc in
      let start = add_table-allreduce f cleave table (nothing f) in
      (
        run,
        groups,
        counted,
        grouped,
        sym (ap (λ (q : BatchRuntimeResult F). q.allreduce_time_ms) run.result)
            ∙ sym (ap (λ (t : Totals F). t.allreduce_time_ms) totals)
            ∙ time
            ∙ ap
                (λ (x : F).
                  plus_all name_of f groups a.device_profiles a.bytes_per_element
                    a.allreduce_bandwidth_bps x counted)
                start,
        subst IsUnique seen (unique tt),
        all,
        λ k ms e m takes. subst (Elem k) seen (complete k ms e m takes),
      )
