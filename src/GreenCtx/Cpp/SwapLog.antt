-- ===== src/GreenCtx/Cpp/SwapLog.antt =====
-- The swap log of `CppBackend` against its counters.
use morphling.Prelude.{
  ℕ, ◌+◌, ◌≡◌, ◌≢◌, refl, ap, sym, ◌∙◌, Option, List, [], ◌∷◌, arith, length, if_ind,
}
use morphling.Prelude.Int.{ℤ, pos, eqb_ℤ, eqb_ℤ_iff, ◌+ℤ◌}
use morphling.Str.{Str}
use morphling.Py.{ok}
use morphling.GreenCtx.Cpp.{
  Runtime, Swap, Cpp, log_swap, activate_for_step, activate_for_time, deactivate, load_trace,
  reset_swap_stats, close, timed,
}

-- The sum of the overheads, in the order of the log.
abbrev pub overhead_sum : ℤ → List Swap → ℤ
overhead_sum acc [] = acc
overhead_sum acc (w ∷ ws) = overhead_sum (acc +ℤ w.python_overhead_ns) ws

-- The log leads from one SM count to another: each swap leaves the count that the one before it
-- entered, for another.
abbrev pub Chain : ℤ → List Swap → ℤ → Type 0
Chain a [] b = a ≡ b
Chain a (w ∷ ws) b = (w.from_sm ≡ a) × (w.from_sm ≢ w.to_sm) × Chain w.to_sm ws b

-- The counters are those of the log, which leads from no partition to the present one.
pub record IsLogged {R Stream : Type 0} (c : Cpp R Stream) : Type 0 where
  pub counted : c.swap_count ≡ length c.swap_log
  pub summed : c.total_python_overhead_ns ≡ overhead_sum (pos 0) c.swap_log
  pub chained : Chain (pos 0) c.swap_log c.prev_sm_count

-- One call of a method that changes the backend.
pub data Method : Type 0 where
  step_activation time_activation deactivation : ℤ → Method
  trace_loading : Option (List Str) → Method
  resetting closing : Method

module _ {R Stream : Type 0} (runtime : Runtime R) where
  abbrev pub perform : Method → Cpp R Stream → Cpp R Stream
  perform (step_activation i) c = (activate_for_step runtime i c).1
  perform (time_activation i) c = (activate_for_time runtime i c).1
  perform (deactivation i) c = deactivate runtime i c
  perform (trace_loading file) c = (load_trace runtime file c).1
  perform resetting c = reset_swap_stats runtime c
  perform closing c = close runtime c

  abbrev pub perform_all : List Method → Cpp R Stream → Cpp R Stream
  perform_all [] c = c
  perform_all (m ∷ ms) c = perform_all ms (perform m c)

  log_swap-same :
      (t0 t1 sm : ℤ) (c : Cpp R Stream) → sm ≡ c.prev_sm_count → log_swap runtime t0 t1 sm c ≡ c
  unfolding log_swap
  log_swap-same t0 t1 sm c e = simp ((eqb_ℤ_iff sm c.prev_sm_count).1 e)

  prev-log_swap :
      (t0 t1 sm : ℤ) (c : Cpp R Stream) → (log_swap runtime t0 t1 sm c).prev_sm_count ≡ sm
  unfolding log_swap
  prev-log_swap t0 t1 sm c =
      if_ind (λ (d : Cpp R Stream). d.prev_sm_count ≡ sm) (eqb_ℤ sm c.prev_sm_count)
        (λ same. sym ((eqb_ℤ_iff sm c.prev_sm_count).0 same)) (λ _. refl)

  -- Leaving the partition that `activate_for_time` has just entered logs nothing and changes no
  -- counter.
  pub deactivate_logs_nothing :
      (elapsed_us sm : ℤ) (gen : ℕ) (c : Cpp R Stream)
      → (activate_for_time runtime elapsed_us c).0 ≡ ok (sm, gen)
      → ((deactivate runtime sm (activate_for_time runtime elapsed_us c).1).swap_log
          ≡ (activate_for_time runtime elapsed_us c).1.swap_log)
        × ((deactivate runtime sm (activate_for_time runtime elapsed_us c).1).swap_count
            ≡ (activate_for_time runtime elapsed_us c).1.swap_count)
        × ((deactivate runtime sm
              (activate_for_time runtime elapsed_us c).1).total_python_overhead_ns
            ≡ (activate_for_time runtime elapsed_us c).1.total_python_overhead_ns)
        × ((deactivate runtime sm (activate_for_time runtime elapsed_us c).1).prev_sm_count ≡ sm)
  unfolding deactivate activate_for_time
  deactivate_logs_nothing elapsed_us sm gen c e =
      let chosen = runtime.sm_count_at_time c.rt elapsed_us in
      let here : sm ≡ chosen = ground arith in
      let entered = (activate_for_time runtime elapsed_us c).1 in
      let stays =
        log_swap-same (entered.readings entered.tick) (entered.readings (entered.tick + 1)) sm
          (timed (runtime.deactivate_for_thread sm) entered)
          (here
            ∙ sym (
                prev-log_swap (c.readings c.tick) (c.readings (c.tick + 1)) chosen
                  (timed (runtime.activate_sm_for_thread chosen) c))) in
      (
        ap (λ (d : Cpp R Stream). d.swap_log) stays,
        ap (λ (d : Cpp R Stream). d.swap_count) stays,
        ap (λ (d : Cpp R Stream). d.total_python_overhead_ns) stays,
        prev-log_swap _ _ sm (timed (runtime.deactivate_for_thread sm) entered),
      )
