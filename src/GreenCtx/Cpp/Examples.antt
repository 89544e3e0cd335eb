-- ===== src/GreenCtx/Cpp/Examples.antt =====
-- A runtime that always answers eight SMs, and the theorems about `CppBackend` over it.
use morphling.Prelude.{ℕ, ◌≡◌, refl, Bool, true, List, [], ◌∷◌}
use morphling.Prelude.Int.{ℤ, pos}
use morphling.Py.{ok}
use morphling.GreenCtx.Cpp.{Runtime, Cpp, activate_for_time}
use morphling.GreenCtx.Cpp.SwapLog.{time_activation, deactivation, Method}

-- The state is the SM count that is active.
abbrev steady : Runtime ℤ
steady = record {
  is_supported = λ r. true;
  available_sm_counts = λ r. pos 8 ∷ [];
  partition_sm_count = λ r. pos 8;
  get_stream_ptr = λ r sm role. 1;
  generation = λ r. 1;
  sm_count_at_step = λ r i. pos 8;
  sm_count_at_time = λ r t. pos 8;
  activate_sm_for_thread = λ sm r. sm;
  deactivate_for_thread = λ sm r. pos 0;
  load_trace = λ file r. (true, r);
  switch_count = λ r. 0;
  close = λ r. r;
}

abbrev new : Cpp ℤ ℕ
new = record {
  rt = pos 0;
  closed = Bool.false;
  swap_log = [];
  swap_count = 0;
  total_python_overhead_ns = pos 0;
  prev_sm_count = pos 0;
  stream_cache = [];
  readings = λ n. pos n;
  tick = 0;
}

abbrev calls : List Method
calls = time_activation (pos 5) ∷ deactivation (pos 8) ∷ time_activation (pos 9) ∷ []

activated-new : (activate_for_time steady (pos 5) new).0 ≡ ok (pos 8, 1)
unfolding activate_for_time
activated-new = refl
