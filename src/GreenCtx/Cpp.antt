-- ===== src/GreenCtx/Cpp.antt =====
-- morphling/runtime/greenctx/cpp_backend.py: the backend over the C++ runtime, and its log of
-- partition swaps. The runtime's object is of any type, with its methods in `Runtime`; the values
-- of `time.perf_counter_ns()` are given by `readings`, in the order of the calls.
pub mod SwapLog
mod Examples
use morphling.Prelude.{ℕ, ◌+◌, ◌==◌, Bool, true, false, Option, List, [], ◌∷◌, ◌++◌, if◌then◌else◌}
use morphling.Prelude.Int.{ℤ, pos, eqb_ℤ, ◌+ℤ◌, ◌-ℤ◌}
use morphling.Str.{Str}
use morphling.Py.{Result, ok, raise, key_error, or_raise, ◌>>=◌}
use morphling.Dict.{lookup, put, int_eq, pair_eq}
use morphling.GreenCtx.Base.{
  Role, role_eq, role_names, compute, recv, send, dp, StreamBundle, Activation,
}

-- The methods of the object that `create_runtime` returns; a null stream pointer is 0.
pub record Runtime (R : Type 0) : Type 0 where
  pub is_supported : R → Bool
  pub available_sm_counts : R → List ℤ
  pub partition_sm_count : R → ℤ
  pub get_stream_ptr : R → ℤ → Role → ℕ
  pub generation : R → ℕ
  pub sm_count_at_step : R → ℤ → ℤ
  pub sm_count_at_time : R → ℤ → ℤ
  pub activate_sm_for_thread : ℤ → R → R
  pub deactivate_for_thread : ℤ → R → R
  pub load_trace : Option (List Str) → R → Bool × R
  pub switch_count : R → ℕ
  pub close : R → R

pub record Swap : Type 0 where
  pub timestamp_ns : ℤ
  pub from_sm : ℤ
  pub to_sm : ℤ
  pub python_overhead_ns : ℤ

pub record Cpp (R Stream : Type 0) : Type 0 where
  pub rt : R
  pub closed : Bool
  pub swap_log : List Swap
  pub swap_count : ℕ
  pub total_python_overhead_ns : ℤ
  pub prev_sm_count : ℤ
  pub stream_cache : List ((ℤ × Role) × Stream)
  pub readings : ℕ → ℤ
  pub tick : ℕ

module _ {R Stream : Type 0} (runtime : Runtime R) (external : ℕ → Stream) where
  -- The inner loop of the constructor: a stream for each role whose pointer is not null.
  unfoldable pub cache_roles :
      R → ℤ → List Role → List ((ℤ × Role) × Stream) → List ((ℤ × Role) × Stream)
  cache_roles rt sm [] cache = cache
  cache_roles rt sm (role ∷ roles) cache =
      let ptr = runtime.get_stream_ptr rt sm role in
      cache_roles rt sm roles (if ptr == 0 then cache else put (sm, role) (external ptr) cache)

  unfoldable pub cache_counts : R → List ℤ → List ((ℤ × Role) × Stream) → List ((ℤ × Role) × Stream)
  unfolding cache_roles
  cache_counts rt [] cache = cache
  cache_counts rt (sm ∷ sms) cache = cache_counts rt sms (cache_roles rt sm role_names cache)

  -- `CppBackend(...)`, once `create_runtime` has returned.
  unfoldable pub make_cpp : (ℕ → ℤ) → R → Cpp R Stream
  make_cpp readings rt = record {
    rt = rt;
    closed = false;
    swap_log = [];
    swap_count = 0;
    total_python_overhead_ns = pos 0;
    prev_sm_count = pos 0;
    stream_cache =
        if runtime.is_supported rt then cache_counts rt (runtime.available_sm_counts rt) [] else [];
    readings = readings;
    tick = 0;
  }

-- A call of the runtime between two readings of the clock.
abbrev pub timed : {R Stream : Type 0} → (R → R) → Cpp R Stream → Cpp R Stream
timed call c = record c { rt = call c.rt; tick = c.tick + 2 }

module _ {R Stream : Type 0} (runtime : Runtime R) where
  unfoldable pub get_stream_bundle : Cpp R Stream → ℤ → Result (StreamBundle Stream)
  get_stream_bundle c sm_count = do
    comp_stream ← or_raise key_error (lookup (sm_count, compute) c.stream_cache)
    recv_stream ← or_raise key_error (lookup (sm_count, recv) c.stream_cache)
    send_stream ← or_raise key_error (lookup (sm_count, send) c.stream_cache)
    dp_stream ← or_raise key_error (lookup (sm_count, dp) c.stream_cache)
    ok (record {
      comp = comp_stream;
      recv_stream = recv_stream;
      send_stream = send_stream;
      dp_stream = dp_stream;
      sm_count = sm_count;
      generation = runtime.generation c.rt;
    })

  -- The block `if sm != self._prev_sm_count`, between the readings `t0` and `t1`.
  unfoldable pub log_swap : ℤ → ℤ → ℤ → Cpp R Stream → Cpp R Stream
  log_swap t0 t1 sm c =
      if eqb_ℤ sm c.prev_sm_count
      then c
      else (let overhead_ns = t1 -ℤ t0 in
          record c {
            swap_log =
                c.swap_log
                ++ record {
                  timestamp_ns = t0;
                  from_sm = c.prev_sm_count;
                  to_sm = sm;
                  python_overhead_ns = overhead_ns;
                }
                  ∷ [];
            swap_count = c.swap_count + 1;
            total_python_overhead_ns = c.total_python_overhead_ns +ℤ overhead_ns;
            prev_sm_count = sm;
          })

  unfoldable pub activate_for_step : ℤ → Cpp R Stream → Result Activation × Cpp R Stream
  activate_for_step step c =
      let sm = runtime.sm_count_at_step c.rt step in
      let rt' = runtime.activate_sm_for_thread sm c.rt in
      (ok (sm, runtime.generation rt'), record c { rt = rt' })

  unfoldable pub activate_for_time : ℤ → Cpp R Stream → Result Activation × Cpp R Stream
  unfolding log_swap
  activate_for_time elapsed_us c =
      let t0 = c.readings c.tick in
      let sm = runtime.sm_count_at_time c.rt elapsed_us in
      let t1 = c.readings (c.tick + 1) in
      let c' = log_swap t0 t1 sm (timed (runtime.activate_sm_for_thread sm) c) in
      (ok (sm, runtime.generation c'.rt), c')

  unfoldable pub deactivate : ℤ → Cpp R Stream → Cpp R Stream
  unfolding log_swap
  deactivate prev_sm_count c =
      log_swap (c.readings c.tick) (c.readings (c.tick + 1)) prev_sm_count
        (timed (runtime.deactivate_for_thread prev_sm_count) c)

  unfoldable pub load_trace : Option (List Str) → Cpp R Stream → Bool × Cpp R Stream
  load_trace path c =
      let (done, rt') = runtime.load_trace path c.rt in (done, record c { rt = rt' })

  unfoldable pub reset_swap_stats : Cpp R Stream → Cpp R Stream
  reset_swap_stats c = record c {
    swap_log = [];
    swap_count = 0;
    total_python_overhead_ns = pos 0;
    prev_sm_count = pos 0;
  }

  unfoldable pub close : Cpp R Stream → Cpp R Stream
  close c =
      if c.closed then c else record c { closed = true; stream_cache = []; rt = runtime.close c.rt }
