-- ===== src/Hooks.antt =====
-- morphling/hooks/autograd.py: the module's state, the log of GEMM calls, and the forward and
-- backward passes of `LinearFunction`. Matrices, the compute backend, the green context and floats
-- are of any types, with the operations that the module calls.
pub mod Numbered
pub mod Passes
pub mod Released
pub mod OverTorch
mod Examples
use morphling.Prelude.{
  ℕ, ◌+◌, Bool, true, false, ◌&&◌, Option, none, some, List, [], ◌∷◌, ◌++◌, if◌then◌else◌,
}
use morphling.Prelude.Int.{ℤ, pos, ltb_ℤ}
use morphling.Py.{Result, ok, raise, runtime_error}
use morphling.GreenCtx.Base.{Activation}

pub data Phase : Type 0 where
  forward_phase backward_grad_input backward_grad_weight : Phase

pub record Entry (F : Type 0) : Type 0 where
  pub gemm_idx : ℕ
  pub phase : Phase
  pub start_us : F
  pub end_us : F
  pub duration_us : F
  pub sm_count : Option ℤ
  pub greenctx_enabled : Bool
  pub m : ℕ
  pub n : ℕ
  pub k : ℕ

-- The operations of floats, matrices, the backend `W` and the green context `G`.
pub record Ops (F Mat W G : Type 0) : Type 0 where
  pub zero_us : F
  pub is_zero : F → Bool
  pub microseconds : F → F → F
  pub minus : F → F → F
  pub truncate : F → ℤ
  pub rows : Mat → ℕ
  pub columns : Mat → ℕ
  pub contiguous : Mat → Mat
  pub transpose : Mat → Mat
  pub plus_bias : Mat → Mat → Mat
  pub sum_rows : Mat → Mat
  pub async_dispatch_matmul : Mat → Mat → W → Result ℤ × W
  pub wait_matmul : ℤ → W → Result Mat × W
  pub activate_for_time : ℤ → G → Result Activation × G
  pub deactivate : ℤ → G → G

-- The module's globals; `readings` are those of `time.perf_counter()`, in the order of the calls.
pub record Hooks (F W G : Type 0) : Type 0 where
  pub greenctx : Option G
  pub backend : W
  pub gemm_log : List (Entry F)
  pub greenctx_t0 : F
  pub gemm_idx : ℕ
  pub gemm_log_enabled : Bool
  pub readings : ℕ → F
  pub tick : ℕ

-- What a dispatch leaves in the local variables of a pass.
pub record Started (F : Type 0) : Type 0 where
  pub start_us : Option F
  pub sm_count : Option ℤ
  pub gemm_idx : Option ℕ
  pub oid : ℤ

abbrev pub is_some : {A : Type 0} → Option A → Bool
is_some none = false
is_some (some _) = true

module _ {F Mat W G : Type 0} (ops : Ops F Mat W G) where
  abbrev pub Action : Type 0 → Type 0
  Action A = Hooks F W G → Result A × Hooks F W G

  -- A call and what follows it, unless it raises.
  abbrev pub and_then :
      {A B : Type 0} → Result A × Hooks F W G → (A → Action B) → Result B × Hooks F W G
  and_then (ok a, h) rest = rest a h
  and_then (raise e, h) rest = (raise e, h)

  unfoldable pub set_backend : W → Hooks F W G → Hooks F W G
  set_backend backend h = record h { backend = backend }

  unfoldable pub set_gemm_logging : Bool → Hooks F W G → Hooks F W G
  set_gemm_logging enabled h = record h { gemm_log_enabled = enabled }

  unfoldable pub reset_gemm_log : Hooks F W G → Hooks F W G
  reset_gemm_log h = record h { gemm_log = []; greenctx_t0 = ops.zero_us; gemm_idx = 0 }

  -- `set_greenctx`, for a green context that has its `deactivate`.
  unfoldable pub set_greenctx : Option G → Bool → Hooks F W G → Hooks F W G
  unfolding reset_gemm_log
  set_greenctx greenctx reset_log h =
      let h' = record h { greenctx = greenctx; gemm_log_enabled = is_some greenctx } in
      if reset_log then reset_gemm_log h' else h'

  unfoldable pub get_gemm_log : Bool → Hooks F W G → List (Entry F) × Hooks F W G
  unfolding reset_gemm_log
  get_gemm_log reset h = (h.gemm_log, if reset then reset_gemm_log h else h)

  -- `_elapsed_us()`
  unfoldable pub elapsed_us : Hooks F W G → F × Hooks F W G
  elapsed_us h =
      let now_s = h.readings h.tick in
      if ops.is_zero h.greenctx_t0
      then (ops.zero_us, record h { greenctx_t0 = now_s; tick = h.tick + 1 })
      else (ops.microseconds now_s h.greenctx_t0, record h { tick = h.tick + 1 })

  unfoldable pub log_gemm : ℕ → Phase → F → F → Option ℤ → ℕ → ℕ → ℕ → Hooks F W G → Hooks F W G
  log_gemm idx phase start_us end_us sm_count m n k h = record h {
    gemm_log =
        h.gemm_log
        ++ record {
          gemm_idx = idx;
          phase = phase;
          start_us = start_us;
          end_us = end_us;
          duration_us = ops.minus end_us start_us;
          sm_count = sm_count;
          greenctx_enabled = is_some h.greenctx;
          m = m;
          n = n;
          k = k;
        }
          ∷ [];
  }

  -- `if _gemm_log_enabled:`, the number of the call.
  unfoldable pub numbered : F → ℤ → ℤ → Hooks F W G → Started F × Hooks F W G
  numbered start_us sm oid h =
      if h.gemm_log_enabled
      then (
        record {
          start_us = some start_us;
          sm_count = some sm;
          gemm_idx = some h.gemm_idx;
          oid = oid;
        },
        record h { gemm_idx = h.gemm_idx + 1 },
      )
      else (record { start_us = some start_us; sm_count = some sm; gemm_idx = none; oid = oid }, h)

  -- The dispatch while `sm` multiprocessors are active, and the `finally` block.
  unfoldable pub dispatch_active : Mat → Mat → F → ℤ → G → Action (Started F)
  unfolding numbered
  dispatch_active a b start_us sm g h =
      let (r, w) = ops.async_dispatch_matmul a b h.backend in
      and_then (r, record h { backend = w; greenctx = some (ops.deactivate sm g) })
        (λ oid h'. let (started, h'') = numbered start_us sm oid h' in (ok started, h''))

  unfoldable pub dispatch_after : Mat → Mat → F → Result Activation × G → Action (Started F)
  unfolding dispatch_active
  dispatch_after a b start_us (raise e, g) h = (raise e, record h { greenctx = some g })
  dispatch_after a b start_us (ok (sm, generation), g) h = dispatch_active a b start_us sm g h

  -- The block that all three calls share, up to the wait.
  unfoldable pub dispatch : Mat → Mat → Option G → Action (Started F)
  unfolding elapsed_us dispatch_after
  dispatch a b none h =
      let (r, w) = ops.async_dispatch_matmul a b h.backend in
      and_then (r, record h { backend = w })
        (λ oid h'.
          (ok (record { start_us = none; sm_count = none; gemm_idx = none; oid = oid }), h'))
  dispatch a b (some g) h =
      let (start_us, h') = elapsed_us h in
      dispatch_after a b start_us (ops.activate_for_time (ops.truncate start_us) g) h'

  -- `_wait_for_dispatched_matmul`
  unfoldable pub wait_for : ℤ → Action Mat
  wait_for oid h =
      if ltb_ℤ oid (pos 0)
      then (raise runtime_error, h)
      else (let (r, w) = ops.wait_matmul oid h.backend in (r, record h { backend = w }))

  -- The entry of a call that was numbered.
  unfoldable pub log_started :
      Started F → Option F → Option ℕ → Phase → ℕ → ℕ → ℕ → Hooks F W G → Hooks F W G
  unfolding elapsed_us log_gemm
  log_started s (some start_us) (some idx) phase m n k h =
      let (end_us, h') = elapsed_us h in log_gemm idx phase start_us end_us s.sm_count m n k h'
  log_started s _ _ phase m n k h = h

  abbrev pub with_bias : Option Mat → Mat → Mat
  with_bias none output = output
  with_bias (some bias) output = ops.plus_bias output bias

  unfoldable pub finish_forward : Mat → Mat → Option Mat → Started F → Action Mat
  unfolding wait_for log_started
  finish_forward input weight bias s h = and_then (wait_for s.oid h) (λ output h'. (
    ok (with_bias bias output),
    if h'.gemm_log_enabled
        then log_started s s.start_us s.gemm_idx forward_phase (ops.rows input) (ops.rows weight)
            (ops.columns input) h'
        else h',
  ))

  -- `LinearFunction.forward`, without the check that `_enable_verification` turns on.
  unfoldable pub forward : Mat → Mat → Option Mat → Action Mat
  unfolding dispatch finish_forward
  forward input weight bias h =
      and_then (dispatch input (ops.contiguous (ops.transpose weight)) h.greenctx h)
        (finish_forward input weight bias)

  -- A block under `if ctx.needs_input_grad[i]:`.
  abbrev pub when_needed : {A : Type 0} → Bool → Action A → Action (Option A)
  when_needed false action h = (ok none, h)
  when_needed true action h = and_then (action h) (λ a h'. (ok (some a), h'))

  -- Waiting for one of the two gradients, and its entry.
  unfoldable pub collect : Phase → ℕ → ℕ → ℕ → Option (Started F) → Action (Option Mat)
  unfolding wait_for log_started
  collect phase m n k none h = (ok none, h)
  collect phase m n k (some s) h =
      and_then (wait_for s.oid h)
        (λ output h'. (ok (some output), log_started s s.start_us s.gemm_idx phase m n k h'))

  abbrev pub map_some : (Mat → Mat) → Option Mat → Option Mat
  map_some f none = none
  map_some f (some a) = some (f a)

  abbrev pub grad_bias : Bool → Option Mat → Mat → Option Mat
  grad_bias true (some bias) grad_output = some (ops.sum_rows grad_output)
  grad_bias _ _ grad_output = none

  unfoldable pub collect_both :
      Mat
      → Mat
      → Option Mat
      → Bool
      → Mat
      → Option (Started F)
      → Option (Started F)
      → Action (Option Mat × Option Mat × Option Mat)
  unfolding collect
  collect_both input weight bias needs_bias grad_output gi gw h =
      and_then
        (collect backward_grad_input (ops.rows grad_output) (ops.columns weight) (ops.rows weight)
          gi h)
        (λ grad_input h'.
          and_then
            (collect backward_grad_weight (ops.rows weight) (ops.columns weight) (ops.rows input) gw
              h')
            (λ grad_weight h''. (
              ok (
                grad_input,
                map_some ops.transpose grad_weight,
                grad_bias needs_bias bias grad_output,
              ),
              h'',
            )))

  -- `LinearFunction.backward`, both calls dispatched before the first is waited for.
  unfoldable pub backward :
      Mat
      → Mat
      → Option Mat
      → Bool
      → Bool
      → Bool
      → Mat
      → Action (Option Mat × Option Mat × Option Mat)
  unfolding dispatch collect_both
  backward input weight bias needs_input needs_weight needs_bias grad_output h =
      and_then
        (when_needed needs_input
          (λ h. dispatch (ops.contiguous grad_output) (ops.contiguous weight) h.greenctx h) h)
        (λ gi h'.
          and_then
            (when_needed needs_weight
              (λ h.
                dispatch (ops.contiguous (ops.transpose grad_output))
                  (ops.contiguous (ops.transpose input)) h.greenctx h)
              h')
            (collect_both input weight bias needs_bias grad_output gi))
