-- ===== src/Hooks/OverTorch.antt =====
-- The passes of `LinearFunction` over the backend of PyTorch's green contexts.
use mathlib.Core.Path.{subst}
use morphling.Prelude.{◌≡◌, refl, Bool, Option, [], ◌∷◌}
use morphling.Prelude.Int.{ℤ}
use morphling.Py.{Result, ok, raise}
use morphling.GreenCtx.Torch.{Torch, activate_for_time, activated, chosen_for_time, deactivate}
use morphling.GreenCtx.Torch.Balance.{
  Open, IsBalanced, time_activation, deactivation, performed-IsBalanced, deactivate-Open,
}
use morphling.Hooks.{Ops, Hooks, forward, backward}
use morphling.Hooks.Released.{released, Rests, forward-rests, backward-rests}

-- The operations with the activation and the deactivation of the backend.
abbrev pub over_torch :
    {F Mat W G Ctx Stream : Type 0} → Ops F Mat W G → Ops F Mat W (Torch Ctx Stream)
over_torch ops = record {
  zero_us = ops.zero_us;
  is_zero = ops.is_zero;
  microseconds = ops.microseconds;
  minus = ops.minus;
  truncate = ops.truncate;
  rows = ops.rows;
  columns = ops.columns;
  contiguous = ops.contiguous;
  transpose = ops.transpose;
  plus_bias = ops.plus_bias;
  sum_rows = ops.sum_rows;
  async_dispatch_matmul = ops.async_dispatch_matmul;
  wait_matmul = ops.wait_matmul;
  activate_for_time = activate_for_time;
  deactivate = deactivate;
}

-- No green context is set.
abbrev pub IsIdle : {Ctx Stream : Type 0} → Torch Ctx Stream → Type 0
IsIdle t = IsBalanced t × Open t.calls []

module _ {F Mat W G Ctx Stream : Type 0} (ops : Ops F Mat W G) where
  pub released-IsIdle :
      (i : ℤ) (t : Torch Ctx Stream)
      → IsIdle t
      → IsIdle (released (over_torch {Ctx = Ctx} {Stream = Stream} ops) (activate_for_time i t))
  unfolding activate_for_time
  released-IsIdle i t (balanced, open_calls) = go (chosen_for_time i t t.trace_entries) refl
    where
      go :
          (r : Result ℤ)
          → chosen_for_time i t t.trace_entries ≡ r
          → IsIdle (released (over_torch {Ctx = Ctx} {Stream = Stream} ops) (activated r t))
      go (raise e) chosen = (balanced, open_calls)
      go (ok sm) chosen =
          let active : IsBalanced (activated (ok sm) t).1 =
            subst (λ r. IsBalanced (activated r t).1) chosen
              (performed-IsBalanced (time_activation i ∷ []) t balanced) in
          (
            performed-IsBalanced (deactivation sm ∷ []) (activated (ok sm) t).1 active,
            deactivate-Open sm (activated (ok sm) t).1 active,
          )

  -- A forward and then a backward pass over the backend of PyTorch, begun with no green context
  -- set, leave none set and the calls well bracketed, whether either returns or raises.
  pub layer-rests :
      (input weight : Mat) (bias : Option Mat) (needs_input needs_weight needs_bias : Bool)
      (grad_output : Mat) (h : Hooks F W (Torch Ctx Stream))
      → Rests (over_torch ops) IsIdle released-IsIdle h
      → Rests
          (over_torch ops)
          IsIdle
          released-IsIdle
          (backward
            (over_torch ops)
            input
            weight
            bias
            needs_input
            needs_weight
            needs_bias
            grad_output
            (forward (over_torch ops) input weight bias h).1).1
  layer-rests input weight bias needs_input needs_weight needs_bias grad_output h i =
      backward-rests (over_torch ops) IsIdle released-IsIdle input weight bias needs_input
        needs_weight needs_bias grad_output (forward (over_torch ops) input weight bias h).1
        (forward-rests (over_torch ops) IsIdle released-IsIdle input weight bias h i)
