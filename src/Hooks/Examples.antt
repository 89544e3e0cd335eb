-- ===== src/Hooks/Examples.antt =====
-- The passes over matrices that are their shapes, and a green context that is the stack of its
-- active SM counts.
use morphling.Prelude.{ℕ, ◌+◌, ◌-◌, ◌*◌, ◌≡◌, refl, true, false, none, some, List, [], ◌∷◌, ◌==◌}
use morphling.Prelude.Int.{ℤ, pos}
use morphling.Py.{ok}
use morphling.Hooks.{Ops, Hooks, forward, backward}
use morphling.Hooks.Numbered.{IsInOrder}
use morphling.Hooks.Passes.{backward-IsInOrder}
use morphling.Str.{codes}
use morphling.GreenCtx.Torch.{Torch, no_reason}
use morphling.GreenCtx.Torch.Balance.{nothing}
use morphling.Hooks.OverTorch.{over_torch, IsIdle, released-IsIdle, layer-rests}
use morphling.Hooks.Released.{Rests}

abbrev tail : List ℤ → List ℤ
tail [] = []
tail (_ ∷ g) = g

abbrev Shape : Type 0
Shape = ℕ × ℕ

-- The backend's state is the id of the next operation.
abbrev ops : Ops ℕ Shape ℕ (List ℤ)
ops = record {
  zero_us = 0;
  is_zero = λ t. t == 0;
  microseconds = λ now t0. (now - t0) * 1_000_000;
  minus = λ a b. a - b;
  truncate = pos;
  rows = λ a. a.0;
  columns = λ a. a.1;
  contiguous = λ a. a;
  transpose = λ a. (a.1, a.0);
  plus_bias = λ a b. a;
  sum_rows = λ a. (1, a.1);
  async_dispatch_matmul = λ a b w. (ok (pos w), w + 1);
  wait_matmul = λ oid w. (ok (2, 3), w);
  activate_for_time = λ t g. (ok (pos 8, 1), pos 8 ∷ g);
  deactivate = λ sm g. tail g;
}

abbrev hooks : Hooks ℕ ℕ (List ℤ)
hooks = record {
  greenctx = some [];
  backend = 1;
  gemm_log = [];
  greenctx_t0 = 0;
  gemm_idx = 0;
  gemm_log_enabled = true;
  readings = λ i. i + 5;
  tick = 0;
}

abbrev Idle : List ℤ → Type 0
Idle g = g ≡ []

backward-IsInOrder_example :
    IsInOrder ops (backward ops (2, 4) (3, 4) none true true false (2, 3) hooks).1
backward-IsInOrder_example =
    backward-IsInOrder ops (2, 4) (3, 4) none true true false (2, 3) hooks (tt, tt)

-- A backend of PyTorch with the contexts of two and of four SMs, none of them active.
abbrev torch : Torch ℤ ℕ
torch = record {
  supported = true;
  reason = no_reason;
  closed = false;
  switch_count = 0;
  generation = 0;
  active_gc = none;
  active_sm = pos 0;
  contexts = (pos 2, pos 2) ∷ (pos 4, pos 4) ∷ [];
  stream_cache = [];
  sm_counts = pos 2 ∷ pos 4 ∷ [];
  sm_step_val = 2;
  partition_sm = pos 4;
  trace_entries = (pos 0, pos 2) ∷ (pos 1, pos 4) ∷ [];
  trace_time_unit = codes "us";
  trace_clock_mode = codes "step";
  calls = [];
}

abbrev torch_hooks : Hooks ℕ ℕ (Torch ℤ ℕ)
torch_hooks = record {
  greenctx = some torch;
  backend = 1;
  gemm_log = [];
  greenctx_t0 = 0;
  gemm_idx = 0;
  gemm_log_enabled = true;
  readings = λ i. i + 5;
  tick = 0;
}

layer-rests_example :
    Rests
      (over_torch ops)
      IsIdle
      (released-IsIdle ops)
      (backward
        (over_torch ops)
        (2, 4)
        (3, 4)
        none
        true
        true
        false
        (2, 3)
        (forward (over_torch ops) (2, 4) (3, 4) none torch_hooks).1).1
layer-rests_example =
    layer-rests ops (2, 4) (3, 4) none true true false (2, 3) torch_hooks
      (record { bracketed = nothing; counted = refl }, nothing)
