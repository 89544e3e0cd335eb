-- ===== src/GreenCtx/Controller/Examples.antt =====
-- A step's scope over a PyTorch backend with two SM counts.
use morphling.Prelude.{some, if◌then◌else◌, ℕ, ◌≡◌, refl, true, false, none, [], ◌∷◌}
use morphling.Prelude.Int.{ℤ, pos, eqb_ℤ}
use morphling.Str.{codes}
use morphling.Py.{Result, ok, raise, runtime_error}
use morphling.Dict.{lookup, put, int_eq, pair_eq}
use morphling.GreenCtx.Base.{Role, StreamBundle, compute, recv, send, dp, role_eq}
use morphling.GreenCtx.Trace.{sm_count_at_step}
use morphling.GreenCtx.Torch.{
  Torch, set_context, pop_context, no_reason, get_stream_bundle, activate_for_step, deactivate,
  nearest, nearest_from, switch_to, chosen_for_step, count_first,
}
use morphling.GreenCtx.Torch.Balance.{Open}
use morphling.GreenCtx.Torch.Init.{
  Env, multiples, add_streams, with_context, create_one, create_all, make_torch,
}
use morphling.Sort.{sort, insert}
use morphling.GreenCtx.Backends.{torch_backend}
use morphling.GreenCtx.Controller.{
  Controller, make_controller, initial_bundles, cache_bundles, step_scope,
}
use morphling.GreenCtx.Controller.Scope.{IsKeyed, make_controller-IsKeyed, step_scope-served}
use morphling.GreenCtx.Controller.TorchScope.{Serves, created, step_scope-Open}

abbrev two_counts : Torch ℤ ℕ
two_counts = record {
  supported = true;
  reason = no_reason;
  closed = false;
  switch_count = 0;
  generation = 0;
  active_gc = none;
  active_sm = pos 0;
  contexts = (pos 2, pos 2) ∷ (pos 4, pos 4) ∷ [];
  stream_cache =
      ((pos 2, compute), 1)
      ∷ ((pos 2, recv), 2)
      ∷ ((pos 2, send), 3)
      ∷ ((pos 2, dp), 4)
      ∷ ((pos 4, compute), 5)
      ∷ ((pos 4, recv), 6)
      ∷ ((pos 4, send), 7)
      ∷ ((pos 4, dp), 8)
      ∷ [];
  sm_counts = pos 2 ∷ pos 4 ∷ [];
  sm_step_val = 2;
  partition_sm = pos 4;
  trace_entries = (pos 0, pos 2) ∷ (pos 1, pos 4) ∷ [];
  trace_time_unit = codes "us";
  trace_clock_mode = codes "step";
  calls = [];
}

-- The generation is that of the first switch.
abbrev four : ℕ → StreamBundle ℕ
four gen = record {
  comp = 5;
  recv_stream = 6;
  send_stream = 7;
  dp_stream = 8;
  sm_count = pos 4;
  generation = gen;
}

abbrev two : StreamBundle ℕ
two = record {
  comp = 1;
  recv_stream = 2;
  send_stream = 3;
  dp_stream = 4;
  sm_count = pos 2;
  generation = 0;
}

abbrev ctrl : Controller (Torch ℤ ℕ) ℕ
ctrl = record {
  backend = two_counts;
  closed = false;
  bundles = (pos 2, two) ∷ (pos 4, four 0) ∷ [];
}

made-ctrl : make_controller torch_backend two_counts ≡ ok ctrl
unfolding make_controller initial_bundles cache_bundles get_stream_bundle lookup put
made-ctrl = refl

keyed : IsKeyed ctrl.bundles
keyed = make_controller-IsKeyed torch_backend two_counts ctrl made-ctrl

-- A training step that fails.
abbrev failing : StreamBundle ℕ → Controller (Torch ℤ ℕ) ℕ → Result ℕ × Controller (Torch ℤ ℕ) ℕ
failing bundle c = (raise runtime_error, c)

activated-one : (activate_for_step (pos 1) two_counts).0 ≡ ok (pos 4, 1)
unfolding activate_for_step chosen_for_step nearest nearest_from switch_to count_first
    sm_count_at_step lookup
activated-one = refl

bundle-one : get_stream_bundle (activate_for_step (pos 1) two_counts).1 (pos 4) ≡ ok (four 1)
unfolding activate_for_step chosen_for_step nearest nearest_from switch_to count_first
    sm_count_at_step lookup get_stream_bundle
bundle-one = refl

step_scope-served_example :
    (bundle : StreamBundle ℕ) × (c' : Controller (Torch ℤ ℕ) ℕ) × (bundle.sm_count ≡ pos 4)
    × (bundle.generation ≡ 1)
    × (c'.backend ≡ (activate_for_step (pos 1) two_counts).1)
    × IsKeyed c'.bundles
    × ((step_scope torch_backend failing (pos 1) ctrl).0 ≡ (failing bundle c').0)
    × ((step_scope torch_backend failing (pos 1) ctrl).1 ≡ record (failing bundle c').1 {
      backend = deactivate (pos 4) (failing bundle c').1.backend;
    })
step_scope-served_example =
    step_scope-served torch_backend failing (pos 1) ctrl (pos 4) 1 (four 1) keyed activated-one
      bundle-one

-- A device of four SMs with a step of two.
abbrev stream_id : ℤ → Role → ℕ
stream_id sm compute = if eqb_ℤ sm (pos 2) then 1 else 5
stream_id sm recv = if eqb_ℤ sm (pos 2) then 2 else 6
stream_id sm send = if eqb_ℤ sm (pos 2) then 3 else 7
stream_id sm dp = if eqb_ℤ sm (pos 2) then 4 else 8

abbrev device : Env ℤ ℕ
device = record {
  has_module = true;
  has_class = true;
  supported_flag = true;
  multi_processor_count = 4;
  major = 8;
  minor = 9;
  create = some;
  set_succeeds = λ sm. true;
  new_stream = λ sm role. some (stream_id sm role);
}

-- What the construction makes of it.
abbrev new : Torch ℤ ℕ
new = record two_counts {
  trace_entries = [];
  calls =
      pop_context (pos 4) ∷ set_context (pos 4) ∷ pop_context (pos 2) ∷ set_context (pos 2) ∷ [];
}

made-new : make_torch device false ≡ ok new
unfolding make_torch create_all create_one with_context add_streams multiples sort insert put
made-new = refl

abbrev new_ctrl : Controller (Torch ℤ ℕ) ℕ
new_ctrl = record ctrl { backend = new }

made-new_ctrl : make_controller torch_backend new ≡ ok new_ctrl
unfolding make_controller initial_bundles cache_bundles get_stream_bundle lookup put
made-new_ctrl = refl

serves : Serves (pos 1) new_ctrl
unfolding activate_for_step chosen_for_step nearest nearest_from switch_to count_first
    sm_count_at_step lookup get_stream_bundle
serves = (pos 4, 1, four 1, refl, refl)

step_scope-Open_example :
    Open (step_scope torch_backend failing (pos 1) new_ctrl).1.backend.calls []
step_scope-Open_example =
    step_scope-Open device new_ctrl failing (pos 1) (created false made-new made-new_ctrl)
      (λ bundle c h. h) serves
