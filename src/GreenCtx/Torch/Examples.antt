-- ===== src/GreenCtx/Torch/Examples.antt =====
-- A device of four SMs with a step of two, and the theorems about `TorchNativeBackend` at it.
use morphling.Prelude.{ℕ, ◌≡◌, refl, Bool, true, false, none, some, List, [], ◌∷◌, inl, inr, Elem}
use morphling.Prelude.Int.{ℤ, pos, eqb_ℤ}
use morphling.Str.{codes}
use morphling.Py.{ok, raise, key_error}
use morphling.Dict.{lookup, put, int_eq, pair_eq}
use morphling.Sort.{sort, insert}
use morphling.GreenCtx.Base.{Role, compute, recv, send, dp, StreamBundle, role_eq}
use morphling.GreenCtx.Torch.{Torch, no_reason, nearest, nearest_from, get_stream_bundle}
use morphling.GreenCtx.Torch.Init.{
  Env, multiples, add_streams, with_context, create_one, create_all, prepared, make_torch, finish,
}
use morphling.GreenCtx.Torch.Nearest.{NoFurther, nearest_best}
use morphling.GreenCtx.Torch.Balance.{
  IsBalanced, step_activation, deactivation, closing, perform_all, Method,
}
use morphling.GreenCtx.Torch.Fresh.{perform_all-IsBalanced}
use morphling.GreenCtx.Torch.Switches.{scopes, HasContext, scopes-switch_count}
use morphling.GreenCtx.Torch.Bundles.{available_without_bundle}
use morphling.GreenCtx.Torch.Complete.{available_has_bundle}

abbrev stream_id : ℤ → Role → ℕ
stream_id sm compute = 1
stream_id sm recv = 2
stream_id sm send = 3
stream_id sm dp = 4

abbrev device : (ℤ → Bool) → Env ℤ ℕ
device sets = record {
  has_module = true;
  has_class = true;
  supported_flag = true;
  multi_processor_count = 5;
  major = 8;
  minor = 9;
  create = some;
  set_succeeds = sets;
  new_stream = λ sm role. some (stream_id sm role);
}

abbrev sound : Env ℤ ℕ
sound = device (λ _. true)

-- The context of four SMs is created and cannot be set.
abbrev faulty : Env ℤ ℕ
faulty = device (λ sm. eqb_ℤ sm (pos 2))

abbrev made : Env ℤ ℕ → Torch ℤ ℕ
made env = elim (make_torch env false) [ ok t ↦ t | raise e ↦ finish env (false, prepared env) ]

counts-sound : (made sound).sm_counts ≡ pos 2 ∷ pos 4 ∷ []
unfolding make_torch create_all create_one with_context add_streams multiples sort insert put
counts-sound = refl

nearest_best_example :
    Elem (pos 4) (pos 2 ∷ pos 4 ∷ []) × NoFurther (pos 9) (pos 4) (pos 2 ∷ pos 4 ∷ [])
nearest_best_example = nearest_best (pos 9) (pos 4) (pos 2 ∷ pos 4 ∷ []) at_nine
  where
    at_nine : nearest (pos 9) (pos 2 ∷ pos 4 ∷ []) ≡ ok (pos 4)
    at_nine = unfold nearest nearest_from in refl

abbrev idle : Torch ℤ ℕ
idle = record {
  supported = true;
  reason = no_reason;
  closed = false;
  switch_count = 0;
  generation = 0;
  active_gc = none;
  active_sm = pos 0;
  contexts = (pos 2, pos 2) ∷ (pos 4, pos 4) ∷ [];
  stream_cache = [];
  sm_counts = pos 2 ∷ pos 4 ∷ [];
  sm_step_val = 2;
  partition_sm = pos 4;
  trace_entries = (pos 0, pos 2) ∷ (pos 1, pos 4) ∷ [];
  trace_time_unit = codes "us";
  trace_clock_mode = codes "step";
  calls = [];
}

abbrev calls : List Method
calls = step_activation (pos 0) ∷ step_activation (pos 1) ∷ deactivation (pos 4) ∷ closing ∷ []

has_contexts : HasContext idle.contexts (pos 2) × HasContext idle.contexts (pos 4)
unfolding lookup
has_contexts = ((pos 2, refl), (pos 4, refl))

scopes-switch_count_example : (scopes (pos 2 ∷ pos 4 ∷ []) idle).switch_count ≡ 1
scopes-switch_count_example =
    scopes-switch_count (pos 2) (pos 4 ∷ []) idle refl refl (has_contexts.0, (has_contexts.1, tt))

made-faulty : make_torch faulty false ≡ ok (made faulty)
unfolding make_torch create_all create_one with_context add_streams multiples sort insert put
made-faulty = refl

supported-faulty : (made faulty).supported ≡ true
unfolding make_torch create_all create_one with_context add_streams multiples sort insert put
supported-faulty = refl

listed_four : Elem (pos 4) (prepared faulty).sm_counts
unfolding multiples
listed_four = inr (inl refl)

available_without_bundle_example :
    Elem (pos 4) (made faulty).sm_counts
    × (get_stream_bundle (made faulty) (pos 4) ≡ raise key_error)
available_without_bundle_example =
    available_without_bundle faulty (made faulty) (pos 4) (pos 4) made-faulty supported-faulty
      listed_four refl refl

made-sound : make_torch sound false ≡ ok (made sound)
unfolding make_torch create_all create_one with_context add_streams multiples sort insert put
made-sound = refl

perform_all-IsBalanced_example : IsBalanced (perform_all calls (made sound))
perform_all-IsBalanced_example = perform_all-IsBalanced sound false (made sound) calls made-sound

supported-sound : (made sound).supported ≡ true
unfolding make_torch create_all create_one with_context add_streams multiples sort insert put
supported-sound = refl

offered_two : Elem (pos 2) (made sound).sm_counts
unfolding make_torch create_all create_one with_context add_streams multiples sort insert put
offered_two = inl refl

available_has_bundle_example :
    (bundle : StreamBundle ℕ) × (get_stream_bundle (made sound) (pos 2) ≡ ok bundle)
    × (bundle.sm_count ≡ pos 2)
    × (bundle.generation ≡ (made sound).generation)
    × (sound.new_stream (pos 2) compute ≡ some bundle.comp)
    × (sound.new_stream (pos 2) recv ≡ some bundle.recv_stream)
    × (sound.new_stream (pos 2) send ≡ some bundle.send_stream)
    × (sound.new_stream (pos 2) dp ≡ some bundle.dp_stream)
available_has_bundle_example =
    available_has_bundle sound (λ s. refl) (λ s role. (stream_id s role, refl)) false (made sound)
      (pos 2) made-sound supported-sound offered_two
