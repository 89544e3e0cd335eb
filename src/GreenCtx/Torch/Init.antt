-- ===== src/GreenCtx/Torch/Init.antt =====
-- `TorchNativeBackend.__init__` of morphling/runtime/greenctx/torch_backend.py. What PyTorch and
-- the GPU answer is the argument `env`.
use morphling.Prelude.{
  ℕ, zero, suc, ◌+◌, ◌*◌, ◌/◌, leb, Bool, true, false, Option, none, some, List, [], ◌∷◌,
  get_last_or, if◌then◌else◌,
}
use morphling.Prelude.Int.{ℤ, pos, leb_ℤ}
use morphling.Str.{codes}
use morphling.Py.{Result, ok, raise, runtime_error, ◌>>=◌}
use morphling.Dict.{put, keys, int_eq, pair_eq}
use morphling.Sort.{sort}
use morphling.GreenCtx.Base.{Role, role_names, role_eq}
use morphling.GreenCtx.Torch.{
  Torch, Reason, no_reason, not_available, not_supported, none_created, set_context, pop_context,
}

-- The answers of PyTorch: whether the module, its class and its flag are there, the device's
-- properties, and the outcome of each creation. `none` and `false` are a `RuntimeError`.
pub record Env (Ctx Stream : Type 0) : Type 0 where
  pub has_module : Bool
  pub has_class : Bool
  pub supported_flag : Bool
  pub multi_processor_count : ℕ
  pub major : ℕ
  pub minor : ℕ
  pub create : ℤ → Option Ctx
  pub set_succeeds : ℤ → Bool
  pub new_stream : ℤ → Role → Option Stream

-- `range(step, total + 1, step)`: the multiples of the step up to the total.
unfoldable pub multiples : ℕ → ℕ → ℕ → List ℤ
multiples step i zero = []
multiples step i (suc n) = pos (i * step) ∷ multiples step (i + 1) n

abbrev pub sm_step_of : ℕ → ℕ → ℕ
sm_step_of major minor = if leb 90 (major * 10 + minor) then 8 else 2

module _ {Ctx Stream : Type 0} (env : Env Ctx Stream) where
  abbrev pub blank : Torch Ctx Stream
  blank = record {
    supported = false;
    reason = no_reason;
    closed = false;
    switch_count = 0;
    generation = 0;
    active_gc = none;
    active_sm = pos 0;
    contexts = [];
    stream_cache = [];
    sm_counts = [];
    sm_step_val = 0;
    partition_sm = pos 0;
    trace_entries = [];
    trace_time_unit = codes "us";
    trace_clock_mode = codes "step";
    calls = [];
  }

  -- The loop over the roles inside `try`; `false` when a stream could not be created.
  unfoldable pub add_streams : ℤ → List Role → Torch Ctx Stream → Bool × Torch Ctx Stream
  add_streams sm [] t = (true, t)
  add_streams sm (role ∷ roles) t = elim (env.new_stream sm role) [
    | none ↦ (false, t)
    | some stream ↦
        add_streams sm roles (record t { stream_cache = put (sm, role) stream t.stream_cache })
  ]

  -- The body of the `try` for one SM count, with `finally: gc.pop_context()`: whether all of it
  -- went well, and the state that it leaves.
  unfoldable pub with_context : ℤ → Ctx → Torch Ctx Stream → Bool × Torch Ctx Stream
  unfolding add_streams
  with_context sm gc t =
      if env.set_succeeds sm
      then (let (done, t') =
            add_streams sm role_names (record t { calls = set_context gc ∷ t.calls }) in
          (done, record t' { calls = pop_context gc ∷ t'.calls }))
      else (false, t)

  unfoldable pub create_one : ℤ → Option Ctx → Torch Ctx Stream → Bool × Torch Ctx Stream
  create_one sm none t = (false, t)
  create_one sm (some gc) t = with_context sm gc (record t { contexts = put sm gc t.contexts })

  -- The loop over the SM counts; `created` is `created_any`. A `RuntimeError` is raised again when
  -- `strict`, and else passed over.
  unfoldable pub create_all :
      Bool → List ℤ → Bool → Torch Ctx Stream → Result (Bool × Torch Ctx Stream)
  unfolding create_one with_context
  create_all strict [] created t = ok (created, t)
  create_all strict (sm ∷ sms) created t =
      let (done, t') = create_one sm (env.create sm) t in
      let skipped = create_all strict sms created t' in
      let went_on = create_all strict sms true t' in
      if done then went_on else if strict then raise runtime_error else skipped

  abbrev pub refused : Bool → Reason → Result (Torch Ctx Stream)
  refused strict why = if strict then raise runtime_error else ok (record blank { reason = why })

  abbrev pub finish : Bool × Torch Ctx Stream → Torch Ctx Stream
  finish (true, t) =
      let counts = sort leb_ℤ (keys t.contexts) in
      record t { supported = true; sm_counts = counts; partition_sm = get_last_or counts (pos 0) }
  finish (false, t) = record t { reason = none_created }

  abbrev pub prepared : Torch Ctx Stream
  prepared =
      let step = sm_step_of env.major env.minor in
      let counts = multiples step 1 (env.multi_processor_count / step) in
      record blank {
        sm_step_val = step;
        sm_counts = counts;
        partition_sm = get_last_or counts (pos 0);
      }

  -- `TorchNativeBackend(gpu_id, strict)`
  unfoldable pub make_torch : Bool → Result (Torch Ctx Stream)
  make_torch strict =
      if env.has_module
      then (if env.has_class
          then (if env.supported_flag
              then (do r ← create_all strict prepared.sm_counts false prepared; ok (finish r))
              else refused strict not_supported)
          else refused strict not_available)
      else refused strict not_available
