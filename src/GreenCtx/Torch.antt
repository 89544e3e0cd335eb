-- ===== src/GreenCtx/Torch.antt =====
-- morphling/runtime/greenctx/torch_backend.py: the state of `TorchNativeBackend` after its
-- construction, and its methods. Green contexts and streams are objects of PyTorch, of any types
-- `Ctx` and `Stream`; the calls of `set_context` and `pop_context` are kept in `calls`, the newest
-- first. The constructor's `set_context` may raise (Init); no other `set_context` does, and no
-- `pop_context`.
pub mod Init
pub mod Nearest
mod Examples
pub mod Complete
pub mod Bundles
pub mod Loop
pub mod Switches
pub mod Balance
pub mod Fresh
use morphling.Prelude.{
  ℕ, ◌+◌, ◌==◌, ltb, Bool, true, false, not, Option, none, some, List, [], ◌∷◌, if◌then◌else◌,
}
use morphling.Prelude.Int.{ℤ, eqb_ℤ, dist}
use morphling.Str.{Str}
use morphling.Py.{Result, ok, raise, value_error, key_error, or_raise, ◌>>=◌}
use morphling.Dict.{lookup, int_eq, pair_eq}
use morphling.GreenCtx.Trace.{
  parse_trace_file, sm_count_at_step as count_at_step, sm_count_at_time as count_at_time,
}
use morphling.GreenCtx.Base.{Role, compute, recv, send, dp, role_eq, StreamBundle, Activation}

pub data Call (Ctx : Type 0) : Type 0 where
  set_context pop_context : Ctx → Call Ctx

-- The texts that `unsupported_reason` returns, in the order in which the source names them; the
-- empty text is `no_reason`.
pub data Reason : Type 0 where
  no_reason not_available not_supported none_created : Reason

pub record Torch (Ctx Stream : Type 0) : Type 0 where
  pub supported : Bool
  pub reason : Reason
  pub closed : Bool
  pub switch_count : ℕ
  pub generation : ℕ
  pub active_gc : Option Ctx
  pub active_sm : ℤ
  pub contexts : List (ℤ × Ctx)
  pub stream_cache : List ((ℤ × Role) × Stream)
  pub sm_counts : List ℤ
  pub sm_step_val : ℕ
  pub partition_sm : ℤ
  pub trace_entries : List (ℤ × ℤ)
  pub trace_time_unit : Str
  pub trace_clock_mode : Str
  pub calls : List (Call Ctx)

abbrev is_nil : {A : Type 0} → List A → Bool
is_nil [] = true
is_nil (_ ∷ _) = false

-- `min(counts, key=lambda x: abs(x - sm))`: the first of those that are nearest.
unfoldable pub nearest_from : ℤ → ℤ → List ℤ → ℤ
nearest_from sm best [] = best
nearest_from sm best (x ∷ xs) =
    nearest_from sm (if ltb (dist x sm) (dist best sm) then x else best) xs

unfoldable pub nearest : ℤ → List ℤ → Result ℤ
nearest sm [] = raise value_error
nearest sm (x ∷ xs) = ok (nearest_from sm x xs)

module _ {Ctx Stream : Type 0} where
  unfoldable pub get_stream_bundle : Torch Ctx Stream → ℤ → Result (StreamBundle Stream)
  get_stream_bundle t sm = do
    c ← or_raise key_error (lookup (sm, compute) t.stream_cache)
    r ← or_raise key_error (lookup (sm, recv) t.stream_cache)
    s ← or_raise key_error (lookup (sm, send) t.stream_cache)
    d ← or_raise key_error (lookup (sm, dp) t.stream_cache)
    ok (record {
      comp = c;
      recv_stream = r;
      send_stream = s;
      dp_stream = d;
      sm_count = sm;
      generation = t.generation;
    })

  -- Leaving another partition: the active context is popped, and the switch is counted.
  unfoldable pub leave : ℤ → Option Ctx → Torch Ctx Stream → Torch Ctx Stream
  leave sm none t = t
  leave sm (some gc) t = if eqb_ℤ t.active_sm sm then t else record t {
    active_gc = none;
    switch_count = t.switch_count + 1;
    generation = t.generation + 1;
    calls = pop_context gc ∷ t.calls;
  }

  -- The first activation of all counts as a switch.
  unfoldable pub count_first : Torch Ctx Stream → Torch Ctx Stream
  count_first t = if t.switch_count == 0 then record t { switch_count = 1; generation = 1 } else t

  -- Entering a partition that has a context, where none is active.
  unfoldable pub enter : ℤ → Option Ctx → Option Ctx → Torch Ctx Stream → Torch Ctx Stream
  enter sm (some gc) none t =
      count_first
        (record t { active_gc = some gc; active_sm = sm; calls = set_context gc ∷ t.calls })
  enter sm _ _ t = t

  -- What both activations do once the SM count is chosen.
  unfoldable pub switch_to : ℤ → Torch Ctx Stream → Torch Ctx Stream
  unfolding leave enter
  switch_to sm t =
      let left = leave sm t.active_gc t in enter sm (lookup sm left.contexts) left.active_gc left

  unfoldable pub chosen_for_step : ℤ → Torch Ctx Stream → List (ℤ × ℤ) → Result ℤ
  chosen_for_step step t [] = ok t.partition_sm
  chosen_for_step step t (e ∷ es) = nearest (count_at_step (e ∷ es) step t.partition_sm) t.sm_counts

  unfoldable pub chosen_for_time : ℤ → Torch Ctx Stream → List (ℤ × ℤ) → Result ℤ
  chosen_for_time elapsed_us t [] = ok t.partition_sm
  chosen_for_time elapsed_us t (e ∷ es) =
      nearest (count_at_time (e ∷ es) elapsed_us t.trace_time_unit t.partition_sm) t.sm_counts

  abbrev pub activated : Result ℤ → Torch Ctx Stream → Result Activation × Torch Ctx Stream
  activated (raise e) t = (raise e, t)
  activated (ok sm) t = let t' = switch_to sm t in (ok (sm, t'.generation), t')

  unfoldable pub activate_for_step : ℤ → Torch Ctx Stream → Result Activation × Torch Ctx Stream
  activate_for_step step t = activated (chosen_for_step step t t.trace_entries) t

  unfoldable pub activate_for_time : ℤ → Torch Ctx Stream → Result Activation × Torch Ctx Stream
  activate_for_time elapsed_us t = activated (chosen_for_time elapsed_us t t.trace_entries) t

  abbrev pub pop_active : Option Ctx → Torch Ctx Stream → Torch Ctx Stream
  pop_active none t = t
  pop_active (some gc) t = record t { active_gc = none; calls = pop_context gc ∷ t.calls }

  -- The argument is not used.
  unfoldable pub deactivate : ℤ → Torch Ctx Stream → Torch Ctx Stream
  deactivate prev_sm_count t = pop_active t.active_gc t

  -- The file's lines, or `none` where reading it raises; then the trace stays as it was.
  unfoldable pub load_trace : Option (List Str) → Torch Ctx Stream → Bool × Torch Ctx Stream
  load_trace none t = (false, t)
  load_trace (some lines) t =
      let parsed = parse_trace_file lines in
      (
        not (is_nil parsed.entries),
        record t {
          trace_entries = parsed.entries;
          trace_time_unit = parsed.time_unit;
          trace_clock_mode = parsed.clock_mode;
        },
      )

  unfoldable pub sm_count_at_time : ℤ → Torch Ctx Stream → List (ℤ × ℤ) → ℤ
  sm_count_at_time elapsed_us t [] = t.partition_sm
  sm_count_at_time elapsed_us t (e ∷ es) =
      count_at_time (e ∷ es) elapsed_us t.trace_time_unit t.partition_sm

  unfoldable pub sm_count_at_step : ℤ → Torch Ctx Stream → List (ℤ × ℤ) → ℤ
  sm_count_at_step step t [] = t.partition_sm
  sm_count_at_step step t (e ∷ es) = count_at_step (e ∷ es) step t.partition_sm

  -- A `pop_context` that raises is passed over, so the context counts as left on both paths.
  unfoldable pub close : Torch Ctx Stream → Torch Ctx Stream
  close t =
      if t.closed
      then t
      else record (pop_active t.active_gc t) { closed = true; stream_cache = []; contexts = [] }
