-- ===== src/GreenCtx/Off.antt =====
-- morphling/runtime/greenctx/off_backend.py: the backend with no green context.
use morphling.Prelude.{Bool, true, false, Option, List, [], ◌∷◌, if◌then◌else◌}
use morphling.Prelude.Int.{ℤ, pos}
use morphling.Str.{Str}
use morphling.Py.{Result, ok, raise, runtime_error}
use morphling.GreenCtx.Base.{Role, compute, recv, send, dp, StreamBundle, Activation}

-- `_streams`; `_bundle` is made of them once and never changed, so it is a function of them.
pub record Off (Stream : Type 0) : Type 0 where
  pub strict : Bool
  pub closed : Bool
  pub streams : Role → Stream

module _ {Stream : Type 0} where
  -- `OffBackend(gpu_id, strict)`, with a stream of PyTorch for each role.
  unfoldable pub make_off : (Role → Stream) → Bool → Result (Off Stream)
  make_off new_stream strict =
      if strict
      then raise runtime_error
      else ok (record { strict = strict; closed = false; streams = new_stream })

  abbrev pub bundle : Off Stream → StreamBundle Stream
  bundle o = record {
    comp = o.streams compute;
    recv_stream = o.streams recv;
    send_stream = o.streams send;
    dp_stream = o.streams dp;
    sm_count = pos 0;
    generation = 0;
  }

  -- `available_sm_counts()`
  abbrev pub available_sm_counts : Off Stream → List ℤ
  available_sm_counts o = pos 0 ∷ []

  -- `get_stream_bundle(sm_count)` passes over its argument.
  abbrev pub get_stream_bundle : Off Stream → ℤ → Result (StreamBundle Stream)
  get_stream_bundle o sm_count = ok (bundle o)

  -- `activate_for_step` and `activate_for_time`.
  abbrev pub activate : ℤ → Off Stream → Result Activation × Off Stream
  activate step_or_time o = (ok (pos 0, 0), o)

  abbrev pub load_trace : Option (List Str) → Off Stream → Bool × Off Stream
  load_trace path o = (true, o)

  abbrev pub close : Off Stream → Off Stream
  close o = record o { closed = true }
