-- ===== src/GreenCtx/Backends.antt =====
-- The three backends, and what `select_backend` returns, as implementations of the protocol
-- `GreenCtxBackend` of morphling/runtime/greenctx/base.py.
use morphling.Prelude.{ℕ, ◌≡◌, ◌∙◌, true, false, arith}
use morphling.Prelude.Int.{ℤ, pos}
use morphling.Py.{Result, ok, raise}
use morphling.GreenCtx.Base.{StreamBundle, Backend}
use morphling.GreenCtx.Off
use morphling.GreenCtx.Off.{Off}
use morphling.GreenCtx.Cpp
use morphling.GreenCtx.Cpp.{Cpp, Runtime}
use morphling.GreenCtx.Torch
use morphling.GreenCtx.Torch.{Torch, activated, chosen_for_step}

module _ {Ctx Stream : Type 0} where
  pub torch_bundle :
      (t : Torch Ctx Stream) (sm : ℤ) (bundle : StreamBundle Stream)
      → Torch.get_stream_bundle t sm ≡ ok bundle
      → (bundle.sm_count ≡ sm) × (bundle.generation ≡ t.generation)
  unfolding Torch.get_stream_bundle
  torch_bundle t sm bundle e = ground arith

  activated_generation :
      (r : Result ℤ) (t : Torch Ctx Stream) (sm : ℤ) (gen : ℕ)
      → (activated r t).0 ≡ ok (sm, gen)
      → (activated r t).1.generation ≡ gen
  activated_generation (raise e) t sm gen h = cc
  activated_generation (ok s) t sm gen h = ground arith

  pub step_bundle_torch :
      (i : ℤ) (t : Torch Ctx Stream) (sm : ℤ) (gen : ℕ) (bundle : StreamBundle Stream)
      → (Torch.activate_for_step i t).0 ≡ ok (sm, gen)
      → Torch.get_stream_bundle (Torch.activate_for_step i t).1 sm ≡ ok bundle
      → (bundle.sm_count ≡ sm) × (bundle.generation ≡ gen)
  unfolding Torch.activate_for_step
  step_bundle_torch i t sm gen bundle h e =
      let r = chosen_for_step i t t.trace_entries in
      let (s, g) = torch_bundle (activated r t).1 sm bundle e in
      (s, g ∙ activated_generation r t sm gen h)

  abbrev pub torch_backend : Backend (Torch Ctx Stream) Stream
  torch_backend = record {
    is_supported = λ t. t.supported;
    available_sm_counts = λ t. t.sm_counts;
    partition_sm_count = λ t. t.partition_sm;
    get_stream_bundle = Torch.get_stream_bundle;
    activate_for_step = Torch.activate_for_step;
    activate_for_time = Torch.activate_for_time;
    deactivate = Torch.deactivate;
    load_trace = Torch.load_trace;
    switch_count = λ t. t.switch_count;
    close = Torch.close;
    supported_bundle = λ t sm bundle s e. (torch_bundle t sm bundle e).0;
    off_bundle = λ t bundle s e. (torch_bundle t (pos 0) bundle e).0;
    step_bundle = step_bundle_torch;
  }

module _ {R Stream : Type 0} (runtime : Runtime R) where
  pub cpp_bundle :
      (c : Cpp R Stream) (sm : ℤ) (bundle : StreamBundle Stream)
      → Cpp.get_stream_bundle runtime c sm ≡ ok bundle
      → (bundle.sm_count ≡ sm) × (bundle.generation ≡ runtime.generation c.rt)
  unfolding Cpp.get_stream_bundle
  cpp_bundle c sm bundle e = ground arith

  pub step_bundle_cpp :
      (i : ℤ) (c : Cpp R Stream) (sm : ℤ) (gen : ℕ) (bundle : StreamBundle Stream)
      → (Cpp.activate_for_step runtime i c).0 ≡ ok (sm, gen)
      → Cpp.get_stream_bundle runtime (Cpp.activate_for_step runtime i c).1 sm ≡ ok bundle
      → (bundle.sm_count ≡ sm) × (bundle.generation ≡ gen)
  unfolding Cpp.activate_for_step
  step_bundle_cpp i c sm gen bundle h e =
      let (s, g) = cpp_bundle (Cpp.activate_for_step runtime i c).1 sm bundle e in (s, ground arith)

  abbrev pub cpp_backend : Backend (Cpp R Stream) Stream
  cpp_backend = record {
    is_supported = λ c. runtime.is_supported c.rt;
    available_sm_counts = λ c. runtime.available_sm_counts c.rt;
    partition_sm_count = λ c. runtime.partition_sm_count c.rt;
    get_stream_bundle = Cpp.get_stream_bundle runtime;
    activate_for_step = Cpp.activate_for_step runtime;
    activate_for_time = Cpp.activate_for_time runtime;
    deactivate = Cpp.deactivate runtime;
    load_trace = Cpp.load_trace runtime;
    switch_count = λ c. runtime.switch_count c.rt;
    close = Cpp.close runtime;
    supported_bundle = λ c sm bundle s e. (cpp_bundle c sm bundle e).0;
    off_bundle = λ c bundle s e. (cpp_bundle c (pos 0) bundle e).0;
    step_bundle = step_bundle_cpp;
  }

module _ {Stream : Type 0} where
  pub off_fields :
      (o : Off Stream) (bundle : StreamBundle Stream)
      → ok (Off.bundle o) ≡ ok bundle
      → bundle.sm_count ≡ pos 0
  off_fields o bundle e = ground arith

  pub off_unsupported :
      (o : Off Stream) (sm : ℤ) (bundle : StreamBundle Stream)
      → false ≡ true
      → ok (Off.bundle o) ≡ ok bundle
      → bundle.sm_count ≡ sm
  off_unsupported o sm bundle s e = cc

  pub off_step :
      (i : ℤ) (o : Off Stream) (sm : ℤ) (gen : ℕ) (bundle : StreamBundle Stream)
      → (Off.activate i o).0 ≡ ok (sm, gen)
      → ok (Off.bundle o) ≡ ok bundle
      → (bundle.sm_count ≡ sm) × (bundle.generation ≡ gen)
  off_step i o sm gen bundle h e = ground arith

  abbrev pub off_backend : Backend (Off Stream) Stream
  off_backend = record {
    is_supported = λ o. false;
    available_sm_counts = Off.available_sm_counts;
    partition_sm_count = λ o. pos 0;
    get_stream_bundle = Off.get_stream_bundle;
    activate_for_step = Off.activate;
    activate_for_time = Off.activate;
    deactivate = λ prev_sm_count o. o;
    load_trace = Off.load_trace;
    switch_count = λ o. 0;
    close = Off.close;
    supported_bundle = off_unsupported;
    off_bundle = λ o bundle s e. off_fields o bundle e;
    step_bundle = off_step;
  }
