-- ===== src/GreenCtx/Controller.antt =====
-- morphling/runtime/green_context.py: `GreenContextController` over any backend of the protocol.
pub mod Scope
pub mod TorchScope
pub mod Swaps
mod Examples
use morphling.Prelude.{
  ℕ, ◌==◌, not, Bool, true, false, ◌&&◌, Option, none, some, List, [], ◌∷◌, if◌then◌else◌,
}
use morphling.Prelude.Int.{ℤ, pos}
use morphling.Str.{Str}
use morphling.Py.{Result, ok, raise, runtime_error, key_error, or_raise, ◌>>=◌}
use morphling.Dict.{lookup, put, int_eq}
use morphling.GreenCtx.Base.{StreamBundle, Activation, Backend}

pub record Controller (B Stream : Type 0) : Type 0 where
  pub backend : B
  pub closed : Bool
  pub bundles : List (ℤ × StreamBundle Stream)

-- The fields of `GreenContextConfig` that the controller reads itself; the trace file is given by
-- its lines, `some none` being a path that cannot be read.
pub record Config : Type 0 where
  pub enabled : Bool
  pub strict : Bool
  pub trace : Option (Option (List Str))

module _ {B Stream : Type 0} (ops : Backend B Stream) where
  -- `for sm in backend.available_sm_counts(): self._bundles[sm] = backend.get_stream_bundle(sm)`
  unfoldable pub cache_bundles :
      B → List ℤ → List (ℤ × StreamBundle Stream) → Result (List (ℤ × StreamBundle Stream))
  cache_bundles b [] bundles = ok bundles
  cache_bundles b (sm ∷ sms) bundles = do
    bundle ← ops.get_stream_bundle b sm
    cache_bundles b sms (put sm bundle bundles)

  -- The bundles that the constructor caches.
  unfoldable pub initial_bundles : B → Result (List (ℤ × StreamBundle Stream))
  unfolding cache_bundles
  initial_bundles b =
      if ops.is_supported b
      then cache_bundles b (ops.available_sm_counts b) []
      else cache_bundles b (pos 0 ∷ []) []

  -- `GreenContextController(backend, config)`
  unfoldable pub make_controller : B → Result (Controller B Stream)
  make_controller b = do
    bundles ← initial_bundles b
    ok (record { backend = b; closed = false; bundles = bundles })

  -- Loading the trace of the configuration, on a supported backend.
  unfoldable pub load_configured :
      Config → Option (Option (List Str)) → Controller B Stream → Result (Controller B Stream)
  load_configured cfg none c = ok c
  load_configured cfg (some file) c =
      if ops.is_supported c.backend
      then (let (loaded, b) = ops.load_trace file c.backend in
          if not loaded && cfg.strict then raise runtime_error else ok (record c { backend = b }))
      else ok c

  -- `from_config`: `off` is what `OffBackend(strict=False)` gives and `selected` what
  -- `select_backend` does.
  unfoldable pub from_config : Result B → Result B → Config → Result (Controller B Stream)
  unfolding make_controller load_configured
  from_config off selected cfg =
      if cfg.enabled
      then (do b ← selected; c ← make_controller b; load_configured cfg cfg.trace c)
      else (do b ← off; make_controller b)

  -- The bundle of the cache, if it is of this generation, and else a new one, which is stored.
  unfoldable pub bundle_for :
      ℤ
      → ℕ
      → Option (StreamBundle Stream)
      → Controller B Stream
      → Result (StreamBundle Stream × Controller B Stream)
  bundle_for sm gen none c = do
    bundle ← ops.get_stream_bundle c.backend sm
    ok (bundle, record c { bundles = put sm bundle c.bundles })
  bundle_for sm gen (some cached) c = if cached.generation == gen then ok (cached, c) else (do
    bundle ← ops.get_stream_bundle c.backend sm
    ok (bundle, record c { bundles = put sm bundle c.bundles }))

  module _ {A : Type 0}
      (body : StreamBundle Stream → Controller B Stream → Result A × Controller B Stream) where
    -- `try: yield bundle finally: self._backend.deactivate(prev_sm)`
    unfoldable pub yielded :
        ℤ → StreamBundle Stream → Controller B Stream → Result A × Controller B Stream
    yielded sm bundle c =
        let (r, c') = body bundle c in (r, record c' { backend = ops.deactivate sm c'.backend })

    -- An exception of the lookup comes before the `try`.
    unfoldable pub with_bundle :
        ℤ
        → Result (StreamBundle Stream × Controller B Stream)
        → Controller B Stream
        → Result A × Controller B Stream
    with_bundle sm (raise e) c = (raise e, c)
    with_bundle sm (ok (bundle, c')) c = yielded sm bundle c'

    unfoldable pub activated_scope :
        Result Activation → Controller B Stream → Result A × Controller B Stream
    activated_scope (raise e) c = (raise e, c)
    activated_scope (ok (sm, gen)) c = with_bundle sm (bundle_for sm gen (lookup sm c.bundles) c) c

    -- `with controller.step_scope(step_idx) as bundle: body`
    unfoldable pub step_scope : ℤ → Controller B Stream → Result A × Controller B Stream
    unfolding bundle_for yielded with_bundle activated_scope
    step_scope step_idx c =
        let (r, b) = ops.activate_for_step step_idx c.backend in
        activated_scope r (record c { backend = b })

  unfoldable pub get_default_bundle : Controller B Stream → Result (StreamBundle Stream)
  get_default_bundle c = or_raise key_error (
      lookup (if ops.is_supported c.backend then ops.partition_sm_count c.backend else pos 0)
        c.bundles)

  unfoldable pub close : Controller B Stream → Controller B Stream
  close c =
      if c.closed
      then c
      else record c { closed = true; bundles = []; backend = ops.close c.backend }
