-- ===== src/GreenCtx/Controller/TorchScope.antt =====
-- `step_scope` over `TorchNativeBackend`: no green context stays set behind it.
use mathlib.Core.Path.{subst}
use morphling.Prelude.{ℕ, ◌≡◌, sym, ap, Bool, false, []}
use morphling.Prelude.Int.{ℤ}
use morphling.Py.{Result, ok, >>=-eq-ok}
use morphling.GreenCtx.Base.{StreamBundle}
use morphling.GreenCtx.Torch.{Torch, get_stream_bundle, activate_for_step}
use morphling.GreenCtx.Torch.Init.{Env, make_torch}
use morphling.GreenCtx.Torch.Balance.{
  Open, IsBalanced, Method, deactivation, perform, perform-IsBalanced, activate_for_step-IsBalanced,
  deactivate-Open,
}
use morphling.GreenCtx.Torch.Fresh.{make_torch-IsBalanced}
use morphling.GreenCtx.Backends.{torch_backend}
use morphling.GreenCtx.Controller.{Controller, initial_bundles, make_controller, step_scope}
use morphling.GreenCtx.Controller.Scope.{IsKeyed, make_controller-IsKeyed, step_scope-served}

abbrev pub Ctrl : Type 0 → Type 0 → Type 0
Ctrl Ctx Stream = Controller (Torch Ctx Stream) Stream

-- The body of a step.
abbrev pub Body : Type 0 → Type 0 → Type 0 → Type 0
Body A Ctx Stream = StreamBundle Stream → Ctrl Ctx Stream → Result A × Ctrl Ctx Stream

module _ {Ctx Stream : Type 0} where
  -- The calls of the backend are balanced, and each bundle has the SM count it is kept under.
  abbrev pub IsSound : Ctrl Ctx Stream → Type 0
  IsSound c = IsKeyed c.bundles × IsBalanced c.backend

  -- The step's activation has a partition with a bundle.
  abbrev pub Serves : ℤ → Ctrl Ctx Stream → Type 0
  Serves i c =
      (sm : ℤ) × (gen : ℕ) × (bundle : StreamBundle Stream) × ((activate_for_step i c.backend).0
        ≡ ok (sm, gen))
      × (get_stream_bundle (activate_for_step i c.backend).1 sm ≡ ok bundle)

-- What a body of a step may do to the controller.
abbrev pub Keeps : {A Ctx Stream : Type 0} → Body A Ctx Stream → Type 0
Keeps {A} {Ctx} {Stream} body =
    (bundle : StreamBundle Stream) (c : Ctrl Ctx Stream) → IsSound c → IsSound (body bundle c).1

-- The controllers that a program has: a new one over a new backend; and then, in any order, after a
-- method of the backend, such as the loading of a trace, and after a step.
pub data Reached (A : Type 0) {Ctx Stream : Type 0} (env : Env Ctx Stream)
    : Controller (Torch Ctx Stream) Stream → Type 0 where
  created :
      {t : Torch Ctx Stream} {c : Ctrl Ctx Stream} (strict : Bool)
      → make_torch env strict ≡ ok t
      → make_controller torch_backend t ≡ ok c
      → Reached A env c
  called :
      {c : Ctrl Ctx Stream} (m : Method)
      → Reached A env c
      → Reached A env (record c { backend = perform m c.backend })
  stepped :
      {c : Ctrl Ctx Stream} (body : Body A Ctx Stream) (i : ℤ)
      → Keeps body
      → Serves i c
      → Reached A env c
      → Reached A env (step_scope torch_backend body i c).1

module _ {Ctx Stream : Type 0} where
  make_controller-backend :
      (t : Torch Ctx Stream) (c : Ctrl Ctx Stream)
      → make_controller torch_backend t ≡ ok c
      → t ≡ c.backend
  unfolding make_controller
  make_controller-backend t c made =
      let (bundles, cached, done) =
        >>=-eq-ok (initial_bundles torch_backend t)
          (λ bundles. ok (record { backend = t; closed = false; bundles = bundles })) made in
      let same : record { backend = t; closed = false; bundles = bundles } ≡ c = cc in
      ap (λ (d : Ctrl Ctx Stream). d.backend) same

module _ {A Ctx Stream : Type 0} (env : Env Ctx Stream) where
  module _ (body : Body A Ctx Stream) (keeps : Keeps body) (i : ℤ) (c : Ctrl Ctx Stream) where
    -- The end of a step from a sound controller: sound again, and no context is set.
    step_scope_end :
        Serves i c
        → IsSound c
        → IsSound (step_scope torch_backend body i c).1
          × Open (step_scope torch_backend body i c).1.backend.calls []
    step_scope_end (sm, gen, fresh, act, got) (keyed, balanced) =
        let (bundle, c', at_sm, at_gen, same, keyed', result, after) =
          step_scope-served torch_backend body i c sm gen fresh keyed act got in
        let entered : IsBalanced c'.backend =
          subst IsBalanced (sym same) (activate_for_step-IsBalanced i c.backend balanced) in
        let (left_keyed, left) = keeps bundle c' (keyed', entered) in
        subst (λ (d : Ctrl Ctx Stream). IsSound d × Open d.backend.calls []) (sym after)
          (
            (left_keyed, perform-IsBalanced (deactivation sm) (body bundle c').1.backend left),
            deactivate-Open sm (body bundle c').1.backend left,
          )

  Reached-IsSound : (c : Ctrl Ctx Stream) → Reached A env c → IsSound c
  Reached-IsSound c (created {t} strict made made') = (
    make_controller-IsKeyed torch_backend t c made',
    subst IsBalanced (make_controller-backend t c made') (make_torch-IsBalanced env strict t made),
  )
  Reached-IsSound _ (called {c} m r) =
      let (keyed, balanced) = Reached-IsSound c r in
      (keyed, perform-IsBalanced m c.backend balanced)
  Reached-IsSound _ (stepped {c} body i keeps serves r) =
      (step_scope_end body keeps i c serves (Reached-IsSound c r)).0

  -- After a step of a controller that a program has over a new backend, no green context is set and
  -- all calls since before the backend's construction are well bracketed, whether the body returns or
  -- raises. The step's partition has a bundle, the bodies of this and of earlier steps leave the
  -- backend's calls balanced and the cached bundles under their SM counts, and no `set_context` after
  -- the construction and no `pop_context` raises.
  pub step_scope-Open :
      (c : Ctrl Ctx Stream) (body : Body A Ctx Stream) (i : ℤ)
      → Reached A env c
      → Keeps body
      → Serves i c
      → Open (step_scope torch_backend body i c).1.backend.calls []
  step_scope-Open c body i reached keeps serves =
      (step_scope_end body keeps i c serves (Reached-IsSound c reached)).1
