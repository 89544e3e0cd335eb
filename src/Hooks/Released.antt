-- ===== src/Hooks/Released.antt =====
-- The passes of `LinearFunction` leave the green context as a deactivation leaves it.
use morphling.Prelude.{ℕ, Bool, true, false, Option, none, some, if_ind}
use morphling.Prelude.Int.{ℤ, pos, ltb_ℤ}
use morphling.Py.{Result, ok, raise}
use morphling.GreenCtx.Base.{Activation}
use morphling.Hooks.{
  Ops, Hooks, Phase, backward_grad_input, backward_grad_weight, map_some, grad_bias, Started,
  Action, and_then, elapsed_us, numbered, dispatch_active, dispatch_after, dispatch, wait_for,
  log_started, log_gemm, finish_forward, forward, when_needed, collect, collect_both, backward,
}

-- The green context once an activation's SM count is deactivated, if there was one.
abbrev pub released : {F Mat W G : Type 0} → Ops F Mat W G → Result Activation × G → G
released ops (ok (sm, generation), g) = ops.deactivate sm g
released ops (raise e, g) = g

module _ {F Mat W G : Type 0} (ops : Ops F Mat W G) where
  -- The two ways a call ends.
  abbrev pub Ends :
      {A : Type 0}
      → (A → Hooks F W G → Type 0)
      → (Hooks F W G → Type 0)
      → Result A × Hooks F W G
      → Type 0
  Ends Q R (ok a, h) = Q a h
  Ends Q R (raise e, h) = R h

  pub and_then-Ends :
      {A B : Type 0} (Q : A → Hooks F W G → Type 0) (Q' : B → Hooks F W G → Type 0)
      (R : Hooks F W G → Type 0) (p : Result A × Hooks F W G) (rest : A → Action ops B)
      → Ends Q R p
      → ((a : A) (h : Hooks F W G) → Q a h → Ends Q' R (rest a h))
      → Ends Q' R (and_then ops p rest)
  and_then-Ends Q Q' R (ok a, h) rest ends after = after a h ends
  and_then-Ends Q Q' R (raise e, h) rest ends after = ends

  module _ (Idle : G → Type 0)
      (law : (t : ℤ) (g : G) → Idle g → Idle (released ops (ops.activate_for_time t g))) where
    abbrev pub IdleIfAny : Option G → Type 0
    IdleIfAny none = Unit
    IdleIfAny (some g) = Idle g

    abbrev pub Rests : Hooks F W G → Type 0
    Rests h = IdleIfAny h.greenctx

    abbrev EndsAtRest : {A : Type 0} → Result A × Hooks F W G → Type 0
    EndsAtRest p = Ends (λ a h. Rests h) Rests p

    any-EndsAtRest : {A : Type 0} (r : Result A) (h : Hooks F W G) → Rests h → EndsAtRest (r, h)
    any-EndsAtRest (ok a) h i = i
    any-EndsAtRest (raise e) h i = i

    dispatch_after-rests :
        (a b : Mat) (start_us : F) (p : Result Activation × G) (h : Hooks F W G)
        → Idle (released ops p)
        → EndsAtRest (dispatch_after ops a b start_us p h)
    unfolding dispatch_after dispatch_active numbered
    dispatch_after-rests a b start_us (raise e, g) h i = i
    dispatch_after-rests a b start_us (ok (sm, generation), g) h i =
        let (r, w) = ops.async_dispatch_matmul a b h.backend in
        and_then-Ends (λ a h. Rests h) (λ a h. Rests h) Rests
          (r, record h { backend = w; greenctx = some (ops.deactivate sm g) }) _
          (any-EndsAtRest r (record h { backend = w; greenctx = some (ops.deactivate sm g) }) i)
          (λ oid h' i'.
            if_ind (λ (q : Started F × Hooks F W G). IdleIfAny q.1.greenctx) h'.gemm_log_enabled
              (λ _. i') (λ _. i'))

    dispatch-rests :
        (a b : Mat) (o : Option G) (h : Hooks F W G)
        → IdleIfAny o
        → Rests h
        → EndsAtRest (dispatch ops a b o h)
    unfolding dispatch
    dispatch-rests a b none h i j =
        let (r, w) = ops.async_dispatch_matmul a b h.backend in
        and_then-Ends (λ a h. Rests h) (λ a h. Rests h) Rests (r, record h { backend = w }) _
          (any-EndsAtRest r (record h { backend = w }) j) (λ oid h' i'. i')
    dispatch-rests a b (some g) h i j =
        let (start_us, h') = elapsed_us ops h in
        dispatch_after-rests a b start_us (ops.activate_for_time (ops.truncate start_us) g) h'
          (law (ops.truncate start_us) g i)

    wait_for-rests : (oid : ℤ) (h : Hooks F W G) → Rests h → EndsAtRest (wait_for ops oid h)
    unfolding wait_for
    wait_for-rests oid h i =
        let (r, w) = ops.wait_matmul oid h.backend in
        if_ind EndsAtRest (ltb_ℤ oid (pos 0)) (λ _. i)
          (λ _. any-EndsAtRest r (record h { backend = w }) i)

    elapsed_us-rests : (h : Hooks F W G) → Rests h → Rests (elapsed_us ops h).1
    unfolding elapsed_us
    elapsed_us-rests h i =
        if_ind (λ (q : F × Hooks F W G). IdleIfAny q.1.greenctx) (ops.is_zero h.greenctx_t0)
          (λ _. i) (λ _. i)

    log_started-rests :
        (s : Started F) (start : Option F) (idx : Option ℕ) (phase : Phase) (m n k : ℕ)
        (h : Hooks F W G)
        → Rests h
        → Rests (log_started ops s start idx phase m n k h)
    unfolding log_started log_gemm
    log_started-rests s (some start) (some idx) phase m n k h i = elapsed_us-rests h i
    log_started-rests s (some start) none phase m n k h i = i
    log_started-rests s none idx phase m n k h i = i

    both : {A : Type 0} (p : Result A × Hooks F W G) → EndsAtRest p → Rests p.1
    both (ok a, h) i = i
    both (raise e, h) i = i

    -- Where each activation that is undone by its deactivation leaves a green context at rest, so
    -- does a forward pass, whether it returns or raises, and wherever it raises: in the activation,
    -- the dispatch or the wait.
    pub forward-rests :
        (input weight : Mat) (bias : Option Mat) (h : Hooks F W G)
        → Rests h
        → Rests (forward ops input weight bias h).1
    unfolding forward finish_forward
    forward-rests input weight bias h i = both (forward ops input weight bias h) (
        and_then-Ends (λ s h. Rests h) (λ a h. Rests h) Rests
          (dispatch ops input (ops.contiguous (ops.transpose weight)) h.greenctx h)
          (finish_forward ops input weight bias)
          (dispatch-rests input (ops.contiguous (ops.transpose weight)) h.greenctx h i i)
          (λ s h' i'.
            and_then-Ends (λ a h. Rests h) (λ a h. Rests h) Rests (wait_for ops s.oid h') _
              (wait_for-rests s.oid h' i')
              (λ output h'' i''.
                if_ind Rests h''.gemm_log_enabled
                  (λ _. log_started-rests s s.start_us s.gemm_idx _ _ _ _ h'' i'') (λ _. i''))))

    collect-rests :
        (phase : Phase) (m n k : ℕ) (o : Option (Started F)) (h : Hooks F W G)
        → Rests h
        → EndsAtRest (collect ops phase m n k o h)
    unfolding collect
    collect-rests phase m n k none h i = i
    collect-rests phase m n k (some s) h i =
        and_then-Ends (λ a h. Rests h) (λ a h. Rests h) Rests (wait_for ops s.oid h) _
          (wait_for-rests s.oid h i)
          (λ output h' i'. log_started-rests s s.start_us s.gemm_idx phase m n k h' i')

    when_needed-rests :
        (needed : Bool) (a b : Mat) (h : Hooks F W G)
        → Rests h
        → EndsAtRest (when_needed ops needed (λ h. dispatch ops a b h.greenctx h) h)
    when_needed-rests false a b h i = i
    when_needed-rests true a b h i =
        and_then-Ends (λ a h. Rests h) (λ a h. Rests h) Rests (dispatch ops a b h.greenctx h) _
          (dispatch-rests a b h.greenctx h i i) (λ s h' i'. i')

    then_rests :
        {A B : Type 0} (p : Result A × Hooks F W G) (rest : A → Action ops B)
        → EndsAtRest p
        → ((a : A) (h : Hooks F W G) → Rests h → EndsAtRest (rest a h))
        → EndsAtRest (and_then ops p rest)
    then_rests = and_then-Ends (λ a h. Rests h) (λ a h. Rests h) Rests

    collect_both-rests :
        (input weight : Mat) (bias : Option Mat) (needs_bias : Bool) (grad_output : Mat)
        (gi gw : Option (Started F)) (h : Hooks F W G)
        → Rests h
        → EndsAtRest (collect_both ops input weight bias needs_bias grad_output gi gw h)
    unfolding collect_both
    collect_both-rests input weight bias needs_bias grad_output gi gw h i =
        let r = ops.rows in
        let c = ops.columns in
        then_rests (collect ops backward_grad_input (r grad_output) (c weight) (r weight) gi h) _
          (collect-rests backward_grad_input (r grad_output) (c weight) (r weight) gi h i)
          (λ grad_input h' i'.
            then_rests (collect ops backward_grad_weight (r weight) (c weight) (r input) gw h')
              (λ grad_weight h''. (
                ok (
                  grad_input,
                  map_some ops ops.transpose grad_weight,
                  grad_bias ops needs_bias bias grad_output,
                ),
                h'',
              ))
              (collect-rests backward_grad_weight (r weight) (c weight) (r input) gw h' i')
              (λ grad_weight h'' i''. i''))

    -- Where each activation that is undone by its deactivation leaves a green context at rest, so
    -- does a backward pass, whichever gradients are needed, and whether it returns or raises.
    pub backward-rests :
        (input weight : Mat) (bias : Option Mat) (needs_input needs_weight needs_bias : Bool)
        (grad_output : Mat) (h : Hooks F W G)
        → Rests h
        → Rests (backward ops input weight bias needs_input needs_weight needs_bias grad_output h).1
    unfolding backward
    backward-rests input weight bias needs_input needs_weight needs_bias grad_output h i =
        let dg = ops.contiguous grad_output in
        let dg_t = ops.contiguous (ops.transpose grad_output) in
        let din_t = ops.contiguous (ops.transpose input) in
        both (backward ops input weight bias needs_input needs_weight needs_bias grad_output h) (
          then_rests
            (when_needed ops needs_input (λ h. dispatch ops dg (ops.contiguous weight) h.greenctx h)
              h)
            _ (when_needed-rests needs_input dg (ops.contiguous weight) h i)
            (λ gi h' i'.
              then_rests
                (when_needed ops needs_weight (λ h. dispatch ops dg_t din_t h.greenctx h) h')
                (collect_both ops input weight bias needs_bias grad_output gi)
                (when_needed-rests needs_weight dg_t din_t h' i')
                (λ gw h'' i''.
                  collect_both-rests input weight bias needs_bias grad_output gi gw h'' i'')))
