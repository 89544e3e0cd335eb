-- ===== src/GreenCtx/Torch/Balance.antt =====
-- The calls of `set_context` and `pop_context` that `TorchNativeBackend` makes.
use mathlib.Core.Path.{subst}
use morphling.Prelude.{
  ◌+◌, ◌==◌, ◌≡◌, refl, ap, Option, none, some, List, [], ◌∷◌, Bool-cases, if_ind, inl, inr,
}
use morphling.Prelude.Int.{ℤ, eqb_ℤ}
use morphling.Str.{Str}
use morphling.Py.{Result, ok, raise}
use morphling.Dict.{lookup, int_eq}
use morphling.GreenCtx.Torch.{
  Call, set_context, pop_context, Torch, leave, count_first, enter, switch_to, activated,
  chosen_for_step, chosen_for_time, activate_for_step, activate_for_time, deactivate, load_trace,
  close, pop_active,
}

-- `Open calls stack`: the calls, the newest first, are well bracketed, every pop is of the context
-- set last, and the contexts of `stack` are still set.
pub data Open {Ctx : Type 0} : List (Call Ctx) → List Ctx → Type 0 where
  nothing : Open [] []
  set :
      {gc : Ctx} {calls : List (Call Ctx)} {stack : List Ctx}
      → Open calls stack
      → Open (set_context gc ∷ calls) (gc ∷ stack)
  popped :
      {gc : Ctx} {calls : List (Call Ctx)} {stack : List Ctx}
      → Open calls (gc ∷ stack)
      → Open (pop_context gc ∷ calls) stack

abbrev pub stack_of : {Ctx : Type 0} → Option Ctx → List Ctx
stack_of none = []
stack_of (some gc) = gc ∷ []

-- At most one context is set, the active one; the generation counts the switches, and is positive
-- while a context is active.
pub record IsBalanced {Ctx Stream : Type 0} (t : Torch Ctx Stream) : Type 0 where
  pub bracketed : Open t.calls (stack_of t.active_gc)
  pub counted : t.generation ≡ t.switch_count

module _ {Ctx Stream : Type 0} where
  bracketed_at :
      (t : Torch Ctx Stream) (o : Option Ctx)
      → t.active_gc ≡ o
      → IsBalanced t
      → Open t.calls (stack_of o)
  bracketed_at t o e h = subst (λ a. Open t.calls (stack_of a)) e h.bracketed

  count_first-IsBalanced : (t : Torch Ctx Stream) → IsBalanced t → IsBalanced (count_first t)
  unfolding count_first
  count_first-IsBalanced t h = elim (Bool-cases (t.switch_count == 0)) [
    | inl e ↦ rw e (record { bracketed = h.bracketed; counted = refl })
    | inr e ↦ rw e h
  ]

  leave-IsBalanced :
      (sm : ℤ) (o : Option Ctx) (t : Torch Ctx Stream)
      → t.active_gc ≡ o
      → IsBalanced t
      → IsBalanced (leave sm o t)
  unfolding leave
  leave-IsBalanced sm none t e h = h
  leave-IsBalanced sm (some gc) t e h = elim (Bool-cases (eqb_ℤ t.active_sm sm)) [
    | inl same ↦ rw same h
    | inr other ↦ rw other (record {
      bracketed = popped (bracketed_at t (some gc) e h);
      counted = ap (λ n. n + 1) h.counted;
    })
  ]

  enter-IsBalanced :
      (sm : ℤ) (found o : Option Ctx) (t : Torch Ctx Stream)
      → t.active_gc ≡ o
      → IsBalanced t
      → IsBalanced (enter sm found o t)
  unfolding enter
  enter-IsBalanced sm none o t e h = h
  enter-IsBalanced sm (some gc) (some g) t e h = h
  enter-IsBalanced sm (some gc) none t e h =
      count_first-IsBalanced _
        (record { bracketed = set (bracketed_at t none e h); counted = h.counted })

  switch_to-IsBalanced :
      (sm : ℤ) (t : Torch Ctx Stream) → IsBalanced t → IsBalanced (switch_to sm t)
  unfolding switch_to
  switch_to-IsBalanced sm t h =
      let left = leave sm t.active_gc t in
      enter-IsBalanced sm (lookup sm left.contexts) left.active_gc left refl
        (leave-IsBalanced sm t.active_gc t refl h)

  activated-IsBalanced :
      (r : Result ℤ) (t : Torch Ctx Stream) → IsBalanced t → IsBalanced (activated r t).1
  activated-IsBalanced (raise e) t h = h
  activated-IsBalanced (ok sm) t h = switch_to-IsBalanced sm t h

  pub activate_for_step-IsBalanced :
      (i : ℤ) (t : Torch Ctx Stream) → IsBalanced t → IsBalanced (activate_for_step i t).1
  unfolding activate_for_step
  activate_for_step-IsBalanced i t h =
      activated-IsBalanced (chosen_for_step i t t.trace_entries) t h

  pop_active-IsBalanced :
      (o : Option Ctx) (t : Torch Ctx Stream)
      → t.active_gc ≡ o
      → IsBalanced t
      → IsBalanced (pop_active o t) × Open (pop_active o t).calls []
  pop_active-IsBalanced none t e h = (h, bracketed_at t none e h)
  pop_active-IsBalanced (some gc) t e h =
      let open_calls = popped (bracketed_at t (some gc) e h) in
      (record { bracketed = open_calls; counted = h.counted }, open_calls)

-- One call of a method that changes the backend.
pub data Method : Type 0 where
  step_activation time_activation deactivation : ℤ → Method
  trace_loading : Option (List Str) → Method
  closing : Method

module _ {Ctx Stream : Type 0} where
  abbrev pub perform : Method → Torch Ctx Stream → Torch Ctx Stream
  perform (step_activation i) t = (activate_for_step i t).1
  perform (time_activation i) t = (activate_for_time i t).1
  perform (deactivation i) t = deactivate i t
  perform (trace_loading file) t = (load_trace file t).1
  perform closing t = close t

  abbrev pub perform_all : List Method → Torch Ctx Stream → Torch Ctx Stream
  perform_all [] t = t
  perform_all (m ∷ ms) t = perform_all ms (perform m t)

  pub perform-IsBalanced :
      (m : Method) (t : Torch Ctx Stream) → IsBalanced t → IsBalanced (perform m t)
  unfolding activate_for_time deactivate load_trace close
  perform-IsBalanced (step_activation i) t h = activate_for_step-IsBalanced i t h
  perform-IsBalanced (time_activation i) t h =
      activated-IsBalanced (chosen_for_time i t t.trace_entries) t h
  perform-IsBalanced (deactivation i) t h = (pop_active-IsBalanced t.active_gc t refl h).0
  perform-IsBalanced (trace_loading none) t h = h
  perform-IsBalanced (trace_loading (some lines)) t h = record {
    bracketed = h.bracketed;
    counted = h.counted;
  }
  perform-IsBalanced closing t h =
      let p = pop_active-IsBalanced t.active_gc t refl h in
      if_ind IsBalanced t.closed (λ _. h)
        (λ _. record { bracketed = p.0.bracketed; counted = p.0.counted })

  pub performed-IsBalanced :
      (ms : List Method) (t : Torch Ctx Stream) → IsBalanced t → IsBalanced (perform_all ms t)
  performed-IsBalanced [] t h = h
  performed-IsBalanced (m ∷ ms) t h =
      performed-IsBalanced ms (perform m t) (perform-IsBalanced m t h)

  -- After `deactivate` no context is set.
  pub deactivate-Open :
      (i : ℤ) (t : Torch Ctx Stream) → IsBalanced t → Open (deactivate i t).calls []
  unfolding deactivate
  deactivate-Open i t h = (pop_active-IsBalanced t.active_gc t refl h).1
