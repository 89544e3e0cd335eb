-- ===== src/GreenCtx/Torch/Fresh.antt =====
-- The calls of `set_context` and `pop_context` of a backend since its construction.
use mathlib.Core.Path.{subst}
use morphling.Prelude.{
  ◌≡◌, refl, Bool, true, false, Option, none, some, List, [], ◌∷◌, if_ind, Option-cases, inl, inr,
}
use morphling.Prelude.Int.{ℤ}
use morphling.Py.{Result, ok, ◌>>=◌, >>=-eq-ok}
use morphling.Dict.{put, int_eq, pair_eq}
use morphling.GreenCtx.Base.{Role, role_names, role_eq}
use morphling.GreenCtx.Torch.{Torch, Reason, not_available, not_supported, set_context}
use morphling.GreenCtx.Torch.Init.{
  Env, add_streams, with_context, create_one, create_all, prepared, blank, refused, finish,
  make_torch,
}
use morphling.GreenCtx.Torch.Loop.{create_all_ind}
use morphling.GreenCtx.Torch.Balance.{
  Open, nothing, set, popped, IsBalanced, Method, perform_all, performed-IsBalanced,
}

module _ {Ctx Stream : Type 0} (env : Env Ctx Stream) where
  -- No context is active or set, and no switch was counted.
  abbrev IsIdle : Torch Ctx Stream → Type 0
  IsIdle t = (t.active_gc ≡ none) × Open t.calls [] × (t.generation ≡ t.switch_count)

  idle-IsBalanced : (t : Torch Ctx Stream) → IsIdle t → IsBalanced t
  idle-IsBalanced t (inactive, calls, counted) = record {
    bracketed = rw inactive calls;
    counted = counted;
  }

  -- Creating streams calls neither, and leaves the rest of the state.
  abbrev SameCalls : Torch Ctx Stream → Torch Ctx Stream → Type 0
  SameCalls t u =
      (u.active_gc ≡ t.active_gc)
      × (u.calls ≡ t.calls)
      × (u.generation ≡ t.generation)
      × (u.switch_count ≡ t.switch_count)

  add_streams-SameCalls :
      (sm : ℤ) (roles : List Role) (t : Torch Ctx Stream)
      → SameCalls t (add_streams env sm roles t).1
  unfolding add_streams
  add_streams-SameCalls sm [] t = (refl, refl, refl, refl)
  add_streams-SameCalls sm (role ∷ roles) t = elim (Option-cases (env.new_stream sm role)) [
    | inl e ↦ rw (e, add_streams) (refl, refl, refl, refl)
    | inr (stream, e) ↦
        rw (e, add_streams)
          (add_streams-SameCalls sm roles
            (record t { stream_cache = put (sm, role) stream t.stream_cache }))
  ]

  with_context-IsIdle :
      (sm : ℤ) (gc : Ctx) (t : Torch Ctx Stream) → IsIdle t → IsIdle (with_context env sm gc t).1
  unfolding with_context
  with_context-IsIdle sm gc t (inactive, calls, counted) =
      let started : Torch Ctx Stream = record t { calls = set_context gc ∷ t.calls } in
      let (active', calls', generation', switches') = add_streams-SameCalls sm role_names started in
      if_ind (λ (q : Bool × Torch Ctx Stream). IsIdle q.1) (env.set_succeeds sm)
        (λ _. ((let e : _ ≡ none = cc in e), popped (rw calls' (set calls)), cc))
        (λ _. (inactive, calls, counted))

  create_one-IsIdle :
      (sm : ℤ) (found : Option Ctx) (t : Torch Ctx Stream)
      → IsIdle t
      → IsIdle (create_one env sm found t).1
  unfolding create_one
  create_one-IsIdle sm none t h = h
  create_one-IsIdle sm (some gc) t h =
      with_context-IsIdle sm gc (record t { contexts = put sm gc t.contexts }) h

  finish-IsIdle : (p : Bool × Torch Ctx Stream) → IsIdle p.1 → IsIdle (finish env p)
  finish-IsIdle (true, t) h = h
  finish-IsIdle (false, t) h = h

  refused-IsIdle :
      (strict : Bool) (why : Reason) (t : Torch Ctx Stream)
      → refused env strict why ≡ ok t
      → IsIdle t
  refused-IsIdle true why t e = cc
  refused-IsIdle false why t e =
      let same : record (blank env) { reason = why } ≡ t = cc in
      subst IsIdle same (refl, nothing, refl)

  created-IsIdle :
      (strict : Bool) (t : Torch Ctx Stream)
      → (create_all env strict (prepared env).sm_counts false (prepared env) >>= λ r.
          ok (finish env r))
        ≡ ok t
      → IsIdle t
  created-IsIdle strict t e =
      let loop = create_all env strict (prepared env).sm_counts false (prepared env) in
      let (p, ran, finished) = >>=-eq-ok loop (λ r. ok (finish env r)) e in
      let same : finish env p ≡ t = cc in
      subst IsIdle same (
        finish-IsIdle p (
          create_all_ind env IsIdle (λ sm u. create_one-IsIdle sm (env.create sm) u) strict
            (prepared env).sm_counts false (prepared env) ran (refl, nothing, refl)))

  pub make_torch-IsBalanced :
      (strict : Bool) (t : Torch Ctx Stream) → make_torch env strict ≡ ok t → IsBalanced t
  unfolding make_torch
  make_torch-IsBalanced strict t made = idle-IsBalanced t (
      if_ind Reached env.has_module
        (λ _.
          if_ind Reached env.has_class
            (λ _.
              if_ind Reached env.supported_flag (λ _. created-IsIdle strict t)
                (λ _. refused-IsIdle strict not_supported t))
            (λ _. refused-IsIdle strict not_available t))
        (λ _. refused-IsIdle strict not_available t) made)
    where
      Reached : Result (Torch Ctx Stream) → Type 0
      Reached r = r ≡ ok t → IsIdle t

  -- Whatever methods are called on a new backend in whatever order, with any arguments and trace
  -- files, where no `set_context` after its construction and no `pop_context` raises: since before
  -- the construction, each pop of a context matches the context that was set last, at most the
  -- active context is still set, and the generation is the number of switches.
  pub perform_all-IsBalanced :
      (strict : Bool) (t : Torch Ctx Stream) (ms : List Method)
      → make_torch env strict ≡ ok t
      → IsBalanced (perform_all ms t)
  perform_all-IsBalanced strict t ms made =
      performed-IsBalanced ms t (make_torch-IsBalanced strict t made)
