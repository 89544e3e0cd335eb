-- ===== src/GreenCtx/Torch/Loop.antt =====
-- A rule for the loop of `TorchNativeBackend.__init__`, and what one round leaves alone.
use mathlib.Core.Path.{subst}
use morphling.Prelude.{
  ◌≡◌, refl, sym, ◌∙◌, ap, Bool, true, false, Option, none, some, List, [], ◌∷◌, ◌⊎◌, inl, inr,
  Option-cases, if_ind, arith, if◌then◌else◌,
}
use morphling.Prelude.Int.{ℤ}
use morphling.Py.{Result, ok, raise, runtime_error, ◌>>=◌, >>=-eq-ok}
use morphling.GreenCtx.Base.{Role, role_names}
use morphling.GreenCtx.Torch.{Torch, Reason, not_available, not_supported}
use morphling.GreenCtx.Torch.Init.{
  Env, add_streams, with_context, create_one, create_all, prepared, finish, refused, make_torch,
}

-- A round that does not end the loop goes on with the flag set, or with it as it was.
pub round-cases :
    {A : Type 0} (done strict : Bool) (skipped went_on : Result A) {r : A}
    → (if done then went_on else if strict then raise runtime_error else skipped) ≡ ok r
    → (went_on ≡ ok r) ⊎ (skipped ≡ ok r)
round-cases true strict skipped went_on e = inl e
round-cases false true skipped went_on e = cc
round-cases false false skipped went_on e = inr e

module _ {Ctx Stream : Type 0} (env : Env Ctx Stream) where
  pub contexts-add_streams :
      (sm : ℤ) (roles : List Role) (t : Torch Ctx Stream)
      → (add_streams env sm roles t).1.contexts ≡ t.contexts
  unfolding add_streams
  contexts-add_streams sm [] t = refl
  contexts-add_streams sm (role ∷ roles) t = elim (Option-cases (env.new_stream sm role)) [
    | inl e ↦ rw (e, add_streams) refl
    | inr (stream, e) ↦ rw (e, add_streams) (contexts-add_streams sm roles _)
  ]

  pub contexts-with_context :
      (sm : ℤ) (gc : Ctx) (t : Torch Ctx Stream)
      → (with_context env sm gc t).1.contexts ≡ t.contexts
  unfolding with_context
  contexts-with_context sm gc t =
      if_ind (λ (p : Bool × Torch Ctx Stream). p.1.contexts ≡ t.contexts) (env.set_succeeds sm)
        (λ _. contexts-add_streams sm role_names _) (λ _. refl)

  supported-add_streams :
      (sm : ℤ) (roles : List Role) (t : Torch Ctx Stream)
      → (add_streams env sm roles t).1.supported ≡ t.supported
  unfolding add_streams
  supported-add_streams sm [] t = refl
  supported-add_streams sm (role ∷ roles) t = elim (Option-cases (env.new_stream sm role)) [
    | inl e ↦ rw (e, add_streams) refl
    | inr (stream, e) ↦ rw (e, add_streams) (supported-add_streams sm roles _)
  ]

  supported-create_one :
      (sm : ℤ) (found : Option Ctx) (t : Torch Ctx Stream)
      → (create_one env sm found t).1.supported ≡ t.supported
  unfolding create_one with_context
  supported-create_one sm none t = refl
  supported-create_one sm (some gc) t =
      if_ind (λ (p : Bool × Torch Ctx Stream). p.1.supported ≡ t.supported) (env.set_succeeds sm)
        (λ _. supported-add_streams sm role_names _) (λ _. refl)

  -- A property that each round keeps holds of the result, whatever the rounds' outcomes.
  pub create_all_ind :
      (P : Torch Ctx Stream → Type 0)
      → ((sm : ℤ) (t : Torch Ctx Stream) → P t → P (create_one env sm (env.create sm) t).1)
      → (strict : Bool) (sms : List ℤ) (created : Bool) (t : Torch Ctx Stream) {created' : Bool}
        {t' : Torch Ctx Stream}
      → create_all env strict sms created t ≡ ok (created', t')
      → P t
      → P t'
  unfolding create_all
  create_all_ind P keep strict [] created t {t' = t'} e h = let same : t ≡ t' = cc in subst P same h
  create_all_ind P keep strict (sm ∷ sms) created t e h =
      let p = create_one env sm (env.create sm) t in
      elim (round-cases p.0 strict _ _ e) [
        | inl w ↦ create_all_ind P keep strict sms true p.1 w (keep sm t h)
        | inr s ↦ create_all_ind P keep strict sms created p.1 s (keep sm t h)
      ]

  supported-create_all :
      (strict : Bool) (sms : List ℤ) (t : Torch Ctx Stream) {created : Bool} {t' : Torch Ctx Stream}
      → create_all env strict sms false t ≡ ok (created, t')
      → t.supported ≡ false
      → t'.supported ≡ false
  supported-create_all strict sms t e h =
      create_all_ind (λ u. u.supported ≡ false)
        (λ sm u k. supported-create_one sm (env.create sm) u ∙ k) strict sms false t e h

  finish-supported :
      (p : Bool × Torch Ctx Stream) (t : Torch Ctx Stream)
      → p.1.supported ≡ false
      → finish env p ≡ t
      → t.supported ≡ true
      → (p ≡ (true, p.1))
  finish-supported (true, u) t raw e s = refl
  finish-supported (false, u) t raw e s = cc (ap (λ (w : Torch Ctx Stream). w.supported) e)

  refused-unsupported :
      (strict : Bool) (why : Reason) (t : Torch Ctx Stream)
      → refused env strict why ≡ ok t
      → t.supported ≡ true
      → ⊥
  refused-unsupported true why t e s = cc
  refused-unsupported false why t e s = ground arith

  -- `t` is what `finish` makes of a loop that created a context.
  abbrev pub Finished : Bool → Torch Ctx Stream → Type 0
  Finished strict t =
      (u : Torch Ctx Stream) × (create_all env strict (prepared env).sm_counts false (prepared env)
        ≡ ok (true, u))
      × (finish env (true, u) ≡ t)

  create_all-Finished :
      (strict : Bool) (t : Torch Ctx Stream)
      → (create_all env strict (prepared env).sm_counts false (prepared env) >>= λ r.
          ok (finish env r))
        ≡ ok t
      → t.supported ≡ true
      → Finished strict t
  create_all-Finished strict t e s =
      let loop = create_all env strict (prepared env).sm_counts false (prepared env) in
      let (p, ran, finished) = >>=-eq-ok loop (λ r. ok (finish env r)) e in
      let done : finish env p ≡ t = cc in
      let raw = supported-create_all strict (prepared env).sm_counts (prepared env) ran refl in
      let whole = finish-supported p t raw done s in
      (p.1, ran ∙ ap ok whole, ap (finish env) (sym whole) ∙ done)

  pub make_torch-supported :
      (strict : Bool) (t : Torch Ctx Stream)
      → make_torch env strict ≡ ok t
      → t.supported ≡ true
      → Finished strict t
  unfolding make_torch
  make_torch-supported strict t e s =
      if_ind Reached env.has_module
        (λ _.
          if_ind Reached env.has_class
            (λ _.
              if_ind Reached env.supported_flag (λ _ r. create_all-Finished strict t r s)
                (λ _. missing not_supported))
            (λ _. missing not_available))
        (λ _. missing not_available) e
    where
      Reached : Result (Torch Ctx Stream) → Type 0
      Reached r = r ≡ ok t → Finished strict t

      missing : (why : Reason) → refused env strict why ≡ ok t → Finished strict t
      missing why r = absurd (refused-unsupported strict why t r s)
