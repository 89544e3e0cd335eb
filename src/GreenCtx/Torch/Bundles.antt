-- ===== src/GreenCtx/Torch/Bundles.antt =====
-- Which SM counts that `TorchNativeBackend` offers have a stream bundle.
use mathlib.Core.Path.{subst}
use morphling.Prelude.{
  ◌≡◌, refl, sym, ap, ◌≢◌, Bool, true, false, Option, none, some, List, [], ◌∷◌, Option-cases,
  Bool-cases, inl, inr, if_ind, Elem,
}
use morphling.Prelude.Int.{ℤ, leb_ℤ, eqb_ℤ}
use morphling.Py.{ok, raise, key_error}
use morphling.Dict.{
  lookup, put, keys, lookup-put, lookup-put_self, Elem-keys, eqb_false, int_eq, pair_eq,
}
use morphling.Sort.{Elem-sort}
use morphling.GreenCtx.Base.{Role, role_eq, role_names, compute}
use morphling.GreenCtx.Torch.{Torch, get_stream_bundle}
use morphling.GreenCtx.Torch.Init.{
  Env, add_streams, with_context, create_one, create_all, prepared, make_torch, finish,
}
use morphling.GreenCtx.Torch.Loop.{
  contexts-with_context, create_all_ind, round-cases, make_torch-supported,
}

module _ {Ctx Stream : Type 0} (env : Env Ctx Stream) where
  abbrev NoStream : ℤ → Torch Ctx Stream → Type 0
  NoStream s t = (role : Role) → lookup (s, role) t.stream_cache ≡ none

  -- The rounds for other SM counts add no stream for `s`.
  add_streams-NoStream :
      (s sm : ℤ) (roles : List Role) (t : Torch Ctx Stream)
      → sm ≢ s
      → NoStream s t
      → NoStream s (add_streams env sm roles t).1
  unfolding add_streams
  add_streams-NoStream s sm [] t other h = h
  add_streams-NoStream s sm (role ∷ roles) t other h =
      elim (Option-cases (env.new_stream sm role)) [
        | inl e ↦ rw (e, add_streams) h
        | inr (stream, e) ↦
            rw (e, add_streams)
              (add_streams-NoStream s sm roles _ other
                (λ r. rw lookup-put (rw (eqb_false sm s other) (h r))))
      ]

  create_one-NoStream :
      (s : ℤ)
      → env.set_succeeds s ≡ false
      → (sm : ℤ) (found : Option Ctx) (t : Torch Ctx Stream) → NoStream s t
      → NoStream s (create_one env sm found t).1
  unfolding create_one with_context
  create_one-NoStream s fails sm none t h = h
  create_one-NoStream s fails sm (some gc) t h =
      if_ind (λ (p : Bool × Torch Ctx Stream). NoStream s p.1) (env.set_succeeds sm)
        (λ works.
          add_streams-NoStream s sm role_names _ (λ same. clash (ap env.set_succeeds same) works) h)
        (λ _. h)
    where
      clash : env.set_succeeds sm ≡ env.set_succeeds s → env.set_succeeds sm ≡ true → ⊥
      clash e works = cc

  abbrev HasCtx : ℤ → Torch Ctx Stream → Type 0
  HasCtx s t = (gc : Ctx) × (lookup s t.contexts ≡ some gc)

  HasCtx-put :
      (s sm : ℤ) (gc : Ctx) (t : Torch Ctx Stream)
      → HasCtx s t
      → (g : Ctx) × (lookup s (put sm gc t.contexts) ≡ some g)
  HasCtx-put s sm gc t (g, has) = elim (Bool-cases (eqb_ℤ sm s)) [
    | inl same ↦ (gc, rw lookup-put (rw same refl))
    | inr other ↦ (g, rw lookup-put (rw other has))
  ]

  -- A context that was created stays.
  create_one-HasCtx :
      (s sm : ℤ) (found : Option Ctx) (t : Torch Ctx Stream)
      → HasCtx s t
      → HasCtx s (create_one env sm found t).1
  unfolding create_one
  create_one-HasCtx s sm none t h = h
  create_one-HasCtx s sm (some gc) t h =
      rw (contexts-with_context env sm gc _) (HasCtx-put s sm gc t h)

  create_one-made :
      (s : ℤ) (gc : Ctx) (t : Torch Ctx Stream) → HasCtx s (create_one env s (some gc) t).1
  unfolding create_one
  create_one-made s gc t =
      (gc, rw (contexts-with_context env s gc _) (lookup-put_self s gc t.contexts))

  create_all-stays :
      (s : ℤ) (strict : Bool) (sms : List ℤ) (created : Bool) (t : Torch Ctx Stream)
      {created' : Bool} {t' : Torch Ctx Stream}
      → create_all env strict sms created t ≡ ok (created', t')
      → HasCtx s t
      → HasCtx s t'
  create_all-stays s = create_all_ind env (HasCtx s) (λ k u. create_one-HasCtx s k (env.create k) u)

  -- The loop leaves a context for every SM count of its list that could be created.
  create_all-HasCtx :
      (s : ℤ) (gc : Ctx) (strict : Bool) (sms : List ℤ) (created : Bool) (t : Torch Ctx Stream)
      {created' : Bool} {t' : Torch Ctx Stream}
      → env.create s ≡ some gc
      → create_all env strict sms created t ≡ ok (created', t')
      → Elem s sms
      → HasCtx s t'
  unfolding create_all
  create_all-HasCtx s gc strict [] created t made e m = elim m [ ]
  create_all-HasCtx s gc strict (sm ∷ sms) created t {t' = t'} made e m =
      let p = create_one env sm (env.create sm) t in
      elim m [
        | inl here ↦
            let first : HasCtx s p.1 =
              subst (λ k. HasCtx s (create_one env k (env.create k) t).1) here
                (subst (λ o. HasCtx s (create_one env s o t).1) (sym made)
                  (create_one-made s gc t)) in
            elim (round-cases p.0 strict _ _ e) [
              | inl w ↦ create_all-stays s strict sms true p.1 w first
              | inr w ↦ create_all-stays s strict sms created p.1 w first
            ]
        | inr there ↦ elim (round-cases p.0 strict _ _ e) [
          | inl w ↦ create_all-HasCtx s gc strict sms true p.1 made w there
          | inr w ↦ create_all-HasCtx s gc strict sms created p.1 made w there
        ]
      ]

  no_bundle :
      (s : ℤ) (t : Torch Ctx Stream) → NoStream s t → get_stream_bundle t s ≡ raise key_error
  unfolding get_stream_bundle
  no_bundle s t h = rw (h compute) refl

  -- On a supported backend that was made without `strict`, an SM count of the device whose context
  -- was created and could not be set is among the available SM counts, and has no stream bundle:
  -- asking for it raises `KeyError`.
  pub available_without_bundle :
      (t : Torch Ctx Stream) (s : ℤ) (gc : Ctx)
      → make_torch env false ≡ ok t
      → t.supported ≡ true
      → Elem s (prepared env).sm_counts
      → env.create s ≡ some gc
      → env.set_succeeds s ≡ false
      → Elem s t.sm_counts × (get_stream_bundle t s ≡ raise key_error)
  available_without_bundle t s gc e sup listed made fails =
      let (u, ran, finished) = make_torch-supported env false t e sup in
      let (g, has) =
        create_all-HasCtx s gc false (prepared env).sm_counts false (prepared env) made ran
          listed in
      let absent =
        create_all_ind env (NoStream s) (λ k v. create_one-NoStream s fails k (env.create k) v)
          false (prepared env).sm_counts false (prepared env) ran (λ r. unfold lookup in refl) in
      subst
        (λ (v : Torch Ctx Stream). Elem s v.sm_counts × (get_stream_bundle v s ≡ raise key_error))
        finished
        (
          Elem-sort leb_ℤ s (keys u.contexts) (Elem-keys s u.contexts has),
          no_bundle s (finish env (true, u)) absent,
        )
