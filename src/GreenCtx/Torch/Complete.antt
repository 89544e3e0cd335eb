-- ===== src/GreenCtx/Torch/Complete.antt =====
-- `TorchNativeBackend` where no set context and no stream creation fails: every SM count that it
-- offers has a stream bundle.
use mathlib.Core.Path.{subst}
use morphling.Prelude.{
  ◌≡◌, refl, sym, ap, ◌∙◌, arith, Bool, true, false, ◌&&◌, Option, none, some, List, [], ◌∷◌,
  Bool-cases, inl, inr, Elem,
}
use morphling.Prelude.Int.{ℤ, leb_ℤ, eqb_ℤ, eqb_ℤ_iff}
use morphling.Py.{ok}
use morphling.Dict.{lookup, put, keys, lookup-put, lookup-put_self, lookup-Elem, int_eq, pair_eq}
use morphling.Sort.{sort-Elem}
use morphling.GreenCtx.Base.{
  Role, role_eq, role_eqb, role_eqb_iff, role_names, compute, recv, send, dp, StreamBundle,
}
use morphling.GreenCtx.Torch.{Torch, set_context, get_stream_bundle}
use morphling.GreenCtx.Torch.Init.{
  Env, add_streams, with_context, create_one, prepared, finish, make_torch,
}
use morphling.GreenCtx.Torch.Loop.{contexts-add_streams, create_all_ind, make_torch-supported}

module _ {Ctx Stream : Type 0} (env : Env Ctx Stream) (sets : (s : ℤ) → env.set_succeeds s ≡ true)
    (streams : (s : ℤ) (role : Role)
      → (stream : Stream) × (env.new_stream s role ≡ some stream)) where
  abbrev HasStream : ℤ → Role → Torch Ctx Stream → Type 0
  HasStream s role t =
      (stream : Stream) × (lookup (s, role) t.stream_cache ≡ some stream)
      × (env.new_stream s role ≡ some stream)

  -- The streams of two equal pairs of SM count and role are the same one.
  same_pair :
      (s sm : ℤ) (role r : Role)
      → (eqb_ℤ sm s && role_eqb r role) ≡ true
      → env.new_stream sm r ≡ env.new_stream s role
  same_pair s sm role r same =
      let e : sm ≡ s = ground (arith, eqb_ℤ_iff sm s) in
      let e' : r ≡ role = ground (arith, role_eqb_iff r role) in
      ap (λ (p : ℤ × Role). env.new_stream p.0 p.1)
        (let q : ◌≡◌ {A = ℤ × Role} (sm, r) (s, role) = cc in q)

  put-HasStream :
      (s sm : ℤ) (role r : Role) (stream : Stream) (t : Torch Ctx Stream)
      → env.new_stream sm r ≡ some stream
      → HasStream s role t
      → (v : Stream) × (lookup (s, role) (put (sm, r) stream t.stream_cache) ≡ some v)
        × (env.new_stream s role ≡ some v)
  put-HasStream s sm role r stream t made (v, has, own) =
      elim (Bool-cases (eqb_ℤ sm s && role_eqb r role)) [
        | inl same ↦ (stream, rw lookup-put (rw same refl), sym (same_pair s sm role r same) ∙ made)
        | inr other ↦ (v, rw lookup-put (rw other has), own)
      ]

  keeps_stream :
      (s sm : ℤ) (role : Role) (roles : List Role) (t : Torch Ctx Stream)
      → HasStream s role t
      → HasStream s role (add_streams env sm roles t).1
  unfolding add_streams
  keeps_stream s sm role [] t h = h
  keeps_stream s sm role (r ∷ roles) t h =
      let (stream, e) = streams sm r in
      rw (e, add_streams) (keeps_stream s sm role roles _ (put-HasStream s sm role r stream t e h))

  adds_stream :
      (s : ℤ) (role : Role) (roles : List Role) (t : Torch Ctx Stream)
      → Elem role roles
      → HasStream s role (add_streams env s roles t).1
  unfolding add_streams
  adds_stream s role [] t m = elim m [ ]
  adds_stream s role (r ∷ roles) t (inl here) =
      let (stream, e) = streams s r in
      rw (e, add_streams)
        (keeps_stream s s role roles _ (
          stream,
          subst (λ q. lookup (s, q) (put (s, r) stream t.stream_cache) ≡ some stream) (sym here)
              (lookup-put_self (s, r) stream t.stream_cache),
          ap (env.new_stream s) here ∙ e,
        ))
  adds_stream s role (r ∷ roles) t (inr there) =
      let (stream, e) = streams s r in rw (e, add_streams) (adds_stream s role roles _ there)

  every_role : (role : Role) → Elem role role_names
  every_role compute = inl refl
  every_role recv = inr (inl refl)
  every_role send = inr (inr (inl refl))
  every_role dp = inr (inr (inr (inl refl)))

  -- Each context has its streams.
  abbrev IsComplete : Torch Ctx Stream → Type 0
  IsComplete t =
      (s : ℤ) (gc : Ctx) → lookup s t.contexts ≡ some gc → (role : Role) → HasStream s role t

  with_context-IsComplete :
      (sm : ℤ) (gc : Ctx) (t : Torch Ctx Stream)
      → IsComplete t
      → IsComplete (with_context env sm gc (record t { contexts = put sm gc t.contexts })).1
  unfolding with_context
  with_context-IsComplete sm gc t h =
      rw (sets sm) (λ s g has role. covered s g (rw contexts-add_streams at has) role)
    where
      started : Torch Ctx Stream
      started = record t { contexts = put sm gc t.contexts; calls = set_context gc ∷ t.calls }

      covered :
          (s : ℤ) (g : Ctx)
          → lookup s (put sm gc t.contexts) ≡ some g
          → (role : Role) → HasStream s role (add_streams env sm role_names started).1
      covered s g has role = elim (Bool-cases (eqb_ℤ sm s)) [
        | inl same ↦
            subst (λ k. HasStream k role (add_streams env sm role_names started).1)
              ((eqb_ℤ_iff sm s).0 same) (adds_stream sm role role_names started (every_role role))
        | inr other ↦
            keeps_stream s sm role role_names started (h s g (rw (lookup-put, other) at has) role)
      ]

  create_one-IsComplete :
      (sm : ℤ) (found : Option Ctx) (t : Torch Ctx Stream)
      → IsComplete t
      → IsComplete (create_one env sm found t).1
  unfolding create_one
  create_one-IsComplete sm none t h = h
  create_one-IsComplete sm (some gc) t h = with_context-IsComplete sm gc t h

  bundle_of :
      (s : ℤ) (t : Torch Ctx Stream)
      → ((role : Role) → HasStream s role t)
      → (bundle : StreamBundle Stream) × (get_stream_bundle t s ≡ ok bundle)
        × (bundle.sm_count ≡ s)
        × (bundle.generation ≡ t.generation)
        × (env.new_stream s compute ≡ some bundle.comp)
        × (env.new_stream s recv ≡ some bundle.recv_stream)
        × (env.new_stream s send ≡ some bundle.send_stream)
        × (env.new_stream s dp ≡ some bundle.dp_stream)
  unfolding get_stream_bundle
  bundle_of s t h =
      let (c, hc, hc') = h compute in
      let (r, hr, hr') = h recv in
      let (d, hd, hd') = h send in
      let (e, he, he') = h dp in
      (
        record {
          comp = c;
          recv_stream = r;
          send_stream = d;
          dp_stream = e;
          sm_count = s;
          generation = t.generation;
        },
        rw (hc, hr, hd, he) refl,
        refl,
        refl,
        hc',
        hr',
        hd',
        he',
      )

  -- Where setting a context and creating a stream never fail, each SM count that a supported
  -- backend offers has a bundle: of that SM count, of the backend's generation, and with the
  -- stream that PyTorch created for that SM count and the role, for each of the four roles.
  pub available_has_bundle :
      (strict : Bool) (t : Torch Ctx Stream) (s : ℤ)
      → make_torch env strict ≡ ok t
      → t.supported ≡ true
      → Elem s t.sm_counts
      → (bundle : StreamBundle Stream) × (get_stream_bundle t s ≡ ok bundle)
        × (bundle.sm_count ≡ s)
        × (bundle.generation ≡ t.generation)
        × (env.new_stream s compute ≡ some bundle.comp)
        × (env.new_stream s recv ≡ some bundle.recv_stream)
        × (env.new_stream s send ≡ some bundle.send_stream)
        × (env.new_stream s dp ≡ some bundle.dp_stream)
  available_has_bundle strict t s e sup listed =
      let (u, ran, finished) = make_torch-supported env strict t e sup in
      let complete =
        create_all_ind env IsComplete (λ k v. create_one-IsComplete k (env.create k) v) strict
          (prepared env).sm_counts false (prepared env) ran
          (λ k gc has. unfold lookup in cc (let no : none ≡ some gc = has in no)) in
      let offered : Elem s (finish env (true, u)).sm_counts =
        subst (λ (v : Torch Ctx Stream). Elem s v.sm_counts) (sym finished) listed in
      let (gc, has) = lookup-Elem s u.contexts (sort-Elem leb_ℤ s (keys u.contexts) offered) in
      bundle_of s t (λ role.
        subst (λ (v : Torch Ctx Stream). HasStream s role v) finished (complete s gc has role))
