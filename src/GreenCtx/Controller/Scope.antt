-- ===== src/GreenCtx/Controller/Scope.antt =====
-- `step_scope` of `GreenContextController`: which bundle the body gets, and what is left behind.
use mathlib.Core.Path.{subst}
use morphling.Prelude.{
  ℕ, ◌≡◌, refl, sym, ◌==◌, ==_iff, Option, none, some, List, [], ◌∷◌, arith, Bool-cases, if_ind,
  Elem, inl, inr,
}
use morphling.Prelude.Int.{ℤ, pos, eqb_ℤ, eqb_ℤ_iff}
use morphling.Py.{Result, ok, >>=-eq-ok}
use morphling.Dict.{lookup, put, lookup-put, int_eq}
use morphling.GreenCtx.Base.{StreamBundle, Backend}
use morphling.GreenCtx.Controller.{
  Controller, cache_bundles, initial_bundles, make_controller, bundle_for, step_scope,
}

-- Each cached bundle is one of the SM count under which it is kept.
abbrev pub IsKeyed : {Stream : Type 0} → List (ℤ × StreamBundle Stream) → Type 0
IsKeyed {Stream} bundles =
    (sm : ℤ) (bundle : StreamBundle Stream) → lookup sm bundles ≡ some bundle → bundle.sm_count ≡ sm

module _ {Stream : Type 0} where
  put-IsKeyed :
      (sm : ℤ) (bundle : StreamBundle Stream) (bundles : List (ℤ × StreamBundle Stream))
      → bundle.sm_count ≡ sm
      → IsKeyed bundles
      → IsKeyed (put sm bundle bundles)
  put-IsKeyed sm bundle bundles e keyed s b h = elim (Bool-cases (eqb_ℤ sm s)) [
    | inl same ↦
        let found : some bundle ≡ some b = rw (lookup-put, same) at h in
        ground (arith, eqb_ℤ_iff sm s)
    | inr other ↦ keyed s b (rw (lookup-put, other) at h)
  ]

module _ {B Stream : Type 0} (ops : Backend B Stream) where
  cache_bundles-IsKeyed :
      (b : B) (sms : List ℤ) (bundles : List (ℤ × StreamBundle Stream))
      {bundles' : List (ℤ × StreamBundle Stream)}
      → ((sm : ℤ) (bundle : StreamBundle Stream)
          → Elem sm sms
          → ops.get_stream_bundle b sm ≡ ok bundle
          → bundle.sm_count ≡ sm)
      → IsKeyed bundles
      → cache_bundles ops b sms bundles ≡ ok bundles'
      → IsKeyed bundles'
  unfolding cache_bundles
  cache_bundles-IsKeyed b [] bundles {bundles' = l} law keyed e =
      let same : bundles ≡ l = cc in subst IsKeyed same keyed
  cache_bundles-IsKeyed b (sm ∷ sms) bundles law keyed e =
      let (bundle, got, rest) = >>=-eq-ok (ops.get_stream_bundle b sm) _ e in
      cache_bundles-IsKeyed b sms (put sm bundle bundles) (λ s v m. law s v (inr m))
        (put-IsKeyed sm bundle bundles (law sm bundle (inl refl) got) keyed) rest

  initial_bundles-IsKeyed :
      (b : B) {bundles : List (ℤ × StreamBundle Stream)}
      → initial_bundles ops b ≡ ok bundles
      → IsKeyed bundles
  unfolding initial_bundles
  initial_bundles-IsKeyed b {bundles = l} =
      if_ind (λ (r : Result (List (ℤ × StreamBundle Stream))). r ≡ ok l → IsKeyed l)
        (ops.is_supported b)
        (λ supported.
          cache_bundles-IsKeyed b (ops.available_sm_counts b) []
            (λ s v m. ops.supported_bundle b s v supported) empty)
        (λ off.
          cache_bundles-IsKeyed b (pos 0 ∷ []) []
            (λ s v m.
              subst (λ k. ops.get_stream_bundle b k ≡ ok v → v.sm_count ≡ k) (sym (only s m))
                (ops.off_bundle b v off))
            empty)
    where
      empty : IsKeyed {Stream = Stream} []
      empty = λ s v h. unfold lookup in cc (let no : none ≡ some v = h in no)

      only : (s : ℤ) → Elem s (pos 0 ∷ []) → s ≡ pos 0
      only s (inl e) = e
      only s (inr m) = elim m [ ]

  -- The cache of a new controller holds each bundle under its own SM count.
  pub make_controller-IsKeyed :
      (b : B) (c : Controller B Stream) → make_controller ops b ≡ ok c → IsKeyed c.bundles
  unfolding make_controller
  make_controller-IsKeyed b c e =
      let (bundles, got, made) = >>=-eq-ok (initial_bundles ops b) _ e in
      let same : bundles ≡ c.bundles = ground arith in
      subst IsKeyed same (initial_bundles-IsKeyed b got)

  -- The bundle that the body gets and the controller that it runs on.
  abbrev pub Served : ℤ → ℕ → Controller B Stream → Type 0
  Served sm gen c =
      (bundle : StreamBundle Stream) × (c' : Controller B Stream) × (bundle_for ops sm gen
          (lookup sm c.bundles) c
        ≡ ok (bundle, c'))
      × (bundle.sm_count ≡ sm)
      × (bundle.generation ≡ gen)
      × (c'.backend ≡ c.backend)
      × IsKeyed c'.bundles

  bundle_for-served :
      (sm : ℤ) (gen : ℕ) (found : Option (StreamBundle Stream)) (c : Controller B Stream)
      (fresh : StreamBundle Stream)
      → lookup sm c.bundles ≡ found
      → IsKeyed c.bundles
      → ops.get_stream_bundle c.backend sm ≡ ok fresh
      → (fresh.sm_count ≡ sm) × (fresh.generation ≡ gen)
      → (bundle : StreamBundle Stream) × (c' : Controller B Stream) × (bundle_for ops sm gen found c
          ≡ ok (bundle, c'))
        × (bundle.sm_count ≡ sm)
        × (bundle.generation ≡ gen)
        × (c'.backend ≡ c.backend)
        × IsKeyed c'.bundles
  unfolding bundle_for
  bundle_for-served sm gen none c fresh e keyed got law = (
    fresh,
    record c { bundles = put sm fresh c.bundles },
    rw got refl,
    law.0,
    law.1,
    refl,
    put-IsKeyed sm fresh c.bundles law.0 keyed,
  )
  bundle_for-served sm gen (some cached) c fresh e keyed got law =
      elim (Bool-cases (cached.generation == gen)) [
        | inl current ↦ (
          cached,
          c,
          simp current,
          keyed sm cached e,
          (==_iff cached.generation gen).0 current,
          refl,
          keyed,
        )
        | inr stale ↦ (
          fresh,
          record c { bundles = put sm fresh c.bundles },
          simp (stale, got),
          law.0,
          law.1,
          refl,
          put-IsKeyed sm fresh c.bundles law.0 keyed,
        )
      ]

  module _ {A : Type 0}
      (body : StreamBundle Stream → Controller B Stream → Result A × Controller B Stream) where
    -- When the backend activates an SM count and has a bundle for it, the body runs once, with a
    -- bundle of that SM count and of the activation's generation, on a controller whose backend is
    -- as the activation left it. Whether the body returns or raises, its result is passed on, and
    -- the partition is deactivated on the backend that the body left.
    pub step_scope-served :
        (i : ℤ) (c : Controller B Stream) (sm : ℤ) (gen : ℕ) (fresh : StreamBundle Stream)
        → IsKeyed c.bundles
        → (ops.activate_for_step i c.backend).0 ≡ ok (sm, gen)
        → ops.get_stream_bundle (ops.activate_for_step i c.backend).1 sm ≡ ok fresh
        → (bundle : StreamBundle Stream) × (c' : Controller B Stream) × (bundle.sm_count ≡ sm)
          × (bundle.generation ≡ gen)
          × (c'.backend ≡ (ops.activate_for_step i c.backend).1)
          × IsKeyed c'.bundles
          × ((step_scope ops body i c).0 ≡ (body bundle c').0)
          × ((step_scope ops body i c).1 ≡ record (body bundle c').1 {
            backend = ops.deactivate sm (body bundle c').1.backend;
          })
    unfolding step_scope
    step_scope-served i c sm gen fresh keyed act got =
        let c0 : Controller B Stream = record c {
          backend = (ops.activate_for_step i c.backend).1;
        } in
        let (bundle, c', served, at_sm, at_gen, same, keyed') =
          bundle_for-served sm gen (lookup sm c.bundles) c0 fresh refl keyed got
            (ops.step_bundle i c.backend sm gen fresh act got) in
        (bundle, c', at_sm, at_gen, same, keyed', rw act (rw served refl), rw act (rw served refl))
