-- ===== src/GreenCtx/Torch/Switches.antt =====
-- What `switch_count` of `TorchNativeBackend` counts.
use mathlib.Core.Path.{subst}
use morphling.Prelude.{
  ℕ, ◌+◌, ◌<◌, ◌==◌, ◌≡◌, refl, ap, ◌∙◌, sym, true, false, Option, none, some, List, [], ◌∷◌, arith,
  All, Bool-cases, inl, inr, if◌then◌else◌,
}
use morphling.Prelude.Int.{ℤ, eqb_ℤ, eqb_ℤ_iff}
use morphling.Dict.{lookup, int_eq}
use morphling.GreenCtx.Torch.{Torch, leave, count_first, enter, switch_to, deactivate}

-- How often the SM count changes along a list that follows `s`.
abbrev pub changes : ℤ → List ℤ → ℕ
changes s [] = 0
changes s (u ∷ us) = (if eqb_ℤ s u then 0 else 1) + changes u us

abbrev pub HasContext : {Ctx : Type 0} → List (ℤ × Ctx) → ℤ → Type 0
HasContext {Ctx} contexts sm = (gc : Ctx) × (lookup sm contexts ≡ some gc)

module _ {Ctx Stream : Type 0} where
  -- Activations in turn, with no deactivation between them.
  unfoldable pub visits : List ℤ → Torch Ctx Stream → Torch Ctx Stream
  visits [] t = t
  visits (sm ∷ sms) t = visits sms (switch_to sm t)

  -- Activations in turn, each undone before the next, as `step_scope` and the hooks make them.
  unfoldable pub scopes : List ℤ → Torch Ctx Stream → Torch Ctx Stream
  scopes [] t = t
  scopes (sm ∷ sms) t = scopes sms (deactivate sm (switch_to sm t))

  -- A context is active, for the SM count `s`, and the switches so far are `n`, one at least.
  record Resident (s : ℤ) (n : ℕ) (contexts : List (ℤ × Ctx)) (t : Torch Ctx Stream) : Type 0 where
    gc : Ctx
    active : t.active_gc ≡ some gc
    at : t.active_sm ≡ s
    switches : t.switch_count ≡ n
    some_switch : 0 < n
    same : t.contexts ≡ contexts

  -- No context is active.
  record Idle (n : ℕ) (contexts : List (ℤ × Ctx)) (t : Torch Ctx Stream) : Type 0 where
    off : t.active_gc ≡ none
    switches : t.switch_count ≡ n
    same : t.contexts ≡ contexts

  enter-Resident :
      (sm : ℤ) (n : ℕ) (t : Torch Ctx Stream) (contexts : List (ℤ × Ctx))
      → HasContext contexts sm
      → Idle n contexts t
      → Resident sm
          (if n == 0 then 1 else n)
          contexts
          (enter sm (lookup sm t.contexts) t.active_gc t)
  unfolding enter count_first
  enter-Resident sm n t contexts (gc, has) r =
      let found : lookup sm t.contexts ≡ some gc = ap (lookup sm) r.same ∙ has in
      record {
        gc = gc;
        active = ground (arith, found, r.off);
        at = ground (arith, found, r.off);
        switches = ground (arith, found, r.off, r.switches);
        some_switch = ground arith;
        same = ground (arith, found, r.off, r.same);
      }

  leave-Idle :
      (s u : ℤ) (n : ℕ) (t : Torch Ctx Stream) (contexts : List (ℤ × Ctx))
      → eqb_ℤ s u ≡ false
      → Resident s n contexts t
      → Idle (n + 1) contexts (leave u t.active_gc t)
  unfolding leave
  leave-Idle s u n t contexts other r = record {
    off = ground (arith, r.active, r.at);
    switches = ground (arith, r.active, r.at, r.switches);
    same = ground (arith, r.active, r.at, r.same);
  }

  leave-same :
      (u : ℤ) (o : Option Ctx) (t : Torch Ctx Stream) → eqb_ℤ t.active_sm u ≡ true → leave u o t ≡ t
  unfolding leave
  leave-same u none t e = refl
  leave-same u (some gc) t e = simp e

  enter-active :
      (u : ℤ) (found o : Option Ctx) (gc : Ctx) (t : Torch Ctx Stream)
      → o ≡ some gc
      → enter u found o t ≡ t
  unfolding enter
  enter-active u none o gc t e = refl
  enter-active u (some g) none gc t e = cc
  enter-active u (some g) (some g') gc t e = refl

  switch_to-same :
      (s u : ℤ) (n : ℕ) (t : Torch Ctx Stream) (contexts : List (ℤ × Ctx))
      → eqb_ℤ s u ≡ true
      → Resident s n contexts t
      → switch_to u t ≡ t
  unfolding switch_to
  switch_to-same s u n t contexts e r =
      let stay = leave-same u t.active_gc t (ap (λ a. eqb_ℤ a u) r.at ∙ e) in
      ap (λ (l : Torch Ctx Stream). enter u (lookup u l.contexts) l.active_gc l) stay
      ∙ enter-active u (lookup u t.contexts) t.active_gc r.gc t r.active

  switch_to-Resident :
      (s u : ℤ) (n : ℕ) (t : Torch Ctx Stream) (contexts : List (ℤ × Ctx))
      → HasContext contexts u
      → Resident s n contexts t
      → Resident u ((if eqb_ℤ s u then 0 else 1) + n) contexts (switch_to u t)
  switch_to-Resident s u n t contexts has r = elim (Bool-cases (eqb_ℤ s u)) [
    | inl e ↦ rw e (
        subst (Resident u (0 + n) contexts) (sym (switch_to-same s u n t contexts e r)) (record {
          gc = r.gc;
          active = r.active;
          at = r.at ∙ (eqb_ℤ_iff s u).0 e;
          switches = omega (arith, r.switches);
          some_switch = omega (arith, r.some_switch);
          same = r.same;
        }))
    | inr e ↦ rw e (
        unfold switch_to in
        subst (λ k. Resident u k contexts (switch_to u t)) (ground arith)
          (enter-Resident u (n + 1) (leave u t.active_gc t) contexts has
            (leave-Idle s u n t contexts e r)))
  ]

  deactivate-Idle :
      (s i : ℤ) (n : ℕ) (t : Torch Ctx Stream) (contexts : List (ℤ × Ctx))
      → Resident s n contexts t
      → Idle n contexts (deactivate i t)
  unfolding deactivate
  deactivate-Idle s i n t contexts r = record {
    off = ground (arith, r.active);
    switches = ground (arith, r.active, r.switches);
    same = ground (arith, r.active, r.same);
  }

  leave-off : (u : ℤ) (o : Option Ctx) (t : Torch Ctx Stream) → o ≡ none → leave u o t ≡ t
  unfolding leave
  leave-off u none t e = refl
  leave-off u (some gc) t e = cc

  switch_to-Idle :
      (u : ℤ) (n : ℕ) (t : Torch Ctx Stream) (contexts : List (ℤ × Ctx))
      → HasContext contexts u
      → Idle n contexts t
      → Resident u (if n == 0 then 1 else n) contexts (switch_to u t)
  unfolding switch_to
  switch_to-Idle u n t contexts has r =
      subst
        (λ (l : Torch Ctx Stream).
          Resident u (if n == 0 then 1 else n) contexts
            (enter u (lookup u l.contexts) l.active_gc l))
        (sym (leave-off u t.active_gc t r.off)) (enter-Resident u n t contexts has r)

  visits-count :
      (s : ℤ) (sms : List ℤ) (n : ℕ) (t : Torch Ctx Stream) (contexts : List (ℤ × Ctx))
      → All (HasContext contexts) sms
      → Resident s n contexts t
      → (visits sms t).switch_count ≡ n + changes s sms
  unfolding visits
  visits-count s [] n t contexts has r = omega (arith, r.switches)
  visits-count s (u ∷ sms) n t contexts has r =
      visits-count u sms ((if eqb_ℤ s u then 0 else 1) + n) (switch_to u t) contexts has.1
        (switch_to-Resident s u n t contexts has.0 r)
      ∙ omega arith

  scopes-count :
      (sms : List ℤ) (n : ℕ) (t : Torch Ctx Stream) (contexts : List (ℤ × Ctx))
      → 0 < n
      → All (HasContext contexts) sms
      → Idle n contexts t
      → (scopes sms t).switch_count ≡ n
  unfolding scopes
  scopes-count [] n t contexts p has r = r.switches
  scopes-count (u ∷ sms) n t contexts p has r =
      let n' : ℕ = if n == 0 then 1 else n in
      let after = switch_to-Idle u n t contexts has.0 r in
      scopes-count sms n' (deactivate u (switch_to u t)) contexts (ground arith) has.1
        (deactivate-Idle u u n' (switch_to u t) contexts after)
      ∙ ground arith

  -- From a new backend, activations that follow one another with no deactivation between them
  -- count one switch for the first and one for each change of the SM count, where each SM count
  -- has a context.
  pub visits-switch_count :
      (s : ℤ) (sms : List ℤ) (t : Torch Ctx Stream)
      → t.active_gc ≡ none
      → t.switch_count ≡ 0
      → All (HasContext t.contexts) (s ∷ sms)
      → (visits (s ∷ sms) t).switch_count ≡ 1 + changes s sms
  unfolding visits
  visits-switch_count s sms t off zeroed has =
      visits-count s sms 1 (switch_to s t) t.contexts has.1 (
        switch_to-Idle s 0 t t.contexts has.0
          (record { off = off; switches = zeroed; same = refl }))

  -- From a new backend, activations that are each undone before the next, as `step_scope` makes
  -- them, count one switch however often the SM count changes, where each SM count has a context.
  pub scopes-switch_count :
      (s : ℤ) (sms : List ℤ) (t : Torch Ctx Stream)
      → t.active_gc ≡ none
      → t.switch_count ≡ 0
      → All (HasContext t.contexts) (s ∷ sms)
      → (scopes (s ∷ sms) t).switch_count ≡ 1
  unfolding scopes
  scopes-switch_count s sms t off zeroed has =
      scopes-count sms 1 (deactivate s (switch_to s t)) t.contexts (omega arith) has.1 (
        deactivate-Idle s s 1 (switch_to s t) t.contexts (
          switch_to-Idle s 0 t t.contexts has.0
            (record { off = off; switches = zeroed; same = refl })))
