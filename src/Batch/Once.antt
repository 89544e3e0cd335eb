-- ===== src/Batch/Once.antt =====
-- The wall time of the collectives.
use mathlib.Core.Path.{subst}
use mathlib.Core.List.{append_assoc, append-nil, map-append}
use morphling.Prelude.{
  ◌≡◌, refl, sym, ◌∙◌, ap, true, false, Bool-cases, inl, inr, Option, List, [], ◌∷◌, ◌++◌, map, All,
  All-append, Elem, Elem-append_of,
}
use morphling.Prelude.Int.{ℤ}
use morphling.Py.{Result, ok, ◌>>=◌, >>=-eq-ok}
use morphling.Dict.{Eq, lookup, int_eq, pair_eq, str_key}
use morphling.Shapes.Shards.{contains}
use morphling.Shapes.Unique.{IsUnique, IsUnique-snoc, contains_iff}
use morphling.Float.{Float}
use morphling.Json.{Json}
use morphling.Batch.Entries.{Entry, Profile}
use morphling.Batch.Collective.{or_nil, is_allreduce, GroupKey, collective_group_key}
use morphling.Batch.Estimate.{estimate_allreduce_ms}
use morphling.Batch.Totals.{Totals, add_collective, collect, add_collectives}

module _ {F K : Type 0} ⦃key : Eq K⦄ (name_of : Json F → Result K) (f : Float F)
    (groups : List (GroupKey K × List ℤ)) (profiles : List (ℤ × Profile F)) (bytes : F)
    (bandwidth_bps : Option F) where
  -- The entry is one of the collective, and takes the time, which is positive.
  abbrev pub TakesTime : GroupKey K → F → Entry F → Type 0
  TakesTime k ms e =
      (is_allreduce e.parallelism_type ≡ true)
      × (collective_group_key name_of e ≡ ok k)
      × (estimate_allreduce_ms f e (or_nil (lookup k groups)) profiles bytes bandwidth_bps ≡ ok ms)
      × (f.at_most ms f.zero ≡ false)

  abbrev pub IsTimeOf : List (Entry F) → GroupKey K × F → Type 0
  IsTimeOf entries (k, ms) = (e : Entry F) × Elem e entries × TakesTime k ms e

  abbrev pub firsts : List (GroupKey K × F) → List (GroupKey K)
  firsts counted = map (λ (p : GroupKey K × F). p.0) counted

  -- The times added up from the left.
  abbrev pub plus_all : F → List (GroupKey K × F) → F
  plus_all x [] = x
  plus_all x ((k, ms) ∷ counted) = plus_all (f.plus x ms) counted

  -- What the loop counts: one time for each group that was not seen.
  abbrev Counted :
      List (Entry F) → List (GroupKey K) × Totals F → List (GroupKey K) × Totals F → Type 0
  Counted entries (seen, t) (seen', t') =
      (counted : List (GroupKey K × F)) × (seen' ≡ seen ++ firsts counted)
      × (t'.allreduce_time_ms ≡ plus_all t.allreduce_time_ms counted)
      × All (IsTimeOf entries) counted
      × (IsUnique seen → IsUnique seen')
      × ((k : GroupKey K) (ms : F) (e : Entry F) → Elem e entries → TakesTime k ms e → Elem k seen')

  -- An entry determines its collective and its time.
  TakesTime-same :
      (e e' : Entry F) (k k' : GroupKey K) (ms ms' : F)
      → e' ≡ e
      → collective_group_key name_of e ≡ ok k
      → estimate_allreduce_ms f e (or_nil (lookup k groups)) profiles bytes bandwidth_bps ≡ ok ms
      → TakesTime k' ms' e'
      → (k' ≡ k) × (f.at_most ms f.zero ≡ false)
  TakesTime-same e e' k k' ms ms' here keyed estimated takes =
      let takes_here : TakesTime k' ms' e = subst (TakesTime k' ms') here takes in
      let keys : ok k' ≡ ok k = sym takes_here.1 ∙ keyed in
      let same : k' ≡ k = cc in
      let takes_k : TakesTime k ms' e = subst (λ j. TakesTime j ms' e) same takes_here in
      let times : ok ms' ≡ ok ms = sym takes_k.2 ∙ estimated in
      let equal : ms' ≡ ms = cc in (same, subst (λ x. f.at_most x f.zero ≡ false) equal takes_k.3)

  -- One entry of a collective.
  collect-Counted :
      (e : Entry F) (k : GroupKey K) (ms : F) (walk : List (GroupKey K) × Totals F)
      → is_allreduce e.parallelism_type ≡ true
      → collective_group_key name_of e ≡ ok k
      → estimate_allreduce_ms f e (or_nil (lookup k groups)) profiles bytes bandwidth_bps ≡ ok ms
      → Counted (e ∷ []) walk (collect name_of f groups profiles bytes bandwidth_bps e k ms walk)
  unfolding collect add_collective
  collect-Counted e k ms (seen, t) all keyed estimated =
      let same =
        λ (j : GroupKey K) (ms' : F) (e' : Entry F) (here : e' ≡ e) (takes : TakesTime j ms' e').
          TakesTime-same e e' k j ms ms' here keyed estimated takes in
      elim (Bool-cases (f.at_most ms f.zero)) [
        | inl nothing ↦ rw nothing (
          [],
          sym (append-nil seen),
          refl,
          tt,
          λ u. u,
          λ j ms' e' m takes. elim m [
            | inl here ↦ absurd (let yes = (same j ms' e' here takes).1 in cc)
            | inr empty ↦ elim empty [ ]
          ],
        )
        | inr some_time ↦ rw some_time (elim (Bool-cases (contains k seen)) [
          | inl old ↦ rw old (
            [],
            sym (append-nil seen),
            refl,
            tt,
            λ u. u,
            λ j ms' e' m takes. elim m [
              | inl here ↦ rw (same j ms' e' here takes).0 ((contains_iff k seen).0 old)
              | inr empty ↦ elim empty [ ]
            ],
          )
          | inr new ↦ rw new (
            (k, ms) ∷ [],
            refl,
            refl,
            ((e, inl refl, (all, keyed, estimated, some_time)), tt),
            λ u. IsUnique-snoc seen k u (λ m. absurd (let yes = (contains_iff k seen).1 m in cc)),
            λ j ms' e' m takes. elim m [
              | inl here ↦ Elem-append_of j seen (k ∷ []) (inr (inl (same j ms' e' here takes).0))
              | inr empty ↦ elim empty [ ]
            ],
          )
        ])
      ]

  plus_all-append :
      (x : F) (ps qs : List (GroupKey K × F)) → plus_all x (ps ++ qs) ≡ plus_all (plus_all x ps) qs
  plus_all-append x [] qs = refl
  plus_all-append x ((k, ms) ∷ ps) qs = plus_all-append (f.plus x ms) ps qs

  IsTimeOf-within :
      (entries more : List (Entry F)) (counted : List (GroupKey K × F))
      → ((e : Entry F) → Elem e entries → Elem e more)
      → All (IsTimeOf entries) counted
      → All (IsTimeOf more) counted
  IsTimeOf-within entries more [] within all = tt
  IsTimeOf-within entries more ((k, ms) ∷ counted) within ((e, m, takes), all) =
      ((e, within e m, takes), IsTimeOf-within entries more counted within all)

  -- What one entry counts, and what the later ones count.
  Counted-cons :
      (e : Entry F) (entries : List (Entry F)) (walk next last : List (GroupKey K) × Totals F)
      → Counted (e ∷ []) walk next
      → Counted entries next last
      → Counted (e ∷ entries) walk last
  Counted-cons e entries (seen, t) (seen', t') (seen'', t'') (c, s, x, h, u, all)
        (c', s', x', h', u', all') =
      (
        c ++ c',
        s' ∙ rw s (simp (map-append, append_assoc)),
        x' ∙ rw x (sym (plus_all-append t.allreduce_time_ms c c')),
        All-append (IsTimeOf (e ∷ entries)) c c'
            (IsTimeOf-within (e ∷ []) (e ∷ entries) c
              (λ j m. elim m [ inl here ↦ inl here | inr empty ↦ elim empty [ ] ]) h)
            (IsTimeOf-within entries (e ∷ entries) c' (λ j m. inr m) h'),
        λ unique. u' (u unique),
        λ k ms j m takes. elim m [
          | inl here ↦
              subst (Elem k) (sym s')
                (Elem-append_of k seen' (firsts c') (inl (all k ms j (inl here) takes)))
          | inr there ↦ all' k ms j there takes
        ],
      )

  -- An entry that is no collective counts nothing.
  skip-Counted :
      (e : Entry F) (walk : List (GroupKey K) × Totals F)
      → is_allreduce e.parallelism_type ≡ false
      → Counted (e ∷ []) walk walk
  skip-Counted e (seen, t) other = (
    [],
    sym (append-nil seen),
    refl,
    tt,
    λ u. u,
    λ k ms j m takes. elim m [
      | inl here ↦ absurd (
          let yes = takes.0 in
          let same = ap (λ (x : Entry F). is_allreduce x.parallelism_type) here in cc)
      | inr empty ↦ elim empty [ ]
    ],
  )

  pub add_collectives-Counted :
      (entries : List (Entry F)) (walk : List (GroupKey K) × Totals F)
      {last : List (GroupKey K) × Totals F}
      → add_collectives name_of f groups profiles bytes bandwidth_bps entries walk ≡ ok last
      → Counted entries walk last
  unfolding add_collectives
  add_collectives-Counted [] walk {last} returned =
      let same : walk ≡ last = cc in
      subst (Counted [] walk) same
        ([], sym (append-nil walk.0), refl, tt, λ u. u, λ k ms e m takes. elim m [ ])
  add_collectives-Counted (e ∷ entries) walk {last} returned =
      elim (Bool-cases (is_allreduce e.parallelism_type)) [
        | inr other ↦
            Counted-cons e entries walk walk last (skip-Counted e walk other)
              (add_collectives-Counted entries walk (rw other at returned))
        | inl all ↦
            let loop = λ (w : List (GroupKey K) × Totals F).
              add_collectives name_of f groups profiles bytes bandwidth_bps entries w in
            let step = λ (k : GroupKey K) (ms : F).
              collect name_of f groups profiles bytes bandwidth_bps e k ms walk in
            let estimate = λ (k : GroupKey K).
              estimate_allreduce_ms f e (or_nil (lookup k groups)) profiles bytes bandwidth_bps in
            let (k, keyed, rest) =
              >>=-eq-ok (collective_group_key name_of e)
                (λ k. estimate k >>= λ ms. loop (step k ms)) (rw all at returned) in
            let (ms, estimated, later) = >>=-eq-ok (estimate k) (λ ms. loop (step k ms)) rest in
            Counted-cons e entries walk (step k ms) last
              (collect-Counted e k ms walk all keyed estimated)
              (add_collectives-Counted entries (step k ms) later)
      ]
