-- ===== src/Dict.antt =====
-- Python's `dict`: an association list in the order of insertion, over any type of keys that has
-- `Eq`. A write to a key that is there keeps its place.
use morphling.Prelude.{
  ℕ, ◌≡◌, refl, sym, ◌≢◌, ◌↔◌, inl, inr, Bool, true, false, ◌&&◌, Option, none, some, List, [], ◌∷◌,
  arith, ◌==◌, ==_iff, Bool-cases, Elem, if◌then◌else◌,
}
use morphling.Str.{Str, str_eq, str_eq_iff}
use morphling.Prelude.Int.{ℤ, eqb_ℤ, eqb_ℤ_iff}

pub record Eq {ℓ} (A : Type ℓ) : Type ℓ where
  pub eqb : A → A → Bool
  pub eqb_iff : (a b : A) → (eqb a b ≡ true) ↔ (a ≡ b)

instance abbrev pub int_eq : Eq ℤ
int_eq = record { eqb = eqb_ℤ; eqb_iff = eqb_ℤ_iff }

instance abbrev pub nat_eq : Eq ℕ
nat_eq = record { eqb = ◌==◌; eqb_iff = ==_iff }

instance abbrev pub str_key : Eq Str
str_key = record { eqb = str_eq; eqb_iff = str_eq_iff }

pub pair_iff :
    {A B : Type 0} (e : Eq A) (f : Eq B) (p q : A × B)
    → ((e.eqb p.0 q.0 && f.eqb p.1 q.1) ≡ true) ↔ (p ≡ q)
pair_iff e f p q = (
  λ h. ground (arith, (e.eqb_iff p.0 q.0).0, (f.eqb_iff p.1 q.1).0),
  λ h. ground (arith, (e.eqb_iff p.0 q.0).1, (f.eqb_iff p.1 q.1).1),
)

instance abbrev pub pair_eq : {A B : Type 0} ⦃e : Eq A⦄ ⦃f : Eq B⦄ → Eq (A × B)
pair_eq ⦃e⦄ ⦃f⦄ = record { eqb = λ p q. e.eqb p.0 q.0 && f.eqb p.1 q.1; eqb_iff = pair_iff e f }

module _ {K V : Type 0} ⦃e : Eq K⦄ where
  -- `d.get(k)`
  unfoldable pub lookup : K → List (K × V) → Option V
  lookup k [] = none
  lookup k ((j, v) ∷ d) = let rest = lookup k d in if e.eqb j k then some v else rest

  -- `d[k] = v`
  unfoldable pub put : K → V → List (K × V) → List (K × V)
  put k v [] = (k, v) ∷ []
  put k v ((j, w) ∷ d) = let rest = put k v d in if e.eqb j k then (j, v) ∷ d else (j, w) ∷ rest

  pub lookup-put :
      (k j : K) (v : V) (d : List (K × V))
      → lookup j (put k v d) ≡ (if e.eqb k j then some v else lookup j d)
  unfolding lookup put
  lookup-put k j v [] = refl
  lookup-put k j v ((i, w) ∷ d) = ground (
    arith,
    (e.eqb_iff k j).0,
    (e.eqb_iff i k).0,
    (e.eqb_iff i j).0,
    (e.eqb_iff k j).1,
    (e.eqb_iff i k).1,
    (e.eqb_iff i j).1,
    lookup-put k j v d,
  )

  pub lookup-put_self : (k : K) (v : V) (d : List (K × V)) → lookup k (put k v d) ≡ some v
  lookup-put_self k v d = rw lookup-put (rw ((e.eqb_iff k k).1 refl))

-- `list(d)`, the keys in order.
abbrev pub keys : {K V : Type 0} → List (K × V) → List K
keys [] = []
keys ((k, v) ∷ d) = k ∷ keys d

-- `list(d.values())`
abbrev pub values : {K V : Type 0} → List (K × V) → List V
values [] = []
values ((k, v) ∷ d) = v ∷ values d

module _ {K V : Type 0} ⦃e : Eq K⦄ where
  pub Elem-keys : (k : K) (d : List (K × V)) {v : V} → lookup k d ≡ some v → Elem k (keys d)
  unfolding lookup
  Elem-keys k [] h = cc
  Elem-keys k ((j, w) ∷ d) h = elim (Bool-cases (e.eqb j k)) [
    | inl same ↦ inl (sym ((e.eqb_iff j k).0 same))
    | inr other ↦ inr (Elem-keys k d (rw other at h))
  ]

  pub lookup-Elem : (k : K) (d : List (K × V)) → Elem k (keys d) → (v : V) × (lookup k d ≡ some v)
  unfolding lookup
  lookup-Elem k [] m = elim m [ ]
  lookup-Elem k ((j, w) ∷ d) (inl here) = (w, rw ((e.eqb_iff j k).1 (sym here)))
  lookup-Elem k ((j, w) ∷ d) (inr there) = elim (Bool-cases (e.eqb j k)) [
    | inl same ↦ (w, rw same)
    | inr other ↦ rw other (lookup-Elem k d there)
  ]

module _ {K : Type 0} ⦃e : Eq K⦄ where
  pub eqb_false : (a b : K) → a ≢ b → e.eqb a b ≡ false
  eqb_false a b h = elim (Bool-cases (e.eqb a b)) [
    | inl same ↦ absurd (h ((e.eqb_iff a b).0 same))
    | inr other ↦ other
  ]
