-- ===== src/Batch/Groups.antt =====
-- The devices of a collective.
use mathlib.Core.Path.{subst}
use morphling.Prelude.{
  ◌≡◌, refl, sym, ◌∙◌, ap, ◌↔◌, ◌⊎◌, true, Bool-cases, inl, inr, Option, some, List, [], ◌∷◌, Elem,
  Elem-append_of, Elem-append_cases, if_ind,
}
use morphling.Prelude.Int.{ℤ}
use morphling.Py.{Result, ok, >>=-eq-ok}
use morphling.Dict.{Eq, lookup, put, lookup-put, int_eq, pair_eq, str_key}
use morphling.Shapes.Shards.{contains}
use morphling.Shapes.Unique.{contains_iff}
use morphling.Json.{Json}
use morphling.Batch.Entries.{Entry}
use morphling.Batch.Collective.{
  or_nil, is_allreduce, GroupKey, add, collective_group_key, add_groups, build_collective_groups,
}

add-Elem :
    {A : Type 0} ⦃e : Eq A⦄ (d x : A) (xs : List A) → Elem d (add x xs) ↔ (Elem d xs ⊎ (d ≡ x))
add-Elem d x xs = (
  if_ind (λ l. Elem d l → Elem d xs ⊎ (d ≡ x)) (contains x xs) (λ _ m. inl m)
      (λ _ m. elim (Elem-append_cases d xs (x ∷ []) m) [
        | inl old ↦ inl old
        | inr (inl new) ↦ inr new
        | inr (inr empty) ↦ elim empty [ ]
      ]),
  λ h.
      if_ind (Elem d) (contains x xs)
        (λ found. elim h [ inl old ↦ old | inr new ↦ rw new ((contains_iff x xs).0 found) ])
        (λ _.
          Elem-append_of d xs (x ∷ []) (elim h [ inl old ↦ inl old | inr new ↦ inr (inl new) ])),
)

-- A group after a device joined one.
put-add-Elem :
    {G : Type 0} ⦃g : Eq G⦄ (k k' : G) (d d' : ℤ) (groups : List (G × List ℤ))
    → Elem d (or_nil (lookup k (put k' (add d' (or_nil (lookup k' groups))) groups)))
      ↔ (Elem d (or_nil (lookup k groups)) ⊎ ((k' ≡ k) × (d ≡ d')))
put-add-Elem ⦃g⦄ k k' d d' groups =
    let new : List ℤ = add d' (or_nil (lookup k' groups)) in
    let looked = lookup-put k' k new groups in
    elim (Bool-cases (g.eqb k' k)) [
      | inl same ↦
          let e : k' ≡ k = (g.eqb_iff k' k).0 same in
          let found : lookup k (put k' new groups) ≡ some new = looked ∙ rw same refl in
          (
            λ m.
                let m' : Elem d new = rw found at m in
                elim ((add-Elem d d' (or_nil (lookup k' groups))).0 m') [
                  | inl old ↦ inl (subst (λ j. Elem d (or_nil (lookup j groups))) e old)
                  | inr joined ↦ inr (e, joined)
                ],
            λ h. rw found (
                (add-Elem d d' (or_nil (lookup k' groups))).1 (elim h [
                  | inl old ↦ inl (subst (λ j. Elem d (or_nil (lookup j groups))) (sym e) old)
                  | inr joined ↦ inr joined.1
                ])),
          )
      | inr other ↦
          let found : lookup k (put k' new groups) ≡ lookup k groups = looked ∙ rw other refl in
          (
            λ m. inl (subst (λ (o : Option (List ℤ)). Elem d (or_nil o)) found m),
            λ h. elim h [
              | inl old ↦ subst (λ (o : Option (List ℤ)). Elem d (or_nil o)) (sym found) old
              | inr joined ↦
                  absurd (let yes : g.eqb k' k ≡ true = (g.eqb_iff k' k).1 joined.0 in cc)
            ],
          )
    ]

module _ {F K : Type 0} ⦃key : Eq K⦄ (name_of : Json F → Result K) where
  -- The device is in the group.
  abbrev pub InGroup : GroupKey K → ℤ → List (GroupKey K × List ℤ) → Type 0
  InGroup k d groups = Elem d (or_nil (lookup k groups))

  -- The entry is one of the collective, on the device.
  abbrev pub IsOn : GroupKey K → ℤ → Entry F → Type 0
  IsOn k d e =
      (is_allreduce e.parallelism_type ≡ true)
      × (collective_group_key name_of e ≡ ok k)
      × (d ≡ e.device_id)

  abbrev pub Joins : List (Entry F) → GroupKey K → ℤ → Type 0
  Joins entries k d = (e : Entry F) × Elem e entries × IsOn k d e

  add_groups-InGroup :
      (k : GroupKey K) (d : ℤ) (entries : List (Entry F)) (old : List (GroupKey K × List ℤ))
      {groups : List (GroupKey K × List ℤ)}
      → add_groups name_of entries old ≡ ok groups
      → InGroup k d groups ↔ (InGroup k d old ⊎ Joins entries k d)
  unfolding add_groups
  add_groups-InGroup k d [] old {groups} returned =
      let same : old ≡ groups = cc in
      (
        λ m. inl (subst (InGroup k d) (sym same) m),
        λ h. elim h [ inl m ↦ subst (InGroup k d) same m | inr (e, m, _) ↦ elim m [ ] ],
      )
  add_groups-InGroup k d (e ∷ entries) old {groups} returned =
      elim (Bool-cases (is_allreduce e.parallelism_type)) [
        | inr other ↦
            let (there, back) =
              add_groups-InGroup k d entries old
                (let r : add_groups name_of entries old ≡ ok groups = rw other at returned in r) in
            (
              λ m. elim (there m) [
                | inl before ↦ inl before
                | inr (e', m', rest) ↦ inr (e', inr m', rest)
              ],
              λ h. back (elim h [
                | inl before ↦ inl before
                | inr (e', inl here, on) ↦ absurd (
                    let same = ap (λ (x : Entry F). is_allreduce x.parallelism_type) here in
                    let yes = on.0 in cc)
                | inr (e', inr there', rest) ↦ inr (e', there', rest)
              ]),
            )
        | inl allreduce ↦
            let added = λ (j : GroupKey K). put j (add e.device_id (or_nil (lookup j old))) old in
            let (j, keyed, rest) =
              >>=-eq-ok (collective_group_key name_of e) (λ j. add_groups name_of entries (added j))
                (rw allreduce at returned) in
            let (there, back) = add_groups-InGroup k d entries (added j) rest in
            let (put_there, put_back) = put-add-Elem k j d e.device_id old in
            (
              λ m. elim (there m) [
                | inl now ↦ elim (put_there now) [
                  | inl before ↦ inl before
                  | inr (same, at) ↦ inr (e, inl refl, (allreduce, rw same at keyed, at))
                ]
                | inr (e', m', on) ↦ inr (e', inr m', on)
              ],
              λ h. back (elim h [
                | inl before ↦ inl (put_back (inl before))
                | inr (e', inl here, on) ↦
                    let keyed' : ok j ≡ ok k = sym keyed ∙ rw here at on.1 in
                    inl (put_back (inr (cc keyed', rw here at on.2)))
                | inr (e', inr there', on) ↦ inr (e', there', on)
              ]),
            )
      ]

  -- A device is in the group of a collective exactly if one of the entries is a part of that
  -- collective on that device.
  pub build_collective_groups-InGroup :
      (entries : List (Entry F)) (k : GroupKey K) (d : ℤ) {groups : List (GroupKey K × List ℤ)}
      → build_collective_groups name_of entries ≡ ok groups
      → InGroup k d groups ↔ Joins entries k d
  unfolding build_collective_groups lookup
  build_collective_groups-InGroup entries k d returned =
      let (there, back) = add_groups-InGroup k d entries [] returned in
      (
        λ m. elim (there m) [ inl empty ↦ elim empty [ ] | inr joins ↦ joins ],
        λ joins. back (inr joins),
      )
