-- ===== src/Batch/Collective.antt =====
-- The lookup of entries and the collectives: _build_entry_lookup to _estimate_allreduce_ms.
use morphling.Prelude.{Bool, not, ◌||◌, Option, none, some, List, [], ◌∷◌, ◌++◌, if◌then◌else◌}
use morphling.Prelude.Int.{ℤ}
use morphling.Str.{Str, codes, str_eq}
use morphling.Py.{Result, ok, ◌>>=◌}
use morphling.Dict.{Eq, lookup, put, int_eq, pair_eq, str_key}
use morphling.Shapes.Shards.{contains}
use morphling.Json.{Json, null, get}
use morphling.Batch.{VtimeEvent}
use morphling.Batch.Entries.{Entry}

-- `defaultdict(list)`: a missing key reads as the empty list.
abbrev pub or_nil {ℓ} : {A : Type ℓ} → Option (List A) → List A
or_nil none = []
or_nil (some xs) = xs

module _ {F : Type 0} where
  -- The last entry of each pair of a device and a GEMM.
  unfoldable pub by_device_gemm_from :
      List (Entry F) → List ((ℤ × ℤ) × Entry F) → List ((ℤ × ℤ) × Entry F)
  by_device_gemm_from [] d = d
  by_device_gemm_from (e ∷ entries) d =
      by_device_gemm_from entries (put (e.device_id, e.gemm_id) e d)

  -- All entries of each GEMM.
  unfoldable pub by_gemm_from :
      List (Entry F) → List (ℤ × List (Entry F)) → List (ℤ × List (Entry F))
  by_gemm_from [] d = d
  by_gemm_from (e ∷ entries) d =
      by_gemm_from entries (put e.gemm_id (or_nil (lookup e.gemm_id d) ++ e ∷ []) d)

  unfoldable pub build_entry_lookup :
      List (Entry F) → List ((ℤ × ℤ) × Entry F) × List (ℤ × List (Entry F))
  unfolding by_device_gemm_from by_gemm_from
  build_entry_lookup entries = (by_device_gemm_from entries [], by_gemm_from entries [])

  abbrev only : List (Entry F) → Option (Entry F)
  only (e ∷ []) = some e
  only _ = none

  unfoldable pub pick_entry_for_event :
      VtimeEvent → List ((ℤ × ℤ) × Entry F) → List (ℤ × List (Entry F)) → Option (Entry F)
  pick_entry_for_event event by_device_gemm by_gemm =
      elim (lookup (event.device_id, event.gemm_id) by_device_gemm) [
        | some exact ↦ some exact
        | none ↦ only (or_nil (lookup event.gemm_id by_gemm))
      ]

-- `parallelism_type in ALLREDUCE_TYPES`
abbrev pub is_allreduce : Str → Bool
is_allreduce s = str_eq s (codes "dp_allreduce") || str_eq s (codes "tp_allreduce")

-- The type, the level, the stage and the group's name, of a type K of names up to Python's `==`.
abbrev pub GroupKey : Type 0 → Type 0
GroupKey K = (Str × ℤ) × (ℤ × K)

-- `set.add`, with the elements in the order of insertion.
abbrev pub add : {A : Type 0} ⦃e : Eq A⦄ → A → List A → List A
add x xs = if contains x xs then xs else xs ++ x ∷ []

-- `name_of` hashes a name; of a list or a dictionary it raises TypeError.
module _ {F K : Type 0} ⦃key : Eq K⦄ (name_of : Json F → Result K) where
  abbrev or_else : Json F → Json F → Json F
  or_else null other = other
  or_else v other = v

  unfoldable pub collective_group_key : Entry F → Result (GroupKey K)
  collective_group_key e = do
    name ← name_of (
        or_else (or_else (get (codes "group_id") e.raw) (get (codes "dp_group_id") e.raw))
          (get (codes "tp_group_id") e.raw))
    ok ((e.parallelism_type, e.level), (e.stage_id, name))

  -- The loop over the entries, from the groups that are there.
  unfoldable pub add_groups :
      List (Entry F) → List (GroupKey K × List ℤ) → Result (List (GroupKey K × List ℤ))
  unfolding collective_group_key
  add_groups [] groups = ok groups
  add_groups (e ∷ entries) groups =
      let rest = add_groups entries groups in
      let added : Result (List (GroupKey K × List ℤ)) = collective_group_key e >>= λ k.
      add_groups entries (put k (add e.device_id (or_nil (lookup k groups))) groups) in
      if not (is_allreduce e.parallelism_type) then rest else added

  unfoldable pub build_collective_groups : List (Entry F) → Result (List (GroupKey K × List ℤ))
  unfolding add_groups
  build_collective_groups entries = add_groups entries []
