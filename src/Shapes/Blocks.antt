-- ===== src/Shapes/Blocks.antt =====
-- The sizes of the blocks that a dimension is cut into.
use native.Mathlib.Nat.{div-add-mod', mod-lt}
use morphling.Prelude.{
  ℕ, zero, suc, ◌-◌, ◌*◌, ◌/◌, ◌%◌, ◌≤◌, ◌<◌, ◌≡◌, ◌≢◌, ◌⊎◌, ◌↔◌, inl, inr, arith, ltb, ltb→lt,
  Bool-cases, ◌∙◌, if◌then◌else◌,
}

-- The length of the block with index `i`: `shard`, or what is left of the dimension.
abbrev pub block : ℕ → ℕ → ℕ → ℕ
block dim shard i = if ltb (dim - i * shard) shard then dim - i * shard else shard

-- Some block has the length.
abbrev pub IsBlock : ℕ → ℕ → ℕ → Type 0
IsBlock dim shard size = (i : ℕ) × (i * shard < dim) × (size ≡ block dim shard i)

-- A dimension less than two shards from its end is that part and the shards before it.
rest_mod :
    (dim shard i : ℕ) → i * shard < dim → dim - i * shard < shard → dim - i * shard ≡ dim % shard
rest_mod dim shard zero h k = grind arith
rest_mod dim shard (suc i) h k = grind arith

-- A block has the length of a shard, or of the remainder if there is one.
pub sizes-IsBlock :
    (dim shard size : ℕ)
    → 0 < shard
    → shard ≤ dim
    → IsBlock dim shard size ↔ ((size ≡ shard) ⊎ ((dim % shard ≢ 0) × (size ≡ dim % shard)))
sizes-IsBlock dim shard size pos fits = (
  λ (i, h, e). elim (Bool-cases (ltb (dim - i * shard) shard)) [
    | inl short ↦
        let rest : size ≡ dim - i * shard = rw short at e in
        let same = rest_mod dim shard i h (ltb→lt _ _ short) in
        inr (λ z. absurd (omega arith), rest ∙ same)
    | inr long ↦ inl (rw long at e)
  ],
  λ s. elim s [
    | inl whole ↦ (0, omega arith, ground arith)
    | inr (some_left, rest) ↦
        let split = div-add-mod' dim shard in
        let small = mod-lt dim pos in let i : ℕ = dim / shard in (i, grind arith, grind arith)
  ],
)
