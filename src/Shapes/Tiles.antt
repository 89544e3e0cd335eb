-- ===== src/Shapes/Tiles.antt =====
-- The lists of tiles of parse_shapes_rc_shard and parse_shapes_summa_shard against the cutting of
-- matrices into blocks.
use mathlib.Core.Path.{subst}
use morphling.Prelude.{
  ℕ, ◌<◌, ◌≡◌, refl, sym, ◌∙◌, ◌↔◌, inl, inr, List, [], ◌∷◌, ◌++◌, arith, All, Elem, Elem-append_of,
  Elem-append_cases,
}
use morphling.Py.{ok}
use morphling.Shapes.{HfConfig, Gemm, parse_gemm_shapes}
use morphling.Shapes.Shards.{
  Matrix, Tile, matrix_of, rc_tiles, summa_tiles, each_shard, each_shape, unique_loop,
  rc_shard_list, summa_shard_list, parse_shapes_rc_shard, parse_shapes_summa_shard,
}
use morphling.Shapes.Products.{IsWellShaped, parse_gemm_shapes-IsWellShaped}
use morphling.Shapes.Unique.{IsUnique, unique_loop-IsUnique, unique_loop-Elem}
use morphling.Dict.{nat_eq, pair_eq}
use morphling.Shapes.Grid.{RcCut, SummaCut, rc_tiles-Elem, summa_tiles-Elem}

module _ (Cut : ℕ → Matrix → Matrix → Tile → Type 0) where
  abbrev IsCutOf : List ℕ → Gemm → Tile → Type 0
  IsCutOf shards g t =
      (m : ℕ) × (k : ℕ) × (n : ℕ) × (matrix_of g.input_shape ≡ ok (m, k))
      × (matrix_of g.weight_shape ≡ ok (k, n))
      × (shard : ℕ) × Elem shard shards
      × Cut shard (m, k) (k, n) t

  -- The tile is cut from the m × k and k × n matrices of one of the GEMMs, by one of the shards.
  abbrev pub IsCutFrom : List ℕ → List Gemm → Tile → Type 0
  IsCutFrom shards shapes t = (g : Gemm) × Elem g shapes × IsCutOf shards g t

module _ (tiles : ℕ → Matrix → Matrix → List Tile) (Cut : ℕ → Matrix → Matrix → Tile → Type 0)
    (law : (shard : ℕ) (a b : Matrix) (t : Tile)
      → 0 < shard
      → Elem t (tiles shard a b) ↔ Cut shard a b t) where
  each_shard-Elem :
      (a b : Matrix) (t : Tile) (shards : List ℕ)
      → All (λ shard. 0 < shard) shards
      → Elem t (each_shard tiles a b shards) ↔ ((shard : ℕ) × Elem shard shards × Cut shard a b t)
  unfolding each_shard
  each_shard-Elem a b t [] pos = (λ m. elim m [ ], λ (s, m, _). elim m [ ])
  each_shard-Elem a b t (shard ∷ shards) pos = (
    λ m. elim (Elem-append_cases t (tiles shard a b) (each_shard tiles a b shards) m) [
      | inl now ↦ (shard, inl refl, (law shard a b t pos.0).0 now)
      | inr later ↦
          let (s, m', cut) = (each_shard-Elem a b t shards pos.1).0 later in (s, inr m', cut)
    ],
    λ (s, m, cut). Elem-append_of t (tiles shard a b) (each_shard tiles a b shards) (elim m [
      | inl here ↦ inl ((law shard a b t pos.0).1 (rw here at cut))
      | inr there ↦ inr ((each_shard-Elem a b t shards pos.1).1 (s, there, cut))
    ]),
  )

  each_shape-Elem :
      (shards : List ℕ) (shapes : List Gemm)
      → All (λ shard. 0 < shard) shards
      → All IsWellShaped shapes
      → (ts : List Tile) × (each_shape tiles shards shapes ≡ ok ts)
        × ((t : Tile) → Elem t ts ↔ IsCutFrom Cut shards shapes t)
  unfolding each_shape
  each_shape-Elem shards [] pos fit = ([], refl, λ t. (λ m. elim m [ ], λ h. elim h.1 [ ]))
  each_shape-Elem shards (g ∷ shapes) pos ((m, k, n, ea, eb), fit) =
      let (ts, e, each) = each_shape-Elem shards shapes pos fit in
      let here : List Tile = each_shard tiles (m, k) (k, n) shards in
      (
        here ++ ts,
        rw (ea, eb, e) refl,
        λ t. (
          λ mem. elim (Elem-append_cases t here ts mem) [
            | inl now ↦
                let (s, ms, cut) = (each_shard-Elem (m, k) (k, n) t shards pos).0 now in
                (g, inl refl, (m, k, n, ea, eb, s, ms, cut))
            | inr later ↦ let (g', mg, rest) = (each t).0 later in (g', inr mg, rest)
          ],
          λ (g', mg, (m', k', n', ha, hb, s, ms, cut)). Elem-append_of t here ts (elim mg [
            | inl same ↦
                let ka : ok (m', k') ≡ ok (m, k) = rw same at (sym ha) ∙ ea in
                let kb : ok (k', n') ≡ ok (k, n) = rw same at (sym hb) ∙ eb in
                let cut' : Cut s (m, k) (k, n) t =
                  subst (λ y. Cut s (m, k) y t) (cc kb)
                    (subst (λ x. Cut s x (k', n') t) (cc ka) cut) in
                inl ((each_shard-Elem (m, k) (k, n) t shards pos).1 (s, ms, cut'))
            | inr there ↦ inr ((each t).1 (g', there, (m', k', n', ha, hb, s, ms, cut)))
          ]),
        ),
      )

once : {Q : Type 0} (t : Tile) (ts : List Tile) → Elem t ts ↔ Q → Elem t (unique_loop [] ts) ↔ Q
once t ts each =
    let (sound, full) = unique_loop-Elem t [] ts in
    (
      λ m. elim (sound m) [ inl empty ↦ elim empty [ ] | inr old ↦ each.0 old ],
      λ q. full (inr (each.1 q)),
    )

module _ (b s : ℕ) (config : HfConfig) {shapes : List Gemm}
    (returned : parse_gemm_shapes b s config ≡ ok shapes) where
  parse_shapes_rc_shard_cuts :
      (ts : List Tile) × (parse_shapes_rc_shard b s config ≡ ok ts)
      × IsUnique ts
      × ((t : Tile) → Elem t ts ↔ IsCutFrom RcCut rc_shard_list shapes t)
  unfolding parse_shapes_rc_shard
  parse_shapes_rc_shard_cuts =
      let (ts, e, each) =
        each_shape-Elem rc_tiles RcCut rc_tiles-Elem rc_shard_list shapes (omega arith)
          (parse_gemm_shapes-IsWellShaped b s config returned) in
      (
        unique_loop [] ts,
        rw (returned, e) refl,
        unique_loop-IsUnique [] ts tt,
        λ t. once t ts (each t),
      )

  parse_shapes_summa_shard_cuts :
      (ts : List Tile) × (parse_shapes_summa_shard b s config ≡ ok ts)
      × IsUnique ts
      × ((t : Tile) → Elem t ts ↔ IsCutFrom SummaCut summa_shard_list shapes t)
  unfolding parse_shapes_summa_shard
  parse_shapes_summa_shard_cuts =
      let (ts, e, each) =
        each_shape-Elem summa_tiles SummaCut summa_tiles-Elem summa_shard_list shapes (omega arith)
          (parse_gemm_shapes-IsWellShaped b s config returned) in
      (
        unique_loop [] ts,
        rw (returned, e) refl,
        unique_loop-IsUnique [] ts tt,
        λ t. once t ts (each t),
      )

  -- Where the shapes of the GEMMs were computed, both lists of tiles are returned and no tile
  -- stands in one twice. A pair of matrices stands in the first exactly if it is a block of rows
  -- of a GEMM's first matrix with a block of columns of its second, both whole along the inner
  -- dimension, for one of the shards that fit into the rows and the columns; and in the second
  -- exactly if it is so with the shard as the inner dimension.
  pub parse_shapes_cut :
      (rc : List Tile) × (summa : List Tile) × (parse_shapes_rc_shard b s config ≡ ok rc)
      × (parse_shapes_summa_shard b s config ≡ ok summa)
      × IsUnique rc
      × IsUnique summa
      × ((t : Tile) → Elem t rc ↔ IsCutFrom RcCut rc_shard_list shapes t)
      × ((t : Tile) → Elem t summa ↔ IsCutFrom SummaCut summa_shard_list shapes t)
  parse_shapes_cut =
      let (rc, e, u, each) = parse_shapes_rc_shard_cuts in
      let (summa, e', u', each') = parse_shapes_summa_shard_cuts in
      (rc, summa, e, e', u, u', each, each')
