-- ===== src/Shapes/Shards.antt =====
-- parse_shapes_rc_shard and parse_shapes_summa_shard: the shapes of the tiles that the two
-- matrices of a GEMM are cut into, for each size of a shard, without repetition.
use morphling.Prelude.{
  ℕ, ◌%◌, Bool, false, ◌&&◌, ◌||◌, not, List, [], ◌∷◌, ◌++◌, ◌==◌, ltb, if◌then◌else◌,
}
use morphling.Py.{Error, Result, raise, ok, ◌>>=◌}
use morphling.Dict.{Eq, nat_eq, pair_eq}
use morphling.Shapes.{HfConfig, Shape, Gemm, parse_gemm_shapes}

-- Rows and columns.
abbrev pub Matrix : Type 0
Matrix = ℕ × ℕ

-- The two matrices of a product.
abbrev pub Tile : Type 0
Tile = Matrix × Matrix

-- `shape[-2:]`, whose two entries are read.
unfoldable pub matrix_of : Shape → Result Matrix
matrix_of [] = raise Error.index_error
matrix_of (a ∷ []) = raise Error.index_error
matrix_of (a ∷ b ∷ []) = ok (a, b)
matrix_of (a ∷ b ∷ c ∷ shape) = matrix_of (b ∷ c ∷ shape)

abbrev pub when : Bool → Tile → List Tile
when b t = if b then t ∷ [] else []

-- The body of the loop over the shards, for the matrices m × k and l × n.
unfoldable pub rc_tiles : ℕ → Matrix → Matrix → List Tile
rc_tiles shard (m, k) (l, n) =
    let r = m % shard in
    let c = n % shard in
    if ltb m shard || ltb n shard
    then []
    else ((shard, k), (l, shard)) ∷ when (not (r == 0)) ((r, k), (l, shard))
      ++ (when (not (c == 0)) ((shard, k), (l, c))
          ++ when (not (r == 0) && not (c == 0)) ((r, k), (l, c)))

unfoldable pub summa_tiles : ℕ → Matrix → Matrix → List Tile
summa_tiles shard (m, k) (l, n) =
    let r = m % shard in
    let c = n % shard in
    if ltb m shard || ltb n shard
    then []
    else ((shard, shard), (shard, shard)) ∷ when (not (r == 0)) ((r, shard), (shard, shard))
      ++ (when (not (c == 0)) ((shard, shard), (shard, c))
          ++ when (not (r == 0) && not (c == 0)) ((r, shard), (shard, c)))

module _ (tiles : ℕ → Matrix → Matrix → List Tile) where
  -- The loop over the sizes of a shard.
  unfoldable pub each_shard : Matrix → Matrix → List ℕ → List Tile
  each_shard a b [] = []
  each_shard a b (shard ∷ shards) = tiles shard a b ++ each_shard a b shards

  -- The loop over the GEMMs.
  unfoldable pub each_shape : List ℕ → List Gemm → Result (List Tile)
  unfolding matrix_of each_shard
  each_shape shards [] = ok []
  each_shape shards (g ∷ shapes) = do
    a ← matrix_of g.input_shape
    b ← matrix_of g.weight_shape
    rest ← each_shape shards shapes
    ok (each_shard a b shards ++ rest)

module _ {A : Type 0} ⦃e : Eq A⦄ where
  -- `x in xs`
  unfoldable pub contains : A → List A → Bool
  contains x [] = false
  contains x (y ∷ ys) = e.eqb y x || contains x ys

  -- The loop that keeps the first of equal shapes.
  unfoldable pub unique_loop : List A → List A → List A
  unfolding contains
  unique_loop unique [] = unique
  unique_loop unique (x ∷ xs) =
      unique_loop (if contains x unique then unique else unique ++ x ∷ []) xs

abbrev pub rc_shard_list : List ℕ
rc_shard_list = 8 ∷ 16 ∷ 32 ∷ 64 ∷ 128 ∷ 256 ∷ 512 ∷ 1024 ∷ 2048 ∷ []

abbrev pub summa_shard_list : List ℕ
summa_shard_list = 128 ∷ 256 ∷ 512 ∷ 1024 ∷ 2048 ∷ []

module _ (batch_size seq_len : ℕ) (config : HfConfig) where
  unfoldable pub parse_shapes_rc_shard : Result (List Tile)
  unfolding each_shape rc_tiles unique_loop
  parse_shapes_rc_shard = do
    shapes ← parse_gemm_shapes batch_size seq_len config
    shard_shapes ← each_shape rc_tiles rc_shard_list shapes
    ok (unique_loop [] shard_shapes)

  unfoldable pub parse_shapes_summa_shard : Result (List Tile)
  unfolding each_shape summa_tiles unique_loop
  parse_shapes_summa_shard = do
    shapes ← parse_gemm_shapes batch_size seq_len config
    shard_shapes ← each_shape summa_tiles summa_shard_list shapes
    ok (unique_loop [] shard_shapes)
