-- ===== src/Shapes/Grid.antt =====
-- The tiles that one shard cuts from two matrices: each block of the rows with each block of the
-- columns.
use morphling.Prelude.{
  ℕ, ◌%◌, ◌≤◌, ◌<◌, ◌≡◌, ◌≢◌, refl, ◌↔◌, ◌⊎◌, inl, inr, Bool, true, false, not, ◌||◌, ◌&&◌, List,
  [], ◌∷◌, ◌++◌, arith, Elem, ltb, ◌==◌, Bool-cases, if◌then◌else◌, Elem-append_of,
  Elem-append_cases,
}
use morphling.Shapes.Shards.{Matrix, Tile, when, rc_tiles, summa_tiles}
use morphling.Shapes.Blocks.{IsBlock, sizes-IsBlock}
use morphling.Dict.{nat_eq, pair_eq}

when-Elem : (t u : Tile) (b : Bool) → Elem t (when b u) ↔ ((b ≡ true) × (t ≡ u))
when-Elem t u true = (λ m. elim m [ inl e ↦ (refl, e) | inr empty ↦ elim empty [ ] ], λ h. inl h.1)
when-Elem t u false = (λ m. elim m [ ], λ h. cc)

-- The tile `f r c` for each choice of a height and a width.
module _ (f : ℕ → ℕ → Tile) (m n shard : ℕ) where
  abbrev grid : List Tile
  grid =
      if ltb m shard || ltb n shard
      then []
      else f shard shard ∷ when (not (m % shard == 0)) (f (m % shard) shard)
        ++ (when (not (n % shard == 0)) (f shard (n % shard))
            ++ when (not (m % shard == 0) && not (n % shard == 0)) (f (m % shard) (n % shard)))

  -- A block of the rows with a block of the columns.
  abbrev pub IsCell : Tile → Type 0
  IsCell t =
      (shard ≤ m)
      × (shard ≤ n)
      × (r : ℕ) × (c : ℕ) × IsBlock m shard r
      × IsBlock n shard c
      × (t ≡ f r c)

  abbrev Size : ℕ → ℕ → Type 0
  Size dim size = (size ≡ shard) ⊎ ((dim % shard ≢ 0) × (size ≡ dim % shard))

  abbrev Sized : Tile → Type 0
  Sized t = (r : ℕ) × (c : ℕ) × Size m r × Size n c × (t ≡ f r c)

  abbrev low : List Tile
  low = when (not (m % shard == 0)) (f (m % shard) shard)

  abbrev right : List Tile
  right = when (not (n % shard == 0)) (f shard (n % shard))

  abbrev corner : List Tile
  corner = when (not (m % shard == 0) && not (n % shard == 0)) (f (m % shard) (n % shard))

  grid_sizes : (t : Tile) → Elem t (f shard shard ∷ low ++ (right ++ corner)) → Sized t
  grid_sizes t (inl e) = (shard, shard, inl refl, inl refl, e)
  grid_sizes t (inr mem) = elim (Elem-append_cases t low (right ++ corner) mem) [
    | inl first ↦
        let (some_left, e) = (when-Elem t _ _).0 first in
        (m % shard, shard, inr (ground arith, refl), inl refl, e)
    | inr others ↦ elim (Elem-append_cases t right corner others) [
      | inl second ↦
          let (some_left, e) = (when-Elem t _ _).0 second in
          (shard, n % shard, inl refl, inr (ground arith, refl), e)
      | inr third ↦
          let (some_left, e) = (when-Elem t _ _).0 third in
          (m % shard, n % shard, inr (ground arith, refl), inr (ground arith, refl), e)
    ]
  ]

  grid_full : (t : Tile) → Sized t → Elem t (f shard shard ∷ low ++ (right ++ corner))
  grid_full t (r, c, inl whole_r, inl whole_c, e) = inl (rw (whole_r, whole_c) at e)
  grid_full t (r, c, inr (some_r, rest_r), inl whole_c, e) = inr (
      Elem-append_of t low (right ++ corner)
        (inl ((when-Elem t _ _).1 (ground arith, rw (rest_r, whole_c) at e))))
  grid_full t (r, c, inl whole_r, inr (some_c, rest_c), e) = inr (
      Elem-append_of t low (right ++ corner) (
        inr (
          Elem-append_of t right corner
            (inl ((when-Elem t _ _).1 (ground arith, rw (whole_r, rest_c) at e))))))
  grid_full t (r, c, inr (some_r, rest_r), inr (some_c, rest_c), e) = inr (
      Elem-append_of t low (right ++ corner) (
        inr (
          Elem-append_of t right corner
            (inr ((when-Elem t _ _).1 (ground arith, rw (rest_r, rest_c) at e))))))

  grid-Elem : (t : Tile) → 0 < shard → Elem t grid ↔ IsCell t
  grid-Elem t pos = (
    λ mem. elim (Bool-cases (ltb m shard || ltb n shard)) [
      | inl skip ↦ let nothing : Elem t [] = rw skip at mem in elim nothing [ ]
      | inr go ↦
          let tall : shard ≤ m = ground arith in
          let wide : shard ≤ n = ground arith in
          let (r, c, sr, sc, e) = grid_sizes t (rw go at mem) in
          (
            tall,
            wide,
            r,
            c,
            (sizes-IsBlock m shard r pos tall).1 sr,
            (sizes-IsBlock n shard c pos wide).1 sc,
            e,
          )
    ],
    λ (tall, wide, r, c, br, bc, e).
        let go : (ltb m shard || ltb n shard) ≡ false = ground arith in
        rw go (
          grid_full t (
            r,
            c,
            (sizes-IsBlock m shard r pos tall).0 br,
            (sizes-IsBlock n shard c pos wide).0 bc,
            e,
          )),
  )

-- The heights and widths of the tiles are the blocks of the rows and columns, and the inner
-- dimension is whole.
abbrev pub RcCut : ℕ → Matrix → Matrix → Tile → Type 0
RcCut shard a b = IsCell (λ r c. ((r, a.1), (b.0, c))) a.0 b.1 shard

-- The inner dimension is cut too.
abbrev pub SummaCut : ℕ → Matrix → Matrix → Tile → Type 0
SummaCut shard a b = IsCell (λ r c. ((r, shard), (shard, c))) a.0 b.1 shard

pub rc_tiles-Elem :
    (shard : ℕ) (a b : Matrix) (t : Tile)
    → 0 < shard
    → Elem t (rc_tiles shard a b) ↔ RcCut shard a b t
unfolding rc_tiles
rc_tiles-Elem shard a b t pos = grid-Elem (λ r c. ((r, a.1), (b.0, c))) a.0 b.1 shard t pos

pub summa_tiles-Elem :
    (shard : ℕ) (a b : Matrix) (t : Tile)
    → 0 < shard
    → Elem t (summa_tiles shard a b) ↔ SummaCut shard a b t
unfolding summa_tiles
summa_tiles-Elem shard a b t pos = grid-Elem (λ r c. ((r, shard), (shard, c))) a.0 b.1 shard t pos
