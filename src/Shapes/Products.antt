-- ===== src/Shapes/Products.antt =====
-- What the GEMMs of a layer yield: every pair of shapes can be multiplied, and the products are
-- the operands that the next GEMM and the gradients need.
use mathlib.Core.Path.{subst}
use mathlib.Core.Option
use morphling.Prelude.{
  ℕ, ◌/◌, ◌≡◌, refl, ◌↔◌, Bool-cases, inl, inr, Option, none, some, List, [], ◌∷◌, ◌++◌, arith, All,
  All-append, ◌==◌, if◌then◌else◌, if_ind,
}
use morphling.Str.{codes, str_eq}
use morphling.Py.{Result, ok, ◌>>=◌, >>=-eq-ok}
use morphling.Shapes.{
  HfConfig, ModelMeta, Shape, GemmName, Gemm, parse_model_meta, attn_shapes, mlp_shapes,
  gate_shapes, shapes_of, floor_div, parse_gemm_shapes,
}
use morphling.Shapes.GemmName.{
  fw_attn_qkvo, fw_attn_weight, fw_attn_output, bw_input_attn_qkvo, bw_weight_attn_qkvo,
  bw_input_attn_weight, fw_mlp_up, fw_mlp_down, bw_input_mlp_up, bw_weight_mlp_up,
  bw_input_mlp_down, bw_weight_mlp_down, fw_mlp_gate, bw_input_mlp_gate, bw_weight_mlp_gate,
}
use morphling.Shapes.Shards.{matrix_of}

-- The shape of the product of two arrays: of two matrices, of two stacks of as many matrices, or
-- of a stack with one matrix.
abbrev pub matmul : Shape → Shape → Option Shape
matmul (m ∷ k ∷ []) (l ∷ n ∷ []) = if k == l then some (m ∷ n ∷ []) else none
matmul (b ∷ m ∷ k ∷ []) (l ∷ n ∷ []) = if k == l then some (b ∷ m ∷ n ∷ []) else none
matmul (b ∷ m ∷ k ∷ []) (c ∷ l ∷ n ∷ []) =
    if b == c then (if k == l then some (b ∷ m ∷ n ∷ []) else none) else none
matmul (b ∷ h ∷ m ∷ k ∷ []) (c ∷ g ∷ l ∷ n ∷ []) =
    if b == c
    then if h == g then (if k == l then some (b ∷ h ∷ m ∷ n ∷ []) else none) else none
    else none
matmul _ _ = none

-- An m × k matrix in front of a k × n one, in stacks that fit.
abbrev pub IsWellShaped : Gemm → Type 0
IsWellShaped g =
    (m : ℕ) × (k : ℕ) × (n : ℕ) × (matrix_of g.input_shape ≡ ok (m, k))
    × (matrix_of g.weight_shape ≡ ok (k, n))

abbrev Fits : Shape → Shape → Type 0
Fits x w = (product : Shape) × (matmul x w ≡ some product)

abbrev pub HasProduct : Gemm → Type 0
HasProduct g = Fits g.input_shape g.weight_shape

abbrev index : GemmName → ℕ
index GemmName.fw_attn_qkvo = 0
index GemmName.fw_attn_weight = 1
index GemmName.fw_attn_output = 2
index GemmName.bw_input_attn_qkvo = 3
index GemmName.bw_weight_attn_qkvo = 4
index GemmName.bw_input_attn_weight = 5
index GemmName.bw_weight_attn_weight = 6
index GemmName.bw_input_attn_output = 7
index GemmName.bw_weight_attn_output = 8
index GemmName.fw_mlp_up = 9
index GemmName.fw_mlp_down = 10
index GemmName.bw_input_mlp_up = 11
index GemmName.bw_weight_mlp_up = 12
index GemmName.bw_input_mlp_down = 13
index GemmName.bw_weight_mlp_down = 14
index GemmName.fw_mlp_gate = 15
index GemmName.bw_input_mlp_gate = 16
index GemmName.bw_weight_mlp_gate = 17

-- The GEMM under a key.
abbrev pub find : GemmName → List Gemm → Option Gemm
find name [] = none
find name (g ∷ shapes) = if index g.name == index name then some g else find name shapes

-- The shape that the GEMM under a key yields, and those of its operands.
abbrev pub product_of : GemmName → List Gemm → Option Shape
product_of name shapes = elim (find name shapes) [
  | none ↦ none
  | some g ↦ matmul g.input_shape g.weight_shape
]

abbrev pub input_of : GemmName → List Gemm → Option Shape
input_of name shapes = Option.map (λ g. g.input_shape) (find name shapes)

abbrev transposed : Shape → Shape
transposed (m ∷ n ∷ []) = n ∷ m ∷ []
transposed shape = shape

-- The transposed weight, one for each sequence of the batch.
abbrev pub weight_gradient_of : ℕ → GemmName → List Gemm → Option Shape
weight_gradient_of batch_size name shapes =
    Option.map (λ g. batch_size ∷ transposed g.weight_shape) (find name shapes)

-- When the shapes were computed, the configuration was read and its heads divide by a number.
pub shapes-inv :
    (b s : ℕ) (config : HfConfig) {shapes : List Gemm}
    → parse_gemm_shapes b s config ≡ ok shapes
    → (m : ModelMeta) × (parse_model_meta config ≡ ok m)
      × (shapes_of b s (m.d_model / m.n_head) m ≡ shapes)
unfolding parse_gemm_shapes
shapes-inv b s config {shapes} returned =
    let (m, read, rest) =
      >>=-eq-ok (parse_model_meta config)
        (λ m. floor_div m.d_model m.n_head >>= λ head_dim. ok (shapes_of b s head_dim m))
        returned in
    elim (Bool-cases (m.n_head == 0)) [
      | inl none_left ↦ let no : Result.raise _ ≡ ok shapes = rw none_left at rest in cc
      | inr some_left ↦
          let yes : ok (shapes_of b s (m.d_model / m.n_head) m) ≡ ok shapes =
            rw some_left at rest in
          (m, read, cc)
    ]

stack-matrix-Fits : (b m k n : ℕ) → Fits (b ∷ m ∷ k ∷ []) (k ∷ n ∷ [])
stack-matrix-Fits b m k n = (b ∷ m ∷ n ∷ [], ground arith)

stacks-Fits : (b m k n : ℕ) → Fits (b ∷ m ∷ k ∷ []) (b ∷ k ∷ n ∷ [])
stacks-Fits b m k n = (b ∷ m ∷ n ∷ [], ground arith)

heads-Fits : (b h m k n : ℕ) → Fits (b ∷ h ∷ m ∷ k ∷ []) (b ∷ h ∷ k ∷ n ∷ [])
heads-Fits b h m k n = (b ∷ h ∷ m ∷ n ∷ [], ground arith)

module _ (b s hd : ℕ) (m : ModelMeta) where
  open m use {d_model, d_ffn, n_head}

  attn-HasProduct : All HasProduct (attn_shapes b s d_model n_head hd)
  unfolding attn_shapes
  attn-HasProduct = (
    stack-matrix-Fits b s d_model d_model,
    (
      heads-Fits b n_head s hd s,
      (
        heads-Fits b n_head s s hd,
        (
          stack-matrix-Fits b s d_model d_model,
          (
            stacks-Fits b d_model s d_model,
            (
              heads-Fits b n_head s hd s,
              (
                heads-Fits b n_head s s hd,
                (heads-Fits b n_head s s hd, (heads-Fits b n_head s hd s, tt)),
              ),
            ),
          ),
        ),
      ),
    ),
  )

  mlp-HasProduct : All HasProduct (mlp_shapes b s d_model d_ffn)
  unfolding mlp_shapes
  mlp-HasProduct = (
    stack-matrix-Fits b s d_model d_ffn,
    (
      stack-matrix-Fits b s d_ffn d_model,
      (
        stack-matrix-Fits b s d_ffn d_model,
        (
          stacks-Fits b d_ffn s d_model,
          (stack-matrix-Fits b s d_model d_ffn, (stacks-Fits b d_model s d_ffn, tt)),
        ),
      ),
    ),
  )

  gate-HasProduct : All HasProduct (gate_shapes b s d_model d_ffn)
  unfolding gate_shapes
  gate-HasProduct = (
    stack-matrix-Fits b s d_model d_ffn,
    (stack-matrix-Fits b s d_ffn d_model, (stacks-Fits b d_ffn s d_model, tt)),
  )

  shapes_of-HasProduct : All HasProduct (shapes_of b s hd m)
  unfolding shapes_of
  shapes_of-HasProduct =
      let gated : List Gemm =
        if str_eq m.model_type (codes "llama") then gate_shapes b s d_model d_ffn else [] in
      All-append HasProduct (attn_shapes b s d_model n_head hd)
        (mlp_shapes b s d_model d_ffn ++ gated) attn-HasProduct
        (All-append HasProduct (mlp_shapes b s d_model d_ffn) gated mlp-HasProduct (
          if_ind (All HasProduct) (str_eq m.model_type (codes "llama"))
            {x = gate_shapes b s d_model d_ffn} {y = []} (λ _. gate-HasProduct) (λ _. tt)))

-- An array of one shape in front of one of the other: the last two dimensions of each are the
-- matrices that are multiplied.
HasProduct-IsWellShaped : (g : Gemm) → HasProduct g → IsWellShaped g
unfolding matrix_of
HasProduct-IsWellShaped g (out, fits) = matched g.input_shape g.weight_shape fits
  where
    matched :
        (x w : Shape)
        → matmul x w ≡ some out
        → (m : ℕ) × (k : ℕ) × (n : ℕ) × (matrix_of x ≡ ok (m, k)) × (matrix_of w ≡ ok (k, n))
    matched (m ∷ k ∷ []) (l ∷ n ∷ []) h = (m, k, n, refl, ground arith)
    matched (b ∷ m ∷ k ∷ []) (l ∷ n ∷ []) h = (m, k, n, refl, ground arith)
    matched (b ∷ m ∷ k ∷ []) (c ∷ l ∷ n ∷ []) h = (m, k, n, refl, ground arith)
    matched (b ∷ h' ∷ m ∷ k ∷ []) (c ∷ g' ∷ l ∷ n ∷ []) h = (m, k, n, refl, ground arith)
    matched _ _ h = cc

All-map {ℓ κ κ'} :
    {A : Type ℓ} (P : A → Type κ) (Q : A → Type κ') (xs : List A)
    → ((a : A) → P a → Q a)
    → All P xs
    → All Q xs
All-map P Q [] step h = tt
All-map P Q (x ∷ xs) step h = (step x h.0, All-map P Q xs step h.1)

module _ (b s : ℕ) (config : HfConfig) {shapes : List Gemm}
    (returned : parse_gemm_shapes b s config ≡ ok shapes) where
  -- Each pair of shapes has a product.
  pub parse_gemm_shapes-HasProduct : All HasProduct shapes
  parse_gemm_shapes-HasProduct =
      let (m, _, e) = shapes-inv b s config returned in
      subst (All HasProduct) e (shapes_of-HasProduct b s (m.d_model / m.n_head) m)

  pub parse_gemm_shapes-IsWellShaped : All IsWellShaped shapes
  parse_gemm_shapes-IsWellShaped =
      All-map HasProduct IsWellShaped shapes HasProduct-IsWellShaped parse_gemm_shapes-HasProduct

  -- The product under `bw_input_attn_weight` has the shape of the operand that it should be the
  -- gradient of exactly if the sequence is as long as a head is wide.
  pub attention_gradient_misfit :
      (m : ModelMeta)
      → parse_model_meta config ≡ ok m
      → (product_of bw_input_attn_weight shapes ≡ input_of fw_attn_weight shapes)
        ↔ (s ≡ m.d_model / m.n_head)
  unfolding shapes_of attn_shapes
  attention_gradient_misfit m read =
      let (m', read', e) = shapes-inv b s config returned in
      let same : m' ≡ m = cc in rw (← e) (rw same (λ h. ground arith, λ h. ground arith))
