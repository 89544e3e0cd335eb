-- ===== src/Shapes.antt =====
-- morphling/utils/hfparser.py: the GEMMs of one layer of a model, and the shapes of their tiles.
-- A configuration of the transformers library is a parameter. A shape is a tuple of numbers.
pub mod Shards
pub mod Products
pub mod Blocks
pub mod Unique
pub mod Grid
pub mod Tiles
mod Examples
use morphling.Prelude.{
  ℕ, zero, suc, ◌+◌, ◌-◌, ◌*◌, ◌/◌, ◌%◌, ◌≡◌, Bool, true, false, ◌&&◌, ◌||◌, not, Option, none,
  some, List, [], ◌∷◌, ◌++◌, ◌==◌, leb, ltb, if◌then◌else◌,
}
use morphling.Str.{Str, codes, str_eq, split, lower}
use morphling.Py.{Error, Result, raise, ok, or_raise, ◌>>=◌}
use morphling.Dict.{Eq, nat_eq, pair_eq}

-- What `AutoConfig.from_pretrained` returns, as far as it is read. A field that only some
-- families have is `none` where the configuration lacks the attribute.
pub record HfConfig : Type 0 where
  pub architectures : List Str
  pub hidden_size : ℕ
  pub ffn_dim : Option ℕ
  pub intermediate_size : Option ℕ
  pub num_attention_heads : ℕ
  pub num_hidden_layers : ℕ
  pub num_key_value_heads : Option ℕ

pub record ModelMeta : Type 0 where
  pub model_type : Str
  pub d_model : ℕ
  pub d_ffn : ℕ
  pub n_head : ℕ
  pub n_layer : ℕ
  pub n_kv_head : ℕ

abbrev first {ℓ} : {A : Type ℓ} → List A → Result A
first [] = raise Error.index_error
first (x ∷ _) = ok x

-- `config.architectures[0].split("F")[0].lower()`
unfoldable pub model_type_of : HfConfig → Result Str
unfolding split
model_type_of config = do
  architecture ← first config.architectures
  family ← first (split b'F' architecture)
  ok (lower family)

unfoldable pub opt_meta : HfConfig → Str → Result ModelMeta
opt_meta config model_type = do
  d_ffn ← or_raise Error.attribute_error config.ffn_dim
  ok record {
    model_type = model_type;
    d_model = config.hidden_size;
    d_ffn = d_ffn;
    n_head = config.num_attention_heads;
    n_layer = config.num_hidden_layers;
    n_kv_head = 0;
  }

unfoldable pub llama_meta : HfConfig → Str → Result ModelMeta
llama_meta config model_type = do
  d_ffn ← or_raise Error.attribute_error config.intermediate_size
  n_kv_head ← or_raise Error.attribute_error config.num_key_value_heads
  ok record {
    model_type = model_type;
    d_model = config.hidden_size;
    d_ffn = d_ffn;
    n_head = config.num_attention_heads;
    n_layer = config.num_hidden_layers;
    n_kv_head = n_kv_head;
  }

unfoldable pub parse_model_meta : HfConfig → Result ModelMeta
unfolding model_type_of opt_meta llama_meta
parse_model_meta config = do
  model_type ← model_type_of config
  if str_eq model_type (codes "opt")
      then opt_meta config model_type
      else if str_eq model_type (codes "llama")
      then llama_meta config model_type
      else raise Error.value_error

abbrev pub Shape : Type 0
Shape = List ℕ

-- The keys of the dictionary, spelled as in the source.
pub data GemmName : Type 0 where
  fw_attn_qkvo fw_attn_weight fw_attn_output : GemmName
  bw_input_attn_qkvo bw_weight_attn_qkvo : GemmName
  bw_input_attn_weight bw_weight_attn_weight : GemmName
  bw_input_attn_output bw_weight_attn_output : GemmName
  fw_mlp_up fw_mlp_down bw_input_mlp_up bw_weight_mlp_up : GemmName
  bw_input_mlp_down bw_weight_mlp_down : GemmName
  fw_mlp_gate bw_input_mlp_gate bw_weight_mlp_gate : GemmName

-- A key with the shapes of the two operands.
pub record Gemm : Type 0 where
  pub name : GemmName
  pub input_shape : Shape
  pub weight_shape : Shape

abbrev gemm : GemmName → Shape → Shape → Gemm
gemm name input weight = record { name = name; input_shape = input; weight_shape = weight }

-- `d_model // n_head` raises for no heads.
abbrev pub floor_div : ℕ → ℕ → Result ℕ
floor_div a b = if b == 0 then raise Error.zero_division_error else ok (a / b)

module _ (batch_size seq_len : ℕ) where
  unfoldable pub attn_shapes : (d_model n_head head_dim : ℕ) → List Gemm
  attn_shapes d_model n_head head_dim =
      let tokens : Shape = batch_size ∷ seq_len ∷ d_model ∷ [] in
      let square : Shape = d_model ∷ d_model ∷ [] in
      let heads : Shape = batch_size ∷ n_head ∷ seq_len ∷ head_dim ∷ [] in
      let heads_t : Shape = batch_size ∷ n_head ∷ head_dim ∷ seq_len ∷ [] in
      let scores : Shape = batch_size ∷ n_head ∷ seq_len ∷ seq_len ∷ [] in
      gemm fw_attn_qkvo tokens square
      ∷ gemm fw_attn_weight heads heads_t
      ∷ gemm fw_attn_output scores heads
      ∷ gemm bw_input_attn_qkvo tokens square
      ∷ gemm bw_weight_attn_qkvo (batch_size ∷ d_model ∷ seq_len ∷ []) tokens
      ∷ gemm bw_input_attn_weight heads heads_t
      ∷ gemm bw_weight_attn_weight scores heads
      ∷ gemm bw_input_attn_output scores heads
      ∷ gemm bw_weight_attn_output heads heads_t
      ∷ []

  unfoldable pub mlp_shapes : (d_model d_ffn : ℕ) → List Gemm
  mlp_shapes d_model d_ffn =
      let tokens : Shape = batch_size ∷ seq_len ∷ d_model ∷ [] in
      let hidden : Shape = batch_size ∷ seq_len ∷ d_ffn ∷ [] in
      let up : Shape = d_model ∷ d_ffn ∷ [] in
      let down : Shape = d_ffn ∷ d_model ∷ [] in
      gemm fw_mlp_up tokens up
      ∷ gemm fw_mlp_down hidden down
      ∷ gemm bw_input_mlp_up hidden down
      ∷ gemm bw_weight_mlp_up (batch_size ∷ d_ffn ∷ seq_len ∷ []) tokens
      ∷ gemm bw_input_mlp_down tokens up
      ∷ gemm bw_weight_mlp_down (batch_size ∷ d_model ∷ seq_len ∷ []) hidden
      ∷ []

  -- The gate has the shapes of the projection up.
  unfoldable pub gate_shapes : (d_model d_ffn : ℕ) → List Gemm
  gate_shapes d_model d_ffn =
      let tokens : Shape = batch_size ∷ seq_len ∷ d_model ∷ [] in
      gemm fw_mlp_gate tokens (d_model ∷ d_ffn ∷ [])
      ∷ gemm bw_input_mlp_gate (batch_size ∷ seq_len ∷ d_ffn ∷ []) (d_ffn ∷ d_model ∷ [])
      ∷ gemm bw_weight_mlp_gate (batch_size ∷ d_ffn ∷ seq_len ∷ []) tokens
      ∷ []

  unfoldable pub shapes_of : (head_dim : ℕ) → ModelMeta → List Gemm
  unfolding attn_shapes mlp_shapes gate_shapes
  shapes_of head_dim m =
      attn_shapes m.d_model m.n_head head_dim
      ++ (mlp_shapes m.d_model m.d_ffn
          ++ (if str_eq m.model_type (codes "llama") then gate_shapes m.d_model m.d_ffn else []))

  unfoldable pub parse_gemm_shapes : HfConfig → Result (List Gemm)
  unfolding shapes_of parse_model_meta
  parse_gemm_shapes config = do
    m ← parse_model_meta config
    head_dim ← floor_div m.d_model m.n_head
    ok (shapes_of head_dim m)
