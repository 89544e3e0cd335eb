-- ===== src/Shapes/Examples.antt =====
-- The GEMMs of a small model of the OPT family, for two sequences of ten tokens.
use morphling.Prelude.{◌/◌, ◌≡◌, refl, ◌↔◌, none, some, List, [], ◌∷◌, arith, Elem}
use morphling.Str.{codes}
use morphling.Py.{raise, ok, Error}
use morphling.Shapes.{
  HfConfig, ModelMeta, GemmName, Gemm, parse_model_meta, shapes_of, parse_gemm_shapes,
}
use morphling.Shapes.GemmName.{fw_attn_weight, bw_input_attn_weight}
use morphling.Shapes.Shards.{
  Tile, rc_shard_list, summa_shard_list, parse_shapes_rc_shard, parse_shapes_summa_shard,
}
use morphling.Shapes.Products.{product_of, input_of, attention_gradient_misfit}
use morphling.Shapes.Unique.{IsUnique}
use morphling.Shapes.Grid.{RcCut, SummaCut}
use morphling.Shapes.Tiles.{IsCutFrom, parse_shapes_cut}

abbrev opt : HfConfig
opt = record {
  architectures = codes "OPTForCausalLM" ∷ [];
  hidden_size = 20;
  ffn_dim = some 24;
  intermediate_size = none;
  num_attention_heads = 2;
  num_hidden_layers = 1;
  num_key_value_heads = none;
}

abbrev opt_model : ModelMeta
opt_model = record {
  model_type = codes "opt";
  d_model = 20;
  d_ffn = 24;
  n_head = 2;
  n_layer = 1;
  n_kv_head = 0;
}

abbrev opt_shapes : List Gemm
opt_shapes = shapes_of 2 10 10 opt_model

opt_is_read : parse_model_meta opt ≡ ok opt_model
unfolding parse_model_meta
opt_is_read = refl

opt_is_parsed : parse_gemm_shapes 2 10 opt ≡ ok opt_shapes
unfolding parse_gemm_shapes
opt_is_parsed = refl

-- A family that is not supported, and a model without heads.
other_family :
    parse_model_meta (record opt { architectures = codes "BertForMaskedLM" ∷ [] })
    ≡ raise Error.value_error
unfolding parse_model_meta
other_family = refl

no_heads :
    parse_gemm_shapes 2 10 (record opt { num_attention_heads = 0 })
    ≡ raise Error.zero_division_error
unfolding parse_gemm_shapes
no_heads = refl

attention_gradient_misfit_example :
    (product_of bw_input_attn_weight opt_shapes ≡ input_of fw_attn_weight opt_shapes)
    ↔ (◌≡◌ 10 (20 / 2))
attention_gradient_misfit_example =
    attention_gradient_misfit 2 10 opt opt_is_parsed opt_model opt_is_read

parse_shapes_cut_example :
    (rc : List Tile) × (summa : List Tile) × (parse_shapes_rc_shard 2 10 opt ≡ ok rc)
    × (parse_shapes_summa_shard 2 10 opt ≡ ok summa)
    × IsUnique rc
    × IsUnique summa
    × ((t : Tile) → Elem t rc ↔ IsCutFrom RcCut rc_shard_list opt_shapes t)
    × ((t : Tile) → Elem t summa ↔ IsCutFrom SummaCut summa_shard_list opt_shapes t)
parse_shapes_cut_example = parse_shapes_cut 2 10 opt opt_is_parsed

-- The tiles of 8 of the attention's weights, 10 × 10 and 10 × 10, leave 2.
tiles_example :
    Elem ((2, 10), (10, 8)) (elim (parse_shapes_rc_shard 2 10 opt) [ ok ts ↦ ts | raise _ ↦ [] ])
unfolding parse_shapes_rc_shard parse_gemm_shapes
tiles_example = ground arith
