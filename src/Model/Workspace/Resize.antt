-- ===== src/Model/Workspace/Resize.antt =====
-- `InferenceWorkspace::resize` gives every buffer the size that the forward pass expects.
use gpt2_cpu_runtime.Prelude.{
  List, not, ◌||◌, ◌==◌, ltb, size_mod, Returns, guard-Returns, length, ℕ, ◌*◌, ◌≤◌, ◌<◌, ◌≡◌, ◌∙◌,
  arith,
}
use gpt2_cpu_runtime.Float.{Float}
use gpt2_cpu_runtime.Sizes.{checked_multiply_lem}
use gpt2_cpu_runtime.Model.Config.{ModelConfig, IsValid, validate_iff}
use gpt2_cpu_runtime.Model.Workspace.{resize_vector, Workspace, length-resize_vector, resize}

-- The sizes of the buffers for `rows` positions.
pub record HasRows {F : Type 0} (config : ModelConfig) (rows : ℕ) (ws : Workspace F) : Type 0 where
  pub residual_size : length ws.residual ≡ rows * config.channels
  pub normalized_size : length ws.normalized ≡ rows * config.channels
  pub qkv_size : length ws.qkv ≡ rows * (3 * config.channels)
  pub attention_size : length ws.attention_output ≡ rows * config.channels
  pub projected_size : length ws.projected ≡ rows * config.channels
  pub hidden_size : length ws.mlp_hidden ≡ rows * (4 * config.channels)
  pub scores_size : length ws.attention_scores ≡ rows
  pub logits_size : length ws.logits ≡ rows * config.padded_vocabulary_size

-- The sizes stay when another residual of the same size takes its place.
pub HasRows-residual :
    {F : Type 0} (config : ModelConfig) (rows : ℕ) (ws : Workspace F) (residual : List F)
    → length residual ≡ rows * config.channels
    → HasRows config rows ws
    → HasRows config rows (record ws { residual = residual })
HasRows-residual config rows ws residual e sizes = record {
  residual_size = e;
  normalized_size = sizes.normalized_size;
  qkv_size = sizes.qkv_size;
  attention_size = sizes.attention_size;
  projected_size = sizes.projected_size;
  hidden_size = sizes.hidden_size;
  scores_size = sizes.scores_size;
  logits_size = sizes.logits_size;
}

module _ {F : Type 0} ⦃fl : Float F⦄ where
  -- For a valid configuration and a number of positions within the context, whose buffers a
  -- `std::size_t` can count, `resize` gives every buffer its size, whatever it was before.
  pub resize-Returns :
      (config : ModelConfig) (rows : ℕ) (ws : Workspace F)
      → IsValid config
      → 0 < rows
      → rows ≤ config.max_sequence_length
      → rows * (4 * config.channels) < size_mod
      → rows * config.padded_vocabulary_size < size_mod
      → Returns (resize config rows ws) (HasRows config rows)
  unfolding resize
  resize-Returns config rows ws v pos le fits logits_fit =
      let c = config.channels in
      let n = rows * c in
      (
        record {
          sequence_length = rows;
          residual = resize_vector ws.residual n;
          normalized = resize_vector ws.normalized n;
          qkv = resize_vector ws.qkv (n * 3);
          attention_output = resize_vector ws.attention_output n;
          projected = resize_vector ws.projected n;
          mlp_hidden = resize_vector ws.mlp_hidden (n * 4);
          attention_scores = resize_vector ws.attention_scores rows;
          logits = resize_vector ws.logits (rows * config.padded_vocabulary_size);
        },
        rw (
          (validate_iff config).1 v,
          guard-Returns (not (rows == 0 || ltb config.max_sequence_length rows)) _
              (ground (arith, pos, le)),
          checked_multiply_lem rows c "workspace token channels" (omega arith),
          checked_multiply_lem (rows * c) 3 "workspace qkv" (omega arith),
          checked_multiply_lem (rows * c) 4 "workspace MLP hidden" (omega arith),
          checked_multiply_lem rows config.padded_vocabulary_size "workspace logits" logits_fit,
        ),
        record {
          residual_size = length-resize_vector ws.residual _;
          normalized_size = length-resize_vector ws.normalized _;
          qkv_size = length-resize_vector ws.qkv (n * 3) ∙ omega arith;
          attention_size = length-resize_vector ws.attention_output _;
          projected_size = length-resize_vector ws.projected _;
          hidden_size = length-resize_vector ws.mlp_hidden (n * 4) ∙ omega arith;
          scores_size = length-resize_vector ws.attention_scores _;
          logits_size = length-resize_vector ws.logits _;
        },
      )
