-- ===== src/Model/Block.antt =====
-- The mathematics of the whole network, over the machine's float operations: the stream of each
-- position after each layer, and the logits. `forward` and `InferenceSession` both compute it.
pub mod Causal
use gpt2_cpu_runtime.Prelude.{ℕ, zero, suc, ◌+◌, ◌*◌, []}
use gpt2_cpu_runtime.Float.{Float, ◌+f◌}
use gpt2_cpu_runtime.Buffer.{at}
use gpt2_cpu_runtime.Reference.{linear_row, norm_row, gelu}
use gpt2_cpu_runtime.Kernels.Stages.Heads.{attention_row}
use gpt2_cpu_runtime.Model.Tensor.{ModelWeights, LayerParameters}
use gpt2_cpu_runtime.Model.Tensor.Lookup.{values_of}
use gpt2_cpu_runtime.Model.Tensor.Parameters.{parameters_of}

module _ {F : Type 0} ⦃fl : Float F⦄ where
  -- One layer, from the stream `x` that enters it. A position has a row of queries, keys and values.
  module _ (c heads : ℕ) (p : LayerParameters F) (x : ℕ → ℕ → F) where
    unfoldable pub qkv_row : ℕ → ℕ → F
    qkv_row t = linear_row p.qkvw p.qkvb c (norm_row p.ln1w p.ln1b c (x t))

    unfoldable pub attended_row : ℕ → ℕ → F
    attended_row t o =
        x t o +f linear_row p.attprojw p.attprojb c (attention_row c heads qkv_row t) o

    unfoldable pub hidden_row : ℕ → ℕ → F
    hidden_row t o = gelu (linear_row p.fcw p.fcb c (norm_row p.ln2w p.ln2b c (attended_row t)) o)

    unfoldable pub layer_row : ℕ → ℕ → F
    layer_row t o = attended_row t o +f linear_row p.fcprojw p.fcprojb (4 * c) (hidden_row t) o

  module _ (w : ModelWeights F) (tokens : ℕ → ℕ) where
    -- The stream of position `t` after the first `layer` layers.
    unfoldable pub stream : (layer : ℕ) → ℕ → ℕ → F
    stream zero t o =
        at (values_of w "wte") (tokens t * w.config.channels + o)
        +f at (values_of w "wpe") (t * w.config.channels + o)
    stream (suc layer) t o =
        layer_row w.config.channels w.config.num_heads (parameters_of w layer) (stream layer) t o

    -- The keys, the values and the queries of a layer.
    unfoldable pub projections : ℕ → ℕ → ℕ → F
    projections layer =
        qkv_row w.config.channels w.config.num_heads (parameters_of w layer) (stream layer)

    -- The logit of a vocabulary entry at a position.
    unfoldable pub logit : ℕ → ℕ → F
    logit t = linear_row (values_of w "wte") [] w.config.channels (
        norm_row (values_of w "lnfw") (values_of w "lnfb") w.config.channels
          (stream w.config.num_layers t))
