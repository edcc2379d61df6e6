-- ===== src/Session/State/Layer.antt =====
-- One iteration of the layer loop of `consume_token` computes `layer_row` at one position.
use gpt2_cpu_runtime.Prelude.{
  size_mod, Returns, step, ℕ, suc, ◌*◌, ◌<◌, refl, sym, ◌∙◌, Option, arith,
}
use gpt2_cpu_runtime.Float.{Float}
use gpt2_cpu_runtime.Model.Tensor.{ModelWeights}
use gpt2_cpu_runtime.Model.Tensor.Lookup.{IsLoaded}
use gpt2_cpu_runtime.Model.Block.{qkv_row, attended_row, hidden_row, layer_row, stream, projections}
use gpt2_cpu_runtime.Session.State.{Session, token_layer}
use gpt2_cpu_runtime.Model.Tensor.Parameters.{layer_parameters-Returns}
use gpt2_cpu_runtime.Kernels.Pointwise.{gelu_in_place}
use gpt2_cpu_runtime.Session.State.Stages.{IsExecutor}
use gpt2_cpu_runtime.Session.State.FeedForward.{feed_forward}
use gpt2_cpu_runtime.Session.State.Attended.{one_fits, IsPartial, attend}

module _ {F : Type 0} ⦃fl : Float F⦄ where
  module _ (w : ModelWeights F) (loaded : IsLoaded w) (tokens : ℕ → ℕ) where
    open w.config use {channels as c, num_heads as heads}

    -- A layer stores the key and the value of its position, and gives the stream of the next one.
    pub token_layer-Returns :
        (executor : Option ℕ) (capacity size t layer : ℕ) (s : Session F)
        → IsExecutor executor
        → t < capacity
        → capacity < size_mod
        → layer < w.config.num_layers
        → IsPartial w loaded tokens capacity size t layer s
        → Returns
            (token_layer executor w t (3 * c) (4 * c) layer s)
            (IsPartial w loaded tokens capacity size t (suc layer))
    unfolding token_layer projections stream layer_row attended_row hidden_row qkv_row
    token_layer-Returns executor capacity size t layer s he ht cap_fits hl part =
        let (made, _) = layer_parameters-Returns w loaded layer hl "session layer offset" in
        let ready = part.ready in
        let half = attend w loaded tokens executor capacity size t layer s he ht cap_fits hl part in
        let fed =
          feed_forward w loaded layer hl (one_fits w loaded tokens) executor half.normalized'
            half.residual' s.mlp_hidden half.projected' _ he half.normalized_size ready.hidden_size
            half.projected_size half.residual_lem in
        let (same_layers, same_channels, same_capacity) = half.same_shape in
        (
          record s {
            cache = half.cache';
            residual = fed.residual';
            normalized = fed.normalized';
            qkv = half.qkv';
            attention_output = half.attended.output;
            attention_scores = half.attended.scratch;
            projected = fed.projected';
            mlp_hidden = gelu_in_place fed.hidden';
          },
          step _ made (
              step _ half.norm_lem (
                step _ half.qkv_lem (
                  step _ half.key_lem (
                    step _ half.value_lem (
                      step _ half.store_done (
                        step _ half.query_lem (
                          step _ half.keys_lem (
                            step _ half.values_lem (
                              step _ half.attention_lem (
                                step _ half.projected_lem (
                                  step _ half.add_lem (
                                    step _ fed.norm_lem (
                                      step _ fed.up_lem (
                                        step _ fed.down_lem (step _ fed.add_lem refl))))))))))))))),
          record {
            ready = record {
              cache_lem = half.is_cache;
              layers_lem = same_layers ∙ ready.layers_lem;
              channels_lem = same_channels ∙ ready.channels_lem;
              within = omega (arith, same_capacity, ready.within);
              residual_size = fed.residual_lem.size_lem;
              normalized_size = fed.normalized_size;
              qkv_size = half.qkv_size;
              attention_size = half.attention_size;
              projected_size = fed.projected_size;
              hidden_size = fed.hidden_size;
              scores_size = half.scores_size ∙ sym same_capacity;
              logits_size = ready.logits_size;
            };
            capacity_kept = same_capacity ∙ part.capacity_kept;
            size_kept = part.size_kept;
            filled = half.filled';
            residual_lem = fed.residual_lem;
          },
        )
