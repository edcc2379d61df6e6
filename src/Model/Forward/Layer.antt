-- ===== src/Model/Forward/Layer.antt =====
-- One iteration of the layer loop of `GPT2Model::forward` computes `layer_row` at every position.
use gpt2_cpu_runtime.Prelude.{size_mod, Returns, step, ℕ, suc, ◌*◌, ◌<◌, refl, inr, arith}
use gpt2_cpu_runtime.Float.{Float}
use gpt2_cpu_runtime.Kernels.Pointwise.{gelu_in_place}
use gpt2_cpu_runtime.Kernels.Stages.{IsMatrix, norm_stage, linear_stage, add_stage, gelu_stage}
use gpt2_cpu_runtime.Kernels.Stages.Heads.{causal_stage}
use gpt2_cpu_runtime.Model.Config.{ModelConfig}
use gpt2_cpu_runtime.Model.Tensor.{ModelWeights}
use gpt2_cpu_runtime.Model.Tensor.Lookup.{IsLoaded}
use gpt2_cpu_runtime.Model.Tensor.Parameters.{fit_lem, parameters_of, layer_parameters-Returns}
use gpt2_cpu_runtime.Model.Workspace.{Workspace}
use gpt2_cpu_runtime.Model.Workspace.Resize.{HasRows}
use gpt2_cpu_runtime.Model.Block.{qkv_row, attended_row, hidden_row, layer_row, stream}
use gpt2_cpu_runtime.Model.Forward.{forward_layer}

module _ {F : Type 0} ⦃fl : Float F⦄ where
  -- A workspace for `rows` positions, whose residual holds the stream `x`.
  pub record IsPass (config : ModelConfig) (rows : ℕ) (x : ℕ → ℕ → F) (ws : Workspace F)
      : Type 0 where
    pub residual_lem : IsMatrix rows config.channels x ws.residual
    pub sizes : HasRows config rows ws

  module _ (w : ModelWeights F) (loaded : IsLoaded w) (tokens : ℕ → ℕ) (rows : ℕ)
      (rows_pos : 0 < rows) (fits : rows * (4 * w.config.channels) < size_mod) where
    open w.config use {channels as c, num_heads as heads}

    pub forward_layer-Returns :
        (layer : ℕ) (ws : Workspace F)
        → layer < w.config.num_layers
        → IsPass w.config rows (stream w tokens layer) ws
        → Returns
            (forward_layer w rows (3 * c) (4 * c) layer ws)
            (IsPass w.config rows (stream w tokens (suc layer)))
    unfolding forward_layer stream layer_row attended_row hidden_row qkv_row
    forward_layer-Returns layer ws layer_lt pass =
        let (made, sizes) =
          layer_parameters-Returns w loaded layer layer_lt "layer tensor offset" in
        let p = parameters_of w layer in
        let fit = fit_lem rows c fits sizes.largest_fits in
        let v = loaded.is_valid in
        let (n1, e1, m1) =
          norm_stage ws.normalized ws.residual p.ln1w p.ln1b rows c _ v.channels_pos fit.rows_fit
            pass.sizes.normalized_size sizes.ln1w_size sizes.ln1b_size pass.residual_lem in
        let (call2, (q, e2, m2)) =
          linear_stage ws.qkv n1 p.qkvw p.qkvb rows c (3 * c) _ fit.rows_fit fit.qkv_fits
            fit.weight_fits pass.sizes.qkv_size sizes.qkvw_size (inr sizes.qkvb_size) m1 in
        let (b, e3, (m3, s3)) =
          causal_stage c heads _ v.channels_pos v.num_heads_pos v.divides ws.attention_output q
            ws.attention_scores rows rows_pos fit.qkv_fits pass.sizes.attention_size
            pass.sizes.scores_size m2 in
        let (call4, (a, e4, m4)) =
          linear_stage ws.projected b.output p.attprojw p.attprojb rows c c _ fit.rows_fit
            fit.rows_fit fit.square_fits pass.sizes.projected_size sizes.attprojw_size
            (inr sizes.attprojb_size) m3 in
        let (r1, e5, m5) = add_stage ws.residual a rows c _ _ pass.residual_lem m4 in
        let (n2, e6, m6) =
          norm_stage n1 r1 p.ln2w p.ln2b rows c _ v.channels_pos (omega arith) m1.size_lem
            sizes.ln2w_size sizes.ln2b_size m5 in
        let (call7, (h, e7, m7)) =
          linear_stage ws.mlp_hidden n2 p.fcw p.fcb rows c (4 * c) _ fit.rows_fit fit.hidden_fits
            fit.up_fits pass.sizes.hidden_size sizes.fcw_size (inr sizes.fcb_size) m6 in
        let m8 = gelu_stage h rows (4 * c) _ m7 in
        let (call9, (a', e9, m9)) =
          linear_stage a (gelu_in_place h) p.fcprojw p.fcprojb rows (4 * c) c _ fit.hidden_fits
            fit.rows_fit fit.down_fits m4.size_lem sizes.fcprojw_size (inr sizes.fcprojb_size) m8 in
        let (r2, e10, m10) = add_stage r1 a' rows c _ _ m5 m9 in
        (
          record ws {
            residual = r2;
            normalized = n2;
            qkv = q;
            attention_output = b.output;
            attention_scores = b.scratch;
            projected = a';
            mlp_hidden = gelu_in_place h;
          },
          step _ made (
              step _ e1 (
                step _ e2 (
                  step _ e3 (
                    step _ e4 (step _ e5 (step _ e6 (step _ e7 (step _ e9 (step _ e10 refl))))))))),
          record {
            residual_lem = m10;
            sizes = record {
              residual_size = m10.size_lem;
              normalized_size = m6.size_lem;
              qkv_size = m2.size_lem;
              attention_size = m3.size_lem;
              projected_size = m9.size_lem;
              hidden_size = m8.size_lem;
              scores_size = s3;
              logits_size = pass.sizes.logits_size;
            };
          },
        )
