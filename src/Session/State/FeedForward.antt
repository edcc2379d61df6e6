-- ===== src/Session/State/FeedForward.antt =====
-- The second half of a layer of `consume_token`: its normalisation and its two linear layers.
use gpt2_cpu_runtime.Prelude.{size_mod, ok, length, ℕ, ◌*◌, ◌<◌, ◌≡◌, inr, Option, List}
use gpt2_cpu_runtime.Float.{Float, ◌+f◌}
use gpt2_cpu_runtime.Reference.{linear_row, norm_row, gelu}
use gpt2_cpu_runtime.Kernels.LayerNorm.{layer_norm}
use gpt2_cpu_runtime.Kernels.Pointwise.{add_in_place, gelu_in_place}
use gpt2_cpu_runtime.Kernels.Stages.{IsMatrix, norm_stage, add_stage, gelu_stage}
use gpt2_cpu_runtime.Model.Tensor.{ModelWeights, LayerParameters}
use gpt2_cpu_runtime.Model.Tensor.Lookup.{IsLoaded}
use gpt2_cpu_runtime.Model.Tensor.Parameters.{fit_lem, parameters_of, layer_parameters-Returns}
use gpt2_cpu_runtime.Session.State.{run_linear}
use gpt2_cpu_runtime.Session.State.Stages.{IsExecutor, run_stage}

module _ {F : Type 0} ⦃fl : Float F⦄ where
  -- What the half leaves in its buffers, from the residual `y` of one row.
  pub record IsFedForward (executor : Option ℕ) (c : ℕ) (p : LayerParameters F)
      (normalized residual hidden projected : List F) (y : ℕ → ℕ → F) : Type 0 where
    pub normalized' : List F
    pub hidden' : List F
    pub projected' : List F
    pub residual' : List F
    pub norm_lem : layer_norm normalized residual p.ln2w p.ln2b 1 c ≡ ok normalized'
    pub up_lem : run_linear executor hidden normalized' p.fcw p.fcb c (4 * c) ≡ ok hidden'
    pub down_lem :
        run_linear executor projected (gelu_in_place hidden') p.fcprojw p.fcprojb (4 * c) c
        ≡ ok projected'
    pub add_lem : add_in_place residual projected' ≡ ok residual'
    pub normalized_size : length normalized' ≡ 1 * c
    pub hidden_size : length (gelu_in_place hidden') ≡ 1 * (4 * c)
    pub projected_size : length projected' ≡ 1 * c
    pub residual_lem :
        IsMatrix 1 c
          (λ r o.
            y r o
            +f linear_row p.fcprojw p.fcprojb
                (4 * c)
                (λ i. gelu (linear_row p.fcw p.fcb c (norm_row p.ln2w p.ln2b c (y r)) i))
                o)
          residual'

  module _ (w : ModelWeights F) (loaded : IsLoaded w) (layer : ℕ)
      (layer_lt : layer < w.config.num_layers) (fits : 1 * (4 * w.config.channels) < size_mod) where
    open w.config use {channels as c}

    pub feed_forward :
        (executor : Option ℕ) (normalized residual hidden projected : List F) (y : ℕ → ℕ → F)
        → IsExecutor executor
        → length normalized ≡ 1 * c
        → length hidden ≡ 1 * (4 * c)
        → length projected ≡ 1 * c
        → IsMatrix 1 c y residual
        → IsFedForward executor c (parameters_of w layer) normalized residual hidden projected y
    feed_forward executor normalized residual hidden projected y he en eh ep m =
        let (_, sizes) = layer_parameters-Returns w loaded layer layer_lt "session layer offset" in
        let p = parameters_of w layer in
        let fit = fit_lem 1 c fits sizes.largest_fits in
        let (n, e1, m1) =
          norm_stage normalized residual p.ln2w p.ln2b 1 c y loaded.is_valid.channels_pos
            fit.rows_fit en sizes.ln2w_size sizes.ln2b_size m in
        let (h, e2, m2) =
          run_stage executor hidden n p.fcw p.fcb c (4 * c) _ he fit.rows_fit fit.hidden_fits
            fit.up_fits eh sizes.fcw_size (inr sizes.fcb_size) m1 in
        let m3 = gelu_stage h 1 (4 * c) _ m2 in
        let (a, e4, m4) =
          run_stage executor projected (gelu_in_place h) p.fcprojw p.fcprojb (4 * c) c _ he
            fit.hidden_fits fit.rows_fit fit.down_fits ep sizes.fcprojw_size
            (inr sizes.fcprojb_size) m3 in
        let (r, e5, m5) = add_stage residual a 1 c y _ m m4 in
        record {
          normalized' = n;
          hidden' = h;
          projected' = a;
          residual' = r;
          norm_lem = e1;
          up_lem = e2;
          down_lem = e4;
          add_lem = e5;
          normalized_size = m1.size_lem;
          hidden_size = m3.size_lem;
          projected_size = m4.size_lem;
          residual_lem = m5;
        }
