-- ===== src/Model/Block/Causal.antt =====
-- The network is causal: a position depends on the tokens up to it.
use mathlib.Core.Path.{fun_ext}
use gpt2_cpu_runtime.Prelude.{ℕ, zero, suc, ◌+◌, ◌*◌, ◌/◌, ◌%◌, ◌≤◌, ◌<◌, ◌≡◌, ap, ◌∙◌, arith}
use gpt2_cpu_runtime.Float.{Float, ◌+f◌}
use gpt2_cpu_runtime.Reference.{linear_row, norm_row, gelu, attend_row-at}
use gpt2_cpu_runtime.Kernels.Attention.{scale_of}
use gpt2_cpu_runtime.Kernels.Stages.Heads.{attention_row}
use gpt2_cpu_runtime.Model.Tensor.{ModelWeights, LayerParameters}
use gpt2_cpu_runtime.Model.Tensor.Parameters.{parameters_of}
use gpt2_cpu_runtime.Model.Block.{
  qkv_row, attended_row, hidden_row, layer_row, stream, projections, logit,
}

module _ {F : Type 0} ⦃fl : Float F⦄ where
  attention_row-congr :
      (c heads : ℕ) (q q' : ℕ → ℕ → F) (t : ℕ)
      → ((s : ℕ) → s ≤ t → q s ≡ q' s)
      → attention_row c heads q t ≡ attention_row c heads q' t
  unfolding attention_row
  attention_row-congr c heads q q' t h = fun_ext λ o.
      let at_entry = λ (s i : ℕ) (l : s < t + 1). ap (λ (u : ℕ → F). u i) (h s (omega arith)) in
      attend_row-at (t + 1) (c / heads) (scale_of (c / heads)) _ _ _ _ _ _
        (λ i _. at_entry t _ (omega arith)) (λ s i l _. at_entry s _ l) (o % (c / heads))
        λ s l. at_entry s _ l

  layer_row-congr :
      (c heads : ℕ) (p : LayerParameters F) (x x' : ℕ → ℕ → F) (t : ℕ)
      → ((s : ℕ) → s ≤ t → x s ≡ x' s)
      → layer_row c heads p x t ≡ layer_row c heads p x' t
  unfolding layer_row hidden_row attended_row qkv_row
  layer_row-congr c heads p x x' t h =
      let same = attention_row-congr c heads (qkv_row c heads p x) (qkv_row c heads p x') t λ s l.
        ap (λ (u : ℕ → F). linear_row p.qkvw p.qkvb c (norm_row p.ln1w p.ln1b c u)) (h s l) in
      let attended : attended_row c heads p x t ≡ attended_row c heads p x' t = fun_ext λ o.
        ap
          (λ (u : ℕ → F).
            u o
            +f linear_row p.attprojw p.attprojb c (attention_row c heads (qkv_row c heads p x) t) o)
          (h t (omega arith))
        ∙ ap (λ (u : ℕ → F). x' t o +f linear_row p.attprojw p.attprojb c u o) same in
      fun_ext λ o.
        ap
          (λ (u : ℕ → F).
            u o
            +f linear_row p.fcprojw p.fcprojb (4 * c)
                (λ i. gelu (linear_row p.fcw p.fcb c (norm_row p.ln2w p.ln2b c u) i)) o)
          attended

  module _ (w : ModelWeights F) (a b : ℕ → ℕ) where
    -- The stream of a position, its queries, keys and values, and its logits are the same for two
    -- sequences of tokens that agree up to the position.
    pub stream-congr :
        (layer t : ℕ) → ((s : ℕ) → s ≤ t → a s ≡ b s) → stream w a layer t ≡ stream w b layer t
    unfolding stream
    stream-congr zero t h = fun_ext λ o. rw (h t (omega arith))
    stream-congr (suc layer) t h =
        layer_row-congr w.config.channels w.config.num_heads (parameters_of w layer)
          (stream w a layer) (stream w b layer) t
          λ s l. stream-congr layer s λ u m. h u (omega arith)

    pub projections-congr :
        (layer t : ℕ)
        → ((s : ℕ) → s ≤ t → a s ≡ b s)
        → projections w a layer t ≡ projections w b layer t
    unfolding projections qkv_row
    projections-congr layer t h = rw (stream-congr layer t h)

    pub logit-congr : (t : ℕ) → ((s : ℕ) → s ≤ t → a s ≡ b s) → logit w a t ≡ logit w b t
    unfolding logit
    logit-congr t h = rw (stream-congr w.config.num_layers t h)
