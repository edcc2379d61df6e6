-- ===== src/Model/Forward.antt =====
-- `GPT2Model::forward`: every position of the prefix, layer by layer.
pub mod Layer
pub mod Rows
use gpt2_cpu_runtime.Prelude.{
  ltb, leb, ◌==◌, wadd, wmul, Error, Result, ok, ◌>>=◌, ◌>>◌, guard, for_range, length, get_or,
  is_empty, ℕ, Bool, not, ◌||◌, List, [], ◌∷◌,
}
use gpt2_cpu_runtime.Prelude.Int.{ℤ, pos, to_size, is_negative}
use gpt2_cpu_runtime.Float.{Float, ◌+f◌}
use gpt2_cpu_runtime.Buffer.{read, write}
use gpt2_cpu_runtime.Sizes.{checked_multiply}
use gpt2_cpu_runtime.Kernels.Linear.{linear}
use gpt2_cpu_runtime.Kernels.LayerNorm.{layer_norm}
use gpt2_cpu_runtime.Kernels.Pointwise.{add_in_place, gelu_in_place}
use gpt2_cpu_runtime.Kernels.Attention.{causal_self_attention}
use gpt2_cpu_runtime.Model.Tensor.{ModelWeights, tensor, layer_parameters}
use gpt2_cpu_runtime.Model.Workspace.{Workspace, resize}

-- token < 0 || static_cast<std::size_t>(token) >= vocabulary_size
unfoldable pub bad_token : ℕ → ℤ → Bool
bad_token vocabulary_size token = is_negative token || leb vocabulary_size (to_size token)

-- The loop that checks every token of a prompt.
unfoldable pub check_tokens : ℕ → List ℤ → Result (Unit {0})
check_tokens vocabulary_size [] = ok tt
check_tokens vocabulary_size (token ∷ tokens) = do
  guard (not (bad_token vocabulary_size token))
      (Error.invalid_argument "input token ID is outside the real vocabulary")
  check_tokens vocabulary_size tokens

module _ {F : Type 0} ⦃fl : Float F⦄ where
  -- residual[position_base + channel] = wte[token_base + channel] + wpe[position_base + channel]
  pub embed_channel : List F → List F → ℕ → ℕ → ℕ → List F → Result (List F)
  embed_channel wte wpe token_base position_base channel residual = do
    t ← read wte (wadd token_base channel)
    p ← read wpe (wadd position_base channel)
    write residual (wadd position_base channel) (t +f p)

  pub embed_position : List F → List F → List ℤ → ℕ → ℕ → List F → Result (List F)
  embed_position wte wpe tokens channels position residual =
      for_range channels 0
        (embed_channel wte wpe (wmul (to_size (get_or tokens position (pos 0))) channels)
          (wmul position channels))
        residual

  -- One iteration of the layer loop.
  pub forward_layer : ModelWeights F → ℕ → ℕ → ℕ → ℕ → Workspace F → Result (Workspace F)
  forward_layer w rows c3 c4 layer ws = do
    let c = w.config.channels
    p ← layer_parameters "layer tensor offset" w layer c3 c4
    normalized ← layer_norm ws.normalized ws.residual p.ln1w p.ln1b rows c
    qkv ← linear ws.qkv normalized p.qkvw p.qkvb rows c c3
    attended ←
        causal_self_attention ws.attention_output qkv ws.attention_scores rows c w.config.num_heads
    projected ← linear ws.projected attended.output p.attprojw p.attprojb rows c c
    residual ← add_in_place ws.residual projected
    normalized' ← layer_norm normalized residual p.ln2w p.ln2b rows c
    hidden ← linear ws.mlp_hidden normalized' p.fcw p.fcb rows c c4
    let mlp_hidden = gelu_in_place hidden
    projected' ← linear projected mlp_hidden p.fcprojw p.fcprojb rows c4 c
    residual' ← add_in_place residual projected'
    ok (record ws {
      residual = residual';
      normalized = normalized';
      qkv = qkv;
      attention_output = attended.output;
      attention_scores = attended.scratch;
      projected = projected';
      mlp_hidden = mlp_hidden;
    })

  -- The result is the workspace; the returned view is its `logits`.
  unfoldable pub forward : ModelWeights F → List ℤ → Workspace F → Result (Workspace F)
  unfolding embed_channel embed_position forward_layer
  forward w tokens workspace = do
    let config = w.config
    let rows = length tokens
    let c = config.channels
    guard (not (is_empty tokens || ltb config.max_sequence_length rows))
        (Error.invalid_argument "token prefix length is out of range")
    check_tokens config.vocabulary_size tokens
    ws ← resize config rows workspace
    wte ← tensor w "wte"
    wpe ← tensor w "wpe"
    residual ← for_range rows 0 (embed_position wte.values wpe.values tokens c) ws.residual
    c3 ← checked_multiply 3 c "forward 3 * channels"
    c4 ← checked_multiply 4 c "forward 4 * channels"
    deep ←
        for_range config.num_layers 0 (forward_layer w rows c3 c4)
          (record ws { residual = residual })
    lnfw ← tensor w "lnfw"
    lnfb ← tensor w "lnfb"
    normalized ← layer_norm deep.normalized deep.residual lnfw.values lnfb.values rows c
    logits ← linear deep.logits normalized wte.values [] rows c config.padded_vocabulary_size
    guard (length deep.residual == wmul rows c)
        (Error.logic_error "workspace invariant failed after forward pass")
    ok (record deep { normalized = normalized; logits = logits })
