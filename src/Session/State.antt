-- ===== src/Session/State.antt =====
-- `InferenceSession`: its state, its constructor, and the computation of one token.
pub mod Filled
pub mod Stages
pub mod Attended
pub mod FeedForward
pub mod Layer
pub mod Token
pub mod Embedding
use gpt2_cpu_runtime.Prelude.{
  ltb, ◌==◌, wadd, wmul, Error, Result, ok, ◌>>=◌, guard, ◌>>◌, for_range, replicate, ℕ, ◌*◌, not,
  ◌||◌, Option, none, some, List, [],
}
use gpt2_cpu_runtime.Prelude.Int.{ℤ, to_size}
use gpt2_cpu_runtime.Float.{Float, ◌+f◌}
use gpt2_cpu_runtime.Buffer.{subspan, read, write}
use gpt2_cpu_runtime.Sizes.{checked_multiply}
use gpt2_cpu_runtime.Kernels.Linear.{linear}
use gpt2_cpu_runtime.Kernels.LayerNorm.{layer_norm}
use gpt2_cpu_runtime.Kernels.Pointwise.{add_in_place, gelu_in_place}
use gpt2_cpu_runtime.Kernels.Attention.{cached_self_attention}
use gpt2_cpu_runtime.Executor.{executor_linear}
use gpt2_cpu_runtime.Model.Tensor.{ModelWeights, tensor, layer_parameters}
use gpt2_cpu_runtime.Session.Cache.{KvCache, make_cache, store, layer_keys, layer_values}

-- The model is borrowed: it is an argument of the operations.
pub record Session (F : Type 0) : Type 0 where
  pub cache : KvCache F
  pub size : ℕ
  pub residual : List F
  pub normalized : List F
  pub qkv : List F
  pub attention_output : List F
  pub projected : List F
  pub mlp_hidden : List F
  pub attention_scores : List F
  pub logits : List F

module _ {F : Type 0} ⦃fl : Float F⦄ where
  -- `validate_session_capacity` and the constructor.
  abbrev pub validate_session_capacity : ModelWeights F → ℕ → Result ℕ
  validate_session_capacity w capacity =
      guard (not (capacity == 0 || ltb w.config.max_sequence_length capacity))
        (Error.invalid_argument "session capacity is outside the model context length")
      >> ok capacity

  unfoldable pub make_session : ModelWeights F → ℕ → Result (Session F)
  make_session w capacity = do
    let config = w.config
    validated ← validate_session_capacity w capacity
    cache ← make_cache config.num_layers validated config.channels
    c3 ← checked_multiply 3 config.channels "session qkv size"
    c4 ← checked_multiply 4 config.channels "session MLP size"
    ok (record {
      cache = cache;
      size = 0;
      residual = replicate config.channels fl.nought;
      normalized = replicate config.channels fl.nought;
      qkv = replicate c3 fl.nought;
      attention_output = replicate config.channels fl.nought;
      projected = replicate config.channels fl.nought;
      mlp_hidden = replicate c4 fl.nought;
      attention_scores = replicate capacity fl.nought;
      logits = replicate config.vocabulary_size fl.nought;
    })

  -- The lambda `linear` of `consume_token`; an executor is known by its number of threads.
  unfoldable pub run_linear :
      Option ℕ → (output input weight bias : List F) (inputs outputs : ℕ) → Result (List F)
  run_linear none output input weight bias inputs outputs =
      linear output input weight bias 1 inputs outputs
  run_linear (some threads) output input weight bias inputs outputs =
      executor_linear threads output input weight bias inputs outputs

  -- residual_[channel] = wte[token_base + channel] + wpe[position_base + channel]
  pub embed_token : List F → List F → ℕ → ℕ → ℕ → List F → Result (List F)
  embed_token wte wpe token_base position_base channel residual = do
    t ← read wte (wadd token_base channel)
    p ← read wpe (wadd position_base channel)
    write residual channel (t +f p)

  -- One iteration of the layer loop.
  pub token_layer : Option ℕ → ModelWeights F → ℕ → ℕ → ℕ → ℕ → Session F → Result (Session F)
  token_layer executor w position c3 c4 layer s = do
    let c = w.config.channels
    p ← layer_parameters "session layer offset" w layer c3 c4
    normalized ← layer_norm s.normalized s.residual p.ln1w p.ln1b 1 c
    qkv ← run_linear executor s.qkv normalized p.qkvw p.qkvb c c3
    key_part ← subspan qkv c c
    value_part ← subspan qkv (wmul 2 c) c
    cache ← store s.cache layer position key_part value_part
    query ← subspan qkv 0 c
    keys ← layer_keys cache layer
    values ← layer_values cache layer
    attended ←
        cached_self_attention s.attention_output query keys values s.attention_scores
          (wadd position 1) cache.capacity c w.config.num_heads
    projected ← run_linear executor s.projected attended.output p.attprojw p.attprojb c c
    residual ← add_in_place s.residual projected
    normalized' ← layer_norm normalized residual p.ln2w p.ln2b 1 c
    hidden ← run_linear executor s.mlp_hidden normalized' p.fcw p.fcb c c4
    let mlp_hidden = gelu_in_place hidden
    projected' ← run_linear executor projected mlp_hidden p.fcprojw p.fcprojb c4 c
    residual' ← add_in_place residual projected'
    ok (record s {
      cache = cache;
      residual = residual';
      normalized = normalized';
      qkv = qkv;
      attention_output = attended.output;
      attention_scores = attended.scratch;
      projected = projected';
      mlp_hidden = mlp_hidden;
    })

  unfoldable pub consume_token : Option ℕ → ModelWeights F → ℤ → ℕ → Session F → Result (Session F)
  unfolding embed_token token_layer
  consume_token executor w token position s = do
    let config = w.config
    let c = config.channels
    c3 ← checked_multiply 3 c "session 3 * channels"
    c4 ← checked_multiply 4 c "session 4 * channels"
    wte ← tensor w "wte"
    wpe ← tensor w "wpe"
    residual ←
        for_range c 0 (embed_token wte.values wpe.values (wmul (to_size token) c) (wmul position c))
          s.residual
    deep ←
        for_range config.num_layers 0 (token_layer executor w position c3 c4)
          (record s { residual = residual })
    lnfw ← tensor w "lnfw"
    lnfb ← tensor w "lnfb"
    normalized ← layer_norm deep.normalized deep.residual lnfw.values lnfb.values 1 c
    head ← subspan wte.values 0 (wmul config.vocabulary_size c)
    logits ← run_linear executor deep.logits normalized head [] c config.vocabulary_size
    ok (record deep { normalized = normalized; logits = logits })
