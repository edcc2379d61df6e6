-- ===== src/Session/State/Filled.antt =====
-- The state of a session between two steps: its sizes, and what the cache holds.
use native.Mathlib.Decide.{dec_lt}
use gpt2_cpu_runtime.Prelude.{
  length, ℕ, suc, ◌+◌, ◌*◌, ◌≤◌, ◌<◌, ◌≡◌, ◌∙◌, ◌≢◌, inl, inr, List, arith,
}
use gpt2_cpu_runtime.Float.{Float}
use gpt2_cpu_runtime.Buffer.{at}
use gpt2_cpu_runtime.Model.Config.{ModelConfig}
use gpt2_cpu_runtime.Model.Tensor.{ModelWeights}
use gpt2_cpu_runtime.Model.Block.{projections}
use gpt2_cpu_runtime.Session.Cache.{KvCache}
use gpt2_cpu_runtime.Session.Cache.Entries.{stored_here, stored_elsewhere}
use gpt2_cpu_runtime.Session.State.{Session}
use gpt2_cpu_runtime.Session.Cache.Slots.{IsCache, slot, stored}

-- The sizes of the buffers of a session for a configuration.
pub record IsReady {F : Type 0} (config : ModelConfig) (s : Session F) : Type 0 where
  pub cache_lem : IsCache s.cache
  pub layers_lem : s.cache.num_layers ≡ config.num_layers
  pub channels_lem : s.cache.channels ≡ config.channels
  pub within : s.cache.capacity ≤ config.max_sequence_length
  pub residual_size : length s.residual ≡ 1 * config.channels
  pub normalized_size : length s.normalized ≡ 1 * config.channels
  pub qkv_size : length s.qkv ≡ 1 * (3 * config.channels)
  pub attention_size : length s.attention_output ≡ config.channels
  pub projected_size : length s.projected ≡ 1 * config.channels
  pub hidden_size : length s.mlp_hidden ≡ 1 * (4 * config.channels)
  pub scores_size : length s.attention_scores ≡ s.cache.capacity
  pub logits_size : length s.logits ≡ 1 * config.vocabulary_size

-- The sizes stay when buffers of the same sizes take their places.
pub IsReady-buffers :
    {F : Type 0} (config : ModelConfig) (s : Session F) (residual normalized logits : List F)
    → length residual ≡ 1 * config.channels
    → length normalized ≡ 1 * config.channels
    → length logits ≡ 1 * config.vocabulary_size
    → IsReady config s
    → IsReady config (record s { residual = residual; normalized = normalized; logits = logits })
IsReady-buffers config s residual normalized logits er en el ready = record {
  cache_lem = ready.cache_lem;
  layers_lem = ready.layers_lem;
  channels_lem = ready.channels_lem;
  within = ready.within;
  residual_size = er;
  normalized_size = en;
  qkv_size = ready.qkv_size;
  attention_size = ready.attention_size;
  projected_size = ready.projected_size;
  hidden_size = ready.hidden_size;
  scores_size = ready.scores_size;
  logits_size = el;
}

-- The sizes do not depend on the number of consumed tokens.
pub IsReady-size :
    {F : Type 0} (config : ModelConfig) (s : Session F) (size : ℕ)
    → IsReady config s
    → IsReady config (record s { size = size })
IsReady-size config s size ready = record {
  cache_lem = ready.cache_lem;
  layers_lem = ready.layers_lem;
  channels_lem = ready.channels_lem;
  within = ready.within;
  residual_size = ready.residual_size;
  normalized_size = ready.normalized_size;
  qkv_size = ready.qkv_size;
  attention_size = ready.attention_size;
  projected_size = ready.projected_size;
  hidden_size = ready.hidden_size;
  scores_size = ready.scores_size;
  logits_size = ready.logits_size;
}

module _ {F : Type 0} ⦃fl : Float F⦄ (w : ModelWeights F) (tokens : ℕ → ℕ) where
  open w.config use {channels}

  -- The slot of a layer and a position holds the key and the value of the reference network.
  abbrev pub CachedAt : KvCache F → ℕ → ℕ → Type 0
  CachedAt cache l p =
      (i : ℕ)
      → i < channels
      → (at cache.keys (slot cache l p + i) ≡ projections w tokens l p (channels + i))
        × (at cache.values (slot cache l p + i) ≡ projections w tokens l p (2 * channels + i))

  -- The cache holds every layer of the positions before `t`, and the layers below `layer` at `t`.
  pub record IsFilled (t layer : ℕ) (cache : KvCache F) : Type 0 where
    pub earlier : (l p : ℕ) → l < w.config.num_layers → p < t → CachedAt cache l p
    pub current : (l : ℕ) → l < layer → CachedAt cache l t

  -- Storing the key and the value of a layer fills it.
  pub IsFilled-stored :
      (cache : KvCache F) (is_cache : IsCache cache) (layer t : ℕ) (ks vs : List F)
      → cache.channels ≡ channels
      → layer < cache.num_layers
      → t < cache.capacity
      → length ks ≡ cache.channels
      → length vs ≡ cache.channels
      → ((i : ℕ) → i < channels → at ks i ≡ projections w tokens layer t (channels + i))
      → ((i : ℕ) → i < channels → at vs i ≡ projections w tokens layer t (2 * channels + i))
      → IsFilled t layer cache
      → IsFilled t (suc layer) (stored cache is_cache layer t ks vs)
  IsFilled-stored cache is_cache layer t ks vs ec hl ht ek ev hk hv filled = record {
    earlier = λ l p l_lt p_lt i h.
        let other : t ≢ p = λ e. absurd (omega arith) in
        let (a, b) =
          stored_elsewhere cache is_cache layer t ks vs hl ht ek ev l p i (omega arith) (inr other)
            (omega arith) in
        let (a', b') = filled.earlier l p l_lt p_lt i h in (a ∙ a', b ∙ b');
    current = λ l l_lt i h. elim (dec_lt l layer) [
      | yes lower ↦
          let other : layer ≢ l = λ e. absurd (omega arith) in
          let (a, b) =
            stored_elsewhere cache is_cache layer t ks vs hl ht ek ev l t i ht (inl other)
              (omega arith) in
          let (a', b') = filled.current l lower i h in (a ∙ a', b ∙ b')
      | no last ↦
          let e : l ≡ layer = omega arith in
          let (a, b) = stored_here cache is_cache layer t ks vs hl ht ek ev i (omega arith) in
          rw e (a ∙ hk i h, b ∙ hv i h)
    ];
  }
