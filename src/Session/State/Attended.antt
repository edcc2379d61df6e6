-- ===== src/Session/State/Attended.antt =====
-- The first half of a layer of `consume_token`: its attention over the cache.
use gpt2_cpu_runtime.Prelude.{
  size_mod, wadd, wmul, wadd_lem, wmul_lem, ok, length, take, drop, ℕ, suc, ◌*◌, ◌<◌, ◌≡◌, refl,
  sym, ap, ◌∙◌, inr, Option, List, arith,
}
use gpt2_cpu_runtime.Float.{Float}
use gpt2_cpu_runtime.Buffer.{subspan}
use gpt2_cpu_runtime.Kernels.Attention.{Buffers, cached_self_attention}
use gpt2_cpu_runtime.Kernels.Stages.{IsMatrix, norm_stage, add_stage}
use gpt2_cpu_runtime.Model.Tensor.{ModelWeights}
use gpt2_cpu_runtime.Model.Tensor.Lookup.{IsLoaded, total_fits}
use gpt2_cpu_runtime.Model.Block.{qkv_row, attended_row, stream, projections}
use gpt2_cpu_runtime.Session.Cache.Store.{after-IsCache}
use gpt2_cpu_runtime.Session.Cache.Entries.{layer_part, layer_keys_lem, layer_values_lem}
use gpt2_cpu_runtime.Session.State.{Session, run_linear}
use gpt2_cpu_runtime.Session.State.Filled.{IsReady, IsFilled, IsFilled-stored}
use gpt2_cpu_runtime.Model.Tensor.Parameters.{fit_lem, parameters_of, layer_parameters-Returns}
use gpt2_cpu_runtime.Model.Layout.Exact.{channels-le-total}
use gpt2_cpu_runtime.Kernels.Pointwise.{add_in_place}
use gpt2_cpu_runtime.Session.State.Stages.{IsExecutor, run_stage, part_lem, attention_step}
use gpt2_cpu_runtime.Session.Cache.Slots.{IsCache, stored, store_lem}
use gpt2_cpu_runtime.Kernels.LayerNorm.{layer_norm}
use gpt2_cpu_runtime.Session.Cache.{KvCache, store, layer_keys, layer_values}

module _ {F : Type 0} ⦃fl : Float F⦄ where
  module _ (w : ModelWeights F) (loaded : IsLoaded w) (tokens : ℕ → ℕ) where
    open w.config use {channels as c, num_heads as heads}

    pub one_fits : 1 * (4 * c) < size_mod
    one_fits = omega (arith, channels-le-total w.config loaded.is_valid, total_fits w loaded)

    -- The session after the layers below `layer` of the token at position `t`.
    pub record IsPartial (capacity size t layer : ℕ) (s : Session F) : Type 0 where
      pub ready : IsReady w.config s
      pub capacity_kept : s.cache.capacity ≡ capacity
      pub size_kept : s.size ≡ size
      pub filled : IsFilled w tokens t layer s.cache
      pub residual_lem : IsMatrix 1 c (λ _. stream w tokens layer t) s.residual

    -- What the first half of a layer leaves: its buffers, and the cache with the key and the value of
    -- position `t`.
    pub record IsAttended (executor : Option ℕ) (t layer : ℕ) (s : Session F) : Type 0 where
      pub normalized' : List F
      pub qkv' : List F
      pub cache' : KvCache F
      pub attended : Buffers F
      pub projected' : List F
      pub residual' : List F
      pub norm_lem :
          layer_norm s.normalized s.residual
            (parameters_of w layer).ln1w
            (parameters_of w layer).ln1b
            1
            c
          ≡ ok normalized'
      pub qkv_lem :
          run_linear executor s.qkv normalized'
            (parameters_of w layer).qkvw
            (parameters_of w layer).qkvb
            c
            (3 * c)
          ≡ ok qkv'
      pub key_lem : subspan qkv' c c ≡ ok (take c (drop c qkv'))
      pub value_lem : subspan qkv' (wmul 2 c) c ≡ ok (take c (drop (2 * c) qkv'))
      pub store_done :
          store s.cache layer t (take c (drop c qkv')) (take c (drop (2 * c) qkv')) ≡ ok cache'
      pub query_lem : subspan qkv' 0 c ≡ ok (take c (drop 0 qkv'))
      pub keys_lem : layer_keys cache' layer ≡ ok (layer_part cache' layer cache'.keys)
      pub values_lem : layer_values cache' layer ≡ ok (layer_part cache' layer cache'.values)
      pub attention_lem :
          cached_self_attention s.attention_output
            (take c (drop 0 qkv'))
            (layer_part cache' layer cache'.keys)
            (layer_part cache' layer cache'.values)
            s.attention_scores
            (wadd t 1)
            cache'.capacity
            c
            heads
          ≡ ok attended
      pub projected_lem :
          run_linear executor s.projected attended.output
            (parameters_of w layer).attprojw
            (parameters_of w layer).attprojb
            c
            c
          ≡ ok projected'
      pub add_lem : add_in_place s.residual projected' ≡ ok residual'
      pub same_shape :
          (cache'.num_layers ≡ s.cache.num_layers)
          × (cache'.channels ≡ s.cache.channels)
          × (cache'.capacity ≡ s.cache.capacity)
      pub is_cache : IsCache cache'
      pub filled' : IsFilled w tokens t (suc layer) cache'
      pub normalized_size : length normalized' ≡ 1 * c
      pub qkv_size : length qkv' ≡ 1 * (3 * c)
      pub attention_size : length attended.output ≡ c
      pub scores_size : length attended.scratch ≡ s.cache.capacity
      pub projected_size : length projected' ≡ 1 * c
      pub residual_lem :
          IsMatrix 1 c
            (λ _. attended_row c heads (parameters_of w layer) (stream w tokens layer) t)
            residual'

    pub attend :
        (executor : Option ℕ) (capacity size t layer : ℕ) (s : Session F)
        → IsExecutor executor
        → t < capacity
        → capacity < size_mod
        → layer < w.config.num_layers
        → IsPartial capacity size t layer s
        → IsAttended executor t layer s
    unfolding projections attended_row qkv_row
    attend executor capacity size t layer s he ht cap_fits hl part =
        let (_, sizes) = layer_parameters-Returns w loaded layer hl "session layer offset" in
        let p = parameters_of w layer in
        let v = loaded.is_valid in
        let ready = part.ready in
        let w0 = ready.cache_lem in
        let fit = fit_lem 1 c one_fits sizes.largest_fits in
        let (n1, e1, m1) =
          norm_stage s.normalized s.residual p.ln1w p.ln1b 1 c _ v.channels_pos fit.rows_fit
            ready.normalized_size sizes.ln1w_size sizes.ln1b_size part.residual_lem in
        let (q, e2, m2) =
          run_stage executor s.qkv n1 p.qkvw p.qkvb c (3 * c) _ he fit.rows_fit fit.qkv_fits
            fit.weight_fits ready.qkv_size sizes.qkvw_size (inr sizes.qkvb_size) m1 in
        let x = projections w tokens layer t in
        let (e3, k_size, k_at) = part_lem q x c c m2 (omega arith) in
        let (e4, v_size, v_at) = part_lem q x c (2 * c) m2 (omega arith) in
        let (e5, q_size, q_at) = part_lem q x c 0 m2 (omega arith) in
        let ks = take c (drop c q) in
        let vs = take c (drop (2 * c) q) in
        let hl' : layer < s.cache.num_layers = omega (arith, ready.layers_lem) in
        let ht' : t < s.cache.capacity = omega (arith, part.capacity_kept) in
        let ek : length ks ≡ s.cache.channels = k_size ∙ sym ready.channels_lem in
        let ev : length vs ≡ s.cache.channels = v_size ∙ sym ready.channels_lem in
        let cache = stored s.cache w0 layer t ks vs in
        let w1 = after-IsCache s.cache w0 layer t ks vs hl' ht' ek ev in
        let full =
          IsFilled-stored w tokens s.cache w0 layer t ks vs ready.channels_lem hl' ht' ek ev k_at
            v_at part.filled in
        let (b, e6, (m6, scores)) =
          attention_step w loaded tokens cache w1 layer t s.attention_output (take c (drop 0 q))
            s.attention_scores ready.channels_lem hl' hl ht' ready.attention_size q_size
            ready.scores_size q_at full in
        let (a, e7, m7) =
          run_stage executor s.projected b.output p.attprojw p.attprojb c c _ he fit.rows_fit
            fit.rows_fit fit.square_fits ready.projected_size sizes.attprojw_size
            (inr sizes.attprojb_size) m6 in
        let (r1, e8, m8) = add_stage s.residual a 1 c _ _ part.residual_lem m7 in
        record {
          normalized' = n1;
          qkv' = q;
          cache' = cache;
          attended = b;
          projected' = a;
          residual' = r1;
          norm_lem = e1;
          qkv_lem = e2;
          key_lem = e3;
          value_lem = ap (λ (n : ℕ). subspan q n c) (wmul_lem 2 c (omega (arith, one_fits))) ∙ e4;
          store_done = store_lem s.cache w0 layer t ks vs hl' ht' ek ev;
          query_lem = e5;
          keys_lem = layer_keys_lem cache w1 layer hl';
          values_lem = layer_values_lem cache w1 layer hl';
          attention_lem =
              ap
                (λ (n : ℕ).
                  cached_self_attention s.attention_output (take c (drop 0 q))
                    (layer_part cache layer cache.keys) (layer_part cache layer cache.values)
                    s.attention_scores n cache.capacity c heads)
                (wadd_lem t 1 (omega arith))
              ∙ e6;
          projected_lem = e7;
          add_lem = e8;
          same_shape = (refl, refl, refl);
          is_cache = w1;
          filled' = full;
          normalized_size = m1.size_lem;
          qkv_size = m2.size_lem;
          attention_size = omega (arith, m6.size_lem);
          scores_size = scores;
          projected_size = m7.size_lem;
          residual_lem = m8;
        }
