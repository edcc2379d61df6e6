-- ===== src/Session/Api/Fresh.antt =====
-- The constructors of `KVCache` and `InferenceSession`.
use gpt2_cpu_runtime.Prelude.{
  le→ltb, gt→==, size_mod, le-mul_of_pos, Returns, replicate, length-replicate, ℕ, ◌*◌, ◌≤◌, ◌<◌,
  ◌≡◌, refl, sym, ◌∙◌, [], arith,
}
use gpt2_cpu_runtime.Float.{Float}
use gpt2_cpu_runtime.Sizes.{checked_multiply_lem}
use gpt2_cpu_runtime.Model.Tensor.{ModelWeights}
use gpt2_cpu_runtime.Model.Tensor.Lookup.{IsLoaded}
use gpt2_cpu_runtime.Session.Cache.{make_cache}
use gpt2_cpu_runtime.Session.State.{make_session}
use gpt2_cpu_runtime.Session.Cache.Slots.{IsCache}
use gpt2_cpu_runtime.Session.Api.Consumed.{IsSession}
use gpt2_cpu_runtime.Session.State.Attended.{one_fits}

module _ {F : Type 0} ⦃fl : Float F⦄ where
  -- For positive dimensions whose bytes a `std::size_t` can count, the constructor of the cache
  -- returns a cache of these dimensions that is well-formed.
  pub make_cache-IsCache :
      (layers capacity channels : ℕ)
      → 0 < layers
      → 0 < capacity
      → 0 < channels
      → 2 * (layers * (capacity * channels)) * 4 < size_mod
      → Returns (make_cache {F = F} layers capacity channels) λ c.
        IsCache c × (c.num_layers ≡ layers) × (c.capacity ≡ capacity) × (c.channels ≡ channels)
  unfolding make_cache
  make_cache-IsCache layers capacity channels hl hc hk fits =
      let area = capacity * channels in
      let total = layers * area in
      let area_le : area ≤ total = omega (arith, le-mul_of_pos area layers hl) in
      (
        record {
          num_layers = layers;
          capacity = capacity;
          channels = channels;
          layer_float_count = area;
          storage_float_count = 2 * total;
          keys = replicate total fl.nought;
          values = replicate total fl.nought;
        },
        rw (
          gt→== layers 0 hl,
          gt→== capacity 0 hc,
          gt→== channels 0 hk,
          checked_multiply_lem capacity channels "KV cache layer size" (omega arith),
          checked_multiply_lem layers area "KV cache storage size" (omega arith),
          checked_multiply_lem 2 total "combined K/V float count" (omega arith),
          checked_multiply_lem (2 * total) 4 "combined K/V storage bytes" fits,
        ),
        (
          record {
            layer_size = refl;
            keys_size = length-replicate total fl.nought;
            values_size = length-replicate total fl.nought;
            storage_size = refl;
            bytes_fit = fits;
            layers_pos = hl;
            capacity_pos = hc;
            channels_pos = hk;
          },
          refl,
          refl,
          refl,
        ),
      )

  -- For loaded weights and a capacity within the context whose cache a `std::size_t` can count in
  -- bytes, the constructor of the session returns a session that has consumed nothing.
  pub make_session-IsSession :
      (w : ModelWeights F) (loaded : IsLoaded w) (capacity : ℕ)
      → 0 < capacity
      → capacity ≤ w.config.max_sequence_length
      → 2 * (w.config.num_layers * (capacity * w.config.channels)) * 4 < size_mod
      → Returns (make_session w capacity) (IsSession w loaded [] capacity)
  unfolding make_session
  make_session-IsSession w loaded capacity hc le fits =
      let v = loaded.is_valid in
      let c = w.config.channels in
      let c4_fits : 4 * c < size_mod = omega (arith, one_fits w loaded (λ p. p)) in
      let (cache, e, (is_cache, el, ec, ek)) =
        make_cache-IsCache w.config.num_layers capacity c v.num_layers_pos hc v.channels_pos fits in
      (
        record {
          cache = cache;
          size = 0;
          residual = replicate c fl.nought;
          normalized = replicate c fl.nought;
          qkv = replicate (3 * c) fl.nought;
          attention_output = replicate c fl.nought;
          projected = replicate c fl.nought;
          mlp_hidden = replicate (4 * c) fl.nought;
          attention_scores = replicate capacity fl.nought;
          logits = replicate w.config.vocabulary_size fl.nought;
        },
        rw (
          gt→== capacity 0 hc,
          le→ltb w.config.max_sequence_length capacity le,
          e,
          checked_multiply_lem 3 c "session qkv size" (omega (arith, c4_fits)),
          checked_multiply_lem 4 c "session MLP size" c4_fits,
        ),
        record {
          size_lem = refl;
          at_lem = record {
            consumed = record {
              ready = record {
                cache_lem = is_cache;
                layers_lem = el;
                channels_lem = ek;
                within = omega (arith, ec);
                residual_size = length-replicate c fl.nought ∙ omega arith;
                normalized_size = length-replicate c fl.nought ∙ omega arith;
                qkv_size = length-replicate (3 * c) fl.nought ∙ omega arith;
                attention_size = length-replicate c fl.nought;
                projected_size = length-replicate c fl.nought ∙ omega arith;
                hidden_size = length-replicate (4 * c) fl.nought ∙ omega arith;
                scores_size = length-replicate capacity fl.nought ∙ sym ec;
                logits_size = length-replicate w.config.vocabulary_size fl.nought ∙ omega arith;
              };
              filled = record {
                earlier = λ l p hl hp. absurd (omega arith);
                current = λ l hl. absurd (omega arith);
              };
            };
            last_logits = λ p e. absurd (omega arith);
            capacity_lem = ec;
          };
        },
      )
