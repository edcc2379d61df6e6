-- ===== src/Kernels/Attention.antt =====
-- `kernels::causal_self_attention` and `kernels::cached_self_attention` (src/kernels.cpp). The two
-- run the same loops over one head, at other bases: those are `attend_head`.
pub mod Head
pub mod Rows
pub mod Causal
pub mod Cached
use gpt2_cpu_runtime.Prelude.{
  ℕ, ◌+◌, ◌/◌, ◌%◌, Bool, not, ◌||◌, List, ltb, ◌==◌, if◌then◌else◌, wadd, wmul, Error, Result, ok,
  ◌>>=◌, ◌>>◌, guard, for_range, length, replicate,
}
use gpt2_cpu_runtime.Float.{Float, ◌+f◌, ◌-f◌, ◌*f◌, ◌/f◌, fmax}
use gpt2_cpu_runtime.Buffer.{require_size, read, write}

-- The two buffers that the kernels write.
pub record Buffers (F : Type 0) : Type 0 where
  pub output : List F
  pub scratch : List F

-- num_heads == 0 || channels == 0 || channels % num_heads != 0
pub bad_dimensions : ℕ → ℕ → Bool
bad_dimensions channels heads = heads == 0 || channels == 0 || not (channels % heads == 0)

module _ {F : Type 0} ⦃fl : Float F⦄ where
  -- score += query[query_base + index] * keys[key_base + index]
  add_product : List F → List F → ℕ → ℕ → ℕ → F → Result F
  add_product query keys query_base key_base index score = do
    q ← read query (wadd query_base index)
    k ← read keys (wadd key_base index)
    ok (score +f q *f k)

  -- One source position of the first loop: its score, and the maximum so far.
  score_source :
      (query keys : List F) (query_base : ℕ) (key_base : ℕ → ℕ) (size : ℕ) (scale : F) (source : ℕ)
      → List F × F
      → Result (List F × F)
  score_source query keys query_base key_base size scale source (scratch, maximum) = do
    sum ← for_range size 0 (add_product query keys query_base (key_base source)) fl.nought
    let score = sum *f scale
    scratch' ← write scratch source score
    ok (scratch', fmax maximum score)

  -- The second loop: the exponential of each score, and their sum.
  exponential_source : F → ℕ → List F × F → Result (List F × F)
  exponential_source maximum source (scratch, exponential_sum) = do
    s ← read scratch source
    let value = fl.exp (s -f maximum)
    scratch' ← write scratch source value
    ok (scratch', exponential_sum +f value)

  -- output[output_base + index] += probability * values[value_base + index]
  add_weighted : List F → ℕ → ℕ → F → ℕ → List F → Result (List F)
  add_weighted values value_base output_base probability index output = do
    o ← read output (wadd output_base index)
    v ← read values (wadd value_base index)
    write output (wadd output_base index) (o +f probability *f v)

  -- The third loop: one source position's share of the output.
  weigh_source :
      (values scratch : List F) (value_base : ℕ → ℕ) (output_base size : ℕ) (inverse_sum : F)
      (source : ℕ)
      → List F
      → Result (List F)
  weigh_source values scratch value_base output_base size inverse_sum source output = do
    s ← read scratch source
    let probability = s *f inverse_sum
    for_range size 0 (add_weighted values (value_base source) output_base probability) output

  -- One head at one position, over the first `count` source positions.
  pub attend_head :
      (query keys values : List F) (query_base : ℕ) (key_base value_base : ℕ → ℕ) (count size : ℕ)
      (scale : F) (output_base : ℕ)
      → Buffers F
      → Result (Buffers F)
  attend_head query keys values query_base key_base value_base count size scale output_base b = do
    (scores, maximum) ←
        for_range count 0 (score_source query keys query_base key_base size scale)
          (b.scratch, fl.lowest)
    (weights, exponential_sum) ← for_range count 0 (exponential_source maximum) (scores, fl.nought)
    let inverse_sum = if fl.is_nought exponential_sum then fl.nought else fl.one /f exponential_sum
    output ←
        for_range count 0 (weigh_source values weights value_base output_base size inverse_sum)
          b.output
    ok (record { output = output; scratch = weights })

  -- scale = 1.0F / std::sqrt(static_cast<float>(head_size))
  unfoldable pub scale_of : ℕ → F
  scale_of size = fl.one /f fl.sqrt (fl.of_size size)

  -- One position of the full-prefix kernel, which reads queries, keys and values from `qkv`.
  causal_position : List F → ℕ → ℕ → ℕ → Buffers F → Result (Buffers F)
  causal_position qkv channels heads position =
      let size = channels / heads in
      for_range heads 0 λ head.
        attend_head qkv qkv qkv (wadd (wmul (wmul position 3) channels) (wmul head size))
          (λ source. wadd (wadd (wmul (wmul source 3) channels) channels) (wmul head size))
          (λ source. wadd (wadd (wmul (wmul source 3) channels) (wmul 2 channels)) (wmul head size))
          (position + 1) size (scale_of size) (wadd (wmul position channels) (wmul head size))

  -- The result is the output with the scratch that the caller gets back.
  unfoldable pub causal_self_attention :
      (output qkv score_scratch : List F) (sequence_length channels heads : ℕ) → Result (Buffers F)
  unfolding add_product score_source exponential_source add_weighted weigh_source attend_head
      bad_dimensions scale_of causal_position
  causal_self_attention output qkv score_scratch sequence_length channels heads = do
    require_size output (wmul sequence_length channels) "attention output"
    require_size qkv (wmul (wmul sequence_length 3) channels) "attention qkv"
    require_size score_scratch sequence_length "attention scratch"
    guard (not (bad_dimensions channels heads))
        (Error.invalid_argument "invalid attention dimensions")
    for_range sequence_length 0 (causal_position qkv channels heads)
        (record { output = replicate (length output) fl.nought; scratch = score_scratch })

  -- The heads of the cached kernel, for the one row of `query`.
  cached_heads :
      (query key_cache value_cache : List F) (visible channels heads : ℕ)
      → Buffers F
      → Result (Buffers F)
  cached_heads query key_cache value_cache visible channels heads =
      let size = channels / heads in
      for_range heads 0 λ head.
        attend_head query key_cache value_cache (wmul head size)
          (λ source. wadd (wmul source channels) (wmul head size))
          (λ source. wadd (wmul source channels) (wmul head size)) visible size (scale_of size)
          (wmul head size)

  unfoldable pub cached_self_attention :
      (output query key_cache value_cache score_scratch : List F)
      (visible_length capacity channels heads : ℕ)
      → Result (Buffers F)
  unfolding add_product score_source exponential_source add_weighted weigh_source attend_head
      bad_dimensions scale_of cached_heads
  cached_self_attention output query key_cache value_cache score_scratch visible_length capacity
        channels heads =
      do
        require_size output channels "cached attention output"
        require_size query channels "cached attention query"
        require_size key_cache (wmul capacity channels) "cached attention keys"
        require_size value_cache (wmul capacity channels) "cached attention values"
        require_size score_scratch capacity "cached attention scratch"
        guard (not (visible_length == 0 || ltb capacity visible_length))
            (Error.invalid_argument "cached attention visible length is out of range")
        guard (not (bad_dimensions channels heads))
            (Error.invalid_argument "invalid cached attention dimensions")
        cached_heads query key_cache value_cache visible_length channels heads
            (record { output = replicate (length output) fl.nought; scratch = score_scratch })
