-- ===== src/Benchmark/Checks.antt =====
-- Requests that `gpt2_benchmark` accepts.
use gpt2_cpu_runtime.Prelude.{
  ltb, le→ltb, wadd, wadd_lem, ok, step, guard-Returns, length, ℕ, ◌+◌, ◌-◌, ◌≤◌, ◌≡◌, refl, not,
  ◌||◌, List, [], ◌∷◌, arith,
}
use gpt2_cpu_runtime.Prelude.Int.{ℤ}
use gpt2_cpu_runtime.Float.{Float}
use gpt2_cpu_runtime.Model.Tensor.{ModelWeights}
use gpt2_cpu_runtime.Model.Tensor.Lookup.{IsLoaded}
use gpt2_cpu_runtime.Model.Forward.Rows.{AreTokens}
use gpt2_cpu_runtime.Generate.Continuation.{IsRequest}
use gpt2_cpu_runtime.Benchmark.Run.{benchmark_capacity, check_benchmark_tokens, check_request}
use gpt2_cpu_runtime.Benchmark.Options.{Options}

check_benchmark_tokens_lem :
    (vocabulary_size : ℕ) (tokens : List ℤ)
    → AreTokens vocabulary_size tokens
    → check_benchmark_tokens vocabulary_size tokens ≡ ok tt
unfolding check_benchmark_tokens
check_benchmark_tokens_lem vocabulary_size [] h = refl
check_benchmark_tokens_lem vocabulary_size (token ∷ tokens) (good, h) =
    rw (good, check_benchmark_tokens_lem vocabulary_size tokens h)

module _ {F : Type 0} ⦃fl : Float F⦄ (w : ModelWeights F) (loaded : IsLoaded w) (prompt : List ℤ)
    (count : ℕ) (request : IsRequest w prompt count) where
  open w.config use {vocabulary_size, max_sequence_length, num_layers, channels}

  -- A request within the context and the capacity passes the checks.
  pub check_request_lem :
      (options : Options)
      → options.tokens ≡ prompt
      → options.generation_tokens ≡ count
      → length prompt + count ≤ max_sequence_length
      → length prompt + count - 1 ≤ benchmark_capacity options w.config
      → benchmark_capacity options w.config ≤ max_sequence_length
      → check_request options w.config (benchmark_capacity options w.config) ≡ ok tt
  unfolding check_request
  check_request_lem options same_prompt same_count within room le =
      let capacity = benchmark_capacity options w.config in
      let first = le→ltb max_sequence_length (length prompt) (omega arith) in
      let second = le→ltb (max_sequence_length - length prompt) count (omega arith) in
      let counted : wadd (length prompt) count ≡ length prompt + count =
        wadd_lem (length prompt) count
          (omega (arith, within, loaded.is_sized.max_sequence_length_lt)) in
      let third = le→ltb capacity (length prompt + count - 1) room in
      let fourth = le→ltb max_sequence_length capacity le in
      rw (same_prompt, same_count)
        (step _
          (guard-Returns
            (not (
              ltb max_sequence_length (length prompt)
              || ltb (max_sequence_length - length prompt) count))
            _ (rw (first, second)))
          (step _
            (guard-Returns
              (not
                (ltb capacity (wadd (length prompt) count - 1) || ltb max_sequence_length capacity))
              _ (rw (counted, third, fourth)))
            (check_benchmark_tokens_lem vocabulary_size prompt request.valid)))
