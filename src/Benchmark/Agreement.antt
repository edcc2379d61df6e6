-- ===== src/Benchmark/Agreement.antt =====
-- The two generations of `gpt2_benchmark` never diverge.
use gpt2_cpu_runtime.Prelude.{
  size_mod, Returns, step, guard-Returns, length, ℕ, ◌+◌, ◌-◌, ◌*◌, ◌≤◌, ◌<◌, ◌≡◌, refl, true, some,
  List, arith,
}
use gpt2_cpu_runtime.Prelude.Int.{ℤ}
use gpt2_cpu_runtime.Float.{Float}
use gpt2_cpu_runtime.Model.Tensor.{ModelWeights}
use gpt2_cpu_runtime.Model.Tensor.Lookup.{IsLoaded}
use gpt2_cpu_runtime.Generate.Continuation.{continuation, IsRequest}
use gpt2_cpu_runtime.Benchmark.Run.{
  benchmark_capacity, agrees, last_tokens, Generations, start_cached, start_decode, benchmark,
}
use gpt2_cpu_runtime.Benchmark.Options.{Options, IsSupported}
use gpt2_cpu_runtime.Benchmark.Checks.{check_request_lem}
use gpt2_cpu_runtime.Benchmark.Prepared.{
  measure_full-Returns, IsAllocated, prepare-Returns, decode_timed, cached_timed,
}
use gpt2_cpu_runtime.Session.Api.Consumed.{IsSession}
use gpt2_cpu_runtime.Benchmark.Machine.{cpu_model}

module _ {F : Type 0} ⦃fl : Float F⦄ (w : ModelWeights F) (loaded : IsLoaded w) (prompt : List ℤ)
    (count : ℕ) (request : IsRequest w prompt count) where
  open w.config use {vocabulary_size, max_sequence_length, num_layers, channels}

  -- What the measurements leave: the continuation of the prompt, and a sample for each repetition.
  pub record IsBenchmarked {D : Type 0} (options : Options) (out : Generations F D) : Type 0 where
    pub tokens_lem : out.generated_tokens ≡ continuation w prompt count
    pub kept :
        (ts : List ℤ) × IsSession w loaded ts (benchmark_capacity options w.config) out.session
    pub cached_count : length out.cached_generation ≡ options.repetitions
    pub full_count :
        (samples : List D)
        → out.full_generation ≡ some samples
        → length samples ≡ options.repetitions

  -- The benchmark returns, and reports the continuation of its prompt: the full and the cached
  -- generation that it times do not diverge. The model of the machine is read, the request is one
  -- within the context, the capacity holds the generation and one token more than the prompt, and a
  -- `std::vector` can hold the samples and the workers.
  pub benchmark-Returns :
      {D : Type 0} (elapsed : ℕ → D) (cpuinfo : List (List ℕ)) (options : Options)
      → Returns (cpu_model cpuinfo) (λ name. Unit {0})
      → IsSupported options
      → options.tokens ≡ prompt
      → options.generation_tokens ≡ count
      → length prompt + (count - 1) ≤ benchmark_capacity options w.config
      → length prompt < benchmark_capacity options w.config
      → benchmark_capacity options w.config ≤ max_sequence_length
      → 2 * (num_layers * (benchmark_capacity options w.config * channels)) * 4 < size_mod
      → Returns (benchmark elapsed cpuinfo options w) (IsBenchmarked options)
  unfolding benchmark start_decode start_cached
  benchmark-Returns elapsed cpuinfo options named supported same_prompt same_count room single le
        fits =
      let capacity = benchmark_capacity options w.config in
      let allocated : IsAllocated w loaded prompt count request elapsed options supported
          same_prompt same_count =
        record { prompt_le = omega arith; capacity_le = le; cache_fits = fits } in
      let checked =
        check_request_lem w loaded prompt count request options same_prompt same_count
          request.within (omega arith) le in
      let (prepared, e1, ready) =
        prepare-Returns w loaded prompt count request elapsed options supported same_prompt
          same_count allocated checked cpuinfo named in
      let (decoded, e2, kept) =
        decode_timed w loaded prompt count request elapsed options supported same_prompt same_count
          allocated single prepared ready in
      let (full, e3, measured) =
        measure_full-Returns w loaded prompt count request elapsed options supported same_prompt
          same_count decoded.readings in
      let (cached, e4, (kept', done, cached_size)) =
        cached_timed w loaded prompt count request elapsed options supported same_prompt same_count
          room prepared.executor ready.is_executor decoded.subject kept full.1 in
      let same : agrees (last_tokens full.0) cached.subject.last_cached_tokens ≡ true =
        rw done measured.agreed in
      (
        _,
        step _ e1 (step _ e2 (step _ e3 (step _ e4 (step _ (guard-Returns _ _ same) refl)))),
        record {
          tokens_lem = done;
          kept = kept';
          cached_count = cached_size;
          full_count = measured.full_count;
        },
      )
