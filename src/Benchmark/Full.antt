-- ===== src/Benchmark/Full.antt =====
-- `gpt2_benchmark` accepts a capacity that its decode measurement exceeds.
use gpt2_cpu_runtime.Prelude.{
  size_mod, Error, err, ok, Returns, step, length, ℕ, ◌*◌, ◌≤◌, ◌<◌, ◌≡◌, List, arith,
}
use gpt2_cpu_runtime.Prelude.Int.{ℤ}
use gpt2_cpu_runtime.Float.{Float}
use gpt2_cpu_runtime.Model.Tensor.{ModelWeights}
use gpt2_cpu_runtime.Model.Tensor.Lookup.{IsLoaded}
use gpt2_cpu_runtime.Session.Api.{decode, reset}
use gpt2_cpu_runtime.Session.Api.Protocol.{reset-IsSession}
use gpt2_cpu_runtime.Session.Api.Errors.{decode-cases}
use gpt2_cpu_runtime.Generate.Greedy.{greedy_token}
use gpt2_cpu_runtime.Generate.Continuation.{greedy_next, greedy_next_lem, IsRequest}
use gpt2_cpu_runtime.Benchmark.Samples.{measure, measure-throws}
use gpt2_cpu_runtime.Benchmark.Options.{Options, IsSupported}
use gpt2_cpu_runtime.Benchmark.Run.{
  benchmark_capacity, check_request, Prepared, start_decode, benchmark,
}
use gpt2_cpu_runtime.Benchmark.Checks.{check_request_lem}
use gpt2_cpu_runtime.Benchmark.Prepared.{IsAllocated, IsPrepared, fill, prepare-Returns}
use gpt2_cpu_runtime.Generate.Continuation.Rounds.{session_next}
use gpt2_cpu_runtime.Session.Api.Consumed.{IsSession}
use gpt2_cpu_runtime.Benchmark.Machine.{cpu_model}

module _ {F : Type 0} ⦃fl : Float F⦄ (w : ModelWeights F) (loaded : IsLoaded w) (prompt : List ℤ)
    (request : IsRequest w prompt 1) {D : Type 0} (elapsed : ℕ → D) (options : Options)
    (supported : IsSupported options) (same_prompt : options.tokens ≡ prompt)
    (same_count : options.generation_tokens ≡ 1) where
  open w.config use {num_layers, channels, max_sequence_length}

  abbrev capacity : ℕ
  capacity = benchmark_capacity options w.config

  -- The measurement of the decode finds the session full.
  decode_full :
      IsAllocated w loaded prompt 1 request elapsed options supported same_prompt same_count
      → (prepared : Prepared F)
      → IsPrepared w loaded prompt 1 request elapsed options supported same_prompt same_count
          prepared
      → length prompt ≡ capacity
      → measure elapsed
          (start_decode prepared.executor w options.tokens)
          (decode prepared.executor w (greedy_token prepared.session.logits))
          options.warmup
          options.repetitions
          prepared.session
          prepared.readings
        ≡ err (Error.length_error "session KV cache is full")
  unfolding start_decode
  decode_full allocated prepared ready full =
      let executor = prepared.executor in
      let fills =
        fill w loaded prompt 1 request elapsed options supported same_prompt same_count allocated
          executor ready.is_executor in
      let good = greedy_next_lem w prompt loaded.is_valid.vocabulary_size_pos request.named in
      let picked =
        session_next w loaded capacity prompt prepared.session ready.filled request.nonempty in
      measure-throws elapsed (start_decode executor w options.tokens)
        (decode executor w (greedy_token prepared.session.logits))
        (λ s. IsSession w loaded prompt capacity s) (IsSession w loaded prompt capacity)
        (Error.length_error "session KV cache is full") options.warmup options.repetitions
        prepared.session prepared.readings
        (λ s p. fills (reset s) (reset-IsSession w loaded capacity prompt s p))
        (λ s p. rw picked (
          (decode-cases w loaded executor ready.is_executor capacity prompt s p
              (greedy_next w prompt)).2
            request.nonempty good full))
        ready.filled supported.runnable.repetitions_pos supported.repetitions_le

  -- When the model of the machine is read and a `std::vector` can hold the samples and the workers, a
  -- request for one token with a capacity of exactly the
  -- prompt, which is enough for the generation, passes the checks of the benchmark. Its measurement
  -- of a single decode then finds the session full, and the benchmark throws `std::length_error`.
  pub benchmark-full :
      (cpuinfo : List (List ℕ))
      → Returns (cpu_model cpuinfo) (λ name. Unit {0})
      → length prompt ≡ capacity
      → 2 * (num_layers * (capacity * channels)) * 4 < size_mod
      → (check_request options w.config capacity ≡ ok tt)
        × (benchmark elapsed cpuinfo options w
            ≡ err (Error.length_error "session KV cache is full"))
  unfolding benchmark start_decode
  benchmark-full cpuinfo named full fits =
      let le : capacity ≤ max_sequence_length = omega (arith, request.within, full) in
      let allocated : IsAllocated w loaded prompt 1 request elapsed options supported same_prompt
          same_count =
        record { prompt_le = omega arith; capacity_le = le; cache_fits = fits } in
      let checked =
        check_request_lem w loaded prompt 1 request options same_prompt same_count request.within
          (omega arith) le in
      let (prepared, e1, ready) =
        prepare-Returns w loaded prompt 1 request elapsed options supported same_prompt same_count
          allocated checked cpuinfo named in
      (checked, step _ e1 (rw (decode_full allocated prepared ready full)))
