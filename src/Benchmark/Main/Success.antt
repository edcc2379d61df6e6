-- ===== src/Benchmark/Main/Success.antt =====
-- The whole of `gpt2_benchmark` ends with a report.
use native.Mathlib.Nat.{mul-le-mul_left, mul-le-mul_right}
use gpt2_cpu_runtime.Prelude.{
  size_mod, max_size, wmul_lem, ok, Returns, step, length, ℕ, ◌+◌, ◌-◌, ◌*◌, ◌≤◌, ◌<◌, ◌≡◌, refl,
  ap, ◌∙◌, Bool, Option, none, some, List, arith,
}
use gpt2_cpu_runtime.Prelude.Int.{ℤ}
use gpt2_cpu_runtime.Float.{Float, ◌/f◌}
use gpt2_cpu_runtime.Exit.{success, exit_of, run_options}
use gpt2_cpu_runtime.Model.Tensor.{ModelWeights}
use gpt2_cpu_runtime.Model.Tensor.Lookup.{IsLoaded}
use gpt2_cpu_runtime.Model.Checkpoint.{CheckpointFile, contents, load_checkpoint}
use gpt2_cpu_runtime.Model.Checkpoint.Sound.{load_checkpoint-IsCheckpoint}
use gpt2_cpu_runtime.Session.State.{Session}
use gpt2_cpu_runtime.Session.Api.{cache_bytes}
use gpt2_cpu_runtime.Generate.Continuation.{continuation, IsRequest}
use gpt2_cpu_runtime.Benchmark.Options.{
  Options, IsSupported, parse_options, parse_options-IsRunnable,
}
use gpt2_cpu_runtime.Benchmark.Run.{benchmark_capacity}
use gpt2_cpu_runtime.Benchmark.Samples.{median-Returns}
use gpt2_cpu_runtime.Benchmark.Projections.Rows.{project-Returns}
use gpt2_cpu_runtime.Benchmark.Agreement.{benchmark-Returns}
use gpt2_cpu_runtime.Benchmark.Main.{
  Report, median_ratio, generation_ratio, make_report, run_benchmark, main,
}
use gpt2_cpu_runtime.Session.Api.Consumed.{IsSession}
use gpt2_cpu_runtime.Benchmark.Machine.{cpu_model}

generation_ratio-Returns :
    {D : Type 0} ⦃dl : Float D⦄ (repetitions : ℕ) (full : Option (List D)) (cached : List D)
    → 0 < repetitions
    → length cached ≡ repetitions
    → ((samples : List D) → full ≡ some samples → length samples ≡ repetitions)
    → Returns (generation_ratio full cached) λ r. Unit {0}
unfolding generation_ratio median_ratio
generation_ratio-Returns repetitions none cached h count each = (none, refl, tt)
generation_ratio-Returns repetitions (some full) cached h count each =
    let size = each full refl in
    let (a, e1, _) = median-Returns full (omega arith) in
    let (b, e2, _) = median-Returns cached (omega arith) in
    (some (a /f b), step _ (step _ e1 (step _ e2 refl)) refl, tt)

module _ {F : Type 0} ⦃fl : Float F⦄ (w : ModelWeights F) (loaded : IsLoaded w) where
  -- The rows of the prompt over the real vocabulary can be counted.
  logits_fit :
      (options : Options)
      → IsRequest w options.tokens options.generation_tokens
      → length options.tokens * w.config.vocabulary_size < size_mod
  logits_fit options request =
      let v = w.config.vocabulary_size in
      let P = w.config.padded_vocabulary_size in
      let narrow : length options.tokens * v ≤ length options.tokens * P =
        mul-le-mul_left (length options.tokens) loaded.is_valid.vocabulary_size_le in
      let shorter : length options.tokens * P
          ≤ (length options.tokens + options.generation_tokens) * P =
        mul-le-mul_right P (omega arith) in
      omega (arith, narrow, shorter, request.logits_fit)

  -- The bytes of the cache of a session.
  cache_bytes_lem :
      (ts : List ℤ) (capacity : ℕ) (s : Session F)
      → IsSession w loaded ts capacity s
      → cache_bytes s ≡ 2 * (w.config.num_layers * (capacity * w.config.channels)) * 4
  unfolding cache_bytes
  cache_bytes_lem ts capacity s session =
      let ready = session.at_lem.consumed.ready in
      let cache = ready.cache_lem in
      let layer : s.cache.layer_float_count ≡ capacity * w.config.channels =
        cache.layer_size ∙ cc (session.at_lem.capacity_lem, ready.channels_lem) in
      let whole : s.cache.storage_float_count
          ≡ 2 * (w.config.num_layers * (capacity * w.config.channels)) =
        cache.storage_size ∙ cc (layer, ready.layers_lem) in
      wmul_lem s.cache.storage_float_count 4 cache.bytes_fit ∙ ap (λ (n : ℕ). n * 4) whole

module _ {F : Type 0} ⦃fl : Float F⦄ where
  -- What the machine and the capacity must offer to a run with these weights.
  pub record IsAffordable (options : Options) (w : ModelWeights F) : Type 0 where
    pub request : IsRequest w options.tokens options.generation_tokens
    pub repetitions_le : options.repetitions ≤ max_size
    pub threads_le : options.threads - 1 ≤ max_size
    pub room :
        length options.tokens + (options.generation_tokens - 1)
        ≤ benchmark_capacity options w.config
    pub single : length options.tokens < benchmark_capacity options w.config
    pub capacity_le : benchmark_capacity options w.config ≤ w.config.max_sequence_length
    pub cache_fits :
        2 * (w.config.num_layers * (benchmark_capacity options w.config * w.config.channels)) * 4
        < size_mod

module _ {F : Type 0} ⦃fl : Float F⦄ {D : Type 0} ⦃dl : Float D⦄
    (checkpoint_file : List ℕ → CheckpointFile) (of_bits : ℕ → F) (cpuinfo : List (List ℕ))
    (elapsed : ℕ → D) where
  -- When the arguments are accepted, the checkpoint is loaded, the model of the machine is read and
  -- the machine can afford the run, the benchmark ends with success. It reports the continuation of
  -- its prompt that the reference network gives, and the exact number of bytes of the key and value
  -- cache.
  pub main-Returns :
      (arguments : List (List ℕ)) (options : Options) (bytes : List ℕ) (reads : ℕ → Bool)
      (w : ModelWeights F)
      → parse_options arguments ≡ ok (some options)
      → checkpoint_file options.checkpoint ≡ contents bytes reads
      → load_checkpoint of_bits (contents bytes reads) ≡ ok w
      → IsAffordable options w
      → Returns (cpu_model cpuinfo) (λ name. Unit {0})
      → (r : Report D) × (main checkpoint_file of_bits cpuinfo elapsed arguments ≡ success r)
        × (r.generated_tokens ≡ continuation w options.tokens options.generation_tokens)
        × (r.kv_cache_bytes
            ≡ 2
              * (w.config.num_layers * (benchmark_capacity options w.config * w.config.channels))
              * 4)
  unfolding main run_benchmark make_report median_ratio
  main-Returns arguments options bytes reads w parsed_lem opened e affordable named =
      let runnable = parse_options-IsRunnable arguments options parsed_lem in
      let supported : IsSupported options = record {
        runnable = runnable;
        repetitions_le = affordable.repetitions_le;
        threads_le = affordable.threads_le;
      } in
      let request = affordable.request in
      let loaded = (load_checkpoint-IsCheckpoint of_bits bytes reads w e).loaded in
      let opens : load_checkpoint of_bits (checkpoint_file options.checkpoint) ≡ ok w =
        ap (load_checkpoint of_bits) opened ∙ e in
      let (g, e1, timed) =
        benchmark-Returns w loaded options.tokens options.generation_tokens request elapsed cpuinfo
          options named supported refl refl affordable.room affordable.single affordable.capacity_le
          affordable.cache_fits in
      let (p, e2, projected) =
        project-Returns elapsed options w g.readings loaded supported request.nonempty
          (omega (arith, request.within)) (logits_fit w loaded options request) in
      let (ratio, e3, _) =
        generation_ratio-Returns options.repetitions g.full_generation g.cached_generation
          runnable.repetitions_pos timed.cached_count timed.full_count in
      let (a, e4, _) =
        median-Returns p.all_rows_milliseconds
          (omega (arith, projected.all_count, runnable.repetitions_pos)) in
      let (b, e5, _) =
        median-Returns p.last_row_milliseconds
          (omega (arith, projected.last_count, runnable.repetitions_pos)) in
      let whole =
        step _ opens
          (step _ e1 (step _ e2 (step _ e3 (step _ (step _ e4 (step _ e5 refl)) refl)))) in
      (
        _,
        ap (run_options (run_benchmark checkpoint_file of_bits cpuinfo elapsed)) parsed_lem
            ∙ ap exit_of whole,
        timed.tokens_lem,
        cache_bytes_lem w loaded timed.kept.0 _ g.session timed.kept.1,
      )
