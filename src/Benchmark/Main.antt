-- ===== src/Benchmark/Main.antt =====
-- `main` of `gpt2_benchmark`: the whole program, from its arguments to its report.
pub mod Success
use gpt2_cpu_runtime.Prelude.{
  wadd, wmul, Result, ok, ◌>>=◌, ◌>>◌, length, ℕ, ◌-◌, Option, none, some, List,
}
use gpt2_cpu_runtime.Prelude.Int.{ℤ}
use gpt2_cpu_runtime.Float.{Float, ◌/f◌}
use gpt2_cpu_runtime.Exit.{Exit, run_options}
use gpt2_cpu_runtime.Model.Tensor.{ModelWeights}
use gpt2_cpu_runtime.Model.Checkpoint.{CheckpointFile, load_checkpoint}
use gpt2_cpu_runtime.Session.Api.{cache_bytes}
use gpt2_cpu_runtime.Benchmark.Options.{Options, parse_options}
use gpt2_cpu_runtime.Benchmark.Run.{Generations, benchmark}
use gpt2_cpu_runtime.Benchmark.Samples.{median}
use gpt2_cpu_runtime.Benchmark.Projections.{Projections, project}

-- What is printed behind the measurements: the ratios of medians, the sizes in bytes, the tokens.
pub record Report (D : Type 0) : Type 0 where
  pub full_over_cached_generation_ratio : Option D
  pub all_over_last_projection_ratio : D
  pub kv_cache_bytes : ℕ
  pub session_logits_bytes : ℕ
  pub m1_final_logits_bytes : ℕ
  pub generated_tokens : List ℤ

-- The ratio of two medians.
unfoldable pub median_ratio : {D : Type 0} ⦃dl : Float D⦄ → List D → List D → Result D
median_ratio xs ys = do a ← median xs; b ← median ys; ok (a /f b)

unfoldable pub generation_ratio :
    {D : Type 0} ⦃dl : Float D⦄ → Option (List D) → List D → Result (Option D)
unfolding median_ratio
generation_ratio none cached = ok none
generation_ratio (some full) cached = median_ratio full cached >>= λ ratio. ok (some ratio)

module _ {F : Type 0} ⦃fl : Float F⦄ {D : Type 0} ⦃dl : Float D⦄ where
  unfoldable pub make_report :
      Options → ModelWeights F → Generations F D → Projections F D → Result (Report D)
  unfolding median_ratio generation_ratio
  make_report options w generations projections = do
    generation ← generation_ratio generations.full_generation generations.cached_generation
    projection ← median_ratio projections.all_rows_milliseconds projections.last_row_milliseconds
    ok (record {
      full_over_cached_generation_ratio = generation;
      all_over_last_projection_ratio = projection;
      kv_cache_bytes = cache_bytes generations.session;
      session_logits_bytes = wmul w.config.vocabulary_size 4;
      m1_final_logits_bytes =
          wmul
            (wmul (wadd (length options.tokens) options.generation_tokens - 1)
              w.config.padded_vocabulary_size)
            4;
      generated_tokens = generations.generated_tokens;
    })

  -- `elapsed k`: the milliseconds between reading `k` of the clock and the next, counted from the
  -- readings behind the loading of the model.
  module _ (checkpoint_file : List ℕ → CheckpointFile) (of_bits : ℕ → F) (cpuinfo : List (List ℕ))
      (elapsed : ℕ → D) where
    unfoldable pub run_benchmark : Options → Result (Report D)
    unfolding make_report
    run_benchmark options = do
      w ← load_checkpoint of_bits (checkpoint_file options.checkpoint)
      generations ← benchmark elapsed cpuinfo options w
      projections ← project elapsed options w generations.readings
      make_report options w generations projections

    unfoldable pub main : List (List ℕ) → Exit (Report D)
    unfolding run_benchmark
    main arguments = run_options run_benchmark (parse_options arguments)
