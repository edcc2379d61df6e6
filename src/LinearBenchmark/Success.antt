-- ===== src/LinearBenchmark/Success.antt =====
-- The whole of `gpt2_linear_benchmark` ends with a report on the five layers.
use gpt2_cpu_runtime.Float.{Float}
use gpt2_cpu_runtime.LinearBenchmark.Settings.{Settings, parse_settings, parse_settings-IsPositive}
use gpt2_cpu_runtime.LinearBenchmark.Cases.{Reported, run_linear_benchmark, exit_linear, main}
use gpt2_cpu_runtime.LinearBenchmark.Weights.{make_cases-Returns}
use gpt2_cpu_runtime.Model.Tensor.{ModelWeights}
use gpt2_cpu_runtime.Prelude.{
  ok, step, max_size, ◌≤◌, ◌-◌, true, false, ℕ, ◌≡◌, ap, ◌∙◌, Bool, some, List,
}
use gpt2_cpu_runtime.Exit.{success, exit_of}
use gpt2_cpu_runtime.Model.Checkpoint.{CheckpointFile, contents, load_checkpoint}
use gpt2_cpu_runtime.Model.Checkpoint.Sound.{load_checkpoint-IsCheckpoint}
use gpt2_cpu_runtime.LinearBenchmark.Reports.{IsReported, report_cases-Returns}
use gpt2_cpu_runtime.Generate.Continuation.Room.{choose_executor-Returns}

-- When the arguments are accepted, the checkpoint is loaded, and a `std::vector` can hold the samples
-- and the workers, the program ends with success, with any such number of threads. It has timed the
-- five layers of the model, each of which has computed the linear layer of its input. Every case has
-- a sample for each repetition and their median: the middle one of the samples in ascending order, or
-- half the sum of the middle two. The estimate for a token is the number of layers times the four
-- medians, with the fifth. Of the samples it is assumed that `a < b` excludes `b < a`.
pub main-IsReported :
    {F : Type 0} ⦃fl : Float F⦄ {D : Type 0} ⦃dl : Float D⦄ (elapsed : ℕ → D)
    (checkpoint_file : List ℕ → CheckpointFile) (of_bits : ℕ → F) (arguments : List (List ℕ))
    (settings : Settings) (bytes : List ℕ) (reads : ℕ → Bool) (w : ModelWeights F)
    → parse_settings arguments ≡ ok (some settings)
    → checkpoint_file settings.checkpoint ≡ contents bytes reads
    → (e : load_checkpoint of_bits (contents bytes reads) ≡ ok w) → settings.repetitions ≤ max_size
    → settings.threads - 1 ≤ max_size
    → ((a b : D) → dl.lt a b ≡ true → dl.lt b a ≡ false)
    → (out : Reported F D) × (main elapsed checkpoint_file of_bits arguments ≡ success out)
      × IsReported settings w.config.num_layers w
          (load_checkpoint-IsCheckpoint of_bits bytes reads w e).loaded
          out
unfolding main run_linear_benchmark
main-IsReported elapsed checkpoint_file of_bits arguments settings bytes reads w parsed_lem opened e
      repetitions_le threads_le asymmetric =
    let positive = parse_settings-IsPositive arguments settings parsed_lem in
    let loaded = (load_checkpoint-IsCheckpoint of_bits bytes reads w e).loaded in
    let opens : load_checkpoint of_bits (checkpoint_file settings.checkpoint) ≡ ok w =
      ap (load_checkpoint of_bits) opened ∙ e in
    let (executor, e1, is_executor) =
      choose_executor-Returns settings.threads positive.threads_pos threads_le in
    let (items, e2, has) = make_cases-Returns w loaded in
    let (out, e3, reported) =
      report_cases-Returns elapsed executor is_executor settings positive repetitions_le asymmetric
        w.config.num_layers w loaded items has in
    (
      out,
      ap (exit_linear elapsed checkpoint_file of_bits) parsed_lem
          ∙ ap exit_of (step _ opens (step _ e1 (step _ e2 e3))),
      reported,
    )
