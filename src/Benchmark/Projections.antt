-- ===== src/Benchmark/Projections.antt =====
-- The projections that `gpt2_benchmark` times behind the generations: onto the real vocabulary, of
-- every row of the prompt and of the last row only.
pub mod Rows
use native.Mathlib.Nat.{mul-le-mul_right}
use gpt2_cpu_runtime.Prelude.{wmul, Result, ok, ◌>>=◌, ◌>>◌, length, replicate, ℕ, List, []}
use gpt2_cpu_runtime.Float.{Float}
use gpt2_cpu_runtime.Model.Tensor.{ModelWeights}
use gpt2_cpu_runtime.Kernels.Linear.{linear}
use gpt2_cpu_runtime.Generate.Loops.{last}
use gpt2_cpu_runtime.Benchmark.Options.{Options}
use gpt2_cpu_runtime.Benchmark.Samples.{no_setup, measure}
use gpt2_cpu_runtime.Benchmark.Inputs.{ramp, first_values}
use gpt2_cpu_runtime.Generate.Continuation.Full.{last_row}

-- The two outputs with their samples, and the number of clock readings.
pub record Projections (F D : Type 0) : Type 0 where
  pub projection_all : List F
  pub projection_last : List F
  pub all_rows_milliseconds : List D
  pub last_row_milliseconds : List D
  pub readings : ℕ

module _ {F : Type 0} ⦃fl : Float F⦄ where
  unfoldable pub project_all :
      (input weight : List F) (rows channels vocabulary_size : ℕ) → List F → Result (List F)
  project_all input weight rows channels vocabulary_size output =
      linear output input weight [] rows channels vocabulary_size

  unfoldable pub project_last :
      (input weight : List F) (channels vocabulary_size : ℕ) → List F → Result (List F)
  project_last input weight channels vocabulary_size output = do
    row ← last input channels
    linear output row weight [] 1 channels vocabulary_size

  unfoldable pub project :
      {D : Type 0} (elapsed : ℕ → D) → Options → ModelWeights F → ℕ → Result (Projections F D)
  unfolding project_all project_last
  project elapsed options w readings = do
    let rows = length options.tokens
    let c = w.config.channels
    let v = w.config.vocabulary_size
    input ← ramp 17 (wmul rows c)
    weight ← first_values w "wte" (wmul v c)
    all_rows ←
        measure elapsed no_setup (project_all input weight rows c v) options.warmup
          options.repetitions (replicate (wmul rows v) fl.nought) readings
    last_row ←
        measure elapsed no_setup (project_last input weight c v) options.warmup options.repetitions
          (replicate v fl.nought) all_rows.readings
    ok (record {
      projection_all = all_rows.subject;
      projection_last = last_row.subject;
      all_rows_milliseconds = all_rows.milliseconds;
      last_row_milliseconds = last_row.milliseconds;
      readings = last_row.readings;
    })
