-- ===== src/LinearBenchmark/Cases.antt =====
-- The cases of `gpt2_linear_benchmark`, how one is timed, and the whole program.
use Prim.Native.String.{String}
use text.Mathlib.Text.{◌==◌ as str_eq}
use gpt2_cpu_runtime.Prelude.{
  ◌==◌, if◌then◌else◌, wmul, Error, Result, err, ok, ◌>>=◌, for_range, length, replicate, ℕ, ◌-◌,
  ◌/◌, ◌%◌, not, Option, none, some, List, [], ◌∷◌, ◌++◌,
}
use gpt2_cpu_runtime.Float.{Float, ◌+f◌, ◌*f◌, ◌/f◌}
use gpt2_cpu_runtime.Buffer.{read}
use gpt2_cpu_runtime.Exit.{Exit, misused, failure, exit_of}
use gpt2_cpu_runtime.Kernels.Linear.{linear}
use gpt2_cpu_runtime.Executor.{executor_linear}
use gpt2_cpu_runtime.Model.Tensor.{ModelWeights}
use gpt2_cpu_runtime.Model.Checkpoint.{CheckpointFile, load_checkpoint}
use gpt2_cpu_runtime.Generate.Loops.{choose_executor}
use gpt2_cpu_runtime.Benchmark.Samples.{sort, no_setup, measure}
use gpt2_cpu_runtime.Benchmark.Inputs.{ramp, first_values}
use gpt2_cpu_runtime.LinearBenchmark.Settings.{Settings, parse_settings}

-- `Case`
pub record LinearCase (F : Type 0) : Type 0 where
  pub name : String
  pub input_channels : ℕ
  pub output_channels : ℕ
  pub weight : List F
  pub bias : List F
  pub input : List F
  pub output : List F

-- What is printed of a case, with the case as its last call has left it.
pub record CaseReport (F D : Type 0) : Type 0 where
  pub item : LinearCase F
  pub samples : List D
  pub middle : D

-- The state of the loop over the cases.
pub record Reported (F D : Type 0) : Type 0 where
  pub cases : List (CaseReport F D)
  pub readings : ℕ
  pub layer_total : D
  pub estimated_linear_per_token : Option D

unfoldable pub median : {D : Type 0} ⦃dl : Float D⦄ → List D → Result D
unfolding sort
median ⦃dl = dl⦄ values = do
  let sorted = sort values
  let center = length sorted / 2
  if length sorted % 2 == 0
      then (do
        a ← if center == 0 then err Error.fault else read sorted (center - 1)
        b ← read sorted center
        ok ((a +f b) /f dl.of_size 2))
      else read sorted center

abbrev pub no_report : {F D : Type 0} ⦃dl : Float D⦄ → Reported F D
no_report ⦃dl = dl⦄ = record {
  cases = [];
  readings = 0;
  layer_total = dl.nought;
  estimated_linear_per_token = none;
}

module _ {F : Type 0} ⦃fl : Float F⦄ where
  unfoldable pub make_case :
      String → (input_channels output_channels : ℕ) (weight bias : List F) → Result (LinearCase F)
  make_case name input_channels output_channels weight bias = do
    input ← ramp 31 input_channels
    ok (record {
      name = name;
      input_channels = input_channels;
      output_channels = output_channels;
      weight = weight;
      bias = bias;
      input = input;
      output = replicate output_channels fl.nought;
    })

  unfoldable pub run : Option ℕ → LinearCase F → Result (LinearCase F)
  run none item = do
    output ←
        linear item.output item.input item.weight item.bias 1 item.input_channels
          item.output_channels
    ok (record item { output = output })
  run (some threads) item = do
    output ←
        executor_linear threads item.output item.input item.weight item.bias item.input_channels
          item.output_channels
    ok (record item { output = output })

  -- The five cases. The last has no bias.
  unfoldable pub make_cases : ModelWeights F → Result (List (LinearCase F))
  unfolding make_case
  make_cases w = do
    let c = w.config.channels
    let v = w.config.vocabulary_size
    qkvw ← first_values w "qkvw" (wmul (wmul 3 c) c)
    qkvb ← first_values w "qkvb" (wmul 3 c)
    qkv ← make_case "qkv" c (wmul 3 c) qkvw qkvb
    attprojw ← first_values w "attprojw" (wmul c c)
    attprojb ← first_values w "attprojb" c
    attention_projection ← make_case "attention_projection" c c attprojw attprojb
    fcw ← first_values w "fcw" (wmul (wmul 4 c) c)
    fcb ← first_values w "fcb" (wmul 4 c)
    fc ← make_case "fc" c (wmul 4 c) fcw fcb
    fcprojw ← first_values w "fcprojw" (wmul (wmul 4 c) c)
    fcprojb ← first_values w "fcprojb" c
    fc_projection ← make_case "fc_projection" (wmul 4 c) c fcprojw fcprojb
    wte ← first_values w "wte" (wmul v c)
    vocabulary ← make_case "vocabulary" c v wte []
    ok (qkv ∷ attention_projection ∷ fc ∷ fc_projection ∷ vocabulary ∷ [])

  -- The loop over the inner calls.
  unfoldable pub run_calls : Option ℕ → ℕ → LinearCase F → Result (LinearCase F)
  unfolding run
  run_calls executor inner item = for_range inner 0 (λ call. run executor) item

  -- The end of the loop over the cases: the sum over the layers, or the estimate.
  unfoldable pub add_report :
      {D : Type 0} ⦃dl : Float D⦄ → ℕ → Reported F D → ℕ → CaseReport F D → Reported F D
  add_report ⦃dl = dl⦄ num_layers st readings r =
      let cases = st.cases ++ (r ∷ []) in
      if not (str_eq r.item.name "vocabulary")
      then record {
        cases = cases;
        readings = readings;
        layer_total = st.layer_total +f r.middle;
        estimated_linear_per_token = st.estimated_linear_per_token;
      }
      else record {
        cases = cases;
        readings = readings;
        layer_total = st.layer_total;
        estimated_linear_per_token = some (dl.of_size num_layers *f st.layer_total +f r.middle);
      }

  module _ {D : Type 0} ⦃dl : Float D⦄ (elapsed : ℕ → D) where
    -- The body of the loop over the cases. The loops over the samples and their `reserve` are those of
    -- `measure`; a
    -- sample is divided by the number of inner calls.
    unfoldable pub report_case :
        Option ℕ → Settings → ℕ → LinearCase F → Reported F D → Result (Reported F D)
    unfolding run_calls median add_report
    report_case executor settings num_layers item st = do
      m ←
          measure (λ k. elapsed k /f dl.of_size settings.inner) no_setup
            (run_calls executor settings.inner) settings.warmup settings.repetitions item
            st.readings
      middle ← median m.milliseconds
      ok (
          add_report num_layers st m.readings
            (record { item = m.subject; samples = m.milliseconds; middle = middle }))

    unfoldable pub report_cases :
        Option ℕ → Settings → ℕ → List (LinearCase F) → Reported F D → Result (Reported F D)
    unfolding report_case
    report_cases executor settings num_layers [] st = ok st
    report_cases executor settings num_layers (item ∷ items) st = do
      st' ← report_case executor settings num_layers item st
      report_cases executor settings num_layers items st'

    -- `main` behind the command line.
    module _ (checkpoint_file : List ℕ → CheckpointFile) (of_bits : ℕ → F) where
      unfoldable pub run_linear_benchmark : Settings → Result (Reported F D)
      unfolding make_cases report_cases
      run_linear_benchmark settings = do
        w ← load_checkpoint of_bits (checkpoint_file settings.checkpoint)
        executor ← choose_executor settings.threads
        cases ← make_cases w
        report_cases executor settings w.config.num_layers cases no_report

      abbrev pub exit_linear : Result (Option Settings) → Exit (Reported F D)
      exit_linear (ok none) = misused
      exit_linear (ok (some settings)) = exit_of (run_linear_benchmark settings)
      exit_linear (err thrown) = failure thrown

      unfoldable pub main : List (List ℕ) → Exit (Reported F D)
      unfolding run_linear_benchmark
      main arguments = exit_linear (parse_settings arguments)
