-- ===== src/LinearBenchmark/Layers.antt =====
-- Each case of `gpt2_linear_benchmark` computes its linear layer, with and without an executor.
use gpt2_cpu_runtime.Prelude.{
  size_mod, row_span, le-mul_of_pos, ok, Returns, step, for_range-Returns, length, ℕ, ◌*◌, ◌<◌, ◌≡◌,
  refl, ◌∙◌, ◌⊎◌, Option, none, some, List, [], arith,
}
use gpt2_cpu_runtime.Float.{Float}
use gpt2_cpu_runtime.Buffer.{at}
use gpt2_cpu_runtime.Reference.{linear_row, linear_row-congr}
use gpt2_cpu_runtime.Kernels.Linear.{linear}
use gpt2_cpu_runtime.Kernels.Linear.Rows.{IsLinearCall, linear_one-Returns}
use gpt2_cpu_runtime.Executor.Work.{executor_linear-scalar}
use gpt2_cpu_runtime.Session.State.Stages.{IsExecutor}
use gpt2_cpu_runtime.Benchmark.Inputs.{ramp_value}
use gpt2_cpu_runtime.LinearBenchmark.Cases.{LinearCase, run, run_calls}

module _ {F : Type 0} ⦃fl : Float F⦄ where
  -- A case whose spans have the sizes that the kernel checks.
  pub record IsCase (item : LinearCase F) : Type 0 where
    pub inputs_pos : 0 < item.input_channels
    pub outputs_pos : 0 < item.output_channels
    pub input_size : length item.input ≡ item.input_channels
    pub input_lem : (i : ℕ) → i < item.input_channels → at item.input i ≡ ramp_value 31 i
    pub weight_size : length item.weight ≡ item.output_channels * item.input_channels
    pub weight_fits : item.output_channels * item.input_channels < size_mod
    pub bias_size : (item.bias ≡ []) ⊎ (length item.bias ≡ item.output_channels)
    pub output_size : length item.output ≡ item.output_channels

  -- Its output is the linear layer of the ramp.
  pub record IsComputed (item : LinearCase F) : Type 0 where
    pub case_lem : IsCase item
    pub output_lem :
        (o : ℕ)
        → o < item.output_channels
        → at item.output o ≡ linear_row item.weight item.bias item.input_channels (ramp_value 31) o

  -- The same case, but for its output.
  pub record SameCase (item item' : LinearCase F) : Type 0 where
    pub output : List F
    pub same : item' ≡ record item { output = output }

  -- One call, with either path.
  run-Returns :
      (executor : Option ℕ) (item : LinearCase F)
      → IsExecutor executor
      → IsCase item
      → Returns (run executor item) λ item'. IsComputed item' × SameCase item item'
  unfolding run
  run-Returns executor item h is_case =
      let inputs = item.input_channels in
      let outputs = item.output_channels in
      let narrow = le-mul_of_pos outputs inputs is_case.inputs_pos in
      let deep = row_span 0 outputs inputs is_case.outputs_pos in
      let call : IsLinearCall item.output item.input item.weight item.bias 1 inputs outputs =
        record {
          output_size = omega (arith, is_case.output_size);
          input_size = omega (arith, is_case.input_size);
          weight_size = is_case.weight_size;
          bias_size = is_case.bias_size;
          output_fits = omega (arith, is_case.output_size, narrow, is_case.weight_fits);
          input_fits = omega (arith, is_case.input_size, deep, is_case.weight_fits);
          weight_fits = omega (arith, is_case.weight_size, is_case.weight_fits);
        } in
      let (out, e, (size, entries)) =
        linear_one-Returns item.output item.input item.weight item.bias inputs outputs call in
      let after : LinearCase F = record item { output = out } in
      let computed : IsComputed after = record {
        case_lem = record {
          inputs_pos = is_case.inputs_pos;
          outputs_pos = is_case.outputs_pos;
          input_size = is_case.input_size;
          input_lem = is_case.input_lem;
          weight_size = is_case.weight_size;
          weight_fits = is_case.weight_fits;
          bias_size = is_case.bias_size;
          output_size = size;
        };
        output_lem = λ o l.
            entries o l ∙ linear_row-congr item.weight item.bias inputs _ _ o is_case.input_lem;
      } in
      (after, run_eq executor h call out e, (computed, record { output = out; same = refl }))
    where
      run_eq :
          (executor : Option ℕ)
          → IsExecutor executor
          → IsLinearCall item.output item.input item.weight item.bias 1 item.input_channels
              item.output_channels
          → (out : List F)
          → linear item.output item.input item.weight item.bias 1 item.input_channels
              item.output_channels
            ≡ ok out
          → run executor item ≡ ok (record item { output = out })
      run_eq none h call out e = unfold run in step _ e refl
      run_eq (some threads) h call out e =
          unfold run in
          step _
            (executor_linear-scalar threads item.output item.input item.weight item.bias
                item.input_channels item.output_channels h call
              ∙ e)
            refl

  -- The inner calls, of which there is one at least.
  pub run_calls-Returns :
      (executor : Option ℕ) (inner : ℕ) (item0 item : LinearCase F)
      → IsExecutor executor
      → 0 < inner
      → IsCase item × SameCase item0 item
      → Returns (run_calls executor inner item) λ item'. IsComputed item' × SameCase item0 item'
  unfolding run_calls
  run_calls-Returns executor inner item0 item h positive ready =
      let (out, e, (kept, done)) =
        for_range-Returns (λ k it. (IsCase it × SameCase item0 it) × (0 < k → IsComputed it))
          (λ call. run executor) inner item
          (λ k it l ((is_case, before), _).
            let (it', e, (computed, after)) = run-Returns executor it h is_case in
            (
              it',
              e,
              (
                (
                  computed.case_lem,
                  record { output = after.output; same = cc (after.same, before.same) },
                ),
                λ p. computed,
              ),
            ))
          (ready, λ p. absurd (omega arith)) in
      (out, e, (done positive, kept.1))
