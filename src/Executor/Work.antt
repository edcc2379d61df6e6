-- ===== src/Executor/Work.antt =====
-- The shards of a job, run one after the other, compute the linear layer.
use gpt2_cpu_runtime.Sizes.{overflow_test}
use gpt2_cpu_runtime.Kernels.Linear.{linear}
use gpt2_cpu_runtime.Prelude.{
  ltb, ◌==◌, lt→ltb, eq→==, Bool-cases, size_mod, size_max, wmul_lem, Error, ok, guard-Returns,
  length, is_empty, list_ext, ℕ, ◌*◌, ◌/◌, ◌<◌, ◌≡◌, refl, sym, ap, ◌∙◌, ◌⊎◌, inl, inr, true, not,
  ◌&&◌, ◌||◌, List, [], ◌∷◌, arith,
}
use gpt2_cpu_runtime.Float.{Float}
use gpt2_cpu_runtime.Kernels.Linear.Rows.{IsLinearCall, linear_one-Returns}
use gpt2_cpu_runtime.Executor.{Job, runs_scalar, sizes_match, executor_linear}
use gpt2_cpu_runtime.Executor.Shards.{IsJob}
use gpt2_cpu_runtime.Executor.Sharing.{shards-Returns}

module _ {F : Type 0} ⦃fl : Float F⦄ where
  abbrev job_of : (input weight bias : List F) (inputs outputs : ℕ) → Job F
  job_of input weight bias inputs outputs = record {
    input = input;
    weight = weight;
    bias = bias;
    input_channels = inputs;
    output_channels = outputs;
  }

  module _ (output input weight bias : List F) (inputs outputs : ℕ)
      (call : IsLinearCall output input weight bias 1 inputs outputs) where
    job_of-IsJob : IsJob (job_of input weight bias inputs outputs)
    job_of-IsJob = record {
      input_size = omega (arith, call.input_size);
      weight_size = call.weight_size;
      bias_size = call.bias_size;
      input_fits = call.input_fits;
      weight_fits = call.weight_fits;
      outputs_fit = omega (arith, call.output_fits, call.output_size);
    }

    bias_match :
        (b : List F) → (b ≡ []) ⊎ (length b ≡ outputs) → (is_empty b || length b == outputs) ≡ true
    bias_match [] h = refl
    bias_match (x ∷ xs) (inl e) = cc
    bias_match (x ∷ xs) (inr e) = eq→== (length (x ∷ xs)) outputs e

    sizes_match_lem : sizes_match output input weight bias inputs outputs ≡ true
    unfolding sizes_match
    sizes_match_lem = rw (
      eq→== (length output) outputs (omega (arith, call.output_size)),
      eq→== (length input) inputs (omega (arith, call.input_size)),
      wmul_lem inputs outputs (omega (arith, call.weight_fits, call.weight_size)),
      eq→== (length weight) (inputs * outputs) (omega (arith, call.weight_size)),
      bias_match bias call.bias_size,
    )

  -- For every positive number of threads, with valid sizes, `LinearExecutor::linear` gives the very
  -- output of the scalar kernel on one row: each entry is the same sum in the same order.
  pub executor_linear-scalar :
      (threads : ℕ) (output input weight bias : List F) (inputs outputs : ℕ)
      → 0 < threads
      → IsLinearCall output input weight bias 1 inputs outputs
      → executor_linear threads output input weight bias inputs outputs
        ≡ linear output input weight bias 1 inputs outputs
  unfolding executor_linear
  executor_linear-scalar threads output input weight bias inputs outputs h call =
      let fits : inputs * outputs < size_mod = omega (arith, call.weight_fits, call.weight_size) in
      let (out, e1, parallel) =
        shards-Returns (job_of input weight bias inputs outputs)
          (job_of-IsJob output input weight bias inputs outputs call) threads h output
          (omega (arith, call.output_size)) in
      let (out', e2, scalar) = linear_one-Returns output input weight bias inputs outputs call in
      rw
        (
          guard-Returns (not (not (inputs == 0) && ltb (size_max / inputs) outputs))
              (Error.overflow_error "linear executor weight size overflow")
              (rw (overflow_test inputs outputs, lt→ltb (inputs * outputs) size_mod fits)),
          guard-Returns (sizes_match output input weight bias inputs outputs)
              (Error.invalid_argument "linear executor tensor size mismatch")
              (sizes_match_lem output input weight bias inputs outputs call),
        )
        (elim (Bool-cases (runs_scalar threads outputs (length weight))) [
          | inl few ↦ rw few
          | inr many ↦
              rw (many, e1, e2)
                (ap ok (
                  list_ext out out' fl.nought (omega (arith, parallel.0, scalar.0)) λ o l.
                    parallel.1 o (omega (arith, parallel.0))
                    ∙ sym (scalar.1 o (omega (arith, parallel.0)))))
        ])
