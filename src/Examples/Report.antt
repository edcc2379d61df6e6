-- ===== src/Examples/Report.antt =====
-- Projections of `gpt2_benchmark` over a model of one layer, and a whole run of it on a checkpoint.
use gpt2_cpu_runtime.Examples.Numbers.{numbers}
use gpt2_cpu_runtime.Examples.Checkpoint.{booleans, of_bits, stored, reads, bytes, stored_read}
use gpt2_cpu_runtime.Prelude.{ok, Returns, ℕ, ◌*◌, ◌≡◌, refl, some, List, [], ◌∷◌, arith}
use gpt2_cpu_runtime.Text.{
  codes, span_digits, value_from, from_digits, from_chars_size, from_chars_int32,
}
use gpt2_cpu_runtime.Exit.{success}
use gpt2_cpu_runtime.Arguments.{parse_size, find, parse_tokens}
use gpt2_cpu_runtime.Model.Checkpoint.{contents}
use gpt2_cpu_runtime.Examples.Session.{weights, weights-IsLoaded, prompt, prompt-AreTokens}
use gpt2_cpu_runtime.Examples.Benchmark.{cpuinfo, cpuinfo_read, two_more, two_more-IsSupported}
use gpt2_cpu_runtime.Generate.Continuation.{continuation}
use gpt2_cpu_runtime.Benchmark.Options.{
  Options, default_options, set_option, parse_arguments, finish_options, parse_options,
}
use gpt2_cpu_runtime.Benchmark.Projections.{project}
use gpt2_cpu_runtime.Benchmark.Projections.Rows.{IsProjected, project-Returns}
use gpt2_cpu_runtime.Benchmark.Main.{Report, main}
use gpt2_cpu_runtime.Benchmark.Main.Success.{IsAffordable, main-Returns}

project-Returns_example :
    Returns (project (λ (k : ℕ). k) two_more weights 0) (IsProjected two_more weights)
project-Returns_example =
    project-Returns (λ k. k) two_more weights 0 weights-IsLoaded two_more-IsSupported (omega arith)
      (omega arith) (omega arith)

abbrev arguments : List (List ℕ)
arguments =
    codes "--checkpoint"
    ∷ codes "m"
    ∷ codes "--tokens"
    ∷ codes "1,4"
    ∷ codes "--capacity"
    ∷ codes "4"
    ∷ []

abbrev options : Options
options = record default_options { checkpoint = codes "m"; tokens = prompt; capacity = 4 }

options_read : parse_options arguments ≡ ok (some options)
unfolding parse_options parse_arguments set_option finish_options parse_size parse_tokens find
    from_chars_int32 from_digits span_digits value_from from_chars_size
options_read = refl

run-IsAffordable : IsAffordable options stored
run-IsAffordable = record {
  request = record {
    nonempty = omega arith;
    valid = prompt-AreTokens;
    within = omega arith;
    named = omega arith;
    hidden_fits = omega arith;
    logits_fit = omega arith;
  };
  repetitions_le = omega arith;
  threads_le = omega arith;
  room = omega arith;
  single = omega arith;
  capacity_le = omega arith;
  cache_fits = omega arith;
}

main-Returns_example :
    (r : Report ℕ) × (main (λ path. contents bytes reads) of_bits cpuinfo (λ k. k) arguments
      ≡ success r)
    × (r.generated_tokens ≡ continuation stored prompt 2)
    × (r.kv_cache_bytes ≡ 2 * (1 * (4 * 2)) * 4)
main-Returns_example =
    main-Returns (λ path. contents bytes reads) of_bits cpuinfo (λ k. k) arguments options bytes
      reads stored options_read refl stored_read run-IsAffordable cpuinfo_read
