-- ===== src/Examples/Programs.antt =====
-- Runs of `gpt2_linear_benchmark` and of `gpt2_inspect` on the checkpoint of a model of one layer.
use gpt2_cpu_runtime.Examples.Numbers.{numbers}
use gpt2_cpu_runtime.Prelude.{ok, ℕ, ◌≡◌, refl, Bool, arith, true, false, some, List, [], ◌∷◌}
use gpt2_cpu_runtime.Text.{codes, span_digits, value_from, from_digits, from_chars_size}
use gpt2_cpu_runtime.Exit.{success}
use gpt2_cpu_runtime.Arguments.{whole}
use gpt2_cpu_runtime.Model.Checkpoint.{contents}
use gpt2_cpu_runtime.Model.Checkpoint.Sound.{load_checkpoint-IsCheckpoint}
use gpt2_cpu_runtime.Model.Layout.Exact.{total_of, shapes_of}
use gpt2_cpu_runtime.LinearBenchmark.Settings.{Settings, parse_count, parse_settings}
use gpt2_cpu_runtime.LinearBenchmark.Cases.{Reported, main as linear_main}
use gpt2_cpu_runtime.Examples.Checkpoint.{booleans, of_bits, stored, reads, bytes, stored_read}
use gpt2_cpu_runtime.LinearBenchmark.Reports.{IsReported}
use gpt2_cpu_runtime.LinearBenchmark.Success.{main-IsReported}
use gpt2_cpu_runtime.Inspect.{read_arguments, main as inspect_main}
use gpt2_cpu_runtime.Inspect.Layout.{rows_from, main-success}
use gpt2_cpu_runtime.Examples.Sizes.{tiny}

-- One round of warm-up, two repetitions of three calls, and two threads.
abbrev timing : List (List ℕ)
timing = codes "m" ∷ codes "1" ∷ codes "2" ∷ codes "3" ∷ codes "2" ∷ []

abbrev settings : Settings
settings = record { checkpoint = codes "m"; warmup = 1; repetitions = 2; inner = 3; threads = 2 }

settings_read : parse_settings timing ≡ ok (some settings)
unfolding parse_settings parse_count whole from_chars_size from_digits span_digits value_from
settings_read = refl

main-IsReported_example :
    (out : Reported Bool ℕ) × (linear_main (λ k. k) (λ path. contents bytes reads) of_bits timing
      ≡ success out)
    × IsReported settings 1 stored
        (load_checkpoint-IsCheckpoint of_bits bytes reads stored stored_read).loaded
        out
main-IsReported_example =
    main-IsReported (λ k. k) (λ path. contents bytes reads) of_bits timing settings bytes reads
      stored settings_read refl stored_read (omega arith) (omega arith) λ a b h. ground arith

abbrev inspected : List (List ℕ)
inspected = codes "--checkpoint" ∷ codes "m" ∷ codes "--layout" ∷ []

inspected_read :
    read_arguments inspected (record { checkpoint = []; show_layout = false })
    ≡ ok (some (record { checkpoint = codes "m"; show_layout = true }))
unfolding read_arguments
inspected_read = refl

main-success_example :
    inspect_main (λ path. contents bytes reads) of_bits inspected
    ≡ success (record {
      checkpoint_version = 3;
      config = tiny;
      num_parameters = total_of (shapes_of tiny);
      parameter_layout = some (rows_from 0 (shapes_of tiny));
    })
main-success_example =
    main-success (λ path. contents bytes reads) of_bits inspected
      (record { checkpoint = codes "m"; show_layout = true }) bytes reads stored inspected_read refl
      refl stored_read
