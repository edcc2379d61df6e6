-- ===== src/Examples/Benchmark.antt =====
-- Runs of the benchmark over a model of one layer, and calls that a session refuses.
use gpt2_cpu_runtime.Prelude.{
  Error, err, ok, Returns, length, ℕ, ◌≤◌, ◌<◌, ◌≡◌, refl, true, false, none, some, List, [], ◌∷◌,
  ◌++◌, arith,
}
use gpt2_cpu_runtime.Prelude.Int.{ℤ, pos}
use gpt2_cpu_runtime.Text.{codes}
use gpt2_cpu_runtime.Model.Forward.{bad_token}
use gpt2_cpu_runtime.Model.Forward.Rows.{AreTokens}
use gpt2_cpu_runtime.Session.Api.{prefill, decode}
use gpt2_cpu_runtime.Session.Api.Errors.{decode-cases, prefill-cases}
use gpt2_cpu_runtime.Generate.Continuation.{IsRequest}
use gpt2_cpu_runtime.Benchmark.Options.{
  Options, default_options, set_option, parse_arguments, finish_options, parse_options, IsSupported,
}
use gpt2_cpu_runtime.Benchmark.Run.{check_request, benchmark}
use gpt2_cpu_runtime.Benchmark.Agreement.{IsBenchmarked, benchmark-Returns}
use gpt2_cpu_runtime.Benchmark.Full.{benchmark-full}
use gpt2_cpu_runtime.Examples.Numbers.{numbers}
use gpt2_cpu_runtime.Examples.Session.{
  weights, weights-IsLoaded, prompt, prompt-AreTokens, filled_session, filled_session-IsSession,
}
use gpt2_cpu_runtime.Examples.Sizes.{tiny}
use gpt2_cpu_runtime.Session.Api.Consumed.{IsSession}
use gpt2_cpu_runtime.Benchmark.Machine.{substr, cpu_model}
use gpt2_cpu_runtime.Arguments.{find}

abbrev pub cpuinfo : List (List ℕ)
cpuinfo = codes "processor: 0" ∷ codes "model name: x" ∷ []

pub cpuinfo_read : Returns (cpu_model cpuinfo) λ name. Unit {0}
unfolding cpu_model find substr
cpuinfo_read = (codes "x", refl, tt)

-- A field without a value, not even a space: `substr` throws.
nameless : cpu_model (codes "model name:" ∷ []) ≡ err (Error.out_of_range "basic_string::substr")
unfolding cpu_model find substr
nameless = refl

-- Two tokens that are generated, with a capacity of four.
abbrev pub two_more : Options
two_more = record {
  checkpoint = b'm' ∷ [];
  tokens = prompt;
  generation_tokens = 2;
  warmup = 1;
  repetitions = 2;
  capacity = 4;
  threads = 2;
  skip_full_prefix = false;
}

pub two_more-IsSupported : IsSupported two_more
two_more-IsSupported = record {
  runnable = record {
    checkpoint_given = refl;
    generation_pos = omega arith;
    repetitions_pos = omega arith;
    threads_pos = omega arith;
  };
  repetitions_le = omega arith;
  threads_le = omega arith;
}

two_more-IsRequest : IsRequest weights prompt 2
two_more-IsRequest = record {
  nonempty = omega arith;
  valid = prompt-AreTokens;
  within = omega arith;
  named = omega arith;
  hidden_fits = omega arith;
  logits_fit = omega arith;
}

benchmark-Returns_example :
    Returns
      (benchmark (λ (k : ℕ). k) cpuinfo two_more weights)
      (IsBenchmarked weights weights-IsLoaded prompt 2 two_more-IsRequest two_more)
benchmark-Returns_example =
    benchmark-Returns weights weights-IsLoaded prompt 2 two_more-IsRequest (λ k. k) cpuinfo two_more
      cpuinfo_read two_more-IsSupported refl refl (omega arith) (omega arith) (omega arith)
      (omega arith)

-- One token that is generated, with a capacity of the prompt.
abbrev one_more : Options
one_more = record two_more { generation_tokens = 1; capacity = 2 }

one_more-IsSupported : IsSupported one_more
one_more-IsSupported = record {
  runnable = record {
    checkpoint_given = refl;
    generation_pos = omega arith;
    repetitions_pos = omega arith;
    threads_pos = omega arith;
  };
  repetitions_le = omega arith;
  threads_le = omega arith;
}

one_more-IsRequest : IsRequest weights prompt 1
one_more-IsRequest = record {
  nonempty = omega arith;
  valid = prompt-AreTokens;
  within = omega arith;
  named = omega arith;
  hidden_fits = omega arith;
  logits_fit = omega arith;
}

benchmark-full_example :
    (check_request one_more tiny 2 ≡ ok tt)
    × (benchmark (λ (k : ℕ). k) cpuinfo one_more weights
        ≡ err (Error.length_error "session KV cache is full"))
benchmark-full_example =
    benchmark-full weights weights-IsLoaded prompt one_more-IsRequest (λ k. k) one_more
      one_more-IsSupported refl refl cpuinfo cpuinfo_read refl (omega arith)

decode-cases_example :
    (length prompt ≡ 0
      → decode none weights (pos 9) filled_session
        ≡ err (Error.logic_error "decode requires a nonempty session"))
    × (0 < 2
        → bad_token 5 (pos 9) ≡ true
        → decode none weights (pos 9) filled_session
          ≡ err (Error.invalid_argument "input token ID is outside the real vocabulary"))
    × (0 < 2
        → bad_token 5 (pos 9) ≡ false
        → length prompt ≡ 4
        → decode none weights (pos 9) filled_session
          ≡ err (Error.length_error "session KV cache is full"))
    × (0 < 2
        → bad_token 5 (pos 9) ≡ false
        → 2 < 4
        → Returns
            (decode none weights (pos 9) filled_session)
            (IsSession weights weights-IsLoaded (prompt ++ (pos 9 ∷ [])) 4))
decode-cases_example =
    decode-cases weights weights-IsLoaded none tt 4 prompt filled_session filled_session-IsSession
      (pos 9)

prefill-cases_example :
    (0 < 2
      → prefill none weights prompt filled_session
        ≡ err (Error.logic_error "prefill requires an empty session"))
    × (length prompt ≡ 0
        → length prompt ≡ 0
        → prefill none weights prompt filled_session
          ≡ err (Error.invalid_argument "prefill prompt must not be empty"))
    × (length prompt ≡ 0
        → 0 < 2
        → 4 < 2
        → prefill none weights prompt filled_session
          ≡ err (Error.length_error "prefill prompt exceeds session capacity"))
    × (length prompt ≡ 0
        → 0 < 2
        → 2 ≤ 4
        → (before after : List ℤ) (token : ℤ) → prompt ≡ before ++ (token ∷ after)
        → bad_token 5 token ≡ true
        → prefill none weights prompt filled_session
          ≡ err (Error.invalid_argument "input token ID is outside the real vocabulary"))
    × (length prompt ≡ 0
        → 0 < 2
        → 2 ≤ 4
        → AreTokens 5 prompt
        → Returns
            (prefill none weights prompt filled_session)
            (IsSession weights weights-IsLoaded prompt 4))
prefill-cases_example =
    prefill-cases weights weights-IsLoaded none tt 4 prompt filled_session filled_session-IsSession
      prompt

abbrev plain_arguments : List (List ℕ)
plain_arguments = codes "--checkpoint" ∷ codes "model.bin" ∷ codes "--skip-full-prefix" ∷ []

abbrev plain : Options
plain = record default_options { checkpoint = codes "model.bin"; skip_full_prefix = true }

plain_read : parse_options plain_arguments ≡ ok (some plain)
unfolding parse_options parse_arguments set_option finish_options
plain_read = refl
