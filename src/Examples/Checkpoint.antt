-- ===== src/Examples/Checkpoint.antt =====
-- A checkpoint of a model of one layer over two floats, and a whole run of `gpt2_generate` on it.
use gpt2_cpu_runtime.Prelude.{
  ◌==◌, ok, replicate, ℕ, ◌^◌, ◌<◌, ◌≡◌, refl, ◌↔◌, inl, Bool, true, false, not, ◌&&◌, ◌||◌, some,
  List, [], ◌∷◌, arith,
}
use gpt2_cpu_runtime.Float.{Float}
use gpt2_cpu_runtime.Model.Layout.{parameter_shapes}
use gpt2_cpu_runtime.Model.Layout.Exact.{total_of, layout_of}
use gpt2_cpu_runtime.Model.Tensor.{ModelWeights}
use gpt2_cpu_runtime.Model.Tensor.Lookup.{IsLoaded}
use gpt2_cpu_runtime.Model.Checkpoint.{contents, load_checkpoint}
use gpt2_cpu_runtime.Model.Checkpoint.Sound.{IsCheckpoint, load_checkpoint-IsCheckpoint}
use gpt2_cpu_runtime.Model.Checkpoint.RoundTrip.{load_checkpoint-encode_checkpoint}
use gpt2_cpu_runtime.Generate.Options.{ExecutionMode, Options, check_options, parse_options}
use gpt2_cpu_runtime.Generate.Options.Sound.{AreAccepted, check_options_iff}
use gpt2_cpu_runtime.Generate.Options.Accepted.{parse_options-AreAccepted}
use gpt2_cpu_runtime.Generate.Options.CommandLine.{command_line, parse_options-command_line}
use gpt2_cpu_runtime.Generate.Loops.{Generated}
use gpt2_cpu_runtime.Generate.Continuation.{continuation, step_lines}
use gpt2_cpu_runtime.Exit.{success}
use gpt2_cpu_runtime.Generate.Main.{World, main, IsFeasible, main-continuation}
use gpt2_cpu_runtime.Examples.Sizes.{tiny, tiny-IsValid, tiny-IsSized}
use gpt2_cpu_runtime.Examples.Session.{weights-IsLoaded, prompt, prompt-AreTokens}
use gpt2_cpu_runtime.Model.Checkpoint.Encoding.{encode_checkpoint, AreBits}
use gpt2_cpu_runtime.Model.Checkpoint.Fields.{HasWords}
use gpt2_cpu_runtime.Generate.Options.Values.{AreRead}

-- Two values in the place of floats.
instance abbrev pub booleans : Float Bool
booleans = record {
  nought = false;
  one = true;
  lowest = false;
  epsilon = true;
  half = true;
  hundredth = true;
  cube_factor = true;
  two_over_pi = true;
  of_size = λ n. not (n == 0);
  add = ◌||◌;
  sub = λ a b. a && not b;
  mul = ◌&&◌;
  quot = λ a b. a;
  sqrt = λ a. a;
  exp = λ a. true;
  tanh = λ a. a;
  lt = λ a b. not a && b;
  is_nought = not;
}

abbrev to_bits : Bool → ℕ
to_bits true = 1065353216
to_bits false = 0

abbrev pub of_bits : ℕ → Bool
of_bits n = not (n == 0)

bits-AreBits : AreBits to_bits of_bits
bits-AreBits = record { bits_lt = bits_lt; of_bits-to_bits = back }
  where
    bits_lt : (x : Bool) → to_bits x < 2 ^ 32
    bits_lt true = omega arith
    bits_lt false = omega arith

    back : (x : Bool) → of_bits (to_bits x) ≡ x
    back true = refl
    back false = refl

abbrev pub stored : ModelWeights Bool
stored = record {
  config = tiny;
  checkpoint_version = 3;
  layout = layout_of tiny;
  storage = replicate 98 true;
}

stored-IsLoaded : IsLoaded stored
unfolding total_of parameter_shapes
stored-IsLoaded = record {
  is_sized = tiny-IsSized;
  is_valid = tiny-IsValid;
  layout_made = weights-IsLoaded.layout_made;
  storage_size = refl;
}

tiny-HasWords : HasWords tiny
tiny-HasWords = record {
  max_sequence_length_lt = omega arith;
  vocabulary_size_lt = omega arith;
  padded_vocabulary_size_lt = omega arith;
  num_layers_lt = omega arith;
  num_heads_lt = omega arith;
  channels_lt = omega arith;
}

abbrev pub reads : ℕ → Bool
reads n = true

abbrev pub bytes : List ℕ
bytes = encode_checkpoint to_bits stored

load_checkpoint-encode_checkpoint_example :
    load_checkpoint of_bits (contents bytes reads) ≡ ok stored
unfolding total_of parameter_shapes
load_checkpoint-encode_checkpoint_example =
    load_checkpoint-encode_checkpoint to_bits of_bits bits-AreBits stored reads stored-IsLoaded
      tiny-HasWords (inl refl) (omega arith) λ n. refl

pub stored_read : load_checkpoint of_bits (contents bytes reads) ≡ ok stored
unfolding total_of parameter_shapes
stored_read =
    load_checkpoint-encode_checkpoint to_bits of_bits bits-AreBits stored reads stored-IsLoaded
      tiny-HasWords (inl refl) (omega arith) λ n. refl

load_checkpoint-IsCheckpoint_example : IsCheckpoint of_bits bytes stored
load_checkpoint-IsCheckpoint_example =
    load_checkpoint-IsCheckpoint of_bits bytes reads stored stored_read

abbrev world : World Bool
world = record {
  checkpoint_file = λ path. contents bytes reads;
  output_files = record { opens = λ path. true; writes = λ path values. true };
  of_bits = of_bits;
}

-- Three threads, two tokens of prompt, and two that are generated.
abbrev options : Options
options = record {
  checkpoint = b'm' ∷ [];
  tokens = prompt;
  max_new_tokens = 2;
  dump_last_logits = b'd' ∷ [];
  capacity = some 4;
  threads = 3;
  mode = ExecutionMode.cached;
}

options-AreAccepted : AreAccepted options true
options-AreAccepted = record {
  checkpoint_given = refl;
  tokens_given = refl;
  greedy_given = inl refl;
  threads_pos = omega arith;
  full_lem = λ e. absurd (cc);
}

options-AreRead : AreRead options
options-AreRead = record {
  tokens_lem = (omega arith, (omega arith, tt));
  max_new_tokens_lem = omega arith;
  capacity_lem = λ n e. let four : 4 ≡ n = cc in omega arith;
  threads_lem = omega arith;
}

parse_options-command_line_example : parse_options (command_line options) ≡ ok (some options)
parse_options-command_line_example =
    parse_options-command_line options options-AreAccepted options-AreRead

options_read : parse_options (command_line options) ≡ ok (some options)
options_read = parse_options-command_line options options-AreAccepted options-AreRead

parse_options-AreAccepted_example :
    AreRead options × ((saw_greedy : Bool) × AreAccepted options saw_greedy)
parse_options-AreAccepted_example =
    parse_options-AreAccepted (command_line options) options options_read

check_options_iff_example :
    (check_options options true ≡ ok options) ↔ (AreAccepted options true × (options ≡ options))
check_options_iff_example = check_options_iff options options true

run-IsFeasible :
    IsFeasible world options stored
      (load_checkpoint-IsCheckpoint of_bits bytes reads stored stored_read).loaded
run-IsFeasible = record {
  valid = prompt-AreTokens;
  within = omega arith;
  hidden_fits = omega arith;
  logits_fit = omega arith;
  dump_fits = omega arith;
  dump_accepted = record { opened = refl; written = λ values. refl };
  cached_lem = λ e. (
    record { decoded = omega arith; dumped = λ h. omega arith; threads_le = omega arith },
    omega arith,
    omega arith,
  );
}

main-continuation_example :
    (out : Generated Bool) × (main world (command_line options) ≡ success out)
    × (out.tokens ≡ continuation stored prompt 2)
    × (out.steps ≡ step_lines stored prompt 2)
main-continuation_example =
    main-continuation world (command_line options) options bytes reads stored options_read refl
      stored_read run-IsFeasible
