-- ===== src/Generate/Options/CommandLine.antt =====
-- The command line that spells given options, which `parse_options` reads back.
use mathlib.Core.List.{append-nil}
use gpt2_cpu_runtime.Prelude.{
  size_mod, ok, step, length, is_empty, ℕ, ◌<◌, ◌≡◌, refl, true, false, Option, none, some, List,
  [], ◌∷◌, arith,
}
use gpt2_cpu_runtime.Prelude.Int.{ℤ}
use gpt2_cpu_runtime.Text.{codes, parsed, from_chars_size}
use gpt2_cpu_runtime.Text.Print.{print_size, from_chars_size-print_size}
use gpt2_cpu_runtime.Arguments.{whole, parse_size}
use gpt2_cpu_runtime.Arguments.Tokens.RoundTrip.{print_tokens, parse_tokens-print_tokens}
use gpt2_cpu_runtime.Generate.Options.{
  ExecutionMode, Options, parse_mode, set_option, read_to_end, parse_arguments, finish_options,
  parse_options,
}
use gpt2_cpu_runtime.Generate.Options.Sound.{AreAccepted, check_options_iff}
use gpt2_cpu_runtime.Generate.Options.Values.{AreRead}

abbrev pub print_mode : ExecutionMode → List ℕ
print_mode ExecutionMode.full = codes "full"
print_mode ExecutionMode.cached = codes "cached"

abbrev pub capacity_arguments : Option ℕ → List (List ℕ) → List (List ℕ)
capacity_arguments none rest = rest
capacity_arguments (some n) rest = codes "--capacity" ∷ print_size n ∷ rest

-- Every option is spelled, those with their default values too.
unfoldable pub command_line : Options → List (List ℕ)
command_line options =
    codes "--checkpoint"
    ∷ options.checkpoint
    ∷ codes "--tokens"
    ∷ print_tokens options.tokens
    ∷ codes "--max-new-tokens"
    ∷ print_size options.max_new_tokens
    ∷ codes "--dump-last-logits"
    ∷ options.dump_last_logits
    ∷ codes "--mode"
    ∷ print_mode options.mode
    ∷ codes "--threads"
    ∷ print_size options.threads
    ∷ capacity_arguments options.capacity (codes "--greedy" ∷ [])

parse_size-print_size : (n : ℕ) → n < size_mod → parse_size (print_size n) ≡ ok n
unfolding parse_size
parse_size-print_size n h =
    let read = from_chars_size-print_size n [] h tt in
    let read' : from_chars_size (print_size n) ≡ parsed n [] =
      rw (append-nil (print_size n)) at read in
    rw (read', whole)

parse_mode-print_mode : (m : ExecutionMode) → parse_mode (print_mode m) ≡ ok m
unfolding parse_mode
parse_mode-print_mode ExecutionMode.full = refl
parse_mode-print_mode ExecutionMode.cached = refl

parse_capacity :
    (options : Options)
    → ((n : ℕ) → options.capacity ≡ some n → n < size_mod)
    → parse_arguments
        (capacity_arguments options.capacity (codes "--greedy" ∷ []))
        (record options { capacity = none })
        false
      ≡ ok (read_to_end options true)
unfolding parse_arguments set_option
parse_capacity options small = from options.capacity small
  where
    from :
        (o : Option ℕ)
        → ((n : ℕ) → o ≡ some n → n < size_mod)
        → parse_arguments
            (capacity_arguments o (codes "--greedy" ∷ []))
            (record options { capacity = none })
            false
          ≡ ok (read_to_end (record options { capacity = o }) true)
    from none small = refl
    from (some n) small = step _ (step _ (parse_size-print_size n (small n refl)) refl) refl

-- Accepted options, spelled as a command line, are read back as they are.
pub parse_options-command_line :
    (options : Options)
    → AreAccepted options true
    → AreRead options
    → parse_options (command_line options) ≡ ok (some options)
unfolding parse_options command_line parse_arguments set_option finish_options
parse_options-command_line options accepted are =
    let some_token = nonempty options.tokens accepted.tokens_given in
    step _
      (step _ (step _ (parse_tokens-print_tokens options.tokens are.tokens_lem some_token) refl) (
        step _ (step _ (parse_size-print_size options.max_new_tokens are.max_new_tokens_lem) refl) (
          step _ (step _ (parse_mode-print_mode options.mode) refl) (
            step _ (step _ (parse_size-print_size options.threads are.threads_lem) refl)
              (parse_capacity options are.capacity_lem)))))
      (step _ ((check_options_iff options options true).1 (accepted, refl)) refl)
  where
    nonempty : (ts : List ℤ) → is_empty ts ≡ false → 0 < length ts
    nonempty [] e = absurd (cc)
    nonempty (t ∷ ts) e = omega arith
