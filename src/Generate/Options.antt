-- ===== src/Generate/Options.antt =====
-- The command line of `gpt2_generate`: `Options`, `parse_mode` and `parse_options`.
pub mod Sound
pub mod Values
pub mod Accepted
pub mod CommandLine
use gpt2_cpu_runtime.Prelude.{
  ltb, leb, ◌==◌, if◌then◌else◌, Error, Result, err, ok, ◌>>=◌, guard, ◌>>◌, is_empty, ℕ, Bool,
  true, false, not, ◌&&◌, ◌||◌, Option, none, some, List, [], ◌∷◌,
}
use gpt2_cpu_runtime.Prelude.Int.{ℤ}
use gpt2_cpu_runtime.Text.{codes}
use gpt2_cpu_runtime.Arguments.{parse_size, parse_tokens}

abbrev pub same_text : List ℕ → List ℕ → Bool
same_text [] [] = true
same_text [] (d ∷ t) = false
same_text (c ∷ s) [] = false
same_text (c ∷ s) (d ∷ t) = c == d && same_text s t

pub data ExecutionMode : Type 0 where
  full : ExecutionMode
  cached : ExecutionMode

abbrev pub is_full : ExecutionMode → Bool
is_full ExecutionMode.full = true
is_full ExecutionMode.cached = false

abbrev pub has_value : Option ℕ → Bool
has_value none = false
has_value (some n) = true

pub record Options : Type 0 where
  pub checkpoint : List ℕ
  pub tokens : List ℤ
  pub max_new_tokens : ℕ
  pub dump_last_logits : List ℕ
  pub capacity : Option ℕ
  pub threads : ℕ
  pub mode : ExecutionMode

abbrev pub default_options : Options
default_options = record {
  checkpoint = [];
  tokens = [];
  max_new_tokens = 0;
  dump_last_logits = [];
  capacity = none;
  threads = 1;
  mode = ExecutionMode.full;
}

unfoldable pub parse_mode : List ℕ → Result ExecutionMode
parse_mode text =
    if same_text text (codes "full")
    then ok ExecutionMode.full
    else if same_text text (codes "cached")
    then ok ExecutionMode.cached
    else err (Error.invalid_argument "--mode must be full or cached")

-- The options that take a value. `none`: the argument is no such option.
unfoldable pub set_option : (argument value : List ℕ) → Options → Option (Result Options)
set_option argument value options =
    if same_text argument (codes "--checkpoint")
    then some (ok (record options { checkpoint = value }))
    else if same_text argument (codes "--tokens")
    then some (parse_tokens value >>= λ ts. ok (record options { tokens = ts }))
    else if same_text argument (codes "--max-new-tokens")
    then some (parse_size value >>= λ n. ok (record options { max_new_tokens = n }))
    else if same_text argument (codes "--dump-last-logits")
    then some (ok (record options { dump_last_logits = value }))
    else if same_text argument (codes "--mode")
    then some (parse_mode value >>= λ m. ok (record options { mode = m }))
    else if same_text argument (codes "--capacity")
    then some (parse_size value >>= λ n. ok (record options { capacity = some n }))
    else if same_text argument (codes "--threads")
    then some (parse_size value >>= λ n. ok (record options { threads = n }))
    else none

-- What the loop over the arguments leaves: the usage is printed and the program exits with 0, or
-- the options and `saw_greedy`.
pub data Parsed : Type 0 where
  usage : Parsed
  read_to_end : Options → Bool → Parsed

-- The loop over the arguments from `index` on. An option at the end has no value.
unfoldable pub parse_arguments : List (List ℕ) → Options → Bool → Result Parsed
unfolding set_option
parse_arguments [] options saw_greedy = ok (read_to_end options saw_greedy)
parse_arguments (argument ∷ []) options saw_greedy =
    if same_text argument (codes "--greedy")
    then ok (read_to_end options true)
    else if same_text argument (codes "--help")
    then ok usage
    else err (Error.invalid_argument "unknown or incomplete argument: ")
parse_arguments (argument ∷ value ∷ rest) options saw_greedy =
    elim (set_option argument value options) [
      | some parsed ↦ parsed >>= λ options'. parse_arguments rest options' saw_greedy
      | none ↦
          let greedy = parse_arguments (value ∷ rest) options true in
          if same_text argument (codes "--greedy")
          then greedy
          else if same_text argument (codes "--help")
          then ok usage
          else err (Error.invalid_argument "unknown or incomplete argument: ")
    ]

-- The checks behind the loop.
unfoldable pub check_options : Options → Bool → Result Options
check_options options saw_greedy = do
  guard (not (is_empty options.checkpoint || is_empty options.tokens))
      (Error.invalid_argument "--checkpoint and --tokens are required")
  guard (not (not saw_greedy && not (options.max_new_tokens == 0)))
      (Error.invalid_argument "generation requires --greedy")
  guard (not (is_full options.mode && has_value options.capacity))
      (Error.invalid_argument "--capacity is only valid with --mode cached")
  guard (not (options.threads == 0 || (is_full options.mode && not (options.threads == 1)))) (
      Error.invalid_argument
        "--threads must be positive and only cached mode may use more than one")
  ok options

-- `none`: the program has printed its usage and exits with 0.
unfoldable pub finish_options : Parsed → Result (Option Options)
finish_options usage = ok none
finish_options (read_to_end options saw_greedy) = do
  checked ← check_options options saw_greedy
  ok (some checked)

-- The arguments are those behind the program's name.
unfoldable pub parse_options : List (List ℕ) → Result (Option Options)
unfolding parse_arguments finish_options
parse_options arguments = do
  parsed ← parse_arguments arguments default_options false
  finish_options parsed
