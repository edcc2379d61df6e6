-- ===== src/Benchmark/Options.antt =====
-- The command line of `gpt2_benchmark`.
use gpt2_cpu_runtime.Prelude.{
  max_size, ◌≤◌, ◌-◌, ◌==◌, if◌then◌else◌, Error, Result, err, ok, ◌>>=◌, guard, ◌>>◌, >>=-eq-ok,
  guard-next, is_empty, ℕ, ◌<◌, ◌≡◌, refl, subst, Bool, true, false, not, Option, none, some, List,
  [], ◌∷◌, arith,
}
use gpt2_cpu_runtime.Prelude.Int.{ℤ, pos}
use gpt2_cpu_runtime.Text.{codes}
use gpt2_cpu_runtime.Generate.Options.{same_text}
use gpt2_cpu_runtime.Arguments.{parse_size, parse_tokens}

pub record Options : Type 0 where
  pub checkpoint : List ℕ
  pub tokens : List ℤ
  pub generation_tokens : ℕ
  pub warmup : ℕ
  pub repetitions : ℕ
  pub capacity : ℕ
  pub threads : ℕ
  pub skip_full_prefix : Bool

abbrev pub default_options : Options
default_options = record {
  checkpoint = [];
  tokens = pos 15496 ∷ pos 11 ∷ pos 616 ∷ [];
  generation_tokens = 2;
  warmup = 1;
  repetitions = 5;
  capacity = 0;
  threads = 1;
  skip_full_prefix = false;
}

-- The options that take a value. `none`: the argument is no such option.
unfoldable pub set_option : (argument value : List ℕ) → Options → Option (Result Options)
set_option argument value options =
    if same_text argument (codes "--checkpoint")
    then some (ok (record options { checkpoint = value }))
    else if same_text argument (codes "--tokens")
    then some (parse_tokens value >>= λ ts. ok (record options { tokens = ts }))
    else if same_text argument (codes "--generation-tokens")
    then some (parse_size value >>= λ n. ok (record options { generation_tokens = n }))
    else if same_text argument (codes "--capacity")
    then some (parse_size value >>= λ n. ok (record options { capacity = n }))
    else if same_text argument (codes "--warmup")
    then some (parse_size value >>= λ n. ok (record options { warmup = n }))
    else if same_text argument (codes "--repetitions")
    then some (parse_size value >>= λ n. ok (record options { repetitions = n }))
    else if same_text argument (codes "--threads")
    then some (parse_size value >>= λ n. ok (record options { threads = n }))
    else none

-- The usage is printed and the program exits with 0, or the loop comes to the end.
pub data Parsed : Type 0 where
  usage : Parsed
  read_to_end : Options → Parsed

unfoldable pub parse_arguments : List (List ℕ) → Options → Result Parsed
unfolding set_option
parse_arguments [] options = ok (read_to_end options)
parse_arguments (argument ∷ []) options =
    if same_text argument (codes "--skip-full-prefix")
    then ok (read_to_end (record options { skip_full_prefix = true }))
    else if same_text argument (codes "--help")
    then ok usage
    else err (Error.invalid_argument "unknown or incomplete argument: ")
parse_arguments (argument ∷ value ∷ rest) options = elim (set_option argument value options) [
  | some parsed_value ↦ parsed_value >>= λ options'. parse_arguments rest options'
  | none ↦
      let skipping = parse_arguments (value ∷ rest) (record options { skip_full_prefix = true }) in
      if same_text argument (codes "--skip-full-prefix")
      then skipping
      else if same_text argument (codes "--help")
      then ok usage
      else err (Error.invalid_argument "unknown or incomplete argument: ")
]

-- `none`: the program has printed its usage and exits with 0.
unfoldable pub finish_options : Parsed → Result (Option Options)
finish_options usage = ok none
finish_options (read_to_end options) = do
  guard (not (is_empty options.checkpoint)) (Error.invalid_argument "--checkpoint is required")
  guard (not (options.generation_tokens == 0))
      (Error.invalid_argument "--generation-tokens must be positive")
  guard (not (options.repetitions == 0)) (Error.invalid_argument "--repetitions must be positive")
  guard (not (options.threads == 0)) (Error.invalid_argument "--threads must be positive")
  ok (some options)

unfoldable pub parse_options : List (List ℕ) → Result (Option Options)
unfolding parse_arguments finish_options
parse_options arguments = do
  result ← parse_arguments arguments default_options
  finish_options result

-- What the program accepts has a checkpoint, a token to generate, a repetition and a thread.
pub record IsRunnable (options : Options) : Type 0 where
  pub checkpoint_given : is_empty options.checkpoint ≡ false
  pub generation_pos : 0 < options.generation_tokens
  pub repetitions_pos : 0 < options.repetitions
  pub threads_pos : 0 < options.threads

-- Accepted options whose samples and workers a `std::vector` can hold.
pub record IsSupported (options : Options) : Type 0 where
  pub runnable : IsRunnable options
  pub repetitions_le : options.repetitions ≤ max_size
  pub threads_le : options.threads - 1 ≤ max_size

pub finish_options-IsRunnable :
    (result : Parsed) (options : Options)
    → finish_options result ≡ ok (some options)
    → IsRunnable options
unfolding finish_options
finish_options-IsRunnable usage options e = absurd (cc)
finish_options-IsRunnable (read_to_end o) options e =
    let (e1, h1) = guard-next (not (is_empty o.checkpoint)) _ _ e in
    let (e2, h2) = guard-next (not (o.generation_tokens == 0)) _ _ h1 in
    let (e3, h3) = guard-next (not (o.repetitions == 0)) _ _ h2 in
    let (e4, h4) = guard-next (not (o.threads == 0)) _ _ h3 in
    let same : o ≡ options = cc in
    subst IsRunnable same (record {
      checkpoint_given = not_lem (is_empty o.checkpoint) e1;
      generation_pos = positive o.generation_tokens e2;
      repetitions_pos = positive o.repetitions e3;
      threads_pos = positive o.threads e4;
    })
  where
    not_lem : (b : Bool) → not b ≡ true → b ≡ false
    not_lem true h = absurd (cc)
    not_lem false h = refl

    positive : (n : ℕ) → not (n == 0) ≡ true → 0 < n
    positive n h = ground arith

-- What `parse_options` returns can be run.
pub parse_options-IsRunnable :
    (arguments : List (List ℕ)) (options : Options)
    → parse_options arguments ≡ ok (some options)
    → IsRunnable options
unfolding parse_options
parse_options-IsRunnable arguments options e =
    let (result, _, e') = >>=-eq-ok (parse_arguments arguments default_options) _ e in
    finish_options-IsRunnable result options e'
