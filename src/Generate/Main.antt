-- ===== src/Generate/Main.antt =====
-- `main` of `gpt2_generate`: the whole program, from its arguments to its exit.
use gpt2_cpu_runtime.Prelude.{
  ltb, if◌then◌else◌, le→ltb, Bool-cases, size_mod, streamsize_max, Error, Result, ok, ◌>>=◌, guard,
  ◌>>◌, step, guard-Returns, length, is_empty, ℕ, ◌+◌, ◌-◌, ◌*◌, ◌≤◌, ◌<◌, ◌≡◌, ap, ◌∙◌, inl, inr,
  Bool, false, not, ◌||◌, some, List, [], ◌∷◌, arith,
}
use gpt2_cpu_runtime.Prelude.Int.{ℤ}
use gpt2_cpu_runtime.Float.{Float}
use gpt2_cpu_runtime.Model.Config.{ModelConfig}
use gpt2_cpu_runtime.Model.Tensor.{ModelWeights}
use gpt2_cpu_runtime.Model.Tensor.Lookup.{IsLoaded}
use gpt2_cpu_runtime.Model.Checkpoint.{CheckpointFile, contents, load_checkpoint}
use gpt2_cpu_runtime.Model.Checkpoint.Sound.{load_checkpoint-IsCheckpoint}
use gpt2_cpu_runtime.Model.Forward.Rows.{AreTokens}
use gpt2_cpu_runtime.Generate.Options.{is_full, Options, parse_options}
use gpt2_cpu_runtime.Generate.Options.Accepted.{parse_options-AreAccepted}
use gpt2_cpu_runtime.Generate.Loops.{Generated, OutputFiles, generate_full, generate_cached}
use gpt2_cpu_runtime.Generate.Continuation.{continuation, step_lines, IsRequest}
use gpt2_cpu_runtime.Generate.Continuation.Full.{AcceptsDump, generate_full-Returns}
use gpt2_cpu_runtime.Generate.Continuation.Cached.{chosen_capacity, generate_cached-Returns}
use gpt2_cpu_runtime.Exit.{Exit, success, exit_of, run_options}
use gpt2_cpu_runtime.Generate.Continuation.Room.{HasRoom}

-- The files that the program reads and writes, and the float with given bits.
pub record World (F : Type 0) : Type 0 where
  pub checkpoint_file : List ℕ → CheckpointFile
  pub output_files : OutputFiles F
  pub of_bits : ℕ → F

-- The check of the request against the context.
unfoldable pub check_context : Options → ModelConfig → Result (Unit {0})
check_context options config =
    guard
      (not (
        ltb config.max_sequence_length (length options.tokens)
        || ltb (config.max_sequence_length - length options.tokens) options.max_new_tokens))
      (Error.invalid_argument "requested output exceeds the checkpoint context length")

module _ {F : Type 0} ⦃fl : Float F⦄ (world : World F) where
  unfoldable pub generate : Options → Result (Generated F)
  unfolding check_context
  generate options = do
    w ← load_checkpoint world.of_bits (world.checkpoint_file options.checkpoint)
    check_context options w.config
    if is_full options.mode
        then generate_full world.output_files options w
        else generate_cached world.output_files options w

  unfoldable pub main : List (List ℕ) → Exit (Generated F)
  unfolding generate
  main arguments = run_options generate (parse_options arguments)

  check_context_lem :
      (options : Options) (config : ModelConfig)
      → length options.tokens + options.max_new_tokens ≤ config.max_sequence_length
      → check_context options config ≡ ok tt
  unfolding check_context
  check_context_lem options config h =
      let first = le→ltb config.max_sequence_length (length options.tokens) (omega arith) in
      let second =
        le→ltb (config.max_sequence_length - length options.tokens) options.max_new_tokens
          (omega arith) in
      guard-Returns _ _ (rw (first, second))

  -- What the machine and the capacity must offer to a run with these weights: the tokens are real,
  -- the output stays in the context, the dump is accepted, and the buffers can be counted.
  pub record IsFeasible (options : Options) (w : ModelWeights F) (loaded : IsLoaded w)
      : Type 0 where
    pub valid : AreTokens w.config.vocabulary_size options.tokens
    pub within : length options.tokens + options.max_new_tokens ≤ w.config.max_sequence_length
    pub hidden_fits :
        (length options.tokens + options.max_new_tokens) * (4 * w.config.channels) < size_mod
    pub logits_fit :
        (length options.tokens + options.max_new_tokens) * w.config.padded_vocabulary_size
        < size_mod
    pub dump_fits : w.config.padded_vocabulary_size * 4 ≤ streamsize_max
    pub dump_accepted : AcceptsDump world.output_files options.dump_last_logits
    pub cached_lem :
        is_full options.mode ≡ false
        → HasRoom options (chosen_capacity w loaded options)
          × (chosen_capacity w loaded options ≤ w.config.max_sequence_length)
          × (2 * (w.config.num_layers * (chosen_capacity w loaded options * w.config.channels)) * 4
              < size_mod)

  -- When the arguments are accepted, the checkpoint is loaded and the run is feasible, the program
  -- ends with success in both modes and for any number of threads, in the cached mode one whose
  -- workers a `std::vector` can hold. It has generated and printed the
  -- continuation of the prompt that the reference network gives, token by token.
  pub main-continuation :
      (arguments : List (List ℕ)) (options : Options) (bytes : List ℕ) (reads : ℕ → Bool)
      (w : ModelWeights F)
      → parse_options arguments ≡ ok (some options)
      → world.checkpoint_file options.checkpoint ≡ contents bytes reads
      → (e : load_checkpoint world.of_bits (contents bytes reads) ≡ ok w)
      → IsFeasible options w (load_checkpoint-IsCheckpoint world.of_bits bytes reads w e).loaded
      → (out : Generated F) × (main arguments ≡ success out)
        × (out.tokens ≡ continuation w options.tokens options.max_new_tokens)
        × (out.steps ≡ step_lines w options.tokens options.max_new_tokens)
  unfolding main generate
  main-continuation arguments options bytes reads w parsed_lem opened e feasible =
      let checkpoint = load_checkpoint-IsCheckpoint world.of_bits bytes reads w e in
      let loaded = checkpoint.loaded in
      let (_, (g, accepted)) = parse_options-AreAccepted arguments options parsed_lem in
      let request : IsRequest w options.tokens options.max_new_tokens = record {
        nonempty = nonempty options.tokens accepted.tokens_given;
        valid = feasible.valid;
        within = feasible.within;
        named = omega (arith, checkpoint.dimensions.vocabulary_size_lt);
        hidden_fits = feasible.hidden_fits;
        logits_fit = feasible.logits_fit;
      } in
      let small : w.config.vocabulary_size * 4 ≤ streamsize_max =
        omega (arith, loaded.is_valid.vocabulary_size_le, feasible.dump_fits) in
      let inside = check_context_lem options w.config feasible.within in
      let opens : load_checkpoint world.of_bits (world.checkpoint_file options.checkpoint) ≡ ok w =
        ap (load_checkpoint world.of_bits) opened ∙ e in
      elim (Bool-cases (is_full options.mode)) [
        | inl all_at_once ↦
            let (out, run, done) =
              generate_full-Returns w loaded world.output_files options request
                feasible.dump_accepted feasible.dump_fits in
            let whole : generate options ≡ ok out =
              step _ opens (step _ inside (rw all_at_once run)) in
            (
              out,
              ap (run_options generate) parsed_lem ∙ ap exit_of whole,
              done.tokens_lem,
              done.steps_lem,
            )
        | inr one_by_one ↦
            let (room, le, fits) = feasible.cached_lem one_by_one in
            let (out, run, done) =
              generate_cached-Returns w loaded world.output_files options request room le fits
                accepted.threads_pos feasible.dump_accepted small in
            let whole : generate options ≡ ok out =
              step _ opens (step _ inside (rw one_by_one run)) in
            (
              out,
              ap (run_options generate) parsed_lem ∙ ap exit_of whole,
              done.tokens_lem,
              done.steps_lem,
            )
      ]
    where
      nonempty : (ts : List ℤ) → is_empty ts ≡ false → 0 < length ts
      nonempty [] e = absurd (cc)
      nonempty (t ∷ ts) e = omega arith
