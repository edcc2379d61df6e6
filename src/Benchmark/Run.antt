-- ===== src/Benchmark/Run.antt =====
-- What `main` of `gpt2_benchmark` checks, measures and compares.
use mathlib.Core.Option
use gpt2_cpu_runtime.Prelude.{
  ltb, ◌==◌, if◌then◌else◌, wadd, Error, Result, ok, ◌>>=◌, guard, ◌>>◌, step, for_range, length, ℕ,
  ◌+◌, ◌-◌, Bool, true, false, not, ◌&&◌, ◌||◌, Option, none, some, List, [], ◌∷◌,
}
use gpt2_cpu_runtime.Prelude.Int.{ℤ, pos, negsuc}
use gpt2_cpu_runtime.Float.{Float}
use gpt2_cpu_runtime.Buffer.{subspan}
use gpt2_cpu_runtime.Model.Config.{ModelConfig}
use gpt2_cpu_runtime.Model.Tensor.{ModelWeights}
use gpt2_cpu_runtime.Model.Workspace.{Workspace, empty_workspace}
use gpt2_cpu_runtime.Model.Forward.{bad_token, forward}
use gpt2_cpu_runtime.Session.State.{Session, make_session}
use gpt2_cpu_runtime.Session.Api.{prefill, decode, reset}
use gpt2_cpu_runtime.Generate.Greedy.{greedy_token}
use gpt2_cpu_runtime.Generate.Loops.{push_token, choose_executor, last}
use gpt2_cpu_runtime.Benchmark.Options.{Options}
use gpt2_cpu_runtime.Benchmark.Samples.{Measured, measure}
use gpt2_cpu_runtime.Benchmark.Machine.{cpu_model}

-- The capacity of the benchmark's sessions: zero stands for the whole context.
abbrev pub benchmark_capacity : Options → ModelConfig → ℕ
benchmark_capacity options config =
    if options.capacity == 0 then config.max_sequence_length else options.capacity

-- The loop over the tokens of the request.
unfoldable pub check_benchmark_tokens : ℕ → List ℤ → Result (Unit {0})
check_benchmark_tokens vocabulary_size [] = ok tt
check_benchmark_tokens vocabulary_size (token ∷ tokens) = do
  guard (not (bad_token vocabulary_size token))
      (Error.invalid_argument "benchmark token is outside the real vocabulary")
  check_benchmark_tokens vocabulary_size tokens

-- The checks of the request.
unfoldable pub check_request : Options → ModelConfig → ℕ → Result (Unit {0})
unfolding check_benchmark_tokens
check_request options config capacity = do
  guard
      (not (
        ltb config.max_sequence_length (length options.tokens)
        || ltb (config.max_sequence_length - length options.tokens) options.generation_tokens))
      (Error.invalid_argument "benchmark generation exceeds model context length")
  -- not zero, since there is a token to generate
  let consumed_for_generation = wadd (length options.tokens) options.generation_tokens - 1
  guard (not (ltb capacity consumed_for_generation || ltb config.max_sequence_length capacity))
      (Error.invalid_argument "benchmark capacity cannot hold generation state")
  check_benchmark_tokens config.vocabulary_size options.tokens

-- The tokens that are being generated by full passes, with their workspace, and the last result.
pub record FullRun (F : Type 0) : Type 0 where
  pub full_workspace : Workspace F
  pub full_tokens : List ℤ
  pub last_full_tokens : List ℤ

-- The same with a session.
pub record CachedRun (F : Type 0) : Type 0 where
  pub session : Session F
  pub cached_tokens : List ℤ
  pub last_cached_tokens : List ℤ

-- operator== of token vectors
abbrev pub same_tokens : List ℤ → List ℤ → Bool
same_tokens [] [] = true
same_tokens [] (u ∷ us) = false
same_tokens (t ∷ ts) [] = false
same_tokens (pos a ∷ ts) (pos b ∷ us) = a == b && same_tokens ts us
same_tokens (negsuc a ∷ ts) (negsuc b ∷ us) = a == b && same_tokens ts us
same_tokens (pos a ∷ ts) (negsuc b ∷ us) = false
same_tokens (negsuc a ∷ ts) (pos b ∷ us) = false

-- not (full_generation && last_cached_tokens != last_full_tokens)
abbrev pub agrees : Option (List ℤ) → List ℤ → Bool
agrees none cached = true
agrees (some full) cached = same_tokens cached full

-- The last tokens of the full generation, when there was one.
abbrev pub last_tokens : {F D : Type 0} → Option (Measured (FullRun F) D) → Option (List ℤ)
last_tokens full = Option.map (λ m. m.subject.last_full_tokens) full

-- What stands before the decode is measured.
pub record Prepared (F : Type 0) : Type 0 where
  pub executor : Option ℕ
  pub session : Session F
  pub readings : ℕ

-- The samples of the generations, what they leave, and the number of clock readings.
pub record Generations (F D : Type 0) : Type 0 where
  pub full_generation : Option (List D)
  pub cached_generation : List D
  pub session : Session F
  pub generated_tokens : List ℤ
  pub readings : ℕ

module _ {F : Type 0} ⦃fl : Float F⦄ where
  -- The operation of `full_prefix_generation`.
  unfoldable pub full_round : ModelWeights F → ℕ → FullRun F → Result (FullRun F)
  full_round w step run = do
    ws ← forward w run.full_tokens run.full_workspace
    padded ← last ws.logits w.config.padded_vocabulary_size
    real ← subspan padded 0 w.config.vocabulary_size
    ok (record run {
      full_workspace = ws;
      full_tokens = push_token run.full_tokens (greedy_token real);
    })

  unfoldable pub run_full : ModelWeights F → ℕ → FullRun F → Result (FullRun F)
  unfolding full_round
  run_full w generation_tokens run = do
    done ← for_range generation_tokens 0 (full_round w) run
    ok (record done { last_full_tokens = done.full_tokens })

  unfoldable pub start_full : List ℤ → FullRun F → Result (FullRun F)
  start_full tokens run = ok (record run { full_tokens = tokens })

  -- The operation of `cached_generation`.
  unfoldable pub cached_round :
      Option ℕ → ModelWeights F → ℕ → ℕ → CachedRun F → Result (CachedRun F)
  cached_round executor w generation_tokens step run = do
    let next = greedy_token run.session.logits
    session ←
        if ltb (step + 1) generation_tokens
        then decode executor w next run.session
        else ok run.session
    ok (record run { session = session; cached_tokens = push_token run.cached_tokens next })

  unfoldable pub run_cached : Option ℕ → ModelWeights F → ℕ → CachedRun F → Result (CachedRun F)
  unfolding cached_round
  run_cached executor w generation_tokens run = do
    session ← prefill executor w run.cached_tokens run.session
    done ←
        for_range generation_tokens 0 (cached_round executor w generation_tokens)
          (record run { session = session })
    ok (record done { last_cached_tokens = done.cached_tokens })

  unfoldable pub start_cached : List ℤ → CachedRun F → Result (CachedRun F)
  start_cached tokens run = ok (record run { session = reset run.session; cached_tokens = tokens })

  -- The set-up and the operation of `prefill`, and of `single_decode`.
  unfoldable pub start_prefill : Session F → Result (Session F)
  start_prefill s = ok (reset s)

  unfoldable pub start_decode : Option ℕ → ModelWeights F → List ℤ → Session F → Result (Session F)
  start_decode executor w tokens s = prefill executor w tokens (reset s)

  -- A kept session that is made again in each round.
  unfoldable pub make_again : ModelWeights F → ℕ → Option (Session F) → Result (Option (Session F))
  make_again w capacity made = make_session w capacity >>= λ s. ok (some s)

  unfoldable pub no_session : Option (Session F) → Result (Option (Session F))
  no_session made = ok none

  -- The measurement of `full_prefix_generation`, which may be skipped, and the number of clock
  -- readings.
  unfoldable pub measure_full :
      {D : Type 0} (elapsed : ℕ → D)
      → Options
      → ModelWeights F
      → ℕ
      → Result (Option (Measured (FullRun F) D) × ℕ)
  unfolding run_full start_full
  measure_full elapsed options w readings =
      if options.skip_full_prefix then ok (none, readings) else do
        full ←
            measure elapsed (start_full options.tokens) (run_full w options.generation_tokens)
              options.warmup options.repetitions
              (record { full_workspace = empty_workspace; full_tokens = []; last_full_tokens = [] })
              readings
        ok (some full, full.readings)

  -- `main` behind the loading of the model, up to the decode: the executor, the checks, and the
  -- measurements of the session's creation and of its prefill, with a prefill behind them.
  unfoldable pub prepare :
      {D : Type 0} (elapsed : ℕ → D) (cpuinfo : List (List ℕ))
      → Options
      → ModelWeights F
      → Result (Prepared F)
  unfolding start_prefill make_again no_session
  prepare elapsed cpuinfo options w = do
    executor ← choose_executor options.threads
    let capacity = benchmark_capacity options w.config
    check_request options w.config capacity
    model_name ← cpu_model cpuinfo
    creation ←
        measure elapsed no_session (make_again w capacity) options.warmup options.repetitions none 0
    session ← make_session w capacity
    prefilled ←
        measure elapsed start_prefill (prefill executor w options.tokens) options.warmup
          options.repetitions session creation.readings
    first ← prefill executor w options.tokens (reset prefilled.subject)
    ok (record { executor = executor; session = first; readings = prefilled.readings })

  -- The measurements of a decode and of both generations, and the comparison of the two.
  unfoldable pub benchmark :
      {D : Type 0} (elapsed : ℕ → D) (cpuinfo : List (List ℕ))
      → Options
      → ModelWeights F
      → Result (Generations F D)
  unfolding prepare measure_full run_cached start_cached start_decode
  benchmark elapsed cpuinfo options w = do
    prepared ← prepare elapsed cpuinfo options w
    let executor = prepared.executor
    let decode_input = greedy_token prepared.session.logits
    decoded ←
        measure elapsed (start_decode executor w options.tokens) (decode executor w decode_input)
          options.warmup options.repetitions prepared.session prepared.readings
    full ← measure_full elapsed options w decoded.readings
    cached ←
        measure elapsed (start_cached options.tokens)
          (run_cached executor w options.generation_tokens) options.warmup options.repetitions
          (record { session = decoded.subject; cached_tokens = []; last_cached_tokens = [] }) full.1
    guard (agrees (last_tokens full.0) cached.subject.last_cached_tokens)
        (Error.runtime_error "full and cached benchmark generation diverged")
    ok (record {
      full_generation = Option.map (λ m. m.milliseconds) full.0;
      cached_generation = cached.milliseconds;
      session = cached.subject.session;
      generated_tokens = cached.subject.last_cached_tokens;
      readings = cached.readings;
    })
