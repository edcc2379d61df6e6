-- ===== src/Generate/Loops.antt =====
-- The generation loops of `gpt2_generate`: `generate_full` and `generate_cached`.
use gpt2_cpu_runtime.Prelude.{
  ltb, leb, ◌==◌, if◌then◌else◌, streamsize_max, wadd, wmul, Error, Result, err, ok, ◌>>=◌, guard,
  ◌>>◌, step, for_range, length, drop, is_empty, ℕ, ◌+◌, ◌-◌, Bool, not, ◌&&◌, ◌||◌, Option, none,
  some, List, [], ◌∷◌, ◌++◌,
}
use gpt2_cpu_runtime.Prelude.Int.{ℤ}
use gpt2_cpu_runtime.Float.{Float}
use gpt2_cpu_runtime.Buffer.{subspan}
use gpt2_cpu_runtime.Model.Tensor.{ModelWeights}
use gpt2_cpu_runtime.Model.Workspace.{Workspace, empty_workspace}
use gpt2_cpu_runtime.Model.Forward.{forward}
use gpt2_cpu_runtime.Executor.{make_executor}
use gpt2_cpu_runtime.Session.State.{Session, make_session}
use gpt2_cpu_runtime.Session.Api.{prefill, decode}
use gpt2_cpu_runtime.Generate.Options.{Options}
use gpt2_cpu_runtime.Generate.Greedy.{greedy_token}

-- A line of `print_step`.
pub record Step : Type 0 where
  pub number : ℕ
  pub prefix_length : ℕ
  pub next_token : ℤ

-- What the program leaves: its tokens, the lines it has printed, and the values it has dumped.
pub record Generated (F : Type 0) : Type 0 where
  pub tokens : List ℤ
  pub steps : List Step
  pub dumped : Option (List F)

-- The output files: whether a path can be opened for writing, and whether a write succeeds.
pub record OutputFiles (F : Type 0) : Type 0 where
  pub opens : List ℕ → Bool
  pub writes : List ℕ → List F → Bool

abbrev pub value_or : Option ℕ → ℕ → ℕ
value_or none other = other
value_or (some n) other = n

-- `push_back` of the next token, and the line of `print_step`.
abbrev pub push_token : List ℤ → ℤ → List ℤ
push_token tokens next = tokens ++ (next ∷ [])

abbrev pub print_step : List Step → ℕ → List ℤ → ℤ → List Step
print_step steps number tokens next =
    steps ++ (record { number = number; prefix_length = length tokens - 1; next_token = next } ∷ [])

pub record FullState (F : Type 0) : Type 0 where
  pub tokens : List ℤ
  pub steps : List Step
  pub workspace : Workspace F

pub record CachedState (F : Type 0) : Type 0 where
  pub tokens : List ℤ
  pub steps : List Step
  pub session : Session F
  pub final_generated : Option ℤ

-- The positions that `generate_cached` will consume.
unfoldable pub required_positions : Options → ℕ
required_positions options =
    let generated = if options.max_new_tokens == 0 then 0 else options.max_new_tokens - 1 in
    let dump =
      if not (is_empty options.dump_last_logits) && not (options.max_new_tokens == 0)
      then 1
      else 0 in
    wadd (wadd (length options.tokens) generated) dump

-- An executor is made for other numbers of threads than one.
unfoldable pub choose_executor : ℕ → Result (Option ℕ)
choose_executor threads =
    if threads == 1 then ok none else make_executor threads >>= λ total. ok (some total)

module _ {F : Type 0} ⦃fl : Float F⦄ where
  -- `span::last(count)`, where more than the span holds is undefined.
  unfoldable pub last : List F → ℕ → Result (List F)
  last xs count =
      if leb count (length xs) then ok (drop (length xs - count) xs) else err Error.fault

  unfoldable pub dump_binary : OutputFiles F → List ℕ → List F → Result (Unit {0})
  dump_binary files path values = do
    guard (files.opens path) (Error.runtime_error "cannot open logits output: ")
    guard (not (ltb streamsize_max (wmul (length values) 4)))
        (Error.overflow_error "logits output is too large for stream I/O")
    guard (files.writes path values) (Error.runtime_error "failed to write logits output: ")
    ok tt

  -- A round of the loop of `generate_full`.
  unfoldable pub full_step : ModelWeights F → ℕ → FullState F → Result (FullState F)
  full_step w step st = do
    ws ← forward w st.tokens st.workspace
    padded ← last ws.logits w.config.padded_vocabulary_size
    real_vocabulary ← subspan padded 0 w.config.vocabulary_size
    let next = greedy_token real_vocabulary
    let tokens = push_token st.tokens next
    ok (record {
      tokens = tokens;
      steps = print_step st.steps (step + 1) tokens next;
      workspace = ws;
    })

  -- The dump at the end of `generate_full`: the last row of the padded logits.
  unfoldable pub dump_full :
      OutputFiles F → ModelWeights F → List ℕ → Workspace F → Result (Option (List F))
  unfolding last dump_binary
  dump_full files w path ws = if is_empty path then ok none else do
    padded ← last ws.logits w.config.padded_vocabulary_size
    _ ← dump_binary files path padded
    ok (some padded)

  unfoldable pub generate_full : OutputFiles F → Options → ModelWeights F → Result (Generated F)
  unfolding full_step dump_full
  generate_full files options w = do
    st ←
        for_range options.max_new_tokens 0 (full_step w)
          (record { tokens = options.tokens; steps = []; workspace = empty_workspace })
    ws ←
        if options.max_new_tokens == 0 || not (is_empty options.dump_last_logits)
        then forward w st.tokens st.workspace
        else ok st.workspace
    dumped ← dump_full files w options.dump_last_logits ws
    ok (record { tokens = st.tokens; steps = st.steps; dumped = dumped })

  -- A round of the loop of `generate_cached`. The last token is not decoded.
  unfoldable pub cached_step :
      Option ℕ → ModelWeights F → ℕ → ℕ → CachedState F → Result (CachedState F)
  cached_step executor w max_new_tokens step st = do
    let next = greedy_token st.session.logits
    let tokens = push_token st.tokens next
    session ←
        if ltb (step + 1) max_new_tokens then decode executor w next st.session else ok st.session
    ok (record {
      tokens = tokens;
      steps = print_step st.steps (step + 1) tokens next;
      session = session;
      final_generated = some next;
    })

  -- The dump at the end of `generate_cached`: it consumes the final token first.
  unfoldable pub dump_cached :
      OutputFiles F → Option ℕ → ModelWeights F → List ℕ → CachedState F → Result (Option (List F))
  unfolding dump_binary
  dump_cached files executor w path st = if is_empty path then ok none else do
    session ← elim st.final_generated [
      | some token ↦ decode executor w token st.session
      | none ↦ ok st.session
    ]
    _ ← dump_binary files path session.logits
    ok (some session.logits)

  unfoldable pub generate_cached : OutputFiles F → Options → ModelWeights F → Result (Generated F)
  unfolding cached_step dump_cached required_positions choose_executor
  generate_cached files options w = do
    let capacity = value_or options.capacity w.config.max_sequence_length
    guard (not (ltb capacity (required_positions options)))
        (Error.invalid_argument "session capacity is too small for requested computation")
    fresh ← make_session w capacity
    executor ← choose_executor options.threads
    session ← prefill executor w options.tokens fresh
    st ←
        for_range options.max_new_tokens 0 (cached_step executor w options.max_new_tokens) (record {
          tokens = options.tokens;
          steps = [];
          session = session;
          final_generated = none;
        })
    dumped ← dump_cached files executor w options.dump_last_logits st
    ok (record { tokens = st.tokens; steps = st.steps; dumped = dumped })
