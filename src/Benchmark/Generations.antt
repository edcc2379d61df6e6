-- ===== src/Benchmark/Generations.antt =====
-- The two generations that `gpt2_benchmark` times compute the continuation of the prompt.
use gpt2_cpu_runtime.Prelude.{
  lt→ltb, ok, Returns, step, for_range-Returns, length, ℕ, zero, suc, ◌+◌, ◌-◌, ◌≤◌, ◌<◌, ◌≡◌, refl,
  ap, ◌∙◌, Option, List, [], arith,
}
use gpt2_cpu_runtime.Prelude.Int.{ℤ}
use gpt2_cpu_runtime.Float.{Float}
use gpt2_cpu_runtime.Model.Tensor.{ModelWeights}
use gpt2_cpu_runtime.Model.Tensor.Lookup.{IsLoaded}
use gpt2_cpu_runtime.Model.Forward.{forward}
use gpt2_cpu_runtime.Model.Forward.Rows.{forward-Returns}
use gpt2_cpu_runtime.Session.State.{Session}
use gpt2_cpu_runtime.Session.State.Stages.{IsExecutor}
use gpt2_cpu_runtime.Session.Api.Protocol.{prefill-IsSession}
use gpt2_cpu_runtime.Generate.Greedy.{greedy_token}
use gpt2_cpu_runtime.Generate.Loops.{push_token}
use gpt2_cpu_runtime.Generate.Continuation.{
  greedy_next, continuation, length-continuation, IsRequest, continuation-IsPrompt,
}
use gpt2_cpu_runtime.Generate.Continuation.Full.{last_row, real_row}
use gpt2_cpu_runtime.Benchmark.Run.{
  FullRun, CachedRun, full_round, run_full, cached_round, run_cached,
}
use gpt2_cpu_runtime.Session.Api.{prefill}
use gpt2_cpu_runtime.Generate.Continuation.Room.{consumed_after}
use gpt2_cpu_runtime.Generate.Continuation.Rounds.{session_logits, after_round}
use gpt2_cpu_runtime.Session.Api.Consumed.{IsSession}

module _ {F : Type 0} ⦃fl : Float F⦄ (w : ModelWeights F) (loaded : IsLoaded w) (prompt : List ℤ)
    (count : ℕ) (request : IsRequest w prompt count) where
  open w.config use {vocabulary_size, max_sequence_length, num_layers, channels}

  full_round-Returns :
      (k : ℕ) (run : FullRun F)
      → k < count
      → run.full_tokens ≡ continuation w prompt k
      → Returns (full_round w k run) λ out. out.full_tokens ≡ continuation w prompt (suc k)
  unfolding full_round continuation greedy_next
  full_round-Returns k run lt now =
      let tokens = continuation w prompt k in
      let is_prompt = continuation-IsPrompt w loaded prompt count k request (omega arith) in
      let (ws, e, has) = forward-Returns w loaded tokens is_prompt run.full_workspace in
      let e' : forward w run.full_tokens run.full_workspace ≡ ok ws =
        ap (λ (ts : List ℤ). forward w ts run.full_workspace) now ∙ e in
      (
        _,
        step _ e' (
            step _ (last_row w loaded tokens ws is_prompt has)
              (step _ (real_row w loaded tokens) refl)),
        ap (λ (ts : List ℤ). push_token ts (greedy_next w tokens)) now,
      )

  pub run_full-Returns :
      (run : FullRun F)
      → run.full_tokens ≡ prompt
      → Returns (run_full w count run) λ out. out.last_full_tokens ≡ continuation w prompt count
  unfolding run_full continuation
  run_full-Returns run e =
      let (out, e1, done) =
        for_range-Returns (λ k r. r.full_tokens ≡ continuation w prompt k) (full_round w) count run
          (λ k r lt now. full_round-Returns k r lt now) e in
      (_, step _ e1 refl, done)

  module _ (executor : Option ℕ) (is_executor : IsExecutor executor) (capacity : ℕ)
      (room : length prompt + (count - 1) ≤ capacity) where
    -- A session of the capacity, whatever it has consumed.
    abbrev pub IsKept : Session F → Type 0
    IsKept s = (ts : List ℤ) × IsSession w loaded ts capacity s

    record IsCachedRun (k : ℕ) (run : CachedRun F) : Type 0 where
      tokens_lem : run.cached_tokens ≡ continuation w prompt k
      session_lem :
          IsSession w loaded (continuation w prompt (consumed_after count k)) capacity run.session

    cached_round-Returns :
        (k : ℕ) (run : CachedRun F)
        → k < count
        → IsCachedRun k run
        → Returns (cached_round executor w count k run) (IsCachedRun (suc k))
    unfolding cached_round continuation greedy_next
    cached_round-Returns k run lt now =
        let tokens = continuation w prompt k in
        let next = greedy_next w tokens in
        let size = length-continuation w prompt k in
        let session : IsSession w loaded tokens capacity run.session =
          rw (lt→ltb k count lt) at now.session_lem in
        let logits =
          session_logits w loaded capacity tokens run.session session
            (omega (arith, size, request.nonempty)) in
        let picked : greedy_token run.session.logits ≡ next = ap greedy_token logits in
        let (s', e, next_session) =
          after_round w loaded capacity executor is_executor prompt count k run.session request room
            lt session in
        (
          record run { session = s'; cached_tokens = push_token run.cached_tokens next },
          rw picked (step _ e refl),
          record {
            tokens_lem = ap (λ (ts : List ℤ). push_token ts next) now.tokens_lem;
            session_lem = next_session;
          },
        )

    pub run_cached-Returns :
        (run : CachedRun F)
        → run.cached_tokens ≡ prompt
        → IsSession w loaded [] capacity run.session
        → Returns
            (run_cached executor w count run)
            λ out. IsKept out.session × (out.last_cached_tokens ≡ continuation w prompt count)
    unfolding run_cached continuation
    run_cached-Returns run e empty =
        let (s1, e1, filled) =
          prefill-IsSession w loaded executor capacity prompt run.session is_executor empty
            request.nonempty (omega arith) request.valid in
        let e1' : prefill executor w run.cached_tokens run.session ≡ ok s1 =
          ap (λ (ts : List ℤ). prefill executor w ts run.session) e ∙ e1 in
        let (out, e2, done) =
          for_range-Returns IsCachedRun (cached_round executor w count) count
            (record run { session = s1 }) (λ k r lt now. cached_round-Returns k r lt now)
            (record { tokens_lem = e; session_lem = rw (first_round count) filled }) in
        (_, step _ e1' (step _ e2 refl), ((_, done.session_lem), done.tokens_lem))
      where
        first_round : (m : ℕ) → consumed_after m 0 ≡ 0
        first_round zero = refl
        first_round (suc m) = rw (lt→ltb 0 (suc m) (omega arith))
