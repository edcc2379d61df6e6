-- ===== src/Benchmark/Prepared.antt =====
-- What `gpt2_benchmark` measures before the decode, and its full generation.
use mathlib.Core.Option
use gpt2_cpu_runtime.Prelude.{
  ◌==◌, eq→==, Bool-cases, size_mod, ok, Returns, step, length, ℕ, ◌+◌, ◌-◌, ◌*◌, ◌≤◌, ◌<◌, ◌≡◌,
  refl, inl, inr, true, Option, none, some, List, [], ◌∷◌, ◌++◌, arith,
}
use gpt2_cpu_runtime.Prelude.Int.{ℤ, pos, negsuc}
use gpt2_cpu_runtime.Float.{Float}
use gpt2_cpu_runtime.Model.Tensor.{ModelWeights}
use gpt2_cpu_runtime.Model.Tensor.Lookup.{IsLoaded}
use gpt2_cpu_runtime.Session.State.{Session}
use gpt2_cpu_runtime.Session.State.Stages.{IsExecutor}
use gpt2_cpu_runtime.Session.Api.Protocol.{prefill-IsSession, decode-IsSession, reset-IsSession}
use gpt2_cpu_runtime.Generate.Continuation.{greedy_next, continuation, greedy_next_lem, IsRequest}
use gpt2_cpu_runtime.Benchmark.Run.{
  benchmark_capacity, check_request, FullRun, same_tokens, agrees, last_tokens, Prepared, run_full,
  start_full, run_cached, start_cached, start_prefill, start_decode, make_again, no_session,
  measure_full, prepare,
}
use gpt2_cpu_runtime.Session.Api.Fresh.{make_session-IsSession}
use gpt2_cpu_runtime.Benchmark.Options.{Options, IsSupported}
use gpt2_cpu_runtime.Session.Api.{prefill, decode, reset}
use gpt2_cpu_runtime.Benchmark.Samples.{Measured, measure, measure-Returns}
use gpt2_cpu_runtime.Model.Workspace.{empty_workspace}
use gpt2_cpu_runtime.Benchmark.Generations.{run_full-Returns, run_cached-Returns}
use gpt2_cpu_runtime.Generate.Greedy.{greedy_token}
use gpt2_cpu_runtime.Generate.Continuation.Room.{choose_executor-Returns}
use gpt2_cpu_runtime.Generate.Continuation.Rounds.{session_next}
use gpt2_cpu_runtime.Session.Api.Consumed.{IsSession}
use gpt2_cpu_runtime.Benchmark.Machine.{cpu_model}

same_tokens_self : (ts : List ℤ) → same_tokens ts ts ≡ true
same_tokens_self [] = refl
same_tokens_self (pos a ∷ ts) =
    let e : (a == a) ≡ true = eq→== a a refl in rw (e, same_tokens_self ts)
same_tokens_self (negsuc a ∷ ts) =
    let e : (a == a) ≡ true = eq→== a a refl in rw (e, same_tokens_self ts)

module _ {F : Type 0} ⦃fl : Float F⦄ (w : ModelWeights F) (loaded : IsLoaded w) (prompt : List ℤ)
    (count : ℕ) (request : IsRequest w prompt count) where
  open w.config use {vocabulary_size, max_sequence_length, num_layers, channels}

  module _ {D : Type 0} (elapsed : ℕ → D) (options : Options) (supported : IsSupported options)
      (same_prompt : options.tokens ≡ prompt) (same_count : options.generation_tokens ≡ count) where
    abbrev capacity : ℕ
    capacity = benchmark_capacity options w.config

    -- What the measurement of the full generation leaves, when it is made.
    pub record IsMeasured (out : Option (Measured (FullRun F) D) × ℕ) : Type 0 where
      pub agreed : agrees (last_tokens out.0) (continuation w prompt count) ≡ true
      pub full_count :
          (samples : List D)
          → Option.map (λ m. m.milliseconds) out.0 ≡ some samples
          → length samples ≡ options.repetitions

    pub measure_full-Returns :
        (readings : ℕ) → Returns (measure_full elapsed options w readings) IsMeasured
    unfolding measure_full start_full
    measure_full-Returns readings = elim (Bool-cases options.skip_full_prefix) [
      | inl skipped ↦
          rw skipped (_, refl, record { agreed = refl; full_count = λ samples e. absurd (cc) })
      | inr measured ↦
          let (out, e, (done, size)) =
            measure-Returns elapsed (start_full options.tokens)
              (run_full w options.generation_tokens) (λ run. Unit {0})
              (λ run. run.full_tokens ≡ prompt)
              (λ run. run.last_full_tokens ≡ continuation w prompt count) options.warmup
              options.repetitions
              (record { full_workspace = empty_workspace; full_tokens = []; last_full_tokens = [] })
              readings (λ run p. (record run { full_tokens = options.tokens }, refl, same_prompt))
              (λ run e. rw same_count (run_full-Returns w loaded prompt count request run e))
              (λ run r. tt) tt supported.runnable.repetitions_pos supported.repetitions_le in
          rw measured (
            _,
            step _ e refl,
            record {
              agreed = rw done (same_tokens_self (continuation w prompt count));
              full_count =
                  λ samples e'. let same : out.milliseconds ≡ samples = cc in rw (← same) size;
            },
          )
    ]

    -- The capacity holds the prompt, and can be allocated.
    pub record IsAllocated : Type 0 where
      pub prompt_le : length prompt ≤ capacity
      pub capacity_le : capacity ≤ max_sequence_length
      pub cache_fits : 2 * (num_layers * (capacity * channels)) * 4 < size_mod

    -- Before the decode, the session has consumed the prompt.
    pub record IsPrepared (prepared : Prepared F) : Type 0 where
      pub is_executor : IsExecutor prepared.executor
      pub filled : IsSession w loaded prompt capacity prepared.session

    -- A prefill of an empty session with the prompt of the request.
    pub fill :
        IsAllocated
        → (executor : Option ℕ) → IsExecutor executor
        → (s : Session F) → IsSession w loaded [] capacity s
        → Returns (prefill executor w options.tokens s) (IsSession w loaded prompt capacity)
    fill room executor is_executor s empty = rw same_prompt (
        prefill-IsSession w loaded executor capacity prompt s is_executor empty request.nonempty
          (omega (arith, room.prompt_le)) request.valid)

    pub prepare-Returns :
        IsAllocated
        → check_request options w.config capacity ≡ ok tt
        → (cpuinfo : List (List ℕ)) → Returns (cpu_model cpuinfo) (λ name. Unit {0})
        → Returns (prepare elapsed cpuinfo options w) IsPrepared
    unfolding prepare no_session make_again start_prefill
    prepare-Returns room checked cpuinfo (name, named, _) =
        let (executor, e0, is_executor) =
          choose_executor-Returns options.threads supported.runnable.threads_pos
            supported.threads_le in
        let fills = fill room executor is_executor in
        let made =
          make_session-IsSession w loaded capacity (omega (arith, room.prompt_le, request.nonempty))
            room.capacity_le room.cache_fits in
        let (m1, e1, _) =
          measure-Returns elapsed no_session (make_again w capacity) (λ o. Unit {0}) (λ o. Unit {0})
            (λ o. Unit {0}) options.warmup options.repetitions none 0 (λ o p. (none, refl, tt))
            (λ o p. (_, step _ made.1 refl, tt)) (λ o p. p) tt supported.runnable.repetitions_pos
            supported.repetitions_le in
        let (m2, e2, (kept, _)) =
          measure-Returns elapsed start_prefill (prefill executor w options.tokens)
            (λ s. (ts : List ℤ) × IsSession w loaded ts capacity s) (IsSession w loaded [] capacity)
            (IsSession w loaded prompt capacity) options.warmup options.repetitions made.0
            m1.readings (λ s (ts, p). (reset s, refl, reset-IsSession w loaded capacity ts s p))
            fills (λ s p. (prompt, p)) ([], made.2) supported.runnable.repetitions_pos
            supported.repetitions_le in
        let (first, e3, filled) =
          fills (reset m2.subject) (reset-IsSession w loaded capacity prompt m2.subject kept) in
        (
          record { executor = executor; session = first; readings = m2.readings },
          step _ e0 (
              step _ checked
                (step _ named (step _ e1 (step _ made.1 (step _ e2 (step _ e3 refl)))))),
          record { is_executor = is_executor; filled = filled },
        )

    -- The single decode is measured on sessions that have consumed the prompt.
    pub decode_timed :
        IsAllocated
        → length prompt < capacity
        → (prepared : Prepared F) → IsPrepared prepared
        → Returns
            (measure elapsed
              (start_decode prepared.executor w options.tokens)
              (decode prepared.executor w (greedy_token prepared.session.logits))
              options.warmup
              options.repetitions
              prepared.session
              prepared.readings)
            λ m. (ts : List ℤ) × IsSession w loaded ts capacity m.subject
    unfolding start_decode
    decode_timed room single prepared ready =
        let executor = prepared.executor in
        let fills = fill room executor ready.is_executor in
        let next = greedy_next w prompt in
        let good = greedy_next_lem w prompt loaded.is_valid.vocabulary_size_pos request.named in
        let picked : greedy_token prepared.session.logits ≡ next =
          session_next w loaded capacity prompt prepared.session ready.filled request.nonempty in
        let longer = prompt ++ (next ∷ []) in
        let (decoded, e, (kept, _)) =
          measure-Returns elapsed (start_decode executor w options.tokens)
            (decode executor w (greedy_token prepared.session.logits))
            (λ s. (ts : List ℤ) × IsSession w loaded ts capacity s)
            (IsSession w loaded prompt capacity) (IsSession w loaded longer capacity) options.warmup
            options.repetitions prepared.session prepared.readings
            (λ s (ts, p). fills (reset s) (reset-IsSession w loaded capacity ts s p))
            (λ s p. rw picked (
              decode-IsSession w loaded executor capacity prompt next s ready.is_executor p
                request.nonempty single good))
            (λ s p. (longer, p)) (prompt, ready.filled) supported.runnable.repetitions_pos
            supported.repetitions_le in
        (decoded, e, (longer, kept))

    -- The cached generation is measured on a session that may have consumed anything.
    pub cached_timed :
        length prompt + (count - 1) ≤ capacity
        → (executor : Option ℕ) → IsExecutor executor
        → (s : Session F) → (ts : List ℤ) × IsSession w loaded ts capacity s
        → (readings : ℕ)
        → Returns
            (measure elapsed
              (start_cached options.tokens)
              (run_cached executor w options.generation_tokens)
              options.warmup
              options.repetitions
              (record { session = s; cached_tokens = []; last_cached_tokens = [] })
              readings)
            λ m.
              ((ts : List ℤ) × IsSession w loaded ts capacity m.subject.session)
              × (m.subject.last_cached_tokens ≡ continuation w prompt count)
              × (length m.milliseconds ≡ options.repetitions)
    unfolding start_cached
    cached_timed room executor is_executor s kept readings =
        let (cached, e, ((kept', done), size)) =
          measure-Returns elapsed (start_cached options.tokens)
            (run_cached executor w options.generation_tokens)
            (λ run. (ts : List ℤ) × IsSession w loaded ts capacity run.session)
            (λ run. (run.cached_tokens ≡ prompt) × IsSession w loaded [] capacity run.session)
            (λ run.
              ((ts : List ℤ) × IsSession w loaded ts capacity run.session)
              × (run.last_cached_tokens ≡ continuation w prompt count))
            options.warmup options.repetitions
            (record { session = s; cached_tokens = []; last_cached_tokens = [] }) readings
            (λ run (ts, p).
              (_, refl, (same_prompt, reset-IsSession w loaded capacity ts run.session p)))
            (λ run (e, p). rw same_count (
              run_cached-Returns w loaded prompt count request executor is_executor capacity room
                run e p))
            (λ run (p, e). p) kept supported.runnable.repetitions_pos supported.repetitions_le in
        (cached, e, (kept', done, size))
