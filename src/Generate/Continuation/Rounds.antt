-- ===== src/Generate/Continuation/Rounds.antt =====
-- A round of the cached generation, and its dump.
use gpt2_cpu_runtime.Prelude.{
  ltb, if◌then◌else◌, lt→ltb, le→ltb, ltb→lt, ltb→le, Bool-cases, streamsize_max, ok, Returns, step,
  length, is_empty, length-append, list_ext-tabulate, ℕ, zero, suc, ◌+◌, ◌-◌, ◌*◌, ◌≤◌, ◌<◌, ◌≡◌,
  refl, ap, ◌∙◌, inl, inr, false, Option, none, some, List, [], ◌∷◌, ◌++◌, arith,
}
use gpt2_cpu_runtime.Prelude.Int.{ℤ}
use gpt2_cpu_runtime.Float.{Float}
use gpt2_cpu_runtime.Model.Tensor.{ModelWeights}
use gpt2_cpu_runtime.Model.Tensor.Lookup.{IsLoaded}
use gpt2_cpu_runtime.Model.Block.{logit}
use gpt2_cpu_runtime.Model.Forward.Rows.{token_at}
use gpt2_cpu_runtime.Session.State.{Session}
use gpt2_cpu_runtime.Session.State.Stages.{IsExecutor}
use gpt2_cpu_runtime.Session.Api.{decode}
use gpt2_cpu_runtime.Session.Api.Protocol.{decode-IsSession}
use gpt2_cpu_runtime.Generate.Options.{Options}
use gpt2_cpu_runtime.Generate.Loops.{OutputFiles, print_step, CachedState, cached_step, dump_cached}
use gpt2_cpu_runtime.Generate.Continuation.{
  last_logits, greedy_next, continuation, step_lines, length-continuation, greedy_next_lem,
  IsRequest,
}
use gpt2_cpu_runtime.Generate.Continuation.Full.{AcceptsDump, dump_binary_lem}
use gpt2_cpu_runtime.Generate.Greedy.{greedy_token}
use gpt2_cpu_runtime.Generate.Continuation.Room.{HasRoom, consumed_after}
use gpt2_cpu_runtime.Session.Api.Consumed.{IsSession}

module _ {F : Type 0} ⦃fl : Float F⦄ (w : ModelWeights F) (loaded : IsLoaded w) (capacity : ℕ) where
  open w.config use {vocabulary_size, num_layers, channels, max_sequence_length}

  -- The logits of a session are those behind the last token that it has consumed.
  pub session_logits :
      (tokens : List ℤ) (s : Session F)
      → IsSession w loaded tokens capacity s
      → 0 < length tokens
      → s.logits ≡ last_logits w vocabulary_size tokens
  unfolding last_logits
  session_logits tokens s session nonempty =
      list_ext-tabulate vocabulary_size (logit w (token_at tokens) (length tokens - 1)) s.logits
        fl.nought (session.at_lem.consumed.ready.logits_size ∙ omega arith)
        (session.at_lem.last_logits (length tokens - 1) (omega arith))

  pub session_next :
      (tokens : List ℤ) (s : Session F)
      → IsSession w loaded tokens capacity s
      → 0 < length tokens
      → greedy_token s.logits ≡ greedy_next w tokens
  unfolding greedy_next
  session_next tokens s session nonempty =
      ap greedy_token (session_logits tokens s session nonempty)

  abbrev last_generated : List ℤ → ℕ → Option ℤ
  last_generated prompt zero = none
  last_generated prompt (suc n) = some (greedy_next w (continuation w prompt n))

  pub record IsCachedState (prompt : List ℤ) (count n : ℕ) (st : CachedState F) : Type 0 where
    pub tokens_lem : st.tokens ≡ continuation w prompt n
    pub steps_lem : st.steps ≡ step_lines w prompt n
    pub final_lem : st.final_generated ≡ last_generated prompt n
    pub session_lem :
        IsSession w loaded (continuation w prompt (consumed_after count n)) capacity st.session

  module _ (executor : Option ℕ) (is_executor : IsExecutor executor) where
    -- The session consumes the next token of the continuation.
    pub decode_next :
        (prompt : List ℤ) (count n : ℕ) (s : Session F)
        → IsRequest w prompt count
        → length prompt + n < capacity
        → IsSession w loaded (continuation w prompt n) capacity s
        → Returns
            (decode executor w (greedy_next w (continuation w prompt n)) s)
            (IsSession w loaded (continuation w prompt (suc n)) capacity)
    unfolding continuation
    decode_next prompt count n s request room session =
        let tokens = continuation w prompt n in
        let size = length-continuation w prompt n in
        decode-IsSession w loaded executor capacity tokens (greedy_next w tokens) s is_executor
          session (omega (arith, size, request.nonempty)) (omega (arith, size, room))
          (greedy_next_lem w tokens loaded.is_valid.vocabulary_size_pos request.named)

    -- The session at the end of a round: the last token is not decoded.
    pub after_round :
        (prompt : List ℤ) (count n : ℕ) (s : Session F)
        → IsRequest w prompt count
        → length prompt + (count - 1) ≤ capacity
        → n < count
        → IsSession w loaded (continuation w prompt n) capacity s
        → Returns
            (if ltb (n + 1) count
              then decode executor w (greedy_next w (continuation w prompt n)) s
              else ok s)
            (IsSession w loaded (continuation w prompt (consumed_after count (suc n))) capacity)
    after_round prompt count n s request room lt session =
        let one : n + 1 ≡ suc n = omega arith in
        elim (Bool-cases (ltb (suc n) count)) [
          | inl more ↦
              rw (one, more)
                (decode_next prompt count n s request
                  (omega (arith, room, ltb→lt (suc n) count more)) session)
          | inr end ↦
              let same : count - 1 ≡ n = omega (arith, ltb→le (suc n) count end) in
              rw (one, end, same) (s, refl, session)
        ]

    pub cached_step-Returns :
        (prompt : List ℤ) (count n : ℕ) (st : CachedState F)
        → IsRequest w prompt count
        → length prompt + (count - 1) ≤ capacity
        → n < count
        → IsCachedState prompt count n st
        → Returns (cached_step executor w count n st) (IsCachedState prompt count (suc n))
    unfolding cached_step continuation step_lines greedy_next
    cached_step-Returns prompt count n st request room lt now =
        let tokens = continuation w prompt n in
        let next = greedy_next w tokens in
        let size = length-continuation w prompt n in
        let before : length (tokens ++ (next ∷ [])) - 1 ≡ length prompt + n =
          omega (arith, length-append tokens (next ∷ []), size) in
        let session : IsSession w loaded tokens capacity st.session =
          rw (lt→ltb n count lt) at now.session_lem in
        let logits =
          session_logits tokens st.session session (omega (arith, size, request.nonempty)) in
        let picked : greedy_token st.session.logits ≡ next = ap greedy_token logits in
        let (s', e, next_session) = after_round prompt count n st.session request room lt session in
        (
          record {
            tokens = tokens ++ (next ∷ []);
            steps = print_step (step_lines w prompt n) (n + 1) (tokens ++ (next ∷ [])) next;
            session = s';
            final_generated = some next;
          },
          rw (now.tokens_lem, now.steps_lem, picked) (step _ e refl),
          record {
            tokens_lem = refl;
            steps_lem = rw before;
            final_lem = refl;
            session_lem = next_session;
          },
        )

    pub dump_cached-Returns :
        (files : OutputFiles F) (options : Options) (st : CachedState F)
        → IsRequest w options.tokens options.max_new_tokens
        → HasRoom options capacity
        → AcceptsDump files options.dump_last_logits
        → vocabulary_size * 4 ≤ streamsize_max
        → IsCachedState options.tokens options.max_new_tokens options.max_new_tokens st
        → dump_cached files executor w options.dump_last_logits st
          ≡ ok (
              if is_empty options.dump_last_logits
              then none
              else some (
                  last_logits w vocabulary_size
                    (continuation w options.tokens options.max_new_tokens)))
    unfolding dump_cached
    dump_cached-Returns files options st request room accepts fits done =
        let tokens = continuation w options.tokens options.max_new_tokens in
        let size = length-continuation w options.tokens options.max_new_tokens in
        elim (Bool-cases (is_empty options.dump_last_logits)) [
          | inl no_dump ↦ rw no_dump
          | inr dump ↦
              let (s, e, session) =
                consume_final options.max_new_tokens (room.dumped dump) request done in
              let logits =
                session_logits tokens s session (omega (arith, size, request.nonempty)) in
              let row_size : length s.logits ≡ vocabulary_size =
                session.at_lem.consumed.ready.logits_size ∙ omega arith in
              rw dump (
                step _ e (
                  step _
                    (dump_binary_lem files options.dump_last_logits s.logits accepts
                      (omega (arith, row_size, fits)))
                    (ap (λ (xs : List F). ok (some xs)) logits)))
        ]
      where
        consume_final :
            (count : ℕ)
            → length options.tokens + count ≤ capacity
            → IsRequest w options.tokens count
            → IsCachedState options.tokens count count st
            → Returns
                (elim st.final_generated [
                  | some token ↦ decode executor w token st.session
                  | none ↦ ok st.session
                ])
                (IsSession w loaded (continuation w options.tokens count) capacity)
        consume_final zero fits request done =
            rw done.final_lem (st.session, refl, done.session_lem)
        consume_final (suc m) fits request done =
            let end : ltb (suc m) (suc m) ≡ false = le→ltb (suc m) (suc m) (omega arith) in
            let same : suc m - 1 ≡ m = omega arith in
            let session : IsSession w loaded (continuation w options.tokens m) capacity st.session =
              rw (end, same) at done.session_lem in
            rw done.final_lem
              (decode_next options.tokens (suc m) m st.session request (omega arith) session)
