-- ===== src/Session/Api/Equivalence.antt =====
-- The incremental session and the full-prefix pass compute the same logits.
use mathlib.Core.List.{append_assoc, append-nil}
use gpt2_cpu_runtime.Prelude.{
  size_mod, Result, ok, ◌>>=◌, Returns, step, length, length-append, ℕ, ◌+◌, ◌-◌, ◌*◌, ◌≤◌, ◌<◌,
  ◌≡◌, refl, Option, List, [], ◌∷◌, ◌++◌, arith,
}
use gpt2_cpu_runtime.Prelude.Int.{ℤ}
use gpt2_cpu_runtime.Float.{Float}
use gpt2_cpu_runtime.Buffer.{at}
use gpt2_cpu_runtime.Model.Tensor.{ModelWeights}
use gpt2_cpu_runtime.Model.Tensor.Lookup.{IsLoaded}
use gpt2_cpu_runtime.Model.Workspace.{Workspace}
use gpt2_cpu_runtime.Model.Forward.{forward}
use gpt2_cpu_runtime.Model.Forward.Rows.{AreTokens, IsPrompt}
use gpt2_cpu_runtime.Session.State.{Session, make_session}
use gpt2_cpu_runtime.Session.Api.{prefill, decode}
use gpt2_cpu_runtime.Session.Api.Protocol.{prefill-IsSession, decode-IsSession, IsSession-forward}
use gpt2_cpu_runtime.Session.Api.Fresh.{make_session-IsSession}
use gpt2_cpu_runtime.Session.State.Stages.{IsExecutor}
use gpt2_cpu_runtime.Session.Api.Consumed.{IsSession}

module _ {F : Type 0} ⦃fl : Float F⦄ where
  -- A client that decodes tokens one after the other.
  unfoldable pub decode_all : Option ℕ → ModelWeights F → List ℤ → Session F → Result (Session F)
  decode_all executor w [] s = ok s
  decode_all executor w (token ∷ tokens) s = do
    s' ← decode executor w token s
    decode_all executor w tokens s'

  -- A client that makes a session, prefills it with a prompt and decodes more tokens.
  unfoldable pub run_session :
      Option ℕ → ModelWeights F → (capacity : ℕ) → (prompt rest : List ℤ) → Result (Session F)
  run_session executor w capacity prompt rest = do
    fresh ← make_session w capacity
    filled ← prefill executor w prompt fresh
    decode_all executor w rest filled

  module _ (w : ModelWeights F) (loaded : IsLoaded w) (executor : Option ℕ)
      (is_executor : IsExecutor executor) (capacity : ℕ) where
    open w.config use {vocabulary_size, num_layers, channels}

    decode_all-IsSession :
        (tokens rest : List ℤ) (s : Session F)
        → IsSession w loaded tokens capacity s
        → 0 < length tokens
        → length tokens + length rest ≤ capacity
        → AreTokens vocabulary_size rest
        → Returns (decode_all executor w rest s) (IsSession w loaded (tokens ++ rest) capacity)
    unfolding decode_all
    decode_all-IsSession tokens [] s session nonempty room good =
        (s, refl, rw (append-nil tokens) session)
    decode_all-IsSession tokens (token ∷ rest) s session nonempty room (first, good) =
        let (s', e, next) =
          decode-IsSession w loaded executor capacity tokens token s is_executor session nonempty
            (omega arith) first in
        let size = length-append tokens (token ∷ []) in
        let (out, e', done) =
          decode_all-IsSession (tokens ++ (token ∷ [])) rest s' next (omega (arith, size))
            (omega (arith, size)) good in
        (out, step _ e e', rw (append_assoc tokens (token ∷ []) rest) at done)

    -- A session made for loaded weights, prefilled with a nonempty prompt and then given more
    -- tokens, all of them real and within its capacity, has consumed these tokens.
    pub run_session-IsSession :
        (prompt rest : List ℤ)
        → capacity ≤ w.config.max_sequence_length
        → 2 * (num_layers * (capacity * channels)) * 4 < size_mod
        → 0 < length prompt
        → length prompt + length rest ≤ capacity
        → AreTokens vocabulary_size prompt
        → AreTokens vocabulary_size rest
        → Returns
            (run_session executor w capacity prompt rest)
            (IsSession w loaded (prompt ++ rest) capacity)
    unfolding run_session
    run_session-IsSession prompt rest le fits nonempty room good more =
        let (s0, e0, fresh) = make_session-IsSession w loaded capacity (omega arith) le fits in
        let (s1, e1, filled) =
          prefill-IsSession w loaded executor capacity prompt s0 is_executor fresh nonempty
            (omega arith) good in
        let (s2, e2, done) = decode_all-IsSession prompt rest s1 filled nonempty room more in
        (s2, step _ e0 (step _ e1 e2), done)

    -- A session made for loaded weights, prefilled with a nonempty prompt and then given more
    -- tokens, all of them real, within its capacity and with buffers that a `std::size_t` can
    -- count, returns, with and without an executor. `forward` on all the tokens returns too,
    -- whatever its workspace held, and the logits of its last position are those of the session,
    -- bit for bit, for every entry of the real vocabulary.
    pub run_session-forward :
        (prompt rest : List ℤ) (ws : Workspace F)
        → capacity ≤ w.config.max_sequence_length
        → 2 * (num_layers * (capacity * channels)) * 4 < size_mod
        → 0 < length prompt
        → length prompt + length rest ≤ capacity
        → AreTokens vocabulary_size prompt
        → AreTokens vocabulary_size rest
        → IsPrompt w loaded (prompt ++ rest)
        → Returns (run_session executor w capacity prompt rest) λ s.
          (s.size ≡ length (prompt ++ rest))
          × Returns (forward w (prompt ++ rest) ws) λ out.
            (v : ℕ)
            → v < vocabulary_size
            → at s.logits v
              ≡ at out.logits ((length (prompt ++ rest) - 1) * w.config.padded_vocabulary_size + v)
    run_session-forward prompt rest ws le fits nonempty room good more all =
        let (s, e, done) = run_session-IsSession prompt rest le fits nonempty room good more in
        (s, e, (done.size_lem, IsSession-forward w loaded capacity (prompt ++ rest) s ws done all))
