-- ===== src/Session/Api/Protocol.antt =====
-- The protocol of a session: what it has consumed after `prefill`, `decode` and `reset`.
use gpt2_cpu_runtime.Prelude.{
  le→leb, eq→==, lt→==, gt→==, wadd, wadd_lem, ok, Returns, length, length-append, is_empty_lem, ℕ,
  zero, suc, ◌+◌, ◌-◌, ◌*◌, ◌≤◌, ◌<◌, ◌≡◌, refl, sym, ap, ◌∙◌, false, Option, List, [], ◌∷◌, ◌++◌,
  arith,
}
use gpt2_cpu_runtime.Prelude.Int.{ℤ, to_size}
use gpt2_cpu_runtime.Float.{Float}
use gpt2_cpu_runtime.Buffer.{at}
use gpt2_cpu_runtime.Model.Tensor.{ModelWeights}
use gpt2_cpu_runtime.Model.Tensor.Lookup.{IsLoaded}
use gpt2_cpu_runtime.Model.Forward.{bad_token, forward}
use gpt2_cpu_runtime.Model.Forward.Rows.{
  AreTokens, check_tokens_lem, token_at, IsPrompt, forward-Returns,
}
use gpt2_cpu_runtime.Session.State.{Session, consume_token}
use gpt2_cpu_runtime.Session.Api.{prefill, decode, reset}
use gpt2_cpu_runtime.Session.State.Filled.{IsReady-size}
use gpt2_cpu_runtime.Model.Workspace.{Workspace}
use gpt2_cpu_runtime.Session.State.Stages.{IsExecutor}
use gpt2_cpu_runtime.Session.Api.Consumed.{
  IsSession, IsAt-congr, IsAt-size, consume_step, consume_loop,
}

module _ {F : Type 0} ⦃fl : Float F⦄ (w : ModelWeights F) (loaded : IsLoaded w) where
  open w.config use {vocabulary_size}

  -- On an empty session, `prefill` of a prompt of real tokens that fits the capacity returns, with
  -- and without an executor. The session then has consumed the prompt.
  pub prefill-IsSession :
      (executor : Option ℕ) (capacity : ℕ) (prompt : List ℤ) (s : Session F)
      → IsExecutor executor
      → IsSession w loaded [] capacity s
      → 0 < length prompt
      → length prompt ≤ capacity
      → AreTokens vocabulary_size prompt
      → Returns (prefill executor w prompt s) (IsSession w loaded prompt capacity)
  unfolding prefill
  prefill-IsSession executor capacity prompt s he empty nonempty fits good =
      let start =
        IsAt-congr w loaded (token_at []) (token_at prompt) capacity 0 s
          (λ p h. absurd (omega arith)) empty.at_lem in
      let z : 0 + length prompt ≡ length prompt = omega arith in
      let (s', e, done) =
        consume_loop w loaded executor (token_at prompt) capacity 0 prompt s he
          (λ i h. let z : 0 + i ≡ i = omega arith in ap (token_at prompt) z) good (omega arith)
          start in
      (
        record s' { size = length prompt },
        rw (
          eq→== s.size 0 empty.size_lem,
          is_empty_lem prompt nonempty,
          le→leb (length prompt) s.cache.capacity (omega (arith, empty.at_lem.capacity_lem)),
          check_tokens_lem vocabulary_size prompt good,
          e,
        ),
        record {
          size_lem = refl;
          at_lem =
              IsAt-size w loaded (token_at prompt) capacity (length prompt) s' (length prompt)
                (rw z at done);
        },
      )

  token_at-append :
      (tokens : List ℤ) (token : ℤ) (p : ℕ)
      → p < length tokens
      → token_at tokens p ≡ token_at (tokens ++ (token ∷ [])) p
  unfolding token_at
  token_at-append [] token p h = absurd (omega arith)
  token_at-append (t ∷ tokens) token zero h = refl
  token_at-append (t ∷ tokens) token (suc p) h = token_at-append tokens token p (omega arith)

  token_at-last :
      (tokens : List ℤ) (token : ℤ)
      → token_at (tokens ++ (token ∷ [])) (length tokens) ≡ to_size token
  unfolding token_at
  token_at-last [] token = refl
  token_at-last (t ∷ tokens) token = token_at-last tokens token

  -- On a session that has consumed some tokens and is not full, `decode` of a real token returns,
  -- with and without an executor. The session then has consumed that token too.
  pub decode-IsSession :
      (executor : Option ℕ) (capacity : ℕ) (tokens : List ℤ) (token : ℤ) (s : Session F)
      → IsExecutor executor
      → IsSession w loaded tokens capacity s
      → 0 < length tokens
      → length tokens < capacity
      → bad_token vocabulary_size token ≡ false
      → Returns (decode executor w token s) (IsSession w loaded (tokens ++ (token ∷ [])) capacity)
  unfolding decode
  decode-IsSession executor capacity tokens token s he session nonempty room good =
      let longer = tokens ++ (token ∷ []) in
      let n = length tokens in
      let ready = session.at_lem.consumed.ready in
      let longer_size : length longer ≡ suc n = omega (arith, length-append tokens (token ∷ [])) in
      let start =
        IsAt-congr w loaded (token_at tokens) (token_at longer) capacity n s
          (λ p h. token_at-append tokens token p h) session.at_lem in
      let (s', e, (after, kept)) =
        consume_step w loaded executor (token_at longer) capacity n token s he
          (token_at-last tokens token) good room start in
      let now : consume_token executor w token s.size s ≡ ok s' =
        ap (λ (k : ℕ). consume_token executor w token k s) session.size_lem ∙ e in
      (
        record s' { size = wadd s.size 1 },
        rw (
          gt→== s.size 0 (omega (arith, session.size_lem)),
          good,
          lt→== s.size s.cache.capacity
              (omega (arith, session.size_lem, session.at_lem.capacity_lem)),
          now,
        ),
        record {
          size_lem =
              wadd_lem s.size 1 (
                omega (
                  arith, session.size_lem, session.at_lem.capacity_lem, ready.within,
                  loaded.is_sized.max_sequence_length_lt,
                ))
              ∙ omega (arith, session.size_lem, longer_size);
          at_lem =
              rw longer_size
                (IsAt-size w loaded (token_at longer) capacity (suc n) s' (wadd s.size 1) after);
        },
      )

  -- `reset` leaves a session that has consumed nothing.
  pub reset-IsSession :
      (capacity : ℕ) (tokens : List ℤ) (s : Session F)
      → IsSession w loaded tokens capacity s
      → IsSession w loaded [] capacity (reset s)
  unfolding reset
  reset-IsSession capacity tokens s session = record {
    size_lem = refl;
    at_lem = record {
      consumed = record {
        ready = IsReady-size w.config s 0 session.at_lem.consumed.ready;
        filled = record {
          earlier = λ l p hl hp. absurd (omega arith);
          current = λ l hl. absurd (omega arith);
        };
      };
      last_logits = λ p e. absurd (omega arith);
      capacity_lem = session.at_lem.capacity_lem;
    };
  }

  -- The logits of a session that has consumed some tokens are bit for bit those that `forward`
  -- computes for the last of the same tokens, for the real vocabulary and whatever the workspace of
  -- `forward` held.
  pub IsSession-forward :
      (capacity : ℕ) (tokens : List ℤ) (s : Session F) (ws : Workspace F)
      → IsSession w loaded tokens capacity s
      → IsPrompt w loaded tokens
      → Returns (forward w tokens ws) λ out.
        (v : ℕ)
        → v < vocabulary_size
        → at s.logits v ≡ at out.logits ((length tokens - 1) * w.config.padded_vocabulary_size + v)
  IsSession-forward capacity tokens s ws session prompt =
      let (out, e, has) = forward-Returns w loaded tokens prompt ws in
      let last = length tokens - 1 in
      let first = prompt.nonempty in
      (
        out,
        e,
        λ v hv.
            session.at_lem.last_logits last (omega arith) v hv
            ∙ sym (
                has.logits_lem.entry_lem last v (omega arith)
                  (omega (arith, loaded.is_valid.vocabulary_size_le))),
      )
