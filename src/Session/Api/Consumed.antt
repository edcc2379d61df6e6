-- ===== src/Session/Api/Consumed.antt =====
-- A session that has consumed tokens: its size, its cache and its logits.
use gpt2_cpu_runtime.Prelude.{
  Returns, step, length, ℕ, suc, ◌+◌, ◌*◌, ◌≤◌, ◌<◌, ◌≡◌, refl, ap, ◌∙◌, false, Option, List, [],
  ◌∷◌, arith,
}
use gpt2_cpu_runtime.Prelude.Int.{ℤ, to_size}
use gpt2_cpu_runtime.Float.{Float}
use gpt2_cpu_runtime.Buffer.{at}
use gpt2_cpu_runtime.Model.Tensor.{ModelWeights}
use gpt2_cpu_runtime.Model.Tensor.Lookup.{IsLoaded}
use gpt2_cpu_runtime.Model.Block.{logit}
use gpt2_cpu_runtime.Model.Block.Causal.{projections-congr, logit-congr}
use gpt2_cpu_runtime.Model.Forward.{bad_token}
use gpt2_cpu_runtime.Model.Forward.Rows.{AreTokens, token_at, token-lt}
use gpt2_cpu_runtime.Session.State.{Session, consume_token}
use gpt2_cpu_runtime.Session.State.Token.{HasConsumed, consume_token-Returns}
use gpt2_cpu_runtime.Session.Api.{consume_from}
use gpt2_cpu_runtime.Session.State.Filled.{IsReady-size}
use gpt2_cpu_runtime.Session.State.Stages.{IsExecutor}

module _ {F : Type 0} ⦃fl : Float F⦄ (w : ModelWeights F) (loaded : IsLoaded w) where
  open w.config use {vocabulary_size}

  -- A session of a capacity that has consumed `t` tokens, with the logits of the last one.
  pub record IsAt (tokens : ℕ → ℕ) (capacity t : ℕ) (s : Session F) : Type 0 where
    pub consumed : HasConsumed w loaded tokens t s
    pub last_logits :
        (p : ℕ) → suc p ≡ t → (v : ℕ) → v < vocabulary_size → at s.logits v ≡ logit w tokens p v
    pub capacity_lem : s.cache.capacity ≡ capacity

  -- The tokens that a session has consumed.
  pub record IsSession (tokens : List ℤ) (capacity : ℕ) (s : Session F) : Type 0 where
    pub size_lem : s.size ≡ length tokens
    pub at_lem : IsAt (token_at tokens) capacity (length tokens) s

  pub IsAt-congr :
      (a b : ℕ → ℕ) (capacity t : ℕ) (s : Session F)
      → ((p : ℕ) → p < t → a p ≡ b p)
      → IsAt a capacity t s
      → IsAt b capacity t s
  IsAt-congr a b capacity t s h before = record {
    consumed = record {
      ready = before.consumed.ready;
      filled = record {
        earlier = λ l p hl hp i hi.
            let (ks, vs) = before.consumed.filled.earlier l p hl hp i hi in
            let e = projections-congr w a b l p λ u m. h u (omega arith) in
            (
              ks ∙ ap (λ (x : ℕ → F). x (w.config.channels + i)) e,
              vs ∙ ap (λ (x : ℕ → F). x (2 * w.config.channels + i)) e,
            );
        current = λ l hl. absurd (omega arith);
      };
    };
    last_logits = λ p e v hv.
        before.last_logits p e v hv
        ∙ ap (λ (x : ℕ → F). x v) (logit-congr w a b p λ u m. h u (omega arith));
    capacity_lem = before.capacity_lem;
  }

  pub IsAt-size :
      (tokens : ℕ → ℕ) (capacity t : ℕ) (s : Session F) (size : ℕ)
      → IsAt tokens capacity t s
      → IsAt tokens capacity t (record s { size = size })
  IsAt-size tokens capacity t s size before = record {
    consumed = record {
      ready = IsReady-size w.config s size before.consumed.ready;
      filled = before.consumed.filled;
    };
    last_logits = before.last_logits;
    capacity_lem = before.capacity_lem;
  }

  pub consume_step :
      (executor : Option ℕ) (tokens : ℕ → ℕ) (capacity t : ℕ) (token : ℤ) (s : Session F)
      → IsExecutor executor
      → tokens t ≡ to_size token
      → bad_token vocabulary_size token ≡ false
      → t < capacity
      → IsAt tokens capacity t s
      → Returns
          (consume_token executor w token t s)
          λ s'. IsAt tokens capacity (suc t) s' × (s'.size ≡ s.size)
  consume_step executor tokens capacity t token s he same good ht before =
      let (s', e, next) =
        consume_token-Returns w loaded tokens executor token t s he same
          (token-lt vocabulary_size token good) (omega (arith, before.capacity_lem))
          before.consumed in
      (
        s',
        e,
        (
          record {
            consumed = next.consumed;
            last_logits =
                λ p e' v hv. let same' : p ≡ t = omega arith in rw same' (next.logits_lem v hv);
            capacity_lem = next.capacity_kept ∙ before.capacity_lem;
          },
          next.size_kept,
        ),
      )

  pub consume_loop :
      (executor : Option ℕ) (tokens : ℕ → ℕ) (capacity t : ℕ) (rest : List ℤ) (s : Session F)
      → IsExecutor executor
      → ((i : ℕ) → i < length rest → tokens (t + i) ≡ token_at rest i)
      → AreTokens vocabulary_size rest
      → t + length rest ≤ capacity
      → IsAt tokens capacity t s
      → Returns (consume_from executor w rest t s) (IsAt tokens capacity (t + length rest))
  unfolding consume_from token_at
  consume_loop executor tokens capacity t [] s he same good ht before =
      let z : t + 0 ≡ t = omega arith in (s, refl, rw z before)
  consume_loop executor tokens capacity t (token ∷ rest) s he same (first, good) ht before =
      let z : t + 0 ≡ t = omega arith in
      let n : t + suc (length rest) ≡ t + 1 + length rest = omega arith in
      let one : suc t ≡ t + 1 = omega arith in
      let (s', e, (now, kept)) =
        consume_step executor tokens capacity t token s he (rw z at (same 0 (omega arith))) first
          (omega arith) before in
      let (out, e', after) =
        consume_loop executor tokens capacity (t + 1) rest s' he
          (λ i h. let m : t + 1 + i ≡ t + suc i = omega arith in rw m (same (suc i) (omega arith)))
          good (omega arith) (rw one at now) in
      (out, step _ e e', rw n after)
