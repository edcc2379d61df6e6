-- ===== src/Session/Api.antt =====
-- The operations of `InferenceSession`: `prefill`, `decode`, `reset` and the observers.
pub mod Protocol
pub mod Consumed
pub mod Fresh
pub mod Errors
pub mod Equivalence
use gpt2_cpu_runtime.Prelude.{
  leb, ◌==◌, wadd, wmul, Error, Result, ok, ◌>>=◌, ◌>>◌, guard, length, is_empty, ℕ, ◌+◌, not,
  Option, List, [], ◌∷◌,
}
use gpt2_cpu_runtime.Prelude.Int.{ℤ}
use gpt2_cpu_runtime.Float.{Float}
use gpt2_cpu_runtime.Model.Tensor.{ModelWeights}
use gpt2_cpu_runtime.Model.Forward.{bad_token, check_tokens}
use gpt2_cpu_runtime.Session.State.{Session, consume_token}

module _ {F : Type 0} ⦃fl : Float F⦄ where
  -- cache_.storage_float_count() * sizeof(float)
  unfoldable pub cache_bytes : Session F → ℕ
  cache_bytes s = wmul s.cache.storage_float_count 4

  -- The loop of `prefill` that consumes the prompt, from a position on.
  pub consume_from : Option ℕ → ModelWeights F → List ℤ → ℕ → Session F → Result (Session F)
  consume_from executor w [] position s = ok s
  consume_from executor w (token ∷ tokens) position s = do
    s' ← consume_token executor w token position s
    consume_from executor w tokens (position + 1) s'

  -- The result is the session; the returned view is its `logits`.
  unfoldable pub prefill : Option ℕ → ModelWeights F → List ℤ → Session F → Result (Session F)
  unfolding consume_from
  prefill executor w prompt s = do
    guard (s.size == 0) (Error.logic_error "prefill requires an empty session")
    guard (not (is_empty prompt)) (Error.invalid_argument "prefill prompt must not be empty")
    guard (leb (length prompt) s.cache.capacity)
        (Error.length_error "prefill prompt exceeds session capacity")
    check_tokens w.config.vocabulary_size prompt
    s' ← consume_from executor w prompt 0 s
    ok (record s' { size = length prompt })

  abbrev pub validate_token : ModelWeights F → ℤ → Result (Unit {0})
  validate_token w token =
      guard (not (bad_token w.config.vocabulary_size token))
        (Error.invalid_argument "input token ID is outside the real vocabulary")

  unfoldable pub decode : Option ℕ → ModelWeights F → ℤ → Session F → Result (Session F)
  decode executor w token s = do
    guard (not (s.size == 0)) (Error.logic_error "decode requires a nonempty session")
    validate_token w token
    guard (not (s.size == s.cache.capacity)) (Error.length_error "session KV cache is full")
    s' ← consume_token executor w token s.size s
    ok (record s' { size = wadd s.size 1 })

  unfoldable pub reset : Session F → Session F
  reset s = record s { size = 0 }
