-- ===== src/Generate/Continuation.antt =====
-- What greedy generation is meant to compute: each next token is the greedy one of the reference
-- network's logits for the last position.
pub mod Full
pub mod Cached
pub mod Rounds
pub mod Room
use gpt2_cpu_runtime.Prelude.{
  size_mod, mul-le, length, length-append, tabulate, length-tabulate, ℕ, zero, suc, ◌+◌, ◌-◌, ◌*◌,
  ◌^◌, ◌≤◌, ◌<◌, ◌≡◌, false, List, [], ◌∷◌, ◌++◌, arith,
}
use gpt2_cpu_runtime.Prelude.Int.{ℤ}
use gpt2_cpu_runtime.Float.{Float}
use gpt2_cpu_runtime.Model.Tensor.{ModelWeights}
use gpt2_cpu_runtime.Model.Tensor.Lookup.{IsLoaded}
use gpt2_cpu_runtime.Model.Block.{logit}
use gpt2_cpu_runtime.Model.Forward.{bad_token}
use gpt2_cpu_runtime.Model.Forward.Rows.{AreTokens, token_at, IsPrompt}
use gpt2_cpu_runtime.Generate.Greedy.{greedy_token, bad_token-greedy_token}
use gpt2_cpu_runtime.Generate.Loops.{Step}

module _ {F : Type 0} ⦃fl : Float F⦄ (w : ModelWeights F) where
  open w.config use {vocabulary_size, channels, max_sequence_length, padded_vocabulary_size}

  -- The logits behind the last token, over the first `size` entries of the vocabulary.
  unfoldable pub last_logits : ℕ → List ℤ → List F
  last_logits size tokens = tabulate size (logit w (token_at tokens) (length tokens - 1))

  pub length-last_logits : (size : ℕ) (tokens : List ℤ) → length (last_logits size tokens) ≡ size
  unfolding last_logits
  length-last_logits size tokens = length-tabulate size _

  unfoldable pub greedy_next : List ℤ → ℤ
  unfolding last_logits
  greedy_next tokens = greedy_token (last_logits vocabulary_size tokens)

  -- The prompt with the first `n` tokens that are generated for it.
  unfoldable pub continuation : List ℤ → ℕ → List ℤ
  continuation prompt zero = prompt
  continuation prompt (suc n) =
      let tokens = continuation prompt n in tokens ++ (greedy_next tokens ∷ [])

  -- The lines of the first `n` steps.
  unfoldable pub step_lines : List ℤ → ℕ → List Step
  step_lines prompt zero = []
  step_lines prompt (suc n) =
      step_lines prompt n
      ++ (record {
        number = n + 1;
        prefix_length = length prompt + n;
        next_token = greedy_next (continuation prompt n);
      }
          ∷ [])

  pub length-continuation :
      (prompt : List ℤ) (n : ℕ) → length (continuation prompt n) ≡ length prompt + n
  unfolding continuation
  length-continuation prompt zero = omega arith
  length-continuation prompt (suc n) =
      let tokens = continuation prompt n in
      omega (arith, length-append tokens (greedy_next tokens ∷ []), length-continuation prompt n)

  pub greedy_next_lem :
      (tokens : List ℤ)
      → 0 < vocabulary_size
      → vocabulary_size ≤ 2 ^ 31
      → bad_token vocabulary_size (greedy_next tokens) ≡ false
  unfolding greedy_next
  greedy_next_lem tokens positive small =
      let logits = last_logits vocabulary_size tokens in
      let size : length logits ≡ vocabulary_size = length-last_logits vocabulary_size tokens in
      rw size at (bad_token-greedy_token logits (omega (arith, size)) (omega (arith, size)))

  AreTokens-append :
      (size : ℕ) (ts us : List ℤ)
      → AreTokens size ts
      → AreTokens size us
      → AreTokens size (ts ++ us)
  AreTokens-append size [] us h k = k
  AreTokens-append size (t ∷ ts) us (good, h) k = (good, AreTokens-append size ts us h k)

  -- Generation stays in the vocabulary.
  pub continuation-AreTokens :
      (prompt : List ℤ) (n : ℕ)
      → 0 < vocabulary_size
      → vocabulary_size ≤ 2 ^ 31
      → AreTokens vocabulary_size prompt
      → AreTokens vocabulary_size (continuation prompt n)
  unfolding continuation
  continuation-AreTokens prompt zero positive small good = good
  continuation-AreTokens prompt (suc n) positive small good =
      let tokens = continuation prompt n in
      AreTokens-append vocabulary_size tokens (greedy_next tokens ∷ [])
        (continuation-AreTokens prompt n positive small good)
        (greedy_next_lem tokens positive small, tt)

  -- A request that both modes can serve: the prompt is of real tokens, the whole output stays within
  -- the context, and a `std::size_t` can count the buffers of a pass over it.
  pub record IsRequest (prompt : List ℤ) (count : ℕ) : Type 0 where
    pub nonempty : 0 < length prompt
    pub valid : AreTokens vocabulary_size prompt
    pub within : length prompt + count ≤ max_sequence_length
    pub named : vocabulary_size ≤ 2 ^ 31
    pub hidden_fits : (length prompt + count) * (4 * channels) < size_mod
    pub logits_fit : (length prompt + count) * padded_vocabulary_size < size_mod

  pub continuation-IsPrompt :
      (loaded : IsLoaded w) (prompt : List ℤ) (count n : ℕ)
      → IsRequest prompt count
      → n ≤ count
      → IsPrompt w loaded (continuation prompt n)
  continuation-IsPrompt loaded prompt count n request le =
      let size = length-continuation prompt n in
      let longer : length prompt + n ≤ length prompt + count = omega arith in
      record {
        nonempty = omega (arith, size, request.nonempty);
        within = omega (arith, size, request.within);
        valid =
            continuation-AreTokens prompt n loaded.is_valid.vocabulary_size_pos request.named
              request.valid;
        hidden_fits = rw size (
            omega (
              arith,
              mul-le (length prompt + n) (length prompt + count) (4 * channels) longer,
              request.hidden_fits,
            ));
        logits_fit = rw size (
            omega (
              arith,
              mul-le (length prompt + n) (length prompt + count) padded_vocabulary_size longer,
              request.logits_fit,
            ));
      }
