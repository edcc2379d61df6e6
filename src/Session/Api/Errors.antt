-- ===== src/Session/Api/Errors.antt =====
-- How `prefill` and `decode` refuse a call.
use gpt2_cpu_runtime.Prelude.{
  leb, ap, le→leb, eq→==, gt→==, Error, err, Returns, length, is_empty, is_empty_lem, ℕ, ◌≤◌, ◌<◌,
  ◌≡◌, refl, sym, ◌∙◌, true, false, Option, List, [], ◌∷◌, ◌++◌, arith,
}
use gpt2_cpu_runtime.Prelude.Int.{ℤ}
use gpt2_cpu_runtime.Float.{Float}
use gpt2_cpu_runtime.Model.Tensor.{ModelWeights}
use gpt2_cpu_runtime.Model.Tensor.Lookup.{IsLoaded}
use gpt2_cpu_runtime.Model.Forward.{bad_token, check_tokens}
use gpt2_cpu_runtime.Model.Forward.Rows.{AreTokens, check_tokens_bad}
use gpt2_cpu_runtime.Session.State.{Session}
use gpt2_cpu_runtime.Session.State.Stages.{IsExecutor}
use gpt2_cpu_runtime.Session.Api.{prefill, decode}
use gpt2_cpu_runtime.Session.Api.Protocol.{prefill-IsSession, decode-IsSession}
use gpt2_cpu_runtime.Session.Api.Consumed.{IsSession}

module _ {F : Type 0} ⦃fl : Float F⦄ (w : ModelWeights F) (loaded : IsLoaded w)
    (executor : Option ℕ) (is_executor : IsExecutor executor) (capacity : ℕ) (tokens : List ℤ)
    (s : Session F) (session : IsSession w loaded tokens capacity s) where
  open w.config use {vocabulary_size}

  -- What `decode` does on a session that has consumed some tokens, in every case: on an empty session
  -- it throws `std::logic_error`, on a token outside the real vocabulary `std::invalid_argument`, and
  -- on a full session `std::length_error`, in this order. In every other case it consumes the token.
  pub decode-cases :
      (token : ℤ)
      → (length tokens ≡ 0
          → decode executor w token s
            ≡ err (Error.logic_error "decode requires a nonempty session"))
        × (0 < length tokens
            → bad_token vocabulary_size token ≡ true
            → decode executor w token s
              ≡ err (Error.invalid_argument "input token ID is outside the real vocabulary"))
        × (0 < length tokens
            → bad_token vocabulary_size token ≡ false
            → length tokens ≡ capacity
            → decode executor w token s ≡ err (Error.length_error "session KV cache is full"))
        × (0 < length tokens
            → bad_token vocabulary_size token ≡ false
            → length tokens < capacity
            → Returns
                (decode executor w token s)
                (IsSession w loaded (tokens ++ (token ∷ [])) capacity))
  unfolding decode
  decode-cases token =
      let size = session.size_lem in
      let room = session.at_lem.capacity_lem in
      (
        λ empty. rw (eq→== s.size 0 (size ∙ empty)),
        λ some_token bad. rw (gt→== s.size 0 (omega (arith, size, some_token)), bad),
        λ some_token good full. rw (
          gt→== s.size 0 (omega (arith, size, some_token)),
          good,
          eq→== s.size s.cache.capacity (size ∙ full ∙ sym room),
        ),
        λ some_token good more.
            decode-IsSession w loaded executor capacity tokens token s is_executor session
              some_token more good,
      )

  -- What `prefill` does on a session that has consumed some tokens, in every case: on a session that
  -- is not empty it throws `std::logic_error`, on an empty prompt `std::invalid_argument`, on a prompt
  -- beyond the capacity `std::length_error`, and on a prompt with a token outside the real vocabulary,
  -- anywhere in it, `std::invalid_argument`, in this order. In every other case it consumes the prompt.
  pub prefill-cases :
      (prompt : List ℤ)
      → (0 < length tokens
          → prefill executor w prompt s
            ≡ err (Error.logic_error "prefill requires an empty session"))
        × (length tokens ≡ 0
            → length prompt ≡ 0
            → prefill executor w prompt s
              ≡ err (Error.invalid_argument "prefill prompt must not be empty"))
        × (length tokens ≡ 0
            → 0 < length prompt
            → capacity < length prompt
            → prefill executor w prompt s
              ≡ err (Error.length_error "prefill prompt exceeds session capacity"))
        × (length tokens ≡ 0
            → 0 < length prompt
            → length prompt ≤ capacity
            → (before after : List ℤ) (token : ℤ) → prompt ≡ before ++ (token ∷ after)
            → bad_token vocabulary_size token ≡ true
            → prefill executor w prompt s
              ≡ err (Error.invalid_argument "input token ID is outside the real vocabulary"))
        × (length tokens ≡ 0
            → 0 < length prompt
            → length prompt ≤ capacity
            → AreTokens vocabulary_size prompt
            → Returns (prefill executor w prompt s) (IsSession w loaded prompt capacity))
  unfolding prefill
  prefill-cases prompt =
      let size = session.size_lem in
      let room = session.at_lem.capacity_lem in
      (
        λ busy. rw (gt→== s.size 0 (omega (arith, size, busy))),
        λ free empty. rw (eq→== s.size 0 (size ∙ free), nothing prompt empty),
        λ free more large. rw (
          eq→== s.size 0 (size ∙ free),
          is_empty_lem prompt more,
          lt→leb s.cache.capacity (length prompt) (omega (arith, room, large)),
        ),
        λ free more fits before after token split bad. rw (
          eq→== s.size 0 (size ∙ free),
          is_empty_lem prompt more,
          le→leb (length prompt) s.cache.capacity (omega (arith, room, fits)),
          refused prompt before after token split bad,
        ),
        λ free more fits good.
            prefill-IsSession w loaded executor capacity prompt s is_executor
              (blank tokens free session) more fits good,
      )
    where
      refused :
          (ts before after : List ℤ) (token : ℤ)
          → ts ≡ before ++ (token ∷ after)
          → bad_token vocabulary_size token ≡ true
          → check_tokens vocabulary_size ts
            ≡ err (Error.invalid_argument "input token ID is outside the real vocabulary")
      refused ts before after token split bad =
          ap (check_tokens vocabulary_size) split
          ∙ check_tokens_bad vocabulary_size before after token bad

      nothing : (ts : List ℤ) → length ts ≡ 0 → is_empty ts ≡ true
      nothing [] e = refl
      nothing (t ∷ ts) e = absurd (omega arith)

      lt→leb : (a b : ℕ) → a < b → leb b a ≡ false
      lt→leb a b h = ground arith

      blank :
          (ts : List ℤ)
          → length ts ≡ 0
          → IsSession w loaded ts capacity s
          → IsSession w loaded [] capacity s
      blank [] e h = h
      blank (t ∷ ts) e h = absurd (omega arith)
