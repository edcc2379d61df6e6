-- ===== src/Generate/Continuation/Full.antt =====
-- `generate_full` computes the continuation of its prompt.
use gpt2_cpu_runtime.Prelude.{
  ◌==◌, if◌then◌else◌, le→ltb, Bool-cases, streamsize_max, wmul_lem, row_span, last_start, ok,
  Returns, step, for_range-Returns, length, take, drop, is_empty, length-append, length-take,
  length-drop, get_or-take, get_or-drop, tabulate, length-tabulate, get_or-tabulate,
  list_ext-tabulate, ℕ, suc, ◌+◌, ◌-◌, ◌*◌, ◌≤◌, ◌<◌, ◌≡◌, refl, ap, ◌∙◌, inl, inr, true, not, ◌||◌,
  none, some, List, [], ◌∷◌, ◌++◌, arith,
}
use gpt2_cpu_runtime.Prelude.Int.{ℤ}
use gpt2_cpu_runtime.Float.{Float}
use gpt2_cpu_runtime.Buffer.{subspan, subspan_lem, at}
use gpt2_cpu_runtime.Model.Tensor.{ModelWeights}
use gpt2_cpu_runtime.Model.Tensor.Lookup.{IsLoaded}
use gpt2_cpu_runtime.Model.Block.{logit}
use gpt2_cpu_runtime.Model.Workspace.{Workspace, empty_workspace}
use gpt2_cpu_runtime.Model.Forward.Rows.{token_at, IsPrompt, HasLogits, forward-Returns}
use gpt2_cpu_runtime.Generate.Options.{Options}
use gpt2_cpu_runtime.Generate.Loops.{
  Generated, OutputFiles, print_step, FullState, last, dump_binary, full_step, dump_full,
  generate_full,
}
use gpt2_cpu_runtime.Generate.Continuation.{
  last_logits, length-last_logits, greedy_next, continuation, step_lines, length-continuation,
  IsRequest, continuation-IsPrompt,
}
use gpt2_cpu_runtime.Model.Forward.{forward}

-- The dump file can be opened, and every write to it succeeds.
pub record AcceptsDump {F : Type 0} (files : OutputFiles F) (path : List ℕ) : Type 0 where
  pub opened : files.opens path ≡ true
  pub written : (values : List F) → files.writes path values ≡ true

module _ {F : Type 0} ⦃fl : Float F⦄ where
  pub dump_binary_lem :
      (files : OutputFiles F) (path : List ℕ) (values : List F)
      → AcceptsDump files path
      → length values * 4 ≤ streamsize_max
      → dump_binary files path values ≡ ok tt
  unfolding dump_binary
  dump_binary_lem files path values accepts fits =
      let small = le→ltb streamsize_max (length values * 4) fits in
      rw (accepts.opened, wmul_lem (length values) 4 (omega arith), small, accepts.written values)

  pub last_lem :
      (xs : List F) (count : ℕ)
      → count ≤ length xs
      → last xs count ≡ ok (drop (length xs - count) xs)
  unfolding last
  last_lem xs count h = ground arith

module _ {F : Type 0} ⦃fl : Float F⦄ (w : ModelWeights F) (loaded : IsLoaded w) where
  open w.config use {vocabulary_size, padded_vocabulary_size}

  -- The last rows of the logits of a pass.
  pub last_row :
      (tokens : List ℤ) (ws : Workspace F) (prompt : IsPrompt w loaded tokens)
      → HasLogits w loaded tokens prompt ws
      → last ws.logits padded_vocabulary_size ≡ ok (last_logits w padded_vocabulary_size tokens)
  unfolding last_logits
  last_row tokens ws prompt has =
      let P = padded_vocabulary_size in
      let n = length tokens - 1 in
      let size = has.logits_lem.size_lem in
      let end = row_span n (length tokens) P (omega (arith, prompt.nonempty)) in
      let skipped = length ws.logits - P in
      let start : skipped ≡ n * P =
        last_start (length tokens) P (length ws.logits) prompt.nonempty size in
      last_lem ws.logits P (omega (arith, size, end))
      ∙ ap ok (
          list_ext-tabulate P (logit w (token_at tokens) n) (drop skipped ws.logits) fl.nought
            (length-drop skipped ws.logits ∙ omega (arith, size, end))
            λ i h.
              get_or-drop skipped i ws.logits fl.nought
              ∙ ap (at ws.logits) (ap (λ (k : ℕ). k + i) start)
              ∙ has.logits_lem.entry_lem n i (omega (arith, prompt.nonempty)) h)

  -- The real vocabulary comes first in the padded one.
  pub take-last_logits :
      (tokens : List ℤ)
      → take vocabulary_size (last_logits w padded_vocabulary_size tokens)
        ≡ last_logits w vocabulary_size tokens
  unfolding last_logits
  take-last_logits tokens =
      let P = padded_vocabulary_size in
      let V = vocabulary_size in
      let f = logit w (token_at tokens) (length tokens - 1) in
      let le = loaded.is_valid.vocabulary_size_le in
      list_ext-tabulate V f (take V (tabulate P f)) fl.nought
        (length-take V (tabulate P f) (omega (arith, length-tabulate P f, le)))
        λ i h.
          get_or-take V i (tabulate P f) fl.nought h
          ∙ get_or-tabulate P i f fl.nought (omega (arith, le))

  pub real_row :
      (tokens : List ℤ)
      → subspan (last_logits w padded_vocabulary_size tokens) 0 vocabulary_size
        ≡ ok (last_logits w vocabulary_size tokens)
  real_row tokens =
      let row = last_logits w padded_vocabulary_size tokens in
      let size = length-last_logits w padded_vocabulary_size tokens in
      subspan_lem row 0 vocabulary_size (omega (arith, size, loaded.is_valid.vocabulary_size_le))
      ∙ ap ok (take-last_logits tokens)

  -- The program has generated `options.max_new_tokens` tokens, and dumped the last logits when a
  -- path is given, over the first `size` entries of the vocabulary.
  pub record HasGenerated (options : Options) (size : ℕ) (out : Generated F) : Type 0 where
    pub tokens_lem : out.tokens ≡ continuation w options.tokens options.max_new_tokens
    pub steps_lem : out.steps ≡ step_lines w options.tokens options.max_new_tokens
    pub dumped_lem : out.dumped ≡ (
        if is_empty options.dump_last_logits
        then none
        else some (last_logits w size (continuation w options.tokens options.max_new_tokens)))

  record IsFullState (prompt : List ℤ) (n : ℕ) (st : FullState F) : Type 0 where
    tokens_lem : st.tokens ≡ continuation w prompt n
    steps_lem : st.steps ≡ step_lines w prompt n

  full_step-Returns :
      (prompt : List ℤ) (count n : ℕ) (st : FullState F)
      → IsRequest w prompt count
      → n < count
      → IsFullState prompt n st
      → Returns (full_step w n st) (IsFullState prompt (suc n))
  unfolding full_step continuation step_lines greedy_next
  full_step-Returns prompt count n st request lt now =
      let tokens = continuation w prompt n in
      let is_prompt = continuation-IsPrompt w loaded prompt count n request (omega arith) in
      let (ws, e, has) = forward-Returns w loaded tokens is_prompt st.workspace in
      let next = greedy_next w tokens in
      let size = length-continuation w prompt n in
      let before : length (tokens ++ (next ∷ [])) - 1 ≡ length prompt + n =
        omega (arith, length-append tokens (next ∷ []), size) in
      (
        record {
          tokens = tokens ++ (next ∷ []);
          steps = print_step (step_lines w prompt n) (n + 1) (tokens ++ (next ∷ [])) next;
          workspace = ws;
        },
        rw (now.tokens_lem, now.steps_lem)
            (step _ e (step _ (last_row tokens ws is_prompt has) (step _ (real_row tokens) refl))),
        record { tokens_lem = refl; steps_lem = rw before },
      )

  dump_full_lem :
      (files : OutputFiles F) (path : List ℕ) (tokens : List ℤ) (ws : Workspace F)
      → (prompt : IsPrompt w loaded tokens) → AcceptsDump files path
      → padded_vocabulary_size * 4 ≤ streamsize_max
      → HasLogits w loaded tokens prompt ws
      → dump_full files w path ws
        ≡ ok (if is_empty path then none else some (last_logits w padded_vocabulary_size tokens))
  unfolding dump_full
  dump_full_lem files path tokens ws prompt accepts fits has =
      let row = last_logits w padded_vocabulary_size tokens in
      let size : length row ≡ padded_vocabulary_size =
        length-last_logits w padded_vocabulary_size tokens in
      elim (Bool-cases (is_empty path)) [
        | inl no_dump ↦ rw no_dump
        | inr dump ↦ rw dump (
            step _ (last_row tokens ws prompt has)
              (step _ (dump_binary_lem files path row accepts (omega (arith, size, fits))) refl))
      ]

  -- The pass behind the loop, made when there is no other pass or when its logits are dumped.
  last_pass :
      (files : OutputFiles F) (path : List ℕ) (tokens : List ℤ) (count : ℕ) (ws : Workspace F)
      → IsPrompt w loaded tokens
      → AcceptsDump files path
      → padded_vocabulary_size * 4 ≤ streamsize_max
      → Returns (if count == 0 || not (is_empty path) then forward w tokens ws else ok ws) λ ws'.
        dump_full files w path ws'
        ≡ ok (if is_empty path then none else some (last_logits w padded_vocabulary_size tokens))
  last_pass files path tokens count ws prompt accepts fits =
      let (ws', e, has) = forward-Returns w loaded tokens prompt ws in
      let dumped = dump_full_lem files path tokens ws' prompt accepts fits has in
      elim (Bool-cases (count == 0)) [
        | inl zero_tokens ↦ rw zero_tokens (ws', e, dumped)
        | inr some_tokens ↦ elim (Bool-cases (is_empty path)) [
          | inl no_dump ↦ rw (some_tokens, no_dump) (ws, refl, skipped files ws no_dump)
          | inr dump ↦ rw (some_tokens, dump) (ws', e, rw dump at dumped)
        ]
      ]
    where
      skipped :
          (files : OutputFiles F) (ws : Workspace F)
          → is_empty path ≡ true
          → dump_full files w path ws ≡ ok none
      skipped files ws e = unfold dump_full in rw e

  -- For a request within the context, `generate_full` returns. Its tokens and its printed steps are
  -- those of greedy generation by the reference network, and what it dumps, when a path is given,
  -- are the padded logits behind the last token.
  pub generate_full-Returns :
      (files : OutputFiles F) (options : Options)
      → IsRequest w options.tokens options.max_new_tokens
      → AcceptsDump files options.dump_last_logits
      → padded_vocabulary_size * 4 ≤ streamsize_max
      → Returns (generate_full files options w) (HasGenerated options padded_vocabulary_size)
  unfolding generate_full continuation step_lines
  generate_full-Returns files options request accepts fits =
      let count = options.max_new_tokens in
      let prompt = options.tokens in
      let (st, e, done) =
        for_range-Returns (IsFullState prompt) (full_step w) count
          (record { tokens = prompt; steps = []; workspace = empty_workspace })
          (λ n st lt now. full_step-Returns prompt count n st request lt now)
          (record { tokens_lem = refl; steps_lem = refl }) in
      let is_prompt = continuation-IsPrompt w loaded prompt count count request (omega arith) in
      let (ws, e', dumped) =
        last_pass files options.dump_last_logits (continuation w prompt count) count st.workspace
          is_prompt accepts fits in
      let pass = rw (← done.tokens_lem) at e' in
      (
        _,
        step _ e (step _ pass (step _ dumped refl)),
        record { tokens_lem = done.tokens_lem; steps_lem = done.steps_lem; dumped_lem = refl },
      )
