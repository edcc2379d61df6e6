-- ===== src/Model/Forward/Rows.antt =====
-- `GPT2Model::forward` computes the logits of every position of its prefix.
use gpt2_cpu_runtime.Prelude.{
  ltb, ◌==◌, Bool-cases, err, inr, true, ◌++◌, le→ltb, eq→==, size_mod, wmul, wmul_lem, row_end,
  row_span, Error, ok, guard, Returns, step, guard-Returns, for_range, for_range-Returns, length,
  get_or, set, is_empty, is_empty_lem, ℕ, zero, suc, ◌+◌, ◌*◌, ◌≤◌, ◌<◌, ◌≡◌, refl, inl, false, not,
  ◌||◌, List, [], ◌∷◌, arith,
}
use gpt2_cpu_runtime.Prelude.Int.{ℤ, pos, to_size}
use gpt2_cpu_runtime.Float.{Float, ◌+f◌}
use gpt2_cpu_runtime.Buffer.{IsSpan, at, read-wadd, write-wadd}
use gpt2_cpu_runtime.Model.Forward.{
  bad_token, check_tokens, embed_channel, embed_position, forward_layer, forward,
}
use gpt2_cpu_runtime.Model.Block.{stream, logit}
use gpt2_cpu_runtime.Grid.{fill_row, fill_rows}
use gpt2_cpu_runtime.Kernels.Stages.{IsMatrix, norm_stage, linear_stage}
use gpt2_cpu_runtime.Model.Tensor.{ModelWeights}
use gpt2_cpu_runtime.Model.Tensor.Lookup.{IsLoaded, values_of}
use gpt2_cpu_runtime.Model.Tensor.Globals.{wte_lem, wpe_lem, lnfw_lem, lnfb_lem}
use gpt2_cpu_runtime.Model.Workspace.Resize.{HasRows, HasRows-residual, resize-Returns}
use gpt2_cpu_runtime.Model.Workspace.{Workspace}
use gpt2_cpu_runtime.Sizes.{checked_multiply_lem}
use gpt2_cpu_runtime.Model.Forward.Layer.{IsPass, forward_layer-Returns}

-- Every token of a prompt is an entry of the vocabulary.
abbrev pub AreTokens : ℕ → List ℤ → Type 0
AreTokens vocabulary_size [] = Unit
AreTokens vocabulary_size (token ∷ tokens) =
    (bad_token vocabulary_size token ≡ false) × AreTokens vocabulary_size tokens

pub check_tokens_lem :
    (vocabulary_size : ℕ) (tokens : List ℤ)
    → AreTokens vocabulary_size tokens
    → check_tokens vocabulary_size tokens ≡ ok tt
unfolding check_tokens
check_tokens_lem vocabulary_size [] h = refl
check_tokens_lem vocabulary_size (token ∷ tokens) (good, h) =
    rw (good, check_tokens_lem vocabulary_size tokens h)

-- A token outside the vocabulary is refused, whatever stands before and after it.
pub check_tokens_bad :
    (vocabulary_size : ℕ) (before after : List ℤ) (token : ℤ)
    → bad_token vocabulary_size token ≡ true
    → check_tokens vocabulary_size (before ++ (token ∷ after))
      ≡ err (Error.invalid_argument "input token ID is outside the real vocabulary")
unfolding check_tokens
check_tokens_bad vocabulary_size [] after token bad = rw bad
check_tokens_bad vocabulary_size (t ∷ before) after token bad =
    let later = check_tokens_bad vocabulary_size before after token bad in
    elim (Bool-cases (bad_token vocabulary_size t)) [
      | inl bad_first ↦ rw bad_first
      | inr good_first ↦ rw (good_first, later)
    ]

-- The vocabulary entry of the token at a position.
unfoldable pub token_at : List ℤ → ℕ → ℕ
token_at tokens position = to_size (get_or tokens position (pos 0))

pub token-lt :
    (vocabulary_size : ℕ) (token : ℤ)
    → bad_token vocabulary_size token ≡ false
    → to_size token < vocabulary_size
unfolding bad_token
token-lt vocabulary_size token h = ground arith

pub token_at-lt :
    (vocabulary_size : ℕ) (tokens : List ℤ) (position : ℕ)
    → AreTokens vocabulary_size tokens
    → position < length tokens
    → token_at tokens position < vocabulary_size
unfolding token_at
token_at-lt vocabulary_size [] position h l = absurd (omega arith)
token_at-lt vocabulary_size (token ∷ tokens) zero (good, h) l = token-lt vocabulary_size token good
token_at-lt vocabulary_size (token ∷ tokens) (suc position) (good, h) l =
    token_at-lt vocabulary_size tokens position h (omega arith)

module _ {F : Type 0} ⦃fl : Float F⦄ where
  embed_channel_lem :
      (wte wpe : List F) (token_base position_base k : ℕ) (b : List F)
      → IsSpan wte
      → IsSpan wpe
      → IsSpan b
      → token_base + k < length wte
      → position_base + k < length wpe
      → position_base + k < length b
      → embed_channel wte wpe token_base position_base k b
        ≡ ok (set b (position_base + k) (at wte (token_base + k) +f at wpe (position_base + k)))
  unfolding embed_channel
  embed_channel_lem wte wpe token_base position_base k b st sp sb ht hp hb = rw (
    read-wadd wte token_base k st ht,
    read-wadd wpe position_base k sp hp,
    write-wadd b position_base k _ sb hb,
  )

  module _ (w : ModelWeights F) (loaded : IsLoaded w) (tokens : List ℤ) where
    open w.config use {channels as c, max_sequence_length, vocabulary_size, padded_vocabulary_size}

    -- A prompt that `forward` accepts, whose buffers a `std::size_t` can count.
    pub record IsPrompt : Type 0 where
      pub nonempty : 0 < length tokens
      pub within : length tokens ≤ max_sequence_length
      pub valid : AreTokens vocabulary_size tokens
      pub hidden_fits : length tokens * (4 * c) < size_mod
      pub logits_fit : length tokens * padded_vocabulary_size < size_mod

    module _ (prompt : IsPrompt) where
      abbrev rows : ℕ
      rows = length tokens

      abbrev wte : List F
      wte = values_of w "wte"

      abbrev wpe : List F
      wpe = values_of w "wpe"

      -- The embeddings are the stream that enters the first layer.
      embedded :
          (residual : List F)
          → length residual ≡ rows * c
          → Returns
              (for_range rows 0 (embed_position wte wpe tokens c) residual)
              (IsMatrix rows c (stream w (token_at tokens) 0))
      unfolding embed_position stream token_at
      embedded residual size =
          let g = wte_lem w loaded in
          let h = wpe_lem w loaded in
          let (out, e, (kept, held)) =
            fill_rows c (rows * c) (stream w (token_at tokens) 0) rows
              (embed_position wte wpe tokens c) residual size
              λ r b hr written.
                let token = token_at tokens r in
                let good = token_at-lt vocabulary_size tokens r prompt.valid hr in
                let token_row =
                  row_span token padded_vocabulary_size c
                    (omega (arith, loaded.is_valid.vocabulary_size_le)) in
                let position_row =
                  row_span r max_sequence_length c (omega (arith, prompt.within)) in
                rw (wmul_lem token c (omega (arith, g.fits)), wmul_lem r c (omega (arith, h.fits)))
                  (fill_row c (rows * c) (stream w (token_at tokens) 0) r _ b (row_span r rows c hr)
                    (λ k b' hk e.
                      let here = row_end r rows k c hr hk in
                      embed_channel_lem wte wpe (token * c) (r * c) k b'
                        (omega (arith, g.fits, g.size_lem)) (omega (arith, h.fits, h.size_lem))
                        (omega (arith, prompt.hidden_fits)) (omega (arith, g.size_lem))
                        (omega (arith, h.size_lem)) (omega arith))
                    written) in
          (out, e, record { size_lem = kept; entry_lem = held.entries })

      -- The result of a pass: the logits of every position over the padded vocabulary.
      pub record HasLogits (ws : Workspace F) : Type 0 where
        pub logits_lem : IsMatrix rows padded_vocabulary_size (logit w (token_at tokens)) ws.logits

      -- The layers take the residual of the embeddings to that of the last layer.
      layers-Returns :
          (ws : Workspace F) (residual : List F)
          → IsMatrix rows c (stream w (token_at tokens) 0) residual
          → HasRows w.config rows ws
          → Returns
              (for_range w.config.num_layers 0
                (forward_layer w rows (3 * c) (4 * c))
                (record ws { residual = residual }))
              (IsPass w.config rows (stream w (token_at tokens) w.config.num_layers))
      layers-Returns ws residual m sizes =
          for_range-Returns (λ layer. IsPass w.config rows (stream w (token_at tokens) layer))
            (forward_layer w rows (3 * c) (4 * c)) w.config.num_layers
            (record ws { residual = residual })
            (λ layer ws' lt pass.
              forward_layer-Returns w loaded (token_at tokens) rows prompt.nonempty
                prompt.hidden_fits layer ws' lt pass)
            (record {
              residual_lem = m;
              sizes = HasRows-residual w.config rows ws residual m.size_lem sizes;
            })

      -- The check behind the layers passes.
      kept :
          (ws : Workspace F)
          → rows * c < size_mod
          → length ws.residual ≡ rows * c
          → guard
              (length ws.residual == wmul rows c)
              (Error.logic_error "workspace invariant failed after forward pass")
            ≡ ok tt
      kept ws fits e =
          guard-Returns (length ws.residual == wmul rows c) _
            (rw (wmul_lem rows c fits) (eq→== (length ws.residual) (rows * c) e))

      -- `forward` returns for every prompt that it accepts and whose buffers a `std::size_t` can
      -- count, whatever the workspace held. Its logits are those of the reference network.
      pub forward-Returns : (ws : Workspace F) → Returns (forward w tokens ws) HasLogits
      unfolding forward logit
      forward-Returns ws =
          let v = loaded.is_valid in
          let (ws1, e1, sizes) =
            resize-Returns w.config rows ws v prompt.nonempty prompt.within prompt.hidden_fits
              prompt.logits_fit in
          let g = wte_lem w loaded in
          let h = wpe_lem w loaded in
          let gw = lnfw_lem w loaded in
          let gb = lnfb_lem w loaded in
          let (r0, e2, m0) = embedded ws1.residual sizes.residual_size in
          let (ws2, e3, deep) = layers-Returns ws1 r0 m0 sizes in
          let rows_fit : rows * c < size_mod = omega (arith, prompt.hidden_fits) in
          let c4_fits : 4 * c < size_mod =
            omega (arith, prompt.hidden_fits, row_span 0 rows (4 * c) prompt.nonempty) in
          let (n1, e4, m4) =
            norm_stage ws2.normalized ws2.residual (values_of w "lnfw") (values_of w "lnfb") rows c
              _ v.channels_pos rows_fit deep.sizes.normalized_size gw.size_lem gb.size_lem
              deep.residual_lem in
          let (call, (out, e5, m5)) =
            linear_stage ws2.logits n1 wte [] rows c padded_vocabulary_size _ rows_fit
              prompt.logits_fit g.fits deep.sizes.logits_size g.size_lem (inl refl) m4 in
          (
            record ws2 { normalized = n1; logits = out },
            step _ accepted (
                step _ (check_tokens_lem vocabulary_size tokens prompt.valid) (
                  step _ e1 (
                    step _ g.found (
                      step _ h.found (
                        step _ e2 (
                          step _
                            (checked_multiply_lem 3 c "forward 3 * channels"
                              (omega (arith, c4_fits)))
                            (step _ (checked_multiply_lem 4 c "forward 4 * channels" c4_fits) (
                              step _ e3 (
                                step _ gw.found (
                                  step _ gb.found (
                                    step _ e4 (
                                      step _ e5 (
                                        step _ (kept ws2 rows_fit deep.residual_lem.size_lem)
                                          refl))))))))))))),
            record { logits_lem = m5 },
          )
        where
          accepted :
              guard
                (not (is_empty tokens || ltb max_sequence_length rows))
                (Error.invalid_argument "token prefix length is out of range")
              ≡ ok tt
          accepted = guard-Returns (not (is_empty tokens || ltb max_sequence_length rows)) _ (
              rw (
                is_empty_lem tokens prompt.nonempty,
                le→ltb max_sequence_length rows prompt.within,
              ))
