-- ===== src/Session/State/Token.antt =====
-- `InferenceSession::consume_token` computes the logits of one more position.
use native.Mathlib.Decide.{dec_lt}
use native.Mathlib.Nat.{mul-le-mul, le_refl}
use gpt2_cpu_runtime.Prelude.{
  size_mod, wmul, wmul_lem, row_span, ok, Returns, step, for_range, for_range-Returns, length, take,
  drop, ℕ, suc, ◌+◌, ◌*◌, ◌≤◌, ◌<◌, ◌≡◌, refl, sym, ap, ◌∙◌, inl, Option, List, [], arith,
}
use gpt2_cpu_runtime.Prelude.Int.{ℤ, to_size}
use gpt2_cpu_runtime.Float.{Float}
use gpt2_cpu_runtime.Buffer.{subspan, subspan_lem, length-subspan, at}
use gpt2_cpu_runtime.Kernels.Stages.{IsMatrix, norm_stage}
use gpt2_cpu_runtime.Model.Tensor.{ModelWeights}
use gpt2_cpu_runtime.Model.Tensor.Lookup.{IsLoaded, values_of}
use gpt2_cpu_runtime.Model.Tensor.Globals.{wte_lem, wpe_lem, lnfw_lem, lnfb_lem}
use gpt2_cpu_runtime.Model.Block.{stream, logit}
use gpt2_cpu_runtime.Session.State.{Session, run_linear, embed_token, token_layer, consume_token}
use gpt2_cpu_runtime.Session.State.Filled.{IsReady, IsReady-buffers, IsFilled}
use gpt2_cpu_runtime.Session.State.Layer.{token_layer-Returns}
use gpt2_cpu_runtime.Sizes.{checked_multiply_lem}
use gpt2_cpu_runtime.Session.State.Stages.{IsExecutor, run_stage}
use gpt2_cpu_runtime.Session.State.Attended.{one_fits, IsPartial}
use gpt2_cpu_runtime.Kernels.LayerNorm.{layer_norm}
use gpt2_cpu_runtime.Session.State.Embedding.{embed_loop, head_row}

module _ {F : Type 0} ⦃fl : Float F⦄ where
  module _ (w : ModelWeights F) (loaded : IsLoaded w) (tokens : ℕ → ℕ) where
    open w.config use {channels as c, vocabulary_size, padded_vocabulary_size}

    -- A session that has consumed `t` tokens: its buffers have their sizes, and its cache holds the
    -- keys and the values of the reference network at every layer of every position before `t`.
    pub record HasConsumed (t : ℕ) (s : Session F) : Type 0 where
      pub ready : IsReady w.config s
      pub filled : IsFilled w tokens t 0 s.cache

    -- A session after one more token, with its logits.
    pub record IsNext (t : ℕ) (s s' : Session F) : Type 0 where
      pub consumed : HasConsumed (suc t) s'
      pub logits_lem : (v : ℕ) → v < vocabulary_size → at s'.logits v ≡ logit w tokens t v
      pub capacity_kept : s'.cache.capacity ≡ s.cache.capacity
      pub size_kept : s'.size ≡ s.size

    embed_token-Returns :
        (token : ℤ) (t : ℕ) (s : Session F)
        → tokens t ≡ to_size token
        → to_size token < vocabulary_size
        → t < s.cache.capacity
        → IsReady w.config s
        → Returns
            (for_range c 0
              (embed_token
                (values_of w "wte")
                (values_of w "wpe")
                (wmul (to_size token) c)
                (wmul t c))
              s.residual)
            (IsMatrix 1 c λ _. stream w tokens 0 t)
    unfolding stream
    embed_token-Returns token t s same ht hc ready =
        let g = wte_lem w loaded in
        let h = wpe_lem w loaded in
        let token_row =
          row_span (to_size token) padded_vocabulary_size c
            (omega (arith, loaded.is_valid.vocabulary_size_le)) in
        let position_row =
          row_span t w.config.max_sequence_length c (omega (arith, ready.within)) in
        let base : to_size token * c ≡ tokens t * c = ap (λ (n : ℕ). n * c) (sym same) in
        let token_base = wmul_lem (to_size token) c (omega (arith, g.fits)) ∙ base in
        let position_base = wmul_lem t c (omega (arith, h.fits)) in
        rw (token_base, position_base)
          (embed_loop (values_of w "wte") (values_of w "wpe") (tokens t * c) (t * c) c s.residual
            (omega (arith, g.fits, g.size_lem)) (omega (arith, h.fits, h.size_lem))
            (omega (arith, g.size_lem, base)) (omega (arith, h.size_lem))
            (omega (arith, ready.residual_size)))

    layers-Returns :
        (executor : Option ℕ) (t : ℕ) (s : Session F) (residual : List F)
        → IsExecutor executor
        → t < s.cache.capacity
        → HasConsumed t s
        → IsMatrix 1 c (λ _. stream w tokens 0 t) residual
        → Returns
            (for_range w.config.num_layers 0
              (token_layer executor w t (3 * c) (4 * c))
              (record s { residual = residual }))
            (IsPartial w loaded tokens s.cache.capacity s.size t w.config.num_layers)
    layers-Returns executor t s residual he hc before m =
        let ready = before.ready in
        for_range-Returns (IsPartial w loaded tokens s.cache.capacity s.size t)
          (token_layer executor w t (3 * c) (4 * c)) w.config.num_layers
          (record s { residual = residual })
          (λ layer s' lt part.
            token_layer-Returns w loaded tokens executor s.cache.capacity s.size t layer s' he hc
              (omega (arith, ready.within, loaded.is_sized.max_sequence_length_lt)) lt part)
          (record {
            ready =
                IsReady-buffers w.config s residual s.normalized s.logits m.size_lem
                  ready.normalized_size ready.logits_size ready;
            capacity_kept = refl;
            size_kept = refl;
            filled = before.filled;
            residual_lem = m;
          })

    -- What the last normalisation and the projection onto the vocabulary leave.
    record IsHead (executor : Option ℕ) (t : ℕ) (s : Session F) : Type 0 where
      normalized' : List F
      logits' : List F
      norm_lem :
          layer_norm s.normalized s.residual (values_of w "lnfw") (values_of w "lnfb") 1 c
          ≡ ok normalized'
      head_lem :
          subspan (values_of w "wte") 0 (wmul vocabulary_size c)
          ≡ ok (take (vocabulary_size * c) (drop 0 (values_of w "wte")))
      run_lem :
          run_linear executor s.logits normalized'
            (take (vocabulary_size * c) (drop 0 (values_of w "wte")))
            []
            c
            vocabulary_size
          ≡ ok logits'
      normalized_size : length normalized' ≡ 1 * c
      logits_size : length logits' ≡ 1 * vocabulary_size
      logits_lem : (v : ℕ) → v < vocabulary_size → at logits' v ≡ logit w tokens t v

    vocabulary_projected :
        (executor : Option ℕ) (t : ℕ) (s : Session F)
        → IsExecutor executor
        → IsReady w.config s
        → IsMatrix 1 c (λ _. stream w tokens w.config.num_layers t) s.residual
        → IsHead executor t s
    unfolding logit
    vocabulary_projected executor t s he ready m =
        let g = wte_lem w loaded in
        let wte = values_of w "wte" in
        let gw = lnfw_lem w loaded in
        let gb = lnfb_lem w loaded in
        let rows_fit : 1 * c < size_mod = omega (arith, one_fits w loaded tokens) in
        let head_le : vocabulary_size * c ≤ padded_vocabulary_size * c =
          mul-le-mul loaded.is_valid.vocabulary_size_le (le_refl c) in
        let head_fits : vocabulary_size * c < size_mod = omega (arith, g.fits) in
        let (n1, e3, m3) =
          norm_stage s.normalized s.residual (values_of w "lnfw") (values_of w "lnfb") 1 c _
            loaded.is_valid.channels_pos rows_fit ready.normalized_size gw.size_lem gb.size_lem m in
        let head = take (vocabulary_size * c) (drop 0 wte) in
        let head_size = length-subspan wte 0 (vocabulary_size * c) (omega (arith, g.size_lem)) in
        let (out, e4, m4) =
          run_stage executor s.logits n1 head [] c vocabulary_size _ he rows_fit
            (omega (arith, loaded.is_sized.vocabulary_size_lt)) head_fits ready.logits_size
            head_size (inl refl) m3 in
        record {
          normalized' = n1;
          logits' = out;
          norm_lem = e3;
          head_lem =
              ap (subspan wte 0) (wmul_lem vocabulary_size c head_fits)
              ∙ subspan_lem wte 0 (vocabulary_size * c) (omega (arith, g.size_lem));
          run_lem = e4;
          normalized_size = m3.size_lem;
          logits_size = m4.size_lem;
          logits_lem = λ u hu.
              let z : 0 * vocabulary_size + u ≡ u = omega arith in
              rw z at (m4.entry_lem 0 u (omega arith) hu) ∙ head_row wte vocabulary_size c _ u hu;
        }

    -- One more token is consumed without an exception or a fault, whatever the buffers held, with
    -- and without an executor. The logits are those of the reference network at its position.
    pub consume_token-Returns :
        (executor : Option ℕ) (token : ℤ) (t : ℕ) (s : Session F)
        → IsExecutor executor
        → tokens t ≡ to_size token
        → to_size token < vocabulary_size
        → t < s.cache.capacity
        → HasConsumed t s
        → Returns (consume_token executor w token t s) (IsNext t s)
    unfolding consume_token
    consume_token-Returns executor token t s he same ht hc before =
        let c4_fits : 4 * c < size_mod = omega (arith, one_fits w loaded tokens) in
        let (r0, e1, m1) = embed_token-Returns token t s same ht hc before.ready in
        let (deep, e2, part) = layers-Returns executor t s r0 he hc before m1 in
        let last = part.ready in
        let head = vocabulary_projected executor t deep he last part.residual_lem in
        (
          record deep { normalized = head.normalized'; logits = head.logits' },
          step _ (checked_multiply_lem 3 c "session 3 * channels" (omega (arith, c4_fits))) (
              step _ (checked_multiply_lem 4 c "session 4 * channels" c4_fits) (
                step _ (wte_lem w loaded).found (
                  step _ (wpe_lem w loaded).found (
                    step _ e1 (
                      step _ e2 (
                        step _ (lnfw_lem w loaded).found (
                          step _ (lnfb_lem w loaded).found (
                            step _ head.norm_lem
                              (step _ head.head_lem (step _ head.run_lem refl)))))))))),
          record {
            consumed = record {
              ready =
                  IsReady-buffers w.config deep deep.residual head.normalized' head.logits'
                    last.residual_size head.normalized_size head.logits_size last;
              filled = record {
                earlier = λ l p hl hp. elim (dec_lt p t) [
                  | yes old ↦ part.filled.earlier l p hl old
                  | no new ↦ let e : p ≡ t = omega arith in rw e (part.filled.current l hl)
                ];
                current = λ l hl. absurd (omega arith);
              };
            };
            logits_lem = head.logits_lem;
            capacity_kept = part.capacity_kept;
            size_kept = part.size_kept;
          },
        )
