-- ===== src/Kernels/Attention/Causal.antt =====
-- `kernels::causal_self_attention` computes `attend_row` for every position and head.
use gpt2_cpu_runtime.Update.{IsUpdated, IsUpdated-congr}
use gpt2_cpu_runtime.Prelude.{
  size_mod, wadd, wmul, wadd_lem, wmul_lem, row_span, heads_fill, le-mul_of_pos, Returns, length,
  replicate, length-replicate, get_or-replicate, ℕ, ◌+◌, ◌*◌, ◌/◌, ◌%◌, ◌≤◌, ◌<◌, ◌≡◌, sym, ◌∙◌,
  subst, List, arith,
}
use gpt2_cpu_runtime.Float.{Float}
use gpt2_cpu_runtime.Buffer.{IsSpan, require_size_lem, at}
use gpt2_cpu_runtime.Reference.{attend_row, attend_row-congr}
use gpt2_cpu_runtime.Kernels.Attention.{
  Buffers, attend_head, scale_of, causal_position, causal_self_attention,
}
use gpt2_cpu_runtime.Kernels.Attention.Head.{attend_head-Returns}
use gpt2_cpu_runtime.Kernels.Attention.Rows.{
  bad_dimensions_lem, IsHeaded, fill_heads, fill_positions,
}

module _ {F : Type 0} ⦃fl : Float F⦄ where
  -- What the caller owes: the sizes and whole heads.
  pub record IsCausalCall (output qkv scratch : List F) (rows channels heads : ℕ) : Type 0 where
    pub output_size : length output ≡ rows * channels
    pub qkv_size : length qkv ≡ rows * 3 * channels
    pub scratch_size : length scratch ≡ rows
    pub heads_pos : 0 < heads
    pub channels_pos : 0 < channels
    pub divides : channels % heads ≡ 0
    pub qkv_fits : IsSpan qkv
    pub rows_pos : 0 < rows

  module _ (output qkv scratch : List F) (rows channels heads : ℕ) where
    abbrev size : ℕ
    size = channels / heads

    -- Entry `i` of head `h` at position `p`: attention over the positions up to `p`. A row of `qkv`
    -- holds the query, the key and the value of its position, one behind the other.
    abbrev pub causal_entry : ℕ → ℕ → ℕ → F
    causal_entry p h i =
        attend_row (p + 1) size (scale_of size) (λ c. at qkv (p * 3 * channels + h * size + c))
          (λ s c. at qkv (s * 3 * channels + channels + h * size + c))
          (λ s c. at qkv (s * 3 * channels + 2 * channels + h * size + c)) i

    abbrev zeros : Buffers F
    zeros = record { output = replicate (length output) fl.nought; scratch = scratch }

    module _ (call : IsCausalCall output qkv scratch rows channels heads) where
      fills : heads * size ≡ channels
      fills = heads_fill channels heads call.divides

      head_le : (h : ℕ) → h < heads → h * size + size ≤ channels
      head_le h l = omega (arith, row_span h heads size l, fills)

      fits : rows * 3 * channels < size_mod
      fits = omega (arith, call.qkv_fits, call.qkv_size)

      channels_fit : 3 * channels < size_mod
      channels_fit = omega (arith, fits, row_span 0 rows channels call.rows_pos)

      row_le : (p : ℕ) → p < rows → p * 3 * channels + 3 * channels ≤ rows * 3 * channels
      row_le p l = omega (arith, row_span p rows channels l)

      third_lem : (p : ℕ) → p < rows → wmul (wmul p 3) channels ≡ p * 3 * channels
      third_lem p l =
          rw
            (wmul_lem p 3
              (omega (arith, row_le p l, fits, le-mul_of_pos p channels call.channels_pos)))
            (wmul_lem (p * 3) channels (omega (arith, row_le p l, fits)))

      query_lem :
          (h p base : ℕ)
          → base ≡ h * size
          → h < heads
          → p < rows
          → wadd (wmul (wmul p 3) channels) base ≡ p * 3 * channels + h * size
      query_lem h p base exact l m =
          rw (third_lem p m, exact) (wadd_lem _ _ (omega (arith, row_le p m, head_le h l, fits)))

      key_lem :
          (h s base : ℕ)
          → base ≡ h * size
          → h < heads
          → s < rows
          → wadd (wadd (wmul (wmul s 3) channels) channels) base
            ≡ s * 3 * channels + channels + h * size
      key_lem h s base exact l m =
          rw
            (
              third_lem s m,
              exact,
              wadd_lem (s * 3 * channels) channels
                  (omega (arith, row_le s m, fits, call.channels_pos)),
            )
            (wadd_lem _ _ (omega (arith, row_le s m, head_le h l, fits, call.channels_pos)))

      value_lem :
          (h s base : ℕ)
          → base ≡ h * size
          → h < heads
          → s < rows
          → wadd (wadd (wmul (wmul s 3) channels) (wmul 2 channels)) base
            ≡ s * 3 * channels + 2 * channels + h * size
      value_lem h s base exact l m =
          rw
            (
              third_lem s m,
              exact,
              wmul_lem 2 channels (omega (arith, channels_fit)),
              wadd_lem (s * 3 * channels) (2 * channels)
                  (omega (arith, row_le s m, fits, call.channels_pos)),
            )
            (wadd_lem _ _ (omega (arith, row_le s m, head_le h l, fits, call.channels_pos)))

      causal_head-Returns :
          (p h base out : ℕ) (b : Buffers F)
          → base ≡ h * size
          → out ≡ p * channels + h * size
          → p < rows
          → h < heads
          → length b.scratch ≡ rows
          → length b.output ≡ rows * channels
          → ((i : ℕ) → i < size → at b.output (p * channels + h * size + i) ≡ fl.nought)
          → Returns
              (attend_head qkv qkv qkv
                (wadd (wmul (wmul p 3) channels) base)
                (λ s. wadd (wadd (wmul (wmul s 3) channels) channels) base)
                (λ s. wadd (wadd (wmul (wmul s 3) channels) (wmul 2 channels)) base)
                (p + 1)
                size
                (scale_of size)
                out
                b)
              λ c.
                (length c.scratch ≡ length b.scratch)
                × IsUpdated (p * channels + h * size) size (causal_entry p h) b.output c.output
      causal_head-Returns p h base out b exact here l m es eo blank =
          let room = head_le h m in
          let up = λ (s : ℕ) (k : s < p + 1). let r : s < rows = omega arith in r in
          let keys = λ (s : ℕ) (k : s < p + 1). key_lem h s base exact m (up s k) in
          let vals = λ (s : ℕ) (k : s < p + 1). value_lem h s base exact m (up s k) in
          let query = query_lem h p base exact m l in
          let (c, e, q) =
            attend_head-Returns qkv qkv qkv (wadd (wmul (wmul p 3) channels) base)
              (λ s. wadd (wadd (wmul (wmul s 3) channels) channels) base)
              (λ s. wadd (wadd (wmul (wmul s 3) channels) (wmul 2 channels)) base) (p + 1) size
              (scale_of size)
              (record {
                query_fits = call.qkv_fits;
                keys_fits = call.qkv_fits;
                values_fits = call.qkv_fits;
                query_room = rw query (omega (arith, row_le p l, call.qkv_size, room));
                key_room =
                    λ s k. rw (keys s k) (omega (arith, row_le s (up s k), call.qkv_size, room));
                value_room =
                    λ s k. rw (vals s k) (omega (arith, row_le s (up s k), call.qkv_size, room));
              })
              out b (omega arith) (omega (arith, fits, row_le p l))
              (omega (arith, here, row_span p rows channels l, room)) (rw (sym here) at blank) in
          (
            c,
            e,
            (
              q.0,
              subst (λ k. IsUpdated k size (causal_entry p h) b.output c.output) here
                  (IsUpdated-congr
                    (attend_row-congr (p + 1) size (scale_of size) _ _ _ _ _ _ (λ _ _. rw query)
                      (λ s j k _. rw (keys s k)) (λ s j k _. rw (vals s k)))
                    q.1),
            ),
          )

      causal_position-Returns :
          (p : ℕ) (b : Buffers F)
          → p < rows
          → length b.scratch ≡ rows
          → length b.output ≡ rows * channels
          → ((j : ℕ) → p * channels ≤ j → at b.output j ≡ fl.nought)
          → Returns
              (causal_position qkv channels heads p b)
              (IsHeaded heads size (p * channels) (causal_entry p) b heads)
      unfolding causal_position
      causal_position-Returns p b l es eo blank =
          fill_heads heads size (p * channels) (causal_entry p) b _ blank λ h b' m e1 e2 z.
            let row = row_span p rows channels l in
            let exact = wmul_lem h size (omega (arith, head_le h m, channels_fit)) in
            causal_head-Returns p h (wmul h size) _ b' exact
              (rw (exact, wmul_lem p channels (omega (arith, row, fits)))
                (wadd_lem _ _ (omega (arith, row, head_le h m, fits))))
              l m (e1 ∙ es) (e2 ∙ eo) z

      -- A call with valid sizes returns, and entry `i` of head `h` in row `p` of its output is the
      -- softmax average of the values at the positions up to `p` for that head.
      pub causal_self_attention-Returns :
          Returns (causal_self_attention output qkv scratch rows channels heads) λ b.
            (length b.output ≡ rows * channels)
            × (length b.scratch ≡ rows)
            × ((p h i : ℕ)
                → p < rows
                → h < heads
                → i < size
                → at b.output (p * channels + h * size + i) ≡ causal_entry p h i)
      unfolding causal_self_attention
      causal_self_attention-Returns =
          let blank_size = length-replicate (length output) fl.nought ∙ call.output_size in
          let (b, e, w) =
            fill_positions rows heads size channels fills causal_entry zeros
              (causal_position qkv channels heads)
              (λ j. get_or-replicate (length output) j fl.nought)
              (λ p b l es eo blank.
                causal_position-Returns p b l (es ∙ call.scratch_size) (eo ∙ blank_size) blank) in
          (
            b,
            rw
                (
                  wmul_lem rows channels (omega (arith, fits)),
                  wmul_lem rows 3
                      (omega (arith, fits, le-mul_of_pos rows channels call.channels_pos)),
                  wmul_lem (rows * 3) channels fits,
                  require_size_lem output (rows * channels) "attention output" call.output_size,
                  require_size_lem qkv (rows * 3 * channels) "attention qkv" call.qkv_size,
                  require_size_lem scratch rows "attention scratch" call.scratch_size,
                  bad_dimensions_lem channels heads call.heads_pos call.channels_pos call.divides,
                )
                e,
            (w.size_kept ∙ blank_size, w.scratch_kept ∙ call.scratch_size, w.written),
          )
