-- ===== src/Kernels/Attention/Cached.antt =====
-- `kernels::cached_self_attention` computes `attend_row` for every head of its one query.
use gpt2_cpu_runtime.Kernels.Attention.Rows.{bad_dimensions_lem, IsHeaded, fill_heads}
use gpt2_cpu_runtime.Update.{IsUpdated, IsUpdated-congr}
use gpt2_cpu_runtime.Prelude.{
  ltb, ◌==◌, size_mod, wadd, wmul, wadd_lem, wmul_lem, row_span, heads_fill, Returns, guard-Returns,
  length, replicate, length-replicate, get_or-replicate, ℕ, ◌+◌, ◌*◌, ◌/◌, ◌%◌, ◌≤◌, ◌<◌, ◌≡◌, sym,
  ◌∙◌, subst, not, ◌||◌, List, arith,
}
use gpt2_cpu_runtime.Float.{Float}
use gpt2_cpu_runtime.Buffer.{IsSpan, require_size_lem, at}
use gpt2_cpu_runtime.Reference.{attend_row, attend_row-congr}
use gpt2_cpu_runtime.Kernels.Attention.{
  Buffers, attend_head, scale_of, cached_heads, cached_self_attention,
}
use gpt2_cpu_runtime.Kernels.Attention.Head.{attend_head-Returns}

module _ {F : Type 0} ⦃fl : Float F⦄ where
  -- What the caller owes: the sizes, a visible prefix of the cache, and whole heads.
  pub record IsCachedCall (output query keys values scratch : List F)
      (visible capacity channels heads : ℕ) : Type 0 where
    pub output_size : length output ≡ channels
    pub query_size : length query ≡ channels
    pub keys_size : length keys ≡ capacity * channels
    pub values_size : length values ≡ capacity * channels
    pub scratch_size : length scratch ≡ capacity
    pub visible_pos : 0 < visible
    pub visible_le : visible ≤ capacity
    pub heads_pos : 0 < heads
    pub channels_pos : 0 < channels
    pub divides : channels % heads ≡ 0
    pub keys_fits : IsSpan keys

  module _ (output query keys values scratch : List F) (visible capacity channels heads : ℕ) where
    abbrev size : ℕ
    size = channels / heads

    -- Entry `i` of head `h`: attention over the first `visible` cached positions.
    abbrev pub cached_entry : ℕ → ℕ → F
    cached_entry h i =
        attend_row visible size (scale_of size) (λ c. at query (h * size + c))
          (λ s c. at keys (s * channels + h * size + c))
          (λ s c. at values (s * channels + h * size + c)) i

    abbrev zeros : Buffers F
    zeros = record { output = replicate (length output) fl.nought; scratch = scratch }

    module _
        (call : IsCachedCall output query keys values scratch visible capacity channels heads) where
      fills : heads * size ≡ channels
      fills = heads_fill channels heads call.divides

      head_le : (h : ℕ) → h < heads → h * size + size ≤ channels
      head_le h l = omega (arith, row_span h heads size l, fills)

      fits : capacity * channels < size_mod
      fits = omega (arith, call.keys_fits, call.keys_size)

      channels_fit : channels < size_mod
      channels_fit =
          omega (arith, fits, call.visible_pos, call.visible_le, row_span 0 capacity channels)

      source_le : (s : ℕ) → s < visible → s * channels + channels ≤ capacity * channels
      source_le s l = row_span s capacity channels (omega (arith, call.visible_le))

      base_lem :
          (h s base : ℕ)
          → base ≡ h * size
          → h < heads
          → s < visible
          → wadd (wmul s channels) base ≡ s * channels + h * size
      base_lem h s base exact l m =
          rw (wmul_lem s channels (omega (arith, source_le s m, fits)), exact)
            (wadd_lem _ _ (omega (arith, source_le s m, head_le h l, fits)))

      cached_head-Returns :
          (h base : ℕ) (b : Buffers F)
          → base ≡ h * size
          → h < heads
          → length b.scratch ≡ capacity
          → length b.output ≡ channels
          → ((i : ℕ) → i < size → at b.output (0 + h * size + i) ≡ fl.nought)
          → Returns
              (attend_head query keys values base
                (λ s. wadd (wmul s channels) base)
                (λ s. wadd (wmul s channels) base)
                visible
                size
                (scale_of size)
                base
                b)
              λ c.
                (length c.scratch ≡ length b.scratch)
                × IsUpdated (0 + h * size) size (cached_entry h) b.output c.output
      cached_head-Returns h base b exact l es eo zero_part =
          let room = head_le h l in
          let start : 0 + h * size ≡ base = omega (arith, exact) in
          let here = λ (s : ℕ) (m : s < visible). base_lem h s base exact l m in
          let (c, e, p) =
            attend_head-Returns query keys values base (λ s. wadd (wmul s channels) base)
              (λ s. wadd (wmul s channels) base) visible size (scale_of size)
              (record {
                query_fits = omega (arith, channels_fit, call.query_size);
                keys_fits = call.keys_fits;
                values_fits = omega (arith, call.values_size, fits);
                query_room = omega (arith, call.query_size, exact);
                key_room = λ s m. rw (here s m) (omega (arith, source_le s m, call.keys_size));
                value_room = λ s m. rw (here s m) (omega (arith, source_le s m, call.values_size));
              })
              base b (omega (arith, call.visible_le)) (omega (arith, channels_fit))
              (omega (arith, exact)) (rw start at zero_part) in
          (
            c,
            e,
            (
              p.0,
              subst (λ k. IsUpdated k size (cached_entry h) b.output c.output) (sym start)
                  (IsUpdated-congr
                    (attend_row-congr visible size (scale_of size) _ _ _ _ _ _ (λ _ _. rw exact)
                      (λ s j m _. rw (here s m)) (λ s j m _. rw (here s m)))
                    p.1),
            ),
          )

      cached_heads-Returns :
          (b : Buffers F)
          → length b.scratch ≡ capacity
          → length b.output ≡ channels
          → ((j : ℕ) → at b.output j ≡ fl.nought)
          → Returns
              (cached_heads query keys values visible channels heads b)
              (IsHeaded heads size 0 cached_entry b heads)
      unfolding cached_heads
      cached_heads-Returns b es eo blank =
          fill_heads heads size 0 cached_entry b _ (λ j _. blank j)
            λ h b' l e1 e2 z.
              cached_head-Returns h (wmul h size) b'
                (wmul_lem h size (omega (arith, head_le h l, channels_fit))) l (e1 ∙ es) (e2 ∙ eo) z

      -- A call with valid sizes returns, and entry `i` of head `h` of its output is the softmax
      -- average of the visible cached values for that head.
      pub cached_self_attention-Returns :
          Returns
            (cached_self_attention output query keys values scratch visible capacity channels heads)
            λ b.
              (length b.output ≡ channels)
              × (length b.scratch ≡ capacity)
              × ((h i : ℕ) → h < heads → i < size → at b.output (h * size + i) ≡ cached_entry h i)
      unfolding cached_self_attention
      cached_self_attention-Returns =
          let (b, e, w) =
            cached_heads-Returns zeros call.scratch_size
              (length-replicate (length output) fl.nought ∙ call.output_size)
              (λ j. get_or-replicate (length output) j fl.nought) in
          (
            b,
            rw
                (
                  wmul_lem capacity channels fits,
                  require_size_lem output channels "cached attention output" call.output_size,
                  require_size_lem query channels "cached attention query" call.query_size,
                  require_size_lem keys (capacity * channels) "cached attention keys"
                      call.keys_size,
                  require_size_lem values (capacity * channels) "cached attention values"
                      call.values_size,
                  require_size_lem scratch capacity "cached attention scratch" call.scratch_size,
                  guard-Returns (not (visible == 0 || ltb capacity visible)) _
                      (ground (arith, call.visible_pos, call.visible_le)),
                  bad_dimensions_lem channels heads call.heads_pos call.channels_pos call.divides,
                )
                e,
            (
              w.size_kept ∙ length-replicate (length output) fl.nought ∙ call.output_size,
              w.scratch_kept ∙ call.scratch_size,
              λ h i l m.
                  let z : 0 + h * size ≡ h * size = omega arith in rw z at (w.written h i l m),
            ),
          )
