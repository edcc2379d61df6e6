-- ===== src/Kernels/Attention/Rows.antt =====
-- The loops over heads and positions: which entry of the output each head writes.
use native.Mathlib.Decide.{dec_lt}
use gpt2_cpu_runtime.Prelude.{
  row_end, row_span, Result, Returns, for_range, for_range-Returns, length, ℕ, suc, ◌+◌, ◌*◌, ◌%◌,
  ◌≤◌, ◌<◌, ◌≡◌, refl, ◌∙◌, false, arith,
}
use gpt2_cpu_runtime.Float.{Float}
use gpt2_cpu_runtime.Buffer.{at}
use gpt2_cpu_runtime.Update.{IsUpdated}
use gpt2_cpu_runtime.Kernels.Attention.{Buffers, bad_dimensions}

pub bad_dimensions_lem :
    (channels heads : ℕ)
    → 0 < heads
    → 0 < channels
    → channels % heads ≡ 0
    → bad_dimensions channels heads ≡ false
unfolding bad_dimensions
bad_dimensions_lem channels heads h k e = ground arith

module _ {F : Type 0} ⦃fl : Float F⦄ where
  module _ (heads size base : ℕ) (f : ℕ → ℕ → F) (start : Buffers F) where
    -- The first `k` heads are written, behind them the output is still zero.
    pub record IsHeaded (k : ℕ) (b : Buffers F) : Type 0 where
      pub scratch_kept : length b.scratch ≡ length start.scratch
      pub size_kept : length b.output ≡ length start.output
      pub written : (h i : ℕ) → h < k → i < size → at b.output (base + h * size + i) ≡ f h i
      pub below : (j : ℕ) → j < base → at b.output j ≡ at start.output j
      pub rest : (j : ℕ) → base + k * size ≤ j → at b.output j ≡ fl.nought

    IsHeaded-next :
        (k : ℕ) (b c : Buffers F)
        → IsHeaded k b
        → length c.scratch ≡ length b.scratch
        → IsUpdated (base + k * size) size (f k) b.output c.output
        → IsHeaded (suc k) c
    IsHeaded-next k b c w e u = record {
      scratch_kept = e ∙ w.scratch_kept;
      size_kept = u.size_kept ∙ w.size_kept;
      written = λ h i l m. elim (dec_lt h k) [
        | yes lower ↦
            u.below (base + h * size + i) (omega (arith, row_end h k i size lower m))
            ∙ w.written h i lower m
        | no last ↦ let e : h ≡ k = omega arith in rw e (u.changed i m)
      ];
      below = λ j l. u.below j (omega arith) ∙ w.below j l;
      rest = λ j l. u.above j (omega arith) ∙ w.rest j (omega arith);
    }

    -- A loop over heads, each of which writes its own part of a row.
    pub fill_heads :
        (head : ℕ → Buffers F → Result (Buffers F))
        → ((j : ℕ) → base ≤ j → at start.output j ≡ fl.nought)
        → ((k : ℕ) (b : Buffers F)
            → k < heads
            → length b.scratch ≡ length start.scratch
            → length b.output ≡ length start.output
            → ((i : ℕ) → i < size → at b.output (base + k * size + i) ≡ fl.nought)
            → Returns (head k b) λ c.
              (length c.scratch ≡ length b.scratch)
              × IsUpdated (base + k * size) size (f k) b.output c.output)
        → Returns (for_range heads 0 head start) (IsHeaded heads)
    fill_heads head zeros writes =
        for_range-Returns IsHeaded head heads start
          (λ k b h w.
            let (c, e, p) =
              writes k b h w.scratch_kept w.size_kept (λ i l. w.rest _ (omega arith)) in
            (c, e, IsHeaded-next k b c w p.0 p.1))
          (record {
            scratch_kept = refl;
            size_kept = refl;
            written = λ h i l. absurd (omega arith);
            below = λ j l. refl;
            rest = λ j l. zeros j (omega arith);
          })

  module _ (rows heads size channels : ℕ) (fills : heads * size ≡ channels) (f : ℕ → ℕ → ℕ → F)
      (start : Buffers F) where
    -- The first `k` positions are written, behind them the output is still zero.
    pub record IsAttended (k : ℕ) (b : Buffers F) : Type 0 where
      pub scratch_kept : length b.scratch ≡ length start.scratch
      pub size_kept : length b.output ≡ length start.output
      pub written :
          (p h i : ℕ)
          → p < k
          → h < heads
          → i < size
          → at b.output (p * channels + h * size + i) ≡ f p h i
      pub rest : (j : ℕ) → k * channels ≤ j → at b.output j ≡ fl.nought

    IsAttended-next :
        (k : ℕ) (b c : Buffers F)
        → IsAttended k b
        → IsHeaded heads size (k * channels) (f k) b heads c
        → IsAttended (suc k) c
    IsAttended-next k b c w u = record {
      scratch_kept = u.scratch_kept ∙ w.scratch_kept;
      size_kept = u.size_kept ∙ w.size_kept;
      written = λ p h i l m n. elim (dec_lt p k) [
        | yes lower ↦
            u.below (p * channels + h * size + i)
              (omega (arith, row_span p k channels lower, row_end h heads i size m n))
            ∙ w.written p h i lower m n
        | no last ↦ let e : p ≡ k = omega arith in rw e (u.written h i m n)
      ];
      rest = λ j l. u.rest j (omega arith);
    }

    -- A loop over positions, each of which writes its own row.
    pub fill_positions :
        (position : ℕ → Buffers F → Result (Buffers F))
        → ((j : ℕ) → at start.output j ≡ fl.nought)
        → ((k : ℕ) (b : Buffers F)
            → k < rows
            → length b.scratch ≡ length start.scratch
            → length b.output ≡ length start.output
            → ((j : ℕ) → k * channels ≤ j → at b.output j ≡ fl.nought)
            → Returns (position k b) (IsHeaded heads size (k * channels) (f k) b heads))
        → Returns (for_range rows 0 position start) (IsAttended rows)
    fill_positions position zeros writes =
        for_range-Returns IsAttended position rows start
          (λ k b h w.
            let (c, e, u) = writes k b h w.scratch_kept w.size_kept w.rest in
            (c, e, IsAttended-next k b c w u))
          (record {
            scratch_kept = refl;
            size_kept = refl;
            written = λ p h i l. absurd (omega arith);
            rest = λ j _. zeros j;
          })
