-- ===== src/Kernels/Stages.antt =====
-- The kernels on row-major matrices: what each makes of the rows that its input holds.
pub mod Heads
use native.Mathlib.Nat.{div-add-mod, mod-lt, mul-le-mul, le_refl}
use gpt2_cpu_runtime.Prelude.{
  size_mod, row_end, Returns, length, ℕ, ◌+◌, ◌*◌, ◌<◌, ◌≡◌, ap, ◌∙◌, ◌⊎◌, List, [], arith,
}
use gpt2_cpu_runtime.Float.{Float, ◌+f◌}
use gpt2_cpu_runtime.Buffer.{at}
use gpt2_cpu_runtime.Reference.{linear_row, norm_row, gelu, linear_row-congr, norm_row-congr}
use gpt2_cpu_runtime.Kernels.Linear.{linear}
use gpt2_cpu_runtime.Kernels.Linear.Rows.{IsLinearCall, linear-Returns}
use gpt2_cpu_runtime.Kernels.LayerNorm.{layer_norm}
use gpt2_cpu_runtime.Kernels.LayerNorm.Rows.{layer_norm-Returns}
use gpt2_cpu_runtime.Kernels.Pointwise.{
  add_in_place, gelu_in_place, add_in_place-Returns, length-gelu_in_place, at-gelu_in_place,
}

module _ {F : Type 0} ⦃fl : Float F⦄ where
  -- A buffer of `rows` rows of `width` entries, which are those of `x`.
  pub record IsMatrix (rows width : ℕ) (x : ℕ → ℕ → F) (buffer : List F) : Type 0 where
    pub size_lem : length buffer ≡ rows * width
    pub entry_lem : (r o : ℕ) → r < rows → o < width → at buffer (r * width + o) ≡ x r o

  -- Row `r` of a layer normalisation, of a linear layer, of a sum and of a GELU.
  pub norm_stage :
      (output input weight bias : List F) (rows c : ℕ) (x : ℕ → ℕ → F)
      → 0 < c
      → rows * c < size_mod
      → length output ≡ rows * c
      → length weight ≡ c
      → length bias ≡ c
      → IsMatrix rows c x input
      → Returns
          (layer_norm output input weight bias rows c)
          (IsMatrix rows c λ r. norm_row weight bias c (x r))
  norm_stage output input weight bias rows c x pos fits eo ew eb m =
      let (out, e, p) = layer_norm-Returns output input weight bias rows c (record {
        output_size = eo;
        input_size = m.size_lem;
        weight_size = ew;
        bias_size = eb;
        positive = pos;
        input_fits = omega (arith, m.size_lem);
      }) in
      (
        out,
        e,
        record {
          size_lem = p.0;
          entry_lem = λ r o hr ho.
              p.1.entries r o hr ho
              ∙ norm_row-congr weight bias c _ _ o ho λ i l. m.entry_lem r i hr l;
        },
      )

  pub linear_stage :
      (output input weight bias : List F) (rows inputs outputs : ℕ) (x : ℕ → ℕ → F)
      → rows * inputs < size_mod
      → rows * outputs < size_mod
      → outputs * inputs < size_mod
      → length output ≡ rows * outputs
      → length weight ≡ outputs * inputs
      → (bias ≡ []) ⊎ (length bias ≡ outputs)
      → IsMatrix rows inputs x input
      → IsLinearCall output input weight bias rows inputs outputs
        × Returns
            (linear output input weight bias rows inputs outputs)
            (IsMatrix rows outputs λ r. linear_row weight bias inputs (x r))
  linear_stage output input weight bias rows inputs outputs x fi fo fw eo ew eb m =
      let call : IsLinearCall output input weight bias rows inputs outputs = record {
        output_size = eo;
        input_size = m.size_lem;
        weight_size = ew;
        bias_size = eb;
        output_fits = omega (arith, eo);
        input_fits = omega (arith, m.size_lem);
        weight_fits = omega (arith, ew);
      } in
      let (out, e, p) = linear-Returns output input weight bias rows inputs outputs call in
      (
        call,
        (
          out,
          e,
          record {
            size_lem = p.0;
            entry_lem = λ r o hr ho.
                p.1.entries r o hr ho
                ∙ linear_row-congr weight bias inputs _ _ o λ i l. m.entry_lem r i hr l;
          },
        ),
      )

  pub add_stage :
      (destination source : List F) (rows c : ℕ) (x y : ℕ → ℕ → F)
      → IsMatrix rows c x destination
      → IsMatrix rows c y source
      → Returns (add_in_place destination source) (IsMatrix rows c λ r o. x r o +f y r o)
  add_stage destination source rows c x y m n =
      let (out, e, p) =
        add_in_place-Returns destination source (omega (arith, m.size_lem, n.size_lem)) in
      (
        out,
        e,
        record {
          size_lem = p.size_kept ∙ m.size_lem;
          entry_lem = λ r o hr ho.
              let here = row_end r rows o c hr ho in
              let z : 0 + (r * c + o) ≡ r * c + o = omega arith in
              rw z at (p.changed (r * c + o) (omega (arith, m.size_lem)))
              ∙ cc (m.entry_lem r o hr ho, n.entry_lem r o hr ho);
        },
      )

  pub gelu_stage :
      (values : List F) (rows n : ℕ) (x : ℕ → ℕ → F)
      → IsMatrix rows n x values
      → IsMatrix rows n (λ r o. gelu (x r o)) (gelu_in_place values)
  gelu_stage values rows n x m = record {
    size_lem = length-gelu_in_place values ∙ m.size_lem;
    entry_lem = λ r o hr ho.
        at-gelu_in_place values (r * n + o) (omega (arith, m.size_lem, row_end r rows o n hr ho))
        ∙ ap gelu (m.entry_lem r o hr ho);
  }
