-- ===== src/Kernels/Linear/Rows.antt =====
-- `kernels::linear` computes `linear_row` of each row, and stays inside its spans.
use gpt2_cpu_runtime.Prelude.{
  wmul_lem, row_end, row_span, ok, Returns, for_range, for_range-Returns, length, set, ℕ, ◌+◌, ◌*◌,
  ◌≤◌, ◌<◌, ◌≡◌, refl, ap, ◌∙◌, ◌⊎◌, inl, inr, List, [], ◌∷◌, arith,
}
use gpt2_cpu_runtime.Float.{Float, ◌+f◌, ◌*f◌}
use gpt2_cpu_runtime.Buffer.{IsSpan, require_size_lem, at, read_lem, read-wadd, write-wadd}
use gpt2_cpu_runtime.Reference.{acc_range, bias_at, linear_row, linear_row-congr}
use gpt2_cpu_runtime.Grid.{Holds, fill_row, fill_rows}
use gpt2_cpu_runtime.Kernels.Linear.{require_bias, start_value, accumulate, linear_channel, linear}

module _ {F : Type 0} ⦃fl : Float F⦄ where
  -- What the caller owes: the sizes, and products that fit a `std::size_t`.
  pub record IsLinearCall (output input weight bias : List F) (rows inputs outputs : ℕ)
      : Type 0 where
    pub output_size : length output ≡ rows * outputs
    pub input_size : length input ≡ rows * inputs
    pub weight_size : length weight ≡ outputs * inputs
    pub bias_size : (bias ≡ []) ⊎ (length bias ≡ outputs)
    pub output_fits : IsSpan output
    pub input_fits : IsSpan input
    pub weight_fits : IsSpan weight

  require_bias_lem :
      (bias : List F) (outputs : ℕ)
      → (bias ≡ []) ⊎ (length bias ≡ outputs)
      → require_bias bias outputs ≡ ok tt
  unfolding require_bias
  require_bias_lem [] outputs h = refl
  require_bias_lem (b ∷ bs) outputs (inl e) = cc
  require_bias_lem (b ∷ bs) outputs (inr e) = require_size_lem (b ∷ bs) outputs _ e

  start_value_lem :
      (bias : List F) (outputs o : ℕ)
      → (bias ≡ []) ⊎ (length bias ≡ outputs)
      → o < outputs
      → start_value bias o ≡ ok (bias_at bias o)
  unfolding start_value bias_at
  start_value_lem [] outputs o h k = refl
  start_value_lem (b ∷ bs) outputs o (inl e) k = cc
  start_value_lem (b ∷ bs) outputs o (inr e) k = read_lem (b ∷ bs) o (omega arith)

  accumulate_lem :
      (input weight : List F) (x_base w_base k : ℕ) (value : F)
      → IsSpan input
      → IsSpan weight
      → x_base + k < length input
      → w_base + k < length weight
      → accumulate input weight x_base w_base k value
        ≡ ok (value +f at input (x_base + k) *f at weight (w_base + k))
  unfolding accumulate
  accumulate_lem input weight x_base w_base k value si sw hi hw =
      rw (read-wadd input x_base k si hi, read-wadd weight w_base k sw hw)

  -- The inner loop accumulates the products from the left.
  accumulate_loop :
      (input weight : List F) (x_base w_base n : ℕ) (start : F)
      → IsSpan input
      → IsSpan weight
      → x_base + n ≤ length input
      → w_base + n ≤ length weight
      → Returns
          (for_range n 0 (accumulate input weight x_base w_base) start)
          λ v. v ≡ acc_range n (λ i. at input (x_base + i) *f at weight (w_base + i)) start
  unfolding acc_range
  accumulate_loop input weight x_base w_base n start si sw hi hw =
      for_range-Returns
        (λ k v. v ≡ acc_range k (λ i. at input (x_base + i) *f at weight (w_base + i)) start)
        (accumulate input weight x_base w_base) n start
        (λ k v h e. (
          _,
          accumulate_lem input weight x_base w_base k v si sw (omega arith) (omega arith),
          ap (λ (u : F). u +f at input (x_base + k) *f at weight (w_base + k)) e,
        ))
        refl

  module _ (output input weight bias : List F) (rows inputs outputs : ℕ) where
    -- Entry `o` of row `r` of the result.
    abbrev pub linear_entry : ℕ → ℕ → F
    linear_entry r o = linear_row weight bias inputs (λ i. at input (r * inputs + i)) o

    module _ (call : IsLinearCall output input weight bias rows inputs outputs) where
      linear_channel_lem :
          (r k : ℕ) (b : List F)
          → r < rows
          → k < outputs
          → length b ≡ rows * outputs
          → linear_channel input weight bias inputs outputs r k b
            ≡ ok (set b (r * outputs + k) (linear_entry r k))
      unfolding linear_channel linear_row
      linear_channel_lem r k b hr hk e =
          let in_row = row_span r rows inputs hr in
          let w_row = row_span k outputs inputs hk in
          let out_row = row_end r rows k outputs hr hk in
          let b_fits : IsSpan b = omega (arith, call.output_fits, call.output_size) in
          let (v, e1, e2) =
            accumulate_loop input weight (r * inputs) (k * inputs) inputs (bias_at bias k)
              call.input_fits call.weight_fits (omega (arith, call.input_size))
              (omega (arith, call.weight_size)) in
          rw (
            start_value_lem bias outputs k call.bias_size hk,
            wmul_lem r inputs (omega (arith, call.input_fits, call.input_size)),
            wmul_lem k inputs (omega (arith, call.weight_fits, call.weight_size)),
            wmul_lem r outputs (omega (arith, call.output_fits, call.output_size)),
            e1,
            write-wadd b (r * outputs) k v b_fits (omega arith),
            e2,
          )

      -- A call with the sizes that the kernel checks returns. Every entry of the result is the bias
      -- plus the products of its row and channel, accumulated in channel order.
      pub linear-Returns :
          Returns
            (linear output input weight bias rows inputs outputs)
            λ out. (length out ≡ rows * outputs) × Holds rows outputs linear_entry out
      unfolding linear
      linear-Returns =
          rw
            (
              wmul_lem rows outputs (omega (arith, call.output_fits, call.output_size)),
              wmul_lem rows inputs (omega (arith, call.input_fits, call.input_size)),
              wmul_lem outputs inputs (omega (arith, call.weight_fits, call.weight_size)),
              require_size_lem output (rows * outputs) "linear output" call.output_size,
              require_size_lem input (rows * inputs) "linear input" call.input_size,
              require_size_lem weight (outputs * inputs) "linear weight" call.weight_size,
              require_bias_lem bias outputs call.bias_size,
            )
            (fill_rows outputs (rows * outputs) linear_entry rows
              (λ r. for_range outputs 0 (linear_channel input weight bias inputs outputs r)) output
              call.output_size
              λ r b hr w.
                fill_row outputs (rows * outputs) linear_entry r
                  (linear_channel input weight bias inputs outputs r) b (row_span r rows outputs hr)
                  (λ k b' hk e. linear_channel_lem r k b' hr hk e) w)

  -- The kernel on one row.
  pub linear_one-Returns :
      (output input weight bias : List F) (inputs outputs : ℕ)
      → IsLinearCall output input weight bias 1 inputs outputs
      → Returns (linear output input weight bias 1 inputs outputs) λ out.
        (length out ≡ outputs)
        × ((o : ℕ) → o < outputs → at out o ≡ linear_row weight bias inputs (at input) o)
  linear_one-Returns output input weight bias inputs outputs call =
      let (out, e, p) = linear-Returns output input weight bias 1 inputs outputs call in
      (
        out,
        e,
        (
          omega (arith, p.0),
          λ o l.
              let z : 0 * outputs + o ≡ o = omega arith in
              rw z at (p.1.entries 0 o (omega arith) l)
              ∙ linear_row-congr weight bias inputs _ _ o
                  λ i _. let z' : 0 * inputs + i ≡ i = omega arith in rw z',
        ),
      )
