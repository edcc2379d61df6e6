-- ===== src/Kernels/LayerNorm/Rows.antt =====
-- `kernels::layer_norm` computes `norm_row` of each row, and stays inside its spans.
use gpt2_cpu_runtime.Prelude.{
  ℕ, suc, ◌+◌, ◌*◌, ◌≤◌, ◌<◌, ◌≡◌, refl, not, List, arith, ◌==◌, wmul_lem, row_end, row_span, ok,
  guard-Returns, Returns, for_range, for_range-Returns, length, set,
}
use gpt2_cpu_runtime.Float.{Float, ◌+f◌, ◌/f◌}
use gpt2_cpu_runtime.Buffer.{IsSpan, require_size_lem, at, read_lem, read-wadd, write-wadd}
use gpt2_cpu_runtime.Grid.{Holds, IsWritten, fill_row, fill_rows}
use gpt2_cpu_runtime.Reference.{acc_range, mean_row, shifted_square, variance_row, norm_row}
use gpt2_cpu_runtime.Kernels.LayerNorm.{
  layer_norm, add_input, add_square, normalize_channel, layer_norm_row,
}

module _ {F : Type 0} ⦃fl : Float F⦄ where
  -- What the caller owes: the sizes, and a product that fits a `std::size_t`.
  pub record IsNormCall (output input weight bias : List F) (rows channels : ℕ) : Type 0 where
    pub output_size : length output ≡ rows * channels
    pub input_size : length input ≡ rows * channels
    pub weight_size : length weight ≡ channels
    pub bias_size : length bias ≡ channels
    pub positive : 0 < channels
    pub input_fits : IsSpan input

  module _ (input : List F) (base n : ℕ) (fits : IsSpan input)
      (room : base + n ≤ length input) where
    abbrev row : ℕ → F
    row i = at input (base + i)

    add_input_loop :
        Returns (for_range n 0 (add_input input base) fl.nought) λ v. v ≡ acc_range n row fl.nought
    unfolding acc_range add_input
    add_input_loop =
        for_range-Returns (λ k v. v ≡ acc_range k row fl.nought) (add_input input base) n fl.nought
          (λ k v h e. (v +f row k, rw (read-wadd input base k fits (omega arith)), rw e)) refl

    add_square_loop :
        (mean : F)
        → Returns
            (for_range n 0 (add_square input base mean) fl.nought)
            λ v. v ≡ acc_range n (λ i. shifted_square mean (row i)) fl.nought
    unfolding acc_range add_square shifted_square
    add_square_loop mean =
        for_range-Returns (λ k v. v ≡ acc_range k (λ i. shifted_square mean (row i)) fl.nought)
          (add_square input base mean) n fl.nought
          (λ k v h e. (
            v +f shifted_square mean (row k),
            rw (read-wadd input base k fits (omega arith)),
            rw e,
          ))
          refl

  module _ (output input weight bias : List F) (rows channels : ℕ) where
    -- Entry `c` of row `r` of the result.
    abbrev pub norm_entry : ℕ → ℕ → F
    norm_entry r c = norm_row weight bias channels (λ i. at input (r * channels + i)) c

    module _ (call : IsNormCall output input weight bias rows channels) where
      normalize_channel_lem :
          (r k : ℕ) (b : List F)
          → r < rows
          → k < channels
          → length b ≡ rows * channels
          → let x = λ (i : ℕ). at input (r * channels + i) in
            normalize_channel input weight bias
              (r * channels)
              (mean_row channels x)
              (fl.one /f fl.sqrt (variance_row channels x +f fl.epsilon))
              k
              b
            ≡ ok (set b (r * channels + k) (norm_entry r k))
      unfolding normalize_channel norm_row
      normalize_channel_lem r k b hr hk e =
          let here = row_end r rows k channels hr hk in
          let b_fits : IsSpan b = omega (arith, call.input_fits, call.input_size) in
          rw (
            read-wadd input (r * channels) k call.input_fits (omega (arith, call.input_size)),
            read_lem weight k (omega (arith, call.weight_size)),
            read_lem bias k (omega (arith, call.bias_size)),
            write-wadd b (r * channels) k _ b_fits (omega arith),
          )

      layer_norm_row-Returns :
          (r : ℕ) (b : List F)
          → r < rows
          → IsWritten channels (rows * channels) norm_entry r 0 b
          → Returns
              (layer_norm_row input weight bias channels r b)
              (IsWritten channels (rows * channels) norm_entry (suc r) 0)
      unfolding layer_norm_row mean_row variance_row
      layer_norm_row-Returns r b hr w =
          let span = row_span r rows channels hr in
          let room : r * channels + channels ≤ length input = omega (arith, call.input_size) in
          let (total, e1, e2) = add_input_loop input (r * channels) channels call.input_fits room in
          let (squares, e3, e4) =
            add_square_loop input (r * channels) channels call.input_fits room
              (mean_row channels λ i. at input (r * channels + i)) in
          rw (wmul_lem r channels (omega (arith, call.input_fits, call.input_size)), e1, e2, e3, e4)
            (fill_row channels (rows * channels) norm_entry r _ b span
              (λ k b' hk e. normalize_channel_lem r k b' hr hk e) w)

      -- A call with the sizes that the kernel checks returns, and every row of the result is the
      -- normalised row of the input, scaled by the weight and moved by the bias.
      pub layer_norm-Returns :
          Returns
            (layer_norm output input weight bias rows channels)
            λ out. (length out ≡ rows * channels) × Holds rows channels norm_entry out
      unfolding layer_norm
      layer_norm-Returns =
          rw
            (
              wmul_lem rows channels (omega (arith, call.input_fits, call.input_size)),
              require_size_lem output (rows * channels) "layer_norm output" call.output_size,
              require_size_lem input (rows * channels) "layer_norm input" call.input_size,
              require_size_lem weight channels "layer_norm weight" call.weight_size,
              require_size_lem bias channels "layer_norm bias" call.bias_size,
              guard-Returns (not (channels == 0)) _ (ground (arith, call.positive)),
            )
            (fill_rows channels (rows * channels) norm_entry rows _ output call.output_size
              λ r b hr w. layer_norm_row-Returns r b hr w)
