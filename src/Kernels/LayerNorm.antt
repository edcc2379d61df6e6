-- ===== src/Kernels/LayerNorm.antt =====
-- `kernels::layer_norm` (src/kernels.cpp).
pub mod Rows
use gpt2_cpu_runtime.Prelude.{
  ℕ, not, List, ◌==◌, wadd, wmul, Error, Result, ok, ◌>>=◌, ◌>>◌, guard, for_range,
}
use gpt2_cpu_runtime.Float.{Float, ◌+f◌, ◌-f◌, ◌*f◌, ◌/f◌}
use gpt2_cpu_runtime.Buffer.{require_size, read, write}

module _ {F : Type 0} ⦃fl : Float F⦄ where
  -- mean += input[base + channel]
  add_input : List F → ℕ → ℕ → F → Result F
  add_input input base channel mean = do x ← read input (wadd base channel); ok (mean +f x)

  -- shifted = input[base + channel] - mean; variance += shifted * shifted
  add_square : List F → ℕ → F → ℕ → F → Result F
  add_square input base mean channel variance = do
    x ← read input (wadd base channel)
    let shifted = x -f mean
    ok (variance +f shifted *f shifted)

  normalize_channel : List F → List F → List F → ℕ → F → F → ℕ → List F → Result (List F)
  normalize_channel input weight bias base mean reciprocal_stddev channel output = do
    x ← read input (wadd base channel)
    let normalized = reciprocal_stddev *f (x -f mean)
    w ← read weight channel
    b ← read bias channel
    write output (wadd base channel) (normalized *f w +f b)

  layer_norm_row : List F → List F → List F → ℕ → ℕ → List F → Result (List F)
  layer_norm_row input weight bias channels row output = do
    let base = wmul row channels
    total ← for_range channels 0 (add_input input base) fl.nought
    let mean = total /f fl.of_size channels
    squares ← for_range channels 0 (add_square input base mean) fl.nought
    let variance = squares /f fl.of_size channels
    let reciprocal_stddev = fl.one /f fl.sqrt (variance +f fl.epsilon)
    for_range channels 0 (normalize_channel input weight bias base mean reciprocal_stddev) output

  unfoldable pub layer_norm :
      (output input weight bias : List F) (rows channels : ℕ) → Result (List F)
  unfolding add_input add_square normalize_channel layer_norm_row
  layer_norm output input weight bias rows channels = do
    require_size output (wmul rows channels) "layer_norm output"
    require_size input (wmul rows channels) "layer_norm input"
    require_size weight channels "layer_norm weight"
    require_size bias channels "layer_norm bias"
    guard (not (channels == 0)) (Error.invalid_argument "layer_norm channels must be positive")
    for_range rows 0 (layer_norm_row input weight bias channels) output
