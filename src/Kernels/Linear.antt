-- ===== src/Kernels/Linear.antt =====
-- `kernels::linear` (src/kernels.cpp).
pub mod Rows
use gpt2_cpu_runtime.Prelude.{
  ℕ, List, if◌then◌else◌, Result, ok, ◌>>=◌, ◌>>◌, for_range, wadd, wmul, is_empty,
}
use gpt2_cpu_runtime.Float.{Float, ◌+f◌, ◌*f◌}
use gpt2_cpu_runtime.Buffer.{require_size, read, write}

module _ {F : Type 0} ⦃fl : Float F⦄ where
  -- The bias is optional: an empty span stands for none.
  require_bias : List F → ℕ → Result (Unit {0})
  require_bias bias outputs =
      if is_empty bias then ok tt else require_size bias outputs "linear bias"

  start_value : List F → ℕ → Result F
  start_value bias o = if is_empty bias then ok fl.nought else read bias o

  -- value += input[input_base + in_channel] * weight[weight_base + in_channel]
  accumulate : List F → List F → ℕ → ℕ → ℕ → F → Result F
  accumulate input weight input_base weight_base i value = do
    x ← read input (wadd input_base i)
    w ← read weight (wadd weight_base i)
    ok (value +f x *f w)

  -- One output channel of one row.
  linear_channel : List F → List F → List F → ℕ → ℕ → ℕ → ℕ → List F → Result (List F)
  linear_channel input weight bias inputs outputs row o output = do
    start ← start_value bias o
    value ← for_range inputs 0 (accumulate input weight (wmul row inputs) (wmul o inputs)) start
    write output (wadd (wmul row outputs) o) value

  unfoldable pub linear :
      (output input weight bias : List F) (rows inputs outputs : ℕ) → Result (List F)
  unfolding require_bias start_value accumulate linear_channel
  linear output input weight bias rows inputs outputs = do
    require_size output (wmul rows outputs) "linear output"
    require_size input (wmul rows inputs) "linear input"
    require_size weight (wmul outputs inputs) "linear weight"
    require_bias bias outputs
    for_range rows 0
        (λ row. for_range outputs 0 (linear_channel input weight bias inputs outputs row)) output
