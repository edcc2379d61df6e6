-- ===== src/Benchmark/Inputs.antt =====
-- What the programs that time linear layers feed them: a repeating ramp, and the first values of a
-- tensor of the model.
use Prim.Native.String.{String}
use gpt2_cpu_runtime.Prelude.{
  Result, ◌>>=◌, Returns, step, for_range, length, take, replicate, length-replicate, ℕ, ◌+◌, ◌*◌,
  ◌%◌, ◌≤◌, ◌<◌, ◌≡◌, sym, ap, ◌∙◌, some, List, arith,
}
use gpt2_cpu_runtime.Float.{Float, ◌*f◌}
use gpt2_cpu_runtime.Buffer.{subspan, subspan_lem, length-subspan, at, write, write_lem, at-subspan}
use gpt2_cpu_runtime.Grid.{fill_row}
use gpt2_cpu_runtime.Model.Tensor.{ModelWeights, tensor}
use gpt2_cpu_runtime.Model.Tensor.Lookup.{
  lookup_shape, IsLoaded, tensor-Returns, values_of, values_of_lem,
}
use gpt2_cpu_runtime.Model.Layout.Exact.{shapes_of}
use gpt2_cpu_runtime.Sizes.{volume}

module _ {F : Type 0} ⦃fl : Float F⦄ where
  -- static_cast<float>(index % period) * 0.01F
  abbrev pub ramp_value : ℕ → ℕ → F
  ramp_value period index = fl.of_size (index % period) *f fl.hundredth

  -- A vector of zeros, and the loop that fills it.
  unfoldable pub ramp : ℕ → ℕ → Result (List F)
  ramp period n =
      for_range n 0 (λ index xs. write xs index (ramp_value period index)) (replicate n fl.nought)

  pub ramp-Returns :
      (period n : ℕ)
      → Returns
          (ramp period n)
          λ xs. (length xs ≡ n) × ((i : ℕ) → i < n → at xs i ≡ ramp_value period i)
  unfolding ramp
  ramp-Returns period n =
      let size = length-replicate n fl.nought in
      let (out, e, w) =
        fill_row n n (λ r i. ramp_value period i) 0
          (λ index xs. write xs index (ramp_value period index)) (replicate n fl.nought)
          (omega arith)
          (λ k b h e.
            let z : 0 * n + k ≡ k = omega arith in
            rw z (write_lem b k (ramp_value period k) (omega arith)))
          (record {
            size_kept = size;
            before = record { entries = λ r o h. absurd (omega arith) };
            within = λ o h. absurd (omega arith);
          }) in
      (
        out,
        e,
        (
          w.size_kept,
          λ i h.
              let z : 0 * n + i ≡ i = omega arith in rw z at (w.before.entries 0 i (omega arith) h),
        ),
      )

  -- weights.tensor(name).values().first(count)
  unfoldable pub first_values : ModelWeights F → String → ℕ → Result (List F)
  first_values w name count = tensor w name >>= λ view. subspan view.values 0 count

  pub first_values-Returns :
      (w : ModelWeights F)
      → IsLoaded w
      → (name : String) (dims : List ℕ) (count : ℕ)
      → lookup_shape name (shapes_of w.config) ≡ some dims
      → 0 < length dims
      → count ≤ volume dims
      → Returns
          (first_values w name count)
          λ xs. (length xs ≡ count) × ((i : ℕ) → i < count → at xs i ≡ at (values_of w name) i)
  unfolding first_values
  first_values-Returns w loaded name dims count found ranked le =
      let (view, made, size) = tensor-Returns w loaded name dims found ranked in
      let same = values_of_lem w name view made in
      let inside : 0 + count ≤ length view.values = omega arith in
      (
        take count view.values,
        step _ made (subspan_lem view.values 0 count inside),
        (
          length-subspan view.values 0 count inside,
          λ i h.
              let z : 0 + i ≡ i = omega arith in
              rw z at (at-subspan view.values 0 count i h)
              ∙ ap (λ (vs : List F). at vs i) (sym same),
        ),
      )
