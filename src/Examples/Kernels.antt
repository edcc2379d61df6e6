-- ===== src/Examples/Kernels.antt =====
-- Runs of the kernels on two rows of two channels.
use gpt2_cpu_runtime.Examples.Numbers.{numbers}
use gpt2_cpu_runtime.Prelude.{
  wadd, wmul, Error, ok, err, Returns, for_range, length, ℕ, ◌+◌, ◌*◌, ◌<◌, ◌≡◌, refl, inr, List,
  [], ◌∷◌, arith,
}
use gpt2_cpu_runtime.Buffer.{require_size, at, read, write}
use gpt2_cpu_runtime.Grid.{Holds}
use gpt2_cpu_runtime.Kernels.Linear.{linear}
use gpt2_cpu_runtime.Kernels.Linear.Rows.{linear_entry, linear-Returns}
use gpt2_cpu_runtime.Kernels.LayerNorm.{layer_norm}
use gpt2_cpu_runtime.Kernels.LayerNorm.Rows.{norm_entry, layer_norm-Returns}
use gpt2_cpu_runtime.Kernels.Pointwise.{gelu_in_place, at-gelu_in_place}
use gpt2_cpu_runtime.Kernels.Attention.{causal_self_attention, cached_self_attention}
use gpt2_cpu_runtime.Kernels.Attention.Causal.{causal_entry, causal_self_attention-Returns}
use gpt2_cpu_runtime.Kernels.Attention.Cached.{cached_entry, cached_self_attention-Returns}
use gpt2_cpu_runtime.Reference.{gelu}

abbrev blank : List ℕ
blank = 9 ∷ 9 ∷ 9 ∷ 9 ∷ []

abbrev rows : List ℕ
rows = 1 ∷ 2 ∷ 3 ∷ 4 ∷ []

abbrev weight : List ℕ
weight = 1 ∷ 0 ∷ 2 ∷ 5 ∷ []

abbrev bias : List ℕ
bias = 10 ∷ 20 ∷ []

linear_runs : linear blank rows weight bias 2 2 2 ≡ ok (11 ∷ 32 ∷ 13 ∷ 46 ∷ [])
unfolding linear for_range read write require_size wadd wmul
linear_runs = refl

linear_refuses :
    linear blank rows bias bias 2 2 2
    ≡ err (Error.invalid_argument "linear weight has the wrong size")
unfolding linear for_range read write require_size wadd wmul
linear_refuses = refl

linear-Returns_example :
    Returns
      (linear blank rows weight bias 2 2 2)
      λ out. (length out ≡ 4) × Holds 2 2 (linear_entry blank rows weight bias 2 2 2) out
linear-Returns_example = linear-Returns blank rows weight bias 2 2 2 (record {
  output_size = refl;
  input_size = refl;
  weight_size = refl;
  bias_size = inr refl;
  output_fits = omega arith;
  input_fits = omega arith;
  weight_fits = omega arith;
})

layer_norm-Returns_example :
    Returns
      (layer_norm blank rows bias bias 2 2)
      λ out. (length out ≡ 4) × Holds 2 2 (norm_entry blank rows bias bias 2 2) out
layer_norm-Returns_example = layer_norm-Returns blank rows bias bias 2 2 (record {
  output_size = refl;
  input_size = refl;
  weight_size = refl;
  bias_size = refl;
  positive = omega arith;
  input_fits = omega arith;
})

at-gelu_in_place_example : at (gelu_in_place rows) 2 ≡ gelu 3
at-gelu_in_place_example = at-gelu_in_place rows 2 (omega arith)

abbrev qkv : List ℕ
qkv = 1 ∷ 2 ∷ 3 ∷ 4 ∷ 5 ∷ 6 ∷ 7 ∷ 8 ∷ 9 ∷ 10 ∷ 11 ∷ 12 ∷ []

causal_self_attention-Returns_example : Returns (causal_self_attention blank qkv bias 2 2 2) λ b.
    (length b.output ≡ 4)
    × (length b.scratch ≡ 2)
    × ((p h i : ℕ)
        → p < 2
        → h < 2
        → i < 1
        → at b.output (p * 2 + h * 1 + i) ≡ causal_entry blank qkv bias 2 2 2 p h i)
causal_self_attention-Returns_example = causal_self_attention-Returns blank qkv bias 2 2 2 (record {
  output_size = refl;
  qkv_size = refl;
  scratch_size = refl;
  heads_pos = omega arith;
  channels_pos = omega arith;
  divides = refl;
  qkv_fits = omega arith;
  rows_pos = omega arith;
})

cached_self_attention-Returns_example :
    Returns (cached_self_attention bias bias rows blank bias 1 2 2 2) λ b.
      (length b.output ≡ 2)
      × (length b.scratch ≡ 2)
      × ((h i : ℕ)
          → h < 2
          → i < 1
          → at b.output (h * 1 + i) ≡ cached_entry bias bias rows blank bias 1 2 2 2 h i)
cached_self_attention-Returns_example =
    cached_self_attention-Returns bias bias rows blank bias 1 2 2 2 (record {
      output_size = refl;
      query_size = refl;
      keys_size = refl;
      values_size = refl;
      scratch_size = refl;
      visible_pos = omega arith;
      visible_le = omega arith;
      heads_pos = omega arith;
      channels_pos = omega arith;
      divides = refl;
      keys_fits = omega arith;
    })
