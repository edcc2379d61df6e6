-- ===== src/Model/Tensor/Globals.antt =====
-- The four tensors that no layer owns: the embeddings and the last normalisation.
use Prim.Native.String.{String}
use gpt2_cpu_runtime.Prelude.{
  size_mod, ok, length, ℕ, ◌*◌, ◌<◌, ◌≡◌, refl, ap, ◌∙◌, some, List, arith,
}
use gpt2_cpu_runtime.Sizes.{volume}
use gpt2_cpu_runtime.Model.Layout.{parameter_shapes}
use gpt2_cpu_runtime.Model.Layout.Exact.{shapes_of}
use gpt2_cpu_runtime.Model.Tensor.{TensorView, ModelWeights, tensor}
use gpt2_cpu_runtime.Model.Tensor.Lookup.{
  lookup_shape, IsLoaded, tensor-Returns, volume_fits, values_of, values_of_lem,
}

module _ {F : Type 0} (w : ModelWeights F) (loaded : IsLoaded w) where
  -- A tensor of `n` values, which a `std::size_t` can count.
  pub record IsGlobal (name : String) (n : ℕ) : Type 0 where
    pub view : TensorView F
    pub found : tensor w name ≡ ok (record view { values = values_of w name })
    pub size_lem : length (values_of w name) ≡ n
    pub fits : n < size_mod

  global :
      (name : String) (dims : List ℕ) (n : ℕ)
      → lookup_shape name (shapes_of w.config) ≡ some dims
      → 0 < length dims
      → volume dims ≡ n
      → IsGlobal name n
  global name dims n found ranked e =
      let (view, made, size) = tensor-Returns w loaded name dims found ranked in
      let same = values_of_lem w name view made in
      record {
        view = view;
        found = rw same made;
        size_lem = ap length same ∙ size ∙ e;
        fits = omega (arith, volume_fits w loaded name dims found);
      }

  pub wte_lem : IsGlobal "wte" (w.config.padded_vocabulary_size * w.config.channels)
  unfolding lookup_shape parameter_shapes
  wte_lem = global "wte" _ _ refl (omega arith) (omega arith)

  pub wpe_lem : IsGlobal "wpe" (w.config.max_sequence_length * w.config.channels)
  unfolding lookup_shape parameter_shapes
  wpe_lem = global "wpe" _ _ refl (omega arith) (omega arith)

  pub lnfw_lem : IsGlobal "lnfw" w.config.channels
  unfolding lookup_shape parameter_shapes
  lnfw_lem = global "lnfw" _ _ refl (omega arith) (omega arith)

  pub lnfb_lem : IsGlobal "lnfb" w.config.channels
  unfolding lookup_shape parameter_shapes
  lnfb_lem = global "lnfb" _ _ refl (omega arith) (omega arith)
