-- ===== src/Model/Tensor/Parameters.antt =====
-- The slices of a layer: one part of each layered tensor, of the size that the kernels expect.
use gpt2_cpu_runtime.Model.Layout.{parameter_shapes}
use Prim.Native.String.{String}
use gpt2_cpu_runtime.Prelude.{
  lt→ltb, size_mod, wmul_lem, row_span, ok, length, take, drop, ℕ, ◌*◌, ◌<◌, ◌≡◌, refl, ap, ◌∙◌,
  some, List, [], ◌∷◌, arith,
}
use gpt2_cpu_runtime.Buffer.{subspan_lem, length-subspan}
use gpt2_cpu_runtime.Sizes.{volume, checked_multiply_exact}
use gpt2_cpu_runtime.Model.Layout.Exact.{shapes_of}
use gpt2_cpu_runtime.Model.Tensor.{
  ModelWeights, LayerParameters, layer_slice, slice_of, layer_parameters,
}
use gpt2_cpu_runtime.Model.Tensor.Lookup.{
  lookup_shape, IsLoaded, tensor-Returns, volume_fits, values_of, values_of_lem,
}

-- No product that a layer forms wraps around.
pub record DoFit (rows c : ℕ) : Type 0 where
  pub rows_fit : rows * c < size_mod
  pub qkv_fits : rows * (3 * c) < size_mod
  pub hidden_fits : rows * (4 * c) < size_mod
  pub weight_fits : 3 * c * c < size_mod
  pub square_fits : c * c < size_mod
  pub up_fits : 4 * c * c < size_mod
  pub down_fits : c * (4 * c) < size_mod

pub fit_lem : (rows c : ℕ) → rows * (4 * c) < size_mod → 4 * c * c < size_mod → DoFit rows c
fit_lem rows c h k = record {
  rows_fit = omega arith;
  qkv_fits = omega arith;
  hidden_fits = h;
  weight_fits = omega arith;
  square_fits = omega arith;
  up_fits = k;
  down_fits = omega arith;
}

module _ {F : Type 0} where
  -- Part `layer` of a tensor that has `per_layer` values for each layer.
  abbrev pub part_of : ModelWeights F → ℕ → String → ℕ → List F
  part_of w layer name per_layer = take per_layer (drop (layer * per_layer) (values_of w name))

  -- The parameters of a layer.
  unfoldable pub parameters_of : ModelWeights F → ℕ → LayerParameters F
  parameters_of w layer =
      let c = w.config.channels in
      record {
        ln1w = part_of w layer "ln1w" c;
        ln1b = part_of w layer "ln1b" c;
        qkvw = part_of w layer "qkvw" (3 * c * c);
        qkvb = part_of w layer "qkvb" (3 * c);
        attprojw = part_of w layer "attprojw" (c * c);
        attprojb = part_of w layer "attprojb" c;
        ln2w = part_of w layer "ln2w" c;
        ln2b = part_of w layer "ln2b" c;
        fcw = part_of w layer "fcw" (4 * c * c);
        fcb = part_of w layer "fcb" (4 * c);
        fcprojw = part_of w layer "fcprojw" (c * (4 * c));
        fcprojb = part_of w layer "fcprojb" c;
      }

  -- The sizes that the kernels expect, none of which wraps around.
  pub record AreParameters (c : ℕ) (p : LayerParameters F) : Type 0 where
    pub ln1w_size : length p.ln1w ≡ c
    pub ln1b_size : length p.ln1b ≡ c
    pub qkvw_size : length p.qkvw ≡ 3 * c * c
    pub qkvb_size : length p.qkvb ≡ 3 * c
    pub attprojw_size : length p.attprojw ≡ c * c
    pub attprojb_size : length p.attprojb ≡ c
    pub ln2w_size : length p.ln2w ≡ c
    pub ln2b_size : length p.ln2b ≡ c
    pub fcw_size : length p.fcw ≡ 4 * c * c
    pub fcb_size : length p.fcb ≡ 4 * c
    pub fcprojw_size : length p.fcprojw ≡ c * (4 * c)
    pub fcprojb_size : length p.fcprojb ≡ c
    pub largest_fits : 4 * c * c < size_mod

  module _ (w : ModelWeights F) (loaded : IsLoaded w) (layer : ℕ)
      (layer_lt : layer < w.config.num_layers) where
    abbrev c : ℕ
    c = w.config.channels

    abbrev shapes : List (String × List ℕ)
    shapes = shapes_of w.config

    abbrev IsSlice : String → ℕ → Type 0
    IsSlice name per_layer =
        (length (part_of w layer name per_layer) ≡ per_layer)
        × ((context : String)
            → slice_of context w layer name per_layer ≡ ok (part_of w layer name per_layer))
        × (per_layer < size_mod)

    -- A layered tensor is sliced inside its values.
    slice_lem :
        (name : String) (dims : List ℕ) (per_layer : ℕ)
        → lookup_shape name shapes ≡ some dims
        → 0 < length dims
        → volume dims ≡ w.config.num_layers * per_layer
        → IsSlice name per_layer
    unfolding slice_of layer_slice
    slice_lem name dims per_layer found ranked e =
        let (view, made, size) = tensor-Returns w loaded name dims found ranked in
        let same = values_of_lem w name view made in
        let values_size = ap length same ∙ size in
        let inside = row_span layer w.config.num_layers per_layer layer_lt in
        let fits = volume_fits w loaded name dims found in
        (
          length-subspan (values_of w name) (layer * per_layer) per_layer (omega arith),
          λ context. rw (
            made,
            checked_multiply_exact layer per_layer context,
            lt→ltb (layer * per_layer) size_mod (omega arith),
            subspan_lem view.values (layer * per_layer) per_layer (omega (arith, ap length same)),
            same,
          ),
          omega arith,
        )

    lookup_shape-IsSlice :
        (name : String)
        → lookup_shape name shapes ≡ some (w.config.num_layers ∷ c ∷ [])
        → IsSlice name c
    lookup_shape-IsSlice name found = slice_lem name _ c found (omega arith) (omega arith)

    -- The twelve slices are taken without a wrap-around or an access outside the storage.
    slices :
        IsSlice "ln1w" c
        × IsSlice "ln1b" c
        × IsSlice "qkvw" (3 * c * c)
        × IsSlice "qkvb" (3 * c)
        × IsSlice "attprojw" (c * c)
        × IsSlice "attprojb" c
        × IsSlice "ln2w" c
        × IsSlice "ln2b" c
        × IsSlice "fcw" (4 * c * c)
        × IsSlice "fcb" (4 * c)
        × IsSlice "fcprojw" (c * (4 * c))
        × IsSlice "fcprojb" c
    unfolding lookup_shape parameter_shapes
    slices = (
      lookup_shape-IsSlice "ln1w" refl,
      lookup_shape-IsSlice "ln1b" refl,
      slice_lem "qkvw" _ (3 * c * c) refl (omega arith) (omega arith),
      slice_lem "qkvb" _ (3 * c) refl (omega arith) (omega arith),
      slice_lem "attprojw" _ (c * c) refl (omega arith) (omega arith),
      lookup_shape-IsSlice "attprojb" refl,
      lookup_shape-IsSlice "ln2w" refl,
      lookup_shape-IsSlice "ln2b" refl,
      slice_lem "fcw" _ (4 * c * c) refl (omega arith) (omega arith),
      slice_lem "fcb" _ (4 * c) refl (omega arith) (omega arith),
      slice_lem "fcprojw" _ (c * (4 * c)) refl (omega arith) (omega arith),
      lookup_shape-IsSlice "fcprojb" refl,
    )

    -- The slices of a layer of loaded weights are taken without an exception or a fault, and have
    -- the sizes that the kernels expect, without a wrap-around.
    pub layer_parameters-Returns :
        (context : String)
        → (layer_parameters context w layer (3 * c) (4 * c) ≡ ok (parameters_of w layer))
          × AreParameters c (parameters_of w layer)
    unfolding layer_parameters parameters_of
    layer_parameters-Returns context =
        let (s1, s2, s3, s4, s5, s6, s7, s8, s9, s10, s11, s12) = slices in
        (
          rw (
            wmul_lem (3 * c) c s3.2,
            wmul_lem c c s5.2,
            wmul_lem (4 * c) c s9.2,
            wmul_lem c (4 * c) s11.2,
            s1.1 context,
            s2.1 context,
            s3.1 context,
            s4.1 context,
            s5.1 context,
            s6.1 context,
            s7.1 context,
            s8.1 context,
            s9.1 context,
            s10.1 context,
            s11.1 context,
            s12.1 context,
          ),
          record {
            ln1w_size = s1.0;
            ln1b_size = s2.0;
            qkvw_size = s3.0;
            qkvb_size = s4.0;
            attprojw_size = s5.0;
            attprojb_size = s6.0;
            ln2w_size = s7.0;
            ln2b_size = s8.0;
            fcw_size = s9.0;
            fcb_size = s10.0;
            fcprojw_size = s11.0;
            fcprojb_size = s12.0;
            largest_fits = s9.2;
          },
        )
