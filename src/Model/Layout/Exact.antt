-- ===== src/Model/Layout/Exact.antt =====
-- The layout that the constructor computes: the tensors one behind the other, without a gap.
use gpt2_cpu_runtime.Model.Config.{ModelConfig, IsSized, IsValid, validate_iff}
use Prim.Native.String.{String}
use native.Mathlib.Nat.{mul-le-mul, le_refl}
use mathlib.Core.List.{append-nil, append_assoc}
use gpt2_cpu_runtime.Prelude.{
  leb, ◌==◌, eq→==, size_mod, guard-Returns, length, ℕ, suc, ◌+◌, ◌*◌, ◌≤◌, ◌<◌, ◌≡◌, refl, ap, inl,
  true, List, [], ◌∷◌, ◌++◌, arith,
}
use gpt2_cpu_runtime.Sizes.{checked_add, checked_multiply, product, volume}
use gpt2_cpu_runtime.Sizes.Products.{
  ComputesSize, AreDimensions, checked_multiply-ComputesSize, checked_add-ComputesSize,
  ComputesSize->>=, product-ComputesSize,
}
use gpt2_cpu_runtime.Model.Layout.{
  TensorSpec, ParameterLayout, tensor_count, max_rank, pad_shape, add_tensor, parameter_shapes,
  add_tensors, make_layout,
}

abbrev pub spec_of : String → List ℕ → ℕ → TensorSpec
spec_of name dims offset = record {
  name = name;
  offset = offset;
  count = volume dims;
  shape = pad_shape dims;
  rank = length dims;
}

-- The tensors of a table of shapes, laid out from an offset.
unfoldable pub specs_from : ℕ → List (String × List ℕ) → List TensorSpec
specs_from offset [] = []
specs_from offset ((name, dims) ∷ shapes) =
    spec_of name dims offset ∷ specs_from (offset + volume dims) shapes

unfoldable pub total_of : List (String × List ℕ) → ℕ
total_of [] = 0
total_of ((name, dims) ∷ shapes) = volume dims + total_of shapes

abbrev pub AreShapes : List (String × List ℕ) → Type 0
AreShapes [] = Unit
AreShapes ((name, dims) ∷ shapes) = (length dims ≤ max_rank) × AreDimensions dims × AreShapes shapes

add_tensor-ComputesSize :
    (name : String) (dims : List ℕ) (l : ParameterLayout)
    → length dims ≤ max_rank
    → AreDimensions dims
    → l.total_count < size_mod
    → ComputesSize (add_tensor name dims l) (l.total_count + volume dims) (record {
      tensors = l.tensors ++ (spec_of name dims l.total_count ∷ []);
      total_count = l.total_count + volume dims;
    })
unfolding add_tensor
add_tensor-ComputesSize name dims l h d s =
    rw (guard-Returns (leb (length dims) max_rank) _ (ground arith)) (
      ComputesSize->>= (product dims name) _ (volume dims) (l.total_count + volume dims)
        (volume dims) (omega arith) (product-ComputesSize dims name d)
        λ fits.
          ComputesSize->>= (checked_add l.total_count (volume dims) "total parameter count") _
            (l.total_count + volume dims) (l.total_count + volume dims)
            (l.total_count + volume dims) (omega arith)
            (checked_add-ComputesSize l.total_count (volume dims) _ s fits)
            λ fits'. inl (fits', refl))

add_tensors-ComputesSize :
    (shapes : List (String × List ℕ)) (l : ParameterLayout)
    → AreShapes shapes
    → l.total_count < size_mod
    → ComputesSize (add_tensors shapes l) (l.total_count + total_of shapes) (record {
      tensors = l.tensors ++ specs_from l.total_count shapes;
      total_count = l.total_count + total_of shapes;
    })
unfolding add_tensors specs_from total_of
add_tensors-ComputesSize [] l h s =
    let e : l.total_count + 0 ≡ l.total_count = omega arith in inl (omega arith, rw (e, append-nil))
add_tensors-ComputesSize ((name, dims) ∷ shapes) l (r, d, h) s =
    let n = l.total_count + volume dims in
    let e : l.total_count + (volume dims + total_of shapes) ≡ n + total_of shapes = omega arith in
    rw (e, ← append_assoc l.tensors (spec_of name dims l.total_count ∷ []) (specs_from n shapes))
      (ComputesSize->>= (add_tensor name dims l) _ n (n + total_of shapes) _ (omega arith)
        (add_tensor-ComputesSize name dims l r d s)
        λ fits. add_tensors-ComputesSize shapes _ h fits)

module _ (config : ModelConfig) where
  -- The shapes of the sixteen tensors, with exact products.
  abbrev pub shapes_of : List (String × List ℕ)
  shapes_of = parameter_shapes config (3 * config.channels) (4 * config.channels)

  abbrev pub layout_of : ParameterLayout
  layout_of = record { tensors = specs_from 0 shapes_of; total_count = total_of shapes_of }

  pub shapes_of-AreShapes :
      IsSized config → IsValid config → 4 * config.channels < size_mod → AreShapes shapes_of
  unfolding parameter_shapes
  shapes_of-AreShapes s v fits = omega arith

  pub channels-le-total : IsValid config → 4 * config.channels ≤ total_of shapes_of
  unfolding parameter_shapes total_of
  channels-le-total v = omega (arith, mul-le-mul v.num_layers_pos (le_refl (4 * config.channels)))

  length-specs_from :
      (offset : ℕ) (shapes : List (String × List ℕ))
      → length (specs_from offset shapes) ≡ length shapes
  unfolding specs_from
  length-specs_from offset [] = refl
  length-specs_from offset ((name, dims) ∷ shapes) =
      ap suc (length-specs_from (offset + volume dims) shapes)

  abbrev empty_layout : ParameterLayout
  empty_layout = record { tensors = []; total_count = 0 }

  filled :
      IsSized config
      → IsValid config
      → 4 * config.channels < size_mod
      → ComputesSize (add_tensors shapes_of empty_layout) (total_of shapes_of) layout_of
  filled s v fits =
      let e : 0 + total_of shapes_of ≡ total_of shapes_of = omega arith in
      rw e at (
        add_tensors-ComputesSize shapes_of empty_layout (shapes_of-AreShapes s v fits)
          (omega arith))

  count-layout_of : (length layout_of.tensors == tensor_count) ≡ true
  unfolding parameter_shapes
  count-layout_of = eq→== (length layout_of.tensors) tensor_count (length-specs_from 0 shapes_of)

  -- For a valid configuration the constructor lays the sixteen tensors out one behind the other,
  -- each with the exact product of its shape as its count, when a `std::size_t` can hold their
  -- total; it throws `std::overflow_error` otherwise.
  pub make_layout-ComputesSize :
      IsSized config
      → IsValid config
      → ComputesSize (make_layout config) (total_of shapes_of) layout_of
  unfolding make_layout
  make_layout-ComputesSize s v =
      let c = config.channels in
      let large = channels-le-total v in
      rw ((validate_iff config).1 v) (
        ComputesSize->>= (checked_multiply 3 c "3 * channels") _ (3 * c) (total_of shapes_of)
          (3 * c) (omega arith) (checked_multiply-ComputesSize 3 c _)
          λ _.
            ComputesSize->>= (checked_multiply 4 c "4 * channels") _ (4 * c) (total_of shapes_of)
              (4 * c) large (checked_multiply-ComputesSize 4 c _)
              λ fits.
                ComputesSize->>= (add_tensors shapes_of empty_layout) _ (total_of shapes_of)
                  (total_of shapes_of) layout_of (omega arith) (filled s v fits)
                  λ fits'. inl (fits', rw count-layout_of))
