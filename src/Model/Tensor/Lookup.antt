-- ===== src/Model/Tensor/Lookup.antt =====
-- `ModelWeights::tensor` finds every tensor of the layout, at its place in the storage.
use Prim.Native.String.{String}
use mathlib.Core.Path.{fun_ext}
use mathlib.Core.Option.{some-injective}
use text.Mathlib.Text.{◌==◌ as str_eq}
use gpt2_cpu_runtime.Prelude.{
  ltb, ◌==◌, if◌then◌else◌, eq→==, Bool-cases, size_mod, Result, err, ok, ◌>>=◌, Returns, length,
  take, drop, replicate, ℕ, ◌+◌, ◌-◌, ◌*◌, ◌≤◌, ◌<◌, ◌≡◌, refl, sym, ap, ◌∙◌, inl, inr, false, ◌||◌,
  Option, none, some, List, [], ◌∷◌, ◌++◌, arith,
}
use gpt2_cpu_runtime.Buffer.{subspan_lem, length-subspan}
use gpt2_cpu_runtime.Sizes.{checked_multiply, product_from, volume}
use gpt2_cpu_runtime.Sizes.Products.{ComputesSize, AreDimensions, product_from-ComputesSize}
use gpt2_cpu_runtime.Model.Config.{IsSized, IsValid}
use gpt2_cpu_runtime.Model.Layout.{
  TensorSpec, ParameterLayout, max_rank, pad_shape, make_layout, find_spec, spec_at,
}
use gpt2_cpu_runtime.Model.Layout.Exact.{
  spec_of, specs_from, total_of, AreShapes, shapes_of, layout_of, shapes_of-AreShapes,
  channels-le-total, make_layout-ComputesSize,
}
use gpt2_cpu_runtime.Model.Tensor.{TensorView, expected_size, ModelWeights, make_view, tensor}

-- The shape that a table gives a name.
unfoldable pub lookup_shape : String → List (String × List ℕ) → Option (List ℕ)
lookup_shape name [] = none
lookup_shape name ((n, dims) ∷ shapes) =
    if str_eq n name then some dims else lookup_shape name shapes

-- A name of the table is found at an offset at which its tensor fits.
abbrev Located : String → List ℕ → ℕ → List (String × List ℕ) → Type 0
Located name dims start shapes =
    (n : String) × (offset : ℕ) × (find_spec name (specs_from start shapes)
      ≡ some (spec_of n dims offset))
    × (offset + volume dims ≤ start + total_of shapes)

lookup_shape-Located :
    (name : String) (dims : List ℕ) (start : ℕ) (shapes : List (String × List ℕ))
    → lookup_shape name shapes ≡ some dims
    → Located name dims start shapes
unfolding lookup_shape find_spec specs_from total_of
lookup_shape-Located name dims start [] e = absurd (cc)
lookup_shape-Located name dims start ((n, d) ∷ shapes) e = elim (Bool-cases (str_eq n name)) [
  | inl hit ↦
      let same : some d ≡ some dims = rw hit at e in
      let e' : d ≡ dims = some-injective _ _ same in (n, start, rw (hit, e'), rw e' (omega arith))
  | inr miss ↦
      let (n', offset, found, inside) =
        lookup_shape-Located name dims (start + volume d) shapes (rw miss at e) in
      (n', offset, rw miss found, omega arith)
]

lookup_shape-AreDimensions :
    (name : String) (dims : List ℕ) (shapes : List (String × List ℕ))
    → AreShapes shapes
    → lookup_shape name shapes ≡ some dims
    → (length dims ≤ max_rank) × AreDimensions dims
unfolding lookup_shape
lookup_shape-AreDimensions name dims [] h e = absurd (cc)
lookup_shape-AreDimensions name dims ((n, d) ∷ shapes) (r, a, h) e =
    elim (Bool-cases (str_eq n name)) [
      | inl hit ↦
          let same : some d ≡ some dims = rw hit at e in
          let e' : d ≡ dims = some-injective _ _ same in (rw (← e') r, rw (← e') a)
      | inr miss ↦ lookup_shape-AreDimensions name dims shapes h (rw miss at e)
    ]

expected_size-product :
    (dims rest : List ℕ) (expected : ℕ)
    → expected_size (length dims) (dims ++ rest) expected
      ≡ product_from expected dims "tensor view shape"
unfolding expected_size product_from
expected_size-product [] rest expected = refl
expected_size-product (d ∷ dims) rest expected =
    ap (◌>>=◌ (checked_multiply expected d "tensor view shape"))
      (fun_ext λ next. expected_size-product dims rest next)

fits_ok {ℓ} :
    {A : Type ℓ} (r : Result A) (n : ℕ) (v : A) → n < size_mod → ComputesSize r n v → r ≡ ok v
fits_ok r n v h (inl (fits, e)) = e
fits_ok r n v h (inr (large, thrown)) = absurd (omega arith)

spec_at_lem :
    (l : ParameterLayout) (name : String) (spec : TensorSpec)
    → find_spec name l.tensors ≡ some spec
    → spec_at l name ≡ ok spec
unfolding spec_at
spec_at_lem l name spec e = rw (e, spec_at)

module _ {F : Type 0} where
  -- A view whose values have the volume of its shape is accepted.
  make_view_lem :
      (values : List F) (dims : List ℕ)
      → 0 < length dims
      → length dims ≤ max_rank
      → AreDimensions dims
      → volume dims < size_mod
      → length values ≡ volume dims
      → make_view values (pad_shape dims) (length dims)
        ≡ ok (record { values = values; shape = pad_shape dims; rank = length dims })
  unfolding make_view
  make_view_lem values dims ranked rank_le sizes fits e =
      let z : 1 * volume dims ≡ volume dims = omega arith in
      let exact =
        product_from-ComputesSize 1 dims "tensor view shape" (omega arith) (omega arith) sizes in
      let rank_ok : (length dims == 0 || ltb max_rank (length dims)) ≡ false = ground arith in
      rw (
        rank_ok,
        expected_size-product dims (replicate (max_rank - length dims) 0) 1,
        fits_ok (product_from 1 dims "tensor view shape") (1 * volume dims) (1 * volume dims)
            (omega arith) exact,
        z,
        eq→== (volume dims) (length values) (sym e),
      )

-- Weights as the loader makes them: a layout of a valid configuration, and storage of its size.
pub record IsLoaded {F : Type 0} (w : ModelWeights F) : Type 0 where
  pub is_sized : IsSized w.config
  pub is_valid : IsValid w.config
  pub layout_made : make_layout w.config ≡ ok w.layout
  pub storage_size : length w.storage ≡ w.layout.total_count

module _ {F : Type 0} (w : ModelWeights F) (loaded : IsLoaded w) where
  open loaded use {is_sized, is_valid, layout_made, storage_size}

  pub layout_exact : (total_of (shapes_of w.config) < size_mod) × (w.layout ≡ layout_of w.config)
  layout_exact = split (make_layout-ComputesSize w.config is_sized is_valid)
    where
      split :
          ComputesSize (make_layout w.config) (total_of (shapes_of w.config)) (layout_of w.config)
          → (total_of (shapes_of w.config) < size_mod) × (w.layout ≡ layout_of w.config)
      split (inl (fits, e)) = (fits, cc)
      split (inr (large, (c, e))) = absurd (cc)

  pub total_fits : total_of (shapes_of w.config) < size_mod
  total_fits = layout_exact.0

  pub storage_total : length w.storage ≡ total_of (shapes_of w.config)
  storage_total = storage_size ∙ ap (λ (l : ParameterLayout). l.total_count) layout_exact.1

  pub shapes_lem : AreShapes (shapes_of w.config)
  shapes_lem =
      shapes_of-AreShapes w.config is_sized is_valid
        (omega (arith, total_fits, channels-le-total w.config is_valid))

  -- A name of the table is the name of a tensor that has the exact volume of its shape.
  pub tensor-Returns :
      (name : String) (dims : List ℕ)
      → lookup_shape name (shapes_of w.config) ≡ some dims
      → 0 < length dims
      → Returns (tensor w name) λ view. length view.values ≡ volume dims
  unfolding tensor
  tensor-Returns name dims e ranked =
      let (n, offset, found, inside) = lookup_shape-Located name dims 0 (shapes_of w.config) e in
      let (rank_le, sizes) =
        lookup_shape-AreDimensions name dims (shapes_of w.config) shapes_lem e in
      let here : offset + volume dims ≤ length w.storage = omega (arith, storage_total) in
      let values = take (volume dims) (drop offset w.storage) in
      let size = length-subspan w.storage offset (volume dims) here in
      (
        record { values = values; shape = pad_shape dims; rank = length dims },
        rw (
          spec_at_lem w.layout name (spec_of n dims offset)
              (ap (λ (l : ParameterLayout). find_spec name l.tensors) layout_exact.1 ∙ found),
          subspan_lem w.storage offset (volume dims) here,
          make_view_lem values dims ranked rank_le sizes (omega (arith, total_fits)) size,
        ),
        size,
      )

  -- No tensor is larger than a `std::size_t` can hold.
  pub volume_fits :
      (name : String) (dims : List ℕ)
      → lookup_shape name (shapes_of w.config) ≡ some dims
      → volume dims < size_mod
  volume_fits name dims e =
      let (n, offset, found, inside) = lookup_shape-Located name dims 0 (shapes_of w.config) e in
      omega (arith, total_fits)

-- The values of a tensor.
unfoldable pub values_of : {F : Type 0} → ModelWeights F → String → List F
values_of w name = elim (tensor w name) [ ok view ↦ view.values | err e ↦ [] ]

pub values_of_lem :
    {F : Type 0} (w : ModelWeights F) (name : String) (view : TensorView F)
    → tensor w name ≡ ok view
    → values_of w name ≡ view.values
unfolding values_of
values_of_lem w name view e = rw (e, values_of)
