-- ===== src/Model/Tensor.antt =====
-- `TensorView`, and `ModelWeights` over one storage vector.
pub mod Lookup
pub mod Parameters
pub mod Globals
use Prim.Native.String.{String}
use gpt2_cpu_runtime.Prelude.{
  ltb, leb, ◌==◌, if◌then◌else◌, wmul, Error, Result, ok, err, ◌>>=◌, ◌>>◌, guard, length, ℕ, zero,
  suc, not, ◌||◌, List, [], ◌∷◌,
}
use gpt2_cpu_runtime.Buffer.{subspan, at}
use gpt2_cpu_runtime.Float.{Float}
use gpt2_cpu_runtime.Sizes.{checked_multiply}
use gpt2_cpu_runtime.Model.Config.{ModelConfig}
use gpt2_cpu_runtime.Model.Layout.{ParameterLayout, max_rank, spec_at}

pub record TensorView (F : Type 0) : Type 0 where
  pub values : List F
  pub shape : List ℕ
  pub rank : ℕ

-- The loop of the constructor over the first `rank` dimensions.
pub expected_size : ℕ → List ℕ → ℕ → Result ℕ
expected_size zero shape expected = ok expected
expected_size (suc rank) [] expected = err Error.fault
expected_size (suc rank) (d ∷ shape) expected = do
  next ← checked_multiply expected d "tensor view shape"
  expected_size rank shape next

pub record ModelWeights (F : Type 0) : Type 0 where
  pub config : ModelConfig
  pub checkpoint_version : ℕ
  pub layout : ParameterLayout
  pub storage : List F

-- The parameters of one layer, in the order in which `forward` and `consume_token` slice them.
pub record LayerParameters (F : Type 0) : Type 0 where
  pub ln1w : List F
  pub ln1b : List F
  pub qkvw : List F
  pub qkvb : List F
  pub attprojw : List F
  pub attprojb : List F
  pub ln2w : List F
  pub ln2b : List F
  pub fcw : List F
  pub fcb : List F
  pub fcprojw : List F
  pub fcprojb : List F

module _ {F : Type 0} where
  unfoldable pub make_view : List F → List ℕ → ℕ → Result (TensorView F)
  unfolding expected_size
  make_view values shape rank = do
    guard (not (rank == 0 || ltb max_rank rank))
        (Error.invalid_argument "tensor view has invalid rank")
    expected ← expected_size rank shape 1
    guard (expected == length values)
        (Error.invalid_argument "tensor view shape does not match its storage range")
    ok (record { values = values; shape = shape; rank = rank })

  -- `TensorView::operator[]`.
  unfoldable pub view_at : ⦃fl : Float F⦄ → TensorView F → ℕ → Result F
  view_at view index =
      if leb (length view.values) index
      then err (Error.out_of_range "tensor view index is out of range")
      else ok (at view.values index)

  -- The constructor of `ModelWeights`.
  unfoldable pub make_weights : ModelConfig → ℕ → ParameterLayout → List F → Result (ModelWeights F)
  make_weights config version layout storage = do
    guard (length storage == layout.total_count)
        (Error.invalid_argument "weight storage does not match parameter layout")
    ok (record {
      config = config;
      checkpoint_version = version;
      layout = layout;
      storage = storage;
    })

  -- `ModelWeights::tensor`.
  unfoldable pub tensor : ModelWeights F → String → Result (TensorView F)
  tensor w name = do
    spec ← spec_at w.layout name
    values ← subspan w.storage spec.offset spec.count
    make_view values spec.shape spec.rank

  -- `layer_slice`, with the context of its overflow check.
  unfoldable pub layer_slice : String → TensorView F → ℕ → ℕ → Result (List F)
  layer_slice context view layer per_layer = do
    offset ← checked_multiply layer per_layer context
    subspan view.values offset per_layer

  -- layer_slice(weights.tensor(name), layer, per_layer)
  pub slice_of : String → ModelWeights F → ℕ → String → ℕ → Result (List F)
  slice_of context w layer name per_layer = do
    view ← tensor w name
    layer_slice context view layer per_layer

  -- The slices at the head of the layer loop.
  unfoldable pub layer_parameters :
      (context : String) (w : ModelWeights F) (layer c3 c4 : ℕ) → Result (LayerParameters F)
  unfolding slice_of
  layer_parameters context w layer c3 c4 = do
    let c = w.config.channels
    ln1w ← slice_of context w layer "ln1w" c
    ln1b ← slice_of context w layer "ln1b" c
    qkvw ← slice_of context w layer "qkvw" (wmul c3 c)
    qkvb ← slice_of context w layer "qkvb" c3
    attprojw ← slice_of context w layer "attprojw" (wmul c c)
    attprojb ← slice_of context w layer "attprojb" c
    ln2w ← slice_of context w layer "ln2w" c
    ln2b ← slice_of context w layer "ln2b" c
    fcw ← slice_of context w layer "fcw" (wmul c4 c)
    fcb ← slice_of context w layer "fcb" c4
    fcprojw ← slice_of context w layer "fcprojw" (wmul c c4)
    fcprojb ← slice_of context w layer "fcprojb" c
    ok (record {
      ln1w = ln1w;
      ln1b = ln1b;
      qkvw = qkvw;
      qkvb = qkvb;
      attprojw = attprojw;
      attprojb = attprojb;
      ln2w = ln2w;
      ln2b = ln2b;
      fcw = fcw;
      fcb = fcb;
      fcprojw = fcprojw;
      fcprojb = fcprojb;
    })
