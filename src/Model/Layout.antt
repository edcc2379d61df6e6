-- ===== src/Model/Layout.antt =====
-- `TensorSpec` and `ParameterLayout`: where each parameter tensor lies in the one storage vector.
pub mod Exact
use Prim.Native.String.{String}
use text.Mathlib.Text.{◌==◌ as str_eq}
use gpt2_cpu_runtime.Prelude.{
  leb, ◌==◌, if◌then◌else◌, Error, Result, ok, err, ◌>>=◌, ◌>>◌, guard, length, replicate, ℕ, ◌-◌,
  ◌*◌, Option, none, some, List, [], ◌∷◌, ◌++◌,
}
use gpt2_cpu_runtime.Sizes.{checked_add, checked_multiply, product}
use gpt2_cpu_runtime.Model.Config.{ModelConfig, validate}

-- `shape` is an array of four, zero behind the first `rank` entries.
pub record TensorSpec : Type 0 where
  pub name : String
  pub offset : ℕ
  pub count : ℕ
  pub shape : List ℕ
  pub rank : ℕ

pub record ParameterLayout : Type 0 where
  pub tensors : List TensorSpec
  pub total_count : ℕ

abbrev pub tensor_count : ℕ
tensor_count = 16

abbrev pub max_rank : ℕ
max_rank = 4

abbrev pub pad_shape : List ℕ → List ℕ
pad_shape dims = dims ++ replicate (max_rank - length dims) 0

-- The lambda `add` of the constructor.
add_tensor : String → List ℕ → ParameterLayout → Result ParameterLayout
add_tensor name dims l = do
  guard (leb (length dims) max_rank)
      (Error.logic_error "parameter tensor rank exceeds fixed metadata capacity")
  count ← product dims name
  total ← checked_add l.total_count count "total parameter count"
  ok (record {
    tensors =
        l.tensors
        ++ (record {
          name = name;
          offset = l.total_count;
          count = count;
          shape = pad_shape dims;
          rank = length dims;
        }
            ∷ []);
    total_count = total;
  })

-- The sixteen calls of `add`, in order.
unfoldable pub parameter_shapes : ModelConfig → ℕ → ℕ → List (String × List ℕ)
parameter_shapes config c3 c4 =
    ("wte", config.padded_vocabulary_size ∷ config.channels ∷ [])
    ∷ ("wpe", config.max_sequence_length ∷ config.channels ∷ [])
    ∷ ("ln1w", config.num_layers ∷ config.channels ∷ [])
    ∷ ("ln1b", config.num_layers ∷ config.channels ∷ [])
    ∷ ("qkvw", config.num_layers ∷ c3 ∷ config.channels ∷ [])
    ∷ ("qkvb", config.num_layers ∷ c3 ∷ [])
    ∷ ("attprojw", config.num_layers ∷ config.channels ∷ config.channels ∷ [])
    ∷ ("attprojb", config.num_layers ∷ config.channels ∷ [])
    ∷ ("ln2w", config.num_layers ∷ config.channels ∷ [])
    ∷ ("ln2b", config.num_layers ∷ config.channels ∷ [])
    ∷ ("fcw", config.num_layers ∷ c4 ∷ config.channels ∷ [])
    ∷ ("fcb", config.num_layers ∷ c4 ∷ [])
    ∷ ("fcprojw", config.num_layers ∷ config.channels ∷ c4 ∷ [])
    ∷ ("fcprojb", config.num_layers ∷ config.channels ∷ [])
    ∷ ("lnfw", config.channels ∷ [])
    ∷ ("lnfb", config.channels ∷ [])
    ∷ []

add_tensors : List (String × List ℕ) → ParameterLayout → Result ParameterLayout
add_tensors [] l = ok l
add_tensors ((name, dims) ∷ shapes) l = do l' ← add_tensor name dims l; add_tensors shapes l'

-- The constructor.
unfoldable pub make_layout : ModelConfig → Result ParameterLayout
unfolding add_tensor add_tensors parameter_shapes
make_layout config = do
  validate config
  c3 ← checked_multiply 3 config.channels "3 * channels"
  c4 ← checked_multiply 4 config.channels "4 * channels"
  l ← add_tensors (parameter_shapes config c3 c4) (record { tensors = []; total_count = 0 })
  guard (length l.tensors == tensor_count)
      (Error.logic_error "parameter layout tensor count mismatch")
  ok l

-- `std::find_if` over the tensors.
unfoldable pub find_spec : String → List TensorSpec → Option TensorSpec
find_spec name [] = none
find_spec name (spec ∷ specs) = if str_eq spec.name name then some spec else find_spec name specs

unfoldable pub spec_at : ParameterLayout → String → Result TensorSpec
unfolding find_spec
spec_at l name = elim (find_spec name l.tensors) [
  | none ↦ err (Error.out_of_range "unknown parameter tensor: ")
  | some spec ↦ ok spec
]
