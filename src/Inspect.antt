-- ===== src/Inspect.antt =====
-- `gpt2_inspect` (app/gpt2_inspect.cpp): it loads a checkpoint and reports its configuration and,
-- on request, its layout.
pub mod Layout
use Prim.Native.String.{String}
use gpt2_cpu_runtime.Prelude.{
  if◌then◌else◌, Error, Result, err, ok, ◌>>=◌, take, is_empty, ℕ, Bool, true, false, Option, none,
  some, List, [], ◌∷◌,
}
use gpt2_cpu_runtime.Exit.{Exit, helped, misused, failure, exit_of}
use gpt2_cpu_runtime.Text.{codes}
use gpt2_cpu_runtime.Generate.Options.{same_text}
use gpt2_cpu_runtime.Model.Config.{ModelConfig}
use gpt2_cpu_runtime.Model.Layout.{TensorSpec}
use gpt2_cpu_runtime.Model.Tensor.{ModelWeights}
use gpt2_cpu_runtime.Model.Checkpoint.{CheckpointFile, load_checkpoint}

pub record InspectOptions : Type 0 where
  pub checkpoint : List ℕ
  pub show_layout : Bool

-- The loop over the arguments. `none`: the usage is printed and the program ends with status 0.
unfoldable pub read_arguments : List (List ℕ) → InspectOptions → Result (Option InspectOptions)
read_arguments [] options = ok (some options)
read_arguments (argument ∷ []) options =
    if same_text argument (codes "--layout")
    then ok (some (record options { show_layout = true }))
    else if same_text argument (codes "--help")
    then ok none
    else err (Error.invalid_argument "unknown or incomplete argument: ")
read_arguments (argument ∷ value ∷ rest) options =
    let with_path = read_arguments rest (record options { checkpoint = value }) in
    let with_layout = read_arguments (value ∷ rest) (record options { show_layout = true }) in
    if same_text argument (codes "--checkpoint")
    then with_path
    else if same_text argument (codes "--layout")
    then with_layout
    else if same_text argument (codes "--help")
    then ok none
    else err (Error.invalid_argument "unknown or incomplete argument: ")

-- What is printed of the weights. The shape of a tensor is printed up to its rank.
pub record Inspection : Type 0 where
  pub checkpoint_version : ℕ
  pub config : ModelConfig
  pub num_parameters : ℕ
  pub parameter_layout : Option (List (String × ℕ × ℕ × List ℕ))

abbrev pub layout_lines : List TensorSpec → List (String × ℕ × ℕ × List ℕ)
layout_lines [] = []
layout_lines (spec ∷ specs) =
    (spec.name, spec.offset, spec.count, take spec.rank spec.shape) ∷ layout_lines specs

unfoldable pub describe : {F : Type 0} → Bool → ModelWeights F → Inspection
describe show_layout w = record {
  checkpoint_version = w.checkpoint_version;
  config = w.config;
  num_parameters = w.layout.total_count;
  parameter_layout = if show_layout then some (layout_lines w.layout.tensors) else none;
}

module _ {F : Type 0} (checkpoint_file : List ℕ → CheckpointFile) (of_bits : ℕ → F) where
  unfoldable pub inspect : InspectOptions → Exit Inspection
  unfolding describe
  inspect options =
      if is_empty options.checkpoint
      then misused
      else exit_of (
          load_checkpoint of_bits (checkpoint_file options.checkpoint) >>= λ w.
          ok (describe options.show_layout w))

  abbrev inspect_read : Result (Option InspectOptions) → Exit Inspection
  inspect_read (ok none) = helped
  inspect_read (ok (some options)) = inspect options
  inspect_read (err thrown) = failure thrown

  unfoldable pub main : List (List ℕ) → Exit Inspection
  unfolding read_arguments inspect
  main arguments =
      inspect_read (read_arguments arguments (record { checkpoint = []; show_layout = false }))
