-- ===== src/Inspect/Layout.antt =====
-- What `gpt2_inspect` prints of a checkpoint.
use Prim.Native.String.{String}
use gpt2_cpu_runtime.Prelude.{
  if◌then◌else◌, ok, length, take, replicate, is_empty, ℕ, ◌+◌, ◌-◌, ◌≡◌, refl, ap, ◌∙◌, Bool,
  false, none, some, List, [], ◌∷◌, ◌++◌,
}
use gpt2_cpu_runtime.Exit.{success}
use gpt2_cpu_runtime.Sizes.{volume}
use gpt2_cpu_runtime.Model.Layout.{ParameterLayout, max_rank}
use gpt2_cpu_runtime.Model.Layout.Exact.{specs_from, total_of, shapes_of}
use gpt2_cpu_runtime.Model.Tensor.{ModelWeights}
use gpt2_cpu_runtime.Model.Tensor.Lookup.{layout_exact}
use gpt2_cpu_runtime.Model.Checkpoint.{CheckpointFile, contents, load_checkpoint}
use gpt2_cpu_runtime.Model.Checkpoint.Sound.{load_checkpoint-IsCheckpoint}
use gpt2_cpu_runtime.Inspect.{InspectOptions, read_arguments, layout_lines, describe, inspect, main}

-- The table of shapes with the running totals of the sizes.
abbrev pub rows_from : ℕ → List (String × List ℕ) → List (String × ℕ × ℕ × List ℕ)
rows_from offset [] = []
rows_from offset ((name, dims) ∷ shapes) =
    (name, offset, volume dims, dims) ∷ rows_from (offset + volume dims) shapes

take-length-append {ℓ} : {A : Type ℓ} (xs ys : List A) → take (length xs) (xs ++ ys) ≡ xs
take-length-append [] ys = refl
take-length-append (x ∷ xs) ys = ap (◌∷◌ x) (take-length-append xs ys)

layout_lines-specs_from :
    (offset : ℕ) (shapes : List (String × List ℕ))
    → layout_lines (specs_from offset shapes) ≡ rows_from offset shapes
unfolding specs_from
layout_lines-specs_from offset [] = refl
layout_lines-specs_from offset ((name, dims) ∷ shapes) = rw (
  take-length-append dims (replicate (max_rank - length dims) 0),
  layout_lines-specs_from (offset + volume dims) shapes,
)

module _ {F : Type 0} (checkpoint_file : List ℕ → CheckpointFile) (of_bits : ℕ → F) where
  -- When the arguments name a checkpoint that is loaded, the program ends with success. It prints
  -- the version and the configuration, the exact number of parameters, and on request the table of
  -- the tensors, in which each tensor starts where the one before it ends.
  pub main-success :
      (arguments : List (List ℕ)) (options : InspectOptions) (bytes : List ℕ) (reads : ℕ → Bool)
      (w : ModelWeights F)
      → read_arguments arguments (record { checkpoint = []; show_layout = false })
        ≡ ok (some options)
      → is_empty options.checkpoint ≡ false
      → checkpoint_file options.checkpoint ≡ contents bytes reads
      → load_checkpoint of_bits (contents bytes reads) ≡ ok w
      → main checkpoint_file of_bits arguments
        ≡ success (record {
          checkpoint_version = w.checkpoint_version;
          config = w.config;
          num_parameters = total_of (shapes_of w.config);
          parameter_layout =
              if options.show_layout then some (rows_from 0 (shapes_of w.config)) else none;
        })
  unfolding main inspect describe
  main-success arguments options bytes reads w parsed_lem given opened e =
      let loaded = (load_checkpoint-IsCheckpoint of_bits bytes reads w e).loaded in
      let exact = (layout_exact w loaded).1 in
      let opens : load_checkpoint of_bits (checkpoint_file options.checkpoint) ≡ ok w =
        ap (load_checkpoint of_bits) opened ∙ e in
      let total : w.layout.total_count ≡ total_of (shapes_of w.config) =
        ap (λ (l : ParameterLayout). l.total_count) exact in
      let lines : layout_lines w.layout.tensors ≡ rows_from 0 (shapes_of w.config) =
        ap (λ (l : ParameterLayout). layout_lines l.tensors) exact
        ∙ layout_lines-specs_from 0 (shapes_of w.config) in
      rw (parsed_lem, given, opens, total, lines)
