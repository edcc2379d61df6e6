-- ===== src/Examples/Sizes.antt =====
-- Runs of the size checks and of the parameter layout.
use gpt2_cpu_runtime.Prelude.{ok, err, ◌^◌, ◌≡◌, refl, ◌↔◌, [], ◌∷◌, arith}
use gpt2_cpu_runtime.Sizes.{overflow, checked_multiply, product, checked_multiply_exact}
use gpt2_cpu_runtime.Sizes.Products.{ComputesSize, product-ComputesSize}
use gpt2_cpu_runtime.Model.Config.{ModelConfig, IsSized, validate, IsValid, validate_iff}
use gpt2_cpu_runtime.Model.Layout.{parameter_shapes, make_layout}
use gpt2_cpu_runtime.Model.Layout.Exact.{total_of, shapes_of, layout_of, make_layout-ComputesSize}

checked_multiply_exact_example : checked_multiply (2 ^ 32) (2 ^ 32) "size" ≡ err (overflow "size")
checked_multiply_exact_example = checked_multiply_exact (2 ^ 32) (2 ^ 32) "size"

product-ComputesSize_example : ComputesSize (product (2 ∷ 3 ∷ 4 ∷ []) "t") 24 24
product-ComputesSize_example = product-ComputesSize (2 ∷ 3 ∷ 4 ∷ []) "t" (omega arith)

abbrev pub tiny : ModelConfig
tiny = record {
  max_sequence_length = 4;
  vocabulary_size = 5;
  padded_vocabulary_size = 6;
  num_layers = 1;
  num_heads = 2;
  channels = 2;
}

pub tiny-IsValid : IsValid tiny
tiny-IsValid = omega arith

pub tiny-IsSized : IsSized tiny
tiny-IsSized = omega arith

validate_iff_example : (validate tiny ≡ ok tt) ↔ IsValid tiny
validate_iff_example = validate_iff tiny

make_layout-ComputesSize_example :
    ComputesSize (make_layout tiny) (total_of (shapes_of tiny)) (layout_of tiny)
make_layout-ComputesSize_example = make_layout-ComputesSize tiny tiny-IsSized tiny-IsValid

tiny_total : total_of (shapes_of tiny) ≡ 98
unfolding total_of parameter_shapes
tiny_total = refl
