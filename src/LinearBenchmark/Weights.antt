-- ===== src/LinearBenchmark/Weights.antt =====
-- The five cases of `gpt2_linear_benchmark` take their weights from a loaded model.
use Prim.Native.String.{String}
use native.Mathlib.Nat.{mul-le-mul_right}
use gpt2_cpu_runtime.Prelude.{
  size_mod, wmul, wmul_lem, row_span, ok, Returns, step, length, length-replicate, ℕ, ◌*◌, ◌≤◌, ◌<◌,
  ◌≡◌, refl, ap, ◌∙◌, ◌⊎◌, inl, inr, some, List, [], ◌∷◌, arith,
}
use gpt2_cpu_runtime.Float.{Float}
use gpt2_cpu_runtime.Sizes.{volume}
use gpt2_cpu_runtime.Model.Tensor.{ModelWeights}
use gpt2_cpu_runtime.Model.Tensor.Lookup.{lookup_shape, IsLoaded, volume_fits}
use gpt2_cpu_runtime.Model.Layout.Exact.{shapes_of}
use gpt2_cpu_runtime.Benchmark.Inputs.{ramp-Returns, first_values, first_values-Returns}
use gpt2_cpu_runtime.LinearBenchmark.Cases.{LinearCase, make_case, make_cases}
use gpt2_cpu_runtime.LinearBenchmark.Layers.{IsCase}
use gpt2_cpu_runtime.Model.Layout.{parameter_shapes}
use gpt2_cpu_runtime.Model.Tensor.Globals.{wte_lem}

-- A made case: its name, its sizes and its weights.
pub record IsMade {F : Type 0} ⦃fl : Float F⦄ (name : String) (inputs outputs : ℕ)
    (weight bias : List F) (item : LinearCase F) : Type 0 where
  pub name_lem : item.name ≡ name
  pub inputs_lem : item.input_channels ≡ inputs
  pub outputs_lem : item.output_channels ≡ outputs
  pub weight_lem : item.weight ≡ weight
  pub bias_lem : item.bias ≡ bias
  pub is_case : IsCase item

module _ {F : Type 0} ⦃fl : Float F⦄ where
  make_case-Returns :
      (name : String) (inputs outputs : ℕ) (weight bias : List F)
      → 0 < inputs
      → 0 < outputs
      → length weight ≡ outputs * inputs
      → outputs * inputs < size_mod
      → (bias ≡ []) ⊎ (length bias ≡ outputs)
      → Returns (make_case name inputs outputs weight bias) (IsMade name inputs outputs weight bias)
  unfolding make_case
  make_case-Returns name inputs outputs weight bias hi ho hw fits hb =
      let (input, e, (size, entries)) = ramp-Returns 31 inputs in
      (
        _,
        step _ e refl,
        record {
          name_lem = refl;
          inputs_lem = refl;
          outputs_lem = refl;
          weight_lem = refl;
          bias_lem = refl;
          is_case = record {
            inputs_pos = hi;
            outputs_pos = ho;
            input_size = size;
            input_lem = entries;
            weight_size = hw;
            weight_fits = fits;
            bias_size = hb;
            output_size = length-replicate outputs fl.nought;
          };
        },
      )

  module _ (w : ModelWeights F) (loaded : IsLoaded w) where
    open w.config use {vocabulary_size, channels}

    -- The first layer of a tensor that has one part for each layer.
    first_layer :
        (name : String) (dims : List ℕ)
        → lookup_shape name (shapes_of w.config) ≡ some (w.config.num_layers ∷ dims)
        → (count : ℕ) → count ≡ volume dims
        → (count < size_mod) × Returns (first_values w name count) (λ xs. length xs ≡ count)
    first_layer name dims found count e =
        let le : count ≤ volume (w.config.num_layers ∷ dims) =
          omega (
            arith,
            e,
            row_span 0 w.config.num_layers (volume dims) loaded.is_valid.num_layers_pos,
          ) in
        let (xs, made, (size, _)) =
          first_values-Returns w loaded name (w.config.num_layers ∷ dims) count found (omega arith)
            le in
        (omega (arith, le, volume_fits w loaded name _ found), (xs, made, size))

    -- A case with the weight and the bias that it is made from, where they come from a tensor.
    pub record IsLayerCase (name weight_name bias_name : String) (inputs outputs : ℕ)
        (item : LinearCase F) : Type 0 where
      pub weight : List F
      pub bias : List F
      pub weight_found : first_values w weight_name (outputs * inputs) ≡ ok weight
      pub bias_found : first_values w bias_name outputs ≡ ok bias
      pub case_made : make_case name inputs outputs weight bias ≡ ok item
      pub made : IsMade name inputs outputs weight bias item

    -- A case with a weight and a bias of a layer.
    layer_case :
        (name weight_name bias_name : String) (inputs outputs : ℕ)
        → lookup_shape weight_name (shapes_of w.config)
          ≡ some (w.config.num_layers ∷ outputs ∷ inputs ∷ [])
        → lookup_shape bias_name (shapes_of w.config) ≡ some (w.config.num_layers ∷ outputs ∷ [])
        → 0 < inputs
        → 0 < outputs
        → (outputs * inputs < size_mod)
          × ((item : LinearCase F) × IsLayerCase name weight_name bias_name inputs outputs item)
    layer_case name weight_name bias_name inputs outputs hw hb hi ho =
        let (fits, (weight, e1, weight_size)) =
          first_layer weight_name (outputs ∷ inputs ∷ []) hw (outputs * inputs) (omega arith) in
        let (_, (bias, e2, bias_size)) =
          first_layer bias_name (outputs ∷ []) hb outputs (omega arith) in
        let (item, e3, made) =
          make_case-Returns name inputs outputs weight bias hi ho weight_size fits
            (inr bias_size) in
        (
          fits,
          (
            item,
            record {
              weight = weight;
              bias = bias;
              weight_found = e1;
              bias_found = e2;
              case_made = e3;
              made = made;
            },
          ),
        )

    -- The five cases, in their order.
    pub record HasCases (cases : List (LinearCase F)) : Type 0 where
      pub qkv : LinearCase F
      pub attention_projection : LinearCase F
      pub fc : LinearCase F
      pub fc_projection : LinearCase F
      pub vocabulary : LinearCase F
      pub table : List F
      pub cases_lem : cases ≡ qkv ∷ attention_projection ∷ fc ∷ fc_projection ∷ vocabulary ∷ []
      pub qkv_lem : IsLayerCase "qkv" "qkvw" "qkvb" channels (3 * channels) qkv
      pub attention_projection_lem :
          IsLayerCase "attention_projection" "attprojw" "attprojb" channels channels
            attention_projection
      pub fc_lem : IsLayerCase "fc" "fcw" "fcb" channels (4 * channels) fc
      pub fc_projection_lem :
          IsLayerCase "fc_projection" "fcprojw" "fcprojb" (4 * channels) channels fc_projection
      pub table_found : first_values w "wte" (vocabulary_size * channels) ≡ ok table
      pub vocabulary_lem : IsMade "vocabulary" channels vocabulary_size table [] vocabulary

    -- The case of the vocabulary: the rows of real tokens, and no bias.
    vocabulary_case :
        (vocabulary_size * channels < size_mod)
        × ((table : List F) × (item : LinearCase F) × (first_values w "wte"
                (vocabulary_size * channels)
              ≡ ok table)
            × (make_case "vocabulary" channels vocabulary_size table [] ≡ ok item)
            × IsMade "vocabulary" channels vocabulary_size table [] item)
    vocabulary_case =
        let v = vocabulary_size in
        let c = channels in
        let rows : v * c ≤ w.config.padded_vocabulary_size * c =
          mul-le-mul_right c loaded.is_valid.vocabulary_size_le in
        let fits : v * c < size_mod = omega (arith, (wte_lem w loaded).fits) in
        let (table, e1, (size, _)) =
          first_values-Returns w loaded "wte" (w.config.padded_vocabulary_size ∷ c ∷ []) (v * c)
            (unfold lookup_shape parameter_shapes in refl) (omega arith) (omega arith) in
        let (item, e2, made) =
          make_case-Returns "vocabulary" c v table [] loaded.is_valid.channels_pos
            loaded.is_valid.vocabulary_size_pos size fits (inl refl) in
        (fits, (table, item, e1, e2, made))

    pub make_cases-Returns : Returns (make_cases w) HasCases
    unfolding make_cases lookup_shape parameter_shapes
    make_cases-Returns =
        let c = channels in
        let positive = loaded.is_valid.channels_pos in
        let (f1, (qkv, a1)) =
          layer_case "qkv" "qkvw" "qkvb" c (3 * c) refl refl positive (omega arith) in
        let (f2, (attention_projection, a2)) =
          layer_case "attention_projection" "attprojw" "attprojb" c c refl refl positive positive in
        let (f3, (fc, a3)) =
          layer_case "fc" "fcw" "fcb" c (4 * c) refl refl positive (omega arith) in
        let (f4, (fc_projection, a4)) =
          layer_case "fc_projection" "fcprojw" "fcprojb" (4 * c) c refl refl (omega arith)
            positive in
        let (f5, (table, vocabulary, b1, b2, a5)) = vocabulary_case in
        let three : wmul 3 c ≡ 3 * c =
          wmul_lem 3 c (omega (arith, row_span 0 c (3 * c) positive, f1)) in
        let four : wmul 4 c ≡ 4 * c =
          wmul_lem 4 c (omega (arith, row_span 0 c (4 * c) positive, f3)) in
        let turned : 4 * c * c ≡ c * (4 * c) = grind arith in
        (
          qkv ∷ attention_projection ∷ fc ∷ fc_projection ∷ vocabulary ∷ [],
          rw
              (
                three,
                four,
                wmul_lem (3 * c) c f1,
                wmul_lem c c f2,
                wmul_lem (4 * c) c f3,
                wmul_lem vocabulary_size c f5,
              )
              (step _ a1.weight_found (
                step _ a1.bias_found (
                  step _ a1.case_made (
                    step _ a2.weight_found (
                      step _ a2.bias_found (
                        step _ a2.case_made (
                          step _ a3.weight_found (
                            step _ a3.bias_found (
                              step _ a3.case_made (
                                step _ (ap (first_values w "fcprojw") turned ∙ a4.weight_found) (
                                  step _ a4.bias_found
                                    (step _ a4.case_made (step _ b1 (step _ b2 refl)))))))))))))),
          record {
            qkv = qkv;
            attention_projection = attention_projection;
            fc = fc;
            fc_projection = fc_projection;
            vocabulary = vocabulary;
            table = table;
            cases_lem = refl;
            qkv_lem = a1;
            attention_projection_lem = a2;
            fc_lem = a3;
            fc_projection_lem = a4;
            table_found = b1;
            vocabulary_lem = a5;
          },
        )
