-- ===== src/Benchmark/Projections/Rows.antt =====
-- The projection of the last row of the prompt is the last row of the projection of all its rows.
use native.Mathlib.Nat.{mul-le-mul_right}
use gpt2_cpu_runtime.Prelude.{
  size_mod, wmul, wmul_lem, row_span, last_start, ok, Returns, step, length, drop, replicate,
  length-drop, length-replicate, get_or-drop, ℕ, ◌+◌, ◌-◌, ◌*◌, ◌≤◌, ◌<◌, ◌≡◌, refl, sym, ap, ◌∙◌,
  inl, List, [], ◌∷◌, arith,
}
use gpt2_cpu_runtime.Float.{Float}
use gpt2_cpu_runtime.Buffer.{at}
use gpt2_cpu_runtime.Grid.{Holds}
use gpt2_cpu_runtime.Reference.{linear_row, linear_row-congr}
use gpt2_cpu_runtime.Model.Tensor.{ModelWeights}
use gpt2_cpu_runtime.Kernels.Linear.Rows.{linear-Returns, linear_one-Returns}
use gpt2_cpu_runtime.Generate.Loops.{last}
use gpt2_cpu_runtime.Benchmark.Options.{Options, IsSupported}
use gpt2_cpu_runtime.Benchmark.Samples.{no_setup, measure-Returns}
use gpt2_cpu_runtime.Benchmark.Inputs.{ramp, ramp-Returns, first_values, first_values-Returns}
use gpt2_cpu_runtime.Model.Tensor.Lookup.{lookup_shape, IsLoaded}
use gpt2_cpu_runtime.Model.Tensor.Globals.{wte_lem, wpe_lem}
use gpt2_cpu_runtime.Model.Layout.{parameter_shapes}
use gpt2_cpu_runtime.Generate.Continuation.Full.{last_lem, last_row}
use gpt2_cpu_runtime.Benchmark.Projections.{Projections, project_all, project_last, project}

module _ {F : Type 0} ⦃fl : Float F⦄ where
  -- What the projections leave: the last row alone is the last row of all, and each repetition has
  -- left a sample.
  pub record IsProjected {D : Type 0} (options : Options) (w : ModelWeights F) (p : Projections F D)
      : Type 0 where
    pub all_size : length p.projection_all ≡ length options.tokens * w.config.vocabulary_size
    pub last_size : length p.projection_last ≡ w.config.vocabulary_size
    pub last_lem :
        (o : ℕ)
        → o < w.config.vocabulary_size
        → at p.projection_last o
          ≡ at p.projection_all ((length options.tokens - 1) * w.config.vocabulary_size + o)
    pub all_count : length p.all_rows_milliseconds ≡ options.repetitions
    pub last_count : length p.last_row_milliseconds ≡ options.repetitions

  -- A weight that the projections share, with a prompt of `rows` rows.
  record IsProjection (input weight : List F) (rows inputs outputs : ℕ) : Type 0 where
    rows_pos : 0 < rows
    input_size : length input ≡ rows * inputs
    weight_size : length weight ≡ outputs * inputs
    input_fits : rows * inputs < size_mod
    weight_fits : outputs * inputs < size_mod
    output_fits : rows * outputs < size_mod

  module _ (input weight : List F) (rows inputs outputs : ℕ)
      (sizes : IsProjection input weight rows inputs outputs) where
    abbrev row_entry : ℕ → ℕ → F
    row_entry r o = linear_row weight [] inputs (λ i. at input (r * inputs + i)) o

    project_all-Returns :
        (output : List F)
        → length output ≡ rows * outputs
        → Returns
            (project_all input weight rows inputs outputs output)
            λ out. (length out ≡ rows * outputs) × Holds rows outputs row_entry out
    unfolding project_all
    project_all-Returns output e =
        linear-Returns output input weight [] rows inputs outputs (record {
          output_size = e;
          input_size = sizes.input_size;
          weight_size = sizes.weight_size;
          bias_size = inl refl;
          output_fits = omega (arith, e, sizes.output_fits);
          input_fits = omega (arith, sizes.input_size, sizes.input_fits);
          weight_fits = omega (arith, sizes.weight_size, sizes.weight_fits);
        })

    project_last-Returns :
        (output : List F)
        → length output ≡ outputs
        → Returns (project_last input weight inputs outputs output) λ out.
          (length out ≡ outputs) × ((o : ℕ) → o < outputs → at out o ≡ row_entry (rows - 1) o)
    unfolding project_last last
    project_last-Returns output e =
        let le = row_span (rows - 1) rows inputs (omega (arith, sizes.rows_pos)) in
        let wide = row_span (rows - 1) rows outputs (omega (arith, sizes.rows_pos)) in
        let start = length input - inputs in
        let row = drop start input in
        let size : length row ≡ inputs = omega (arith, length-drop start input, sizes.input_size) in
        let (out, e', (out_size, entries)) =
          linear_one-Returns output row weight [] inputs outputs (record {
            output_size = omega (arith, e);
            input_size = omega (arith, size);
            weight_size = sizes.weight_size;
            bias_size = inl refl;
            output_fits = omega (arith, e, wide, sizes.output_fits);
            input_fits = omega (arith, size, le, sizes.input_fits);
            weight_fits = omega (arith, sizes.weight_size, sizes.weight_fits);
          }) in
        let here = last_lem input inputs (omega (arith, le, sizes.input_size)) in
        let at_start : start ≡ (rows - 1) * inputs =
          last_start rows inputs (length input) sizes.rows_pos sizes.input_size in
        (
          out,
          step _ here e',
          (
            out_size,
            λ o h.
                entries o h
                ∙ linear_row-congr weight [] inputs _ _ o λ i _.
                  get_or-drop start i input fl.nought ∙ ap (λ k. at input (k + i)) at_start,
          ),
        )

  -- The input and the weight of the projections are found, and their sizes match.
  operands :
      (w : ModelWeights F) (rows : ℕ)
      → IsLoaded w
      → 0 < rows
      → rows ≤ w.config.max_sequence_length
      → rows * w.config.vocabulary_size < size_mod
      → (input : List F) × (weight : List F) × (ramp 17 (wmul rows w.config.channels) ≡ ok input)
        × (first_values w "wte" (wmul w.config.vocabulary_size w.config.channels) ≡ ok weight)
        × IsProjection input weight rows w.config.channels w.config.vocabulary_size
  operands w rows loaded rows_pos rows_le fits =
      let c = w.config.channels in
      let v = w.config.vocabulary_size in
      let input_fits : rows * c < size_mod =
        omega (arith, mul-le-mul_right c rows_le, (wpe_lem w loaded).fits) in
      let table : v * c ≤ w.config.padded_vocabulary_size * c =
        mul-le-mul_right c loaded.is_valid.vocabulary_size_le in
      let weight_fits : v * c < size_mod = omega (arith, (wte_lem w loaded).fits) in
      let (input, e1, (input_size, _)) = ramp-Returns 17 (rows * c) in
      let (weight, e2, (weight_size, _)) =
        first_values-Returns w loaded "wte" (w.config.padded_vocabulary_size ∷ c ∷ []) (v * c)
          (unfold lookup_shape parameter_shapes in refl) (omega arith) (omega arith) in
      (
        input,
        weight,
        ap (ramp 17) (wmul_lem rows c input_fits) ∙ e1,
        ap (first_values w "wte") (wmul_lem v c weight_fits) ∙ e2,
        record {
          rows_pos = rows_pos;
          input_size = input_size;
          weight_size = weight_size;
          input_fits = input_fits;
          weight_fits = weight_fits;
          output_fits = fits;
        },
      )

  -- For a prompt within the context and samples that a `std::vector` can hold, the projections
  -- return. The projection of the last row alone is the last row of the projection
  -- of all rows.
  pub project-Returns :
      {D : Type 0} (elapsed : ℕ → D) (options : Options) (w : ModelWeights F) (readings : ℕ)
      → IsLoaded w
      → IsSupported options
      → 0 < length options.tokens
      → length options.tokens ≤ w.config.max_sequence_length
      → length options.tokens * w.config.vocabulary_size < size_mod
      → Returns (project elapsed options w readings) (IsProjected options w)
  unfolding project
  project-Returns {D = D} elapsed options w readings loaded supported rows_pos rows_le fits =
      let rows = length options.tokens in
      let c = w.config.channels in
      let v = w.config.vocabulary_size in
      let (input, weight, e1, e2, sizes) = operands w rows loaded rows_pos rows_le fits in
      let (all_rows, e3, ((all_size, entries), all_count)) =
        measure-Returns elapsed no_setup (project_all input weight rows c v)
          (λ b. length b ≡ rows * v) (λ b. length b ≡ rows * v)
          (λ b. (length b ≡ rows * v) × Holds rows v (row_entry input weight rows c v sizes) b)
          options.warmup options.repetitions (replicate (rows * v) fl.nought) readings
          (λ b e. (b, refl, e)) (project_all-Returns input weight rows c v sizes) (λ b p. p.0)
          (length-replicate (rows * v) fl.nought) supported.runnable.repetitions_pos
          supported.repetitions_le in
      let (last_row, e4, ((last_size, last_entries), last_count)) =
        measure-Returns elapsed no_setup (project_last input weight c v) (λ b. length b ≡ v)
          (λ b. length b ≡ v)
          (λ b.
            (length b ≡ v)
            × ((o : ℕ) → o < v → at b o ≡ row_entry input weight rows c v sizes (rows - 1) o))
          options.warmup options.repetitions (replicate v fl.nought) all_rows.readings
          (λ b e. (b, refl, e)) (project_last-Returns input weight rows c v sizes) (λ b p. p.0)
          (length-replicate v fl.nought) supported.runnable.repetitions_pos
          supported.repetitions_le in
      let out : Projections F D = record {
        projection_all = all_rows.subject;
        projection_last = last_row.subject;
        all_rows_milliseconds = all_rows.milliseconds;
        last_row_milliseconds = last_row.milliseconds;
        readings = last_row.readings;
      } in
      (
        out,
        rw (wmul_lem rows v fits) (step _ e1 (step _ e2 (step _ e3 (step _ e4 refl)))),
        record {
          all_size = all_size;
          last_size = last_size;
          last_lem = λ o h. last_entries o h ∙ sym (entries.entries (rows - 1) o (omega arith) h);
          all_count = all_count;
          last_count = last_count;
        },
      )
