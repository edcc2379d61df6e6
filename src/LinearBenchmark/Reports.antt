-- ===== src/LinearBenchmark/Reports.antt =====
-- What `gpt2_linear_benchmark` reports on the five layers, and its estimate for a token.
use Prim.Native.String.{String}
use text.Mathlib.Text.{◌==◌ as str_eq}
use gpt2_cpu_runtime.Float.{Float, ◌+f◌, ◌*f◌, ◌/f◌}
use gpt2_cpu_runtime.Session.State.Stages.{IsExecutor}
use gpt2_cpu_runtime.LinearBenchmark.Settings.{Settings, IsPositive}
use gpt2_cpu_runtime.LinearBenchmark.Cases.{
  LinearCase, CaseReport, Reported, median, no_report, run_calls, add_report, report_case,
  report_cases,
}
use gpt2_cpu_runtime.LinearBenchmark.Layers.{IsCase, IsComputed, SameCase, run_calls-Returns}
use gpt2_cpu_runtime.LinearBenchmark.Weights.{HasCases}
use gpt2_cpu_runtime.Model.Tensor.{ModelWeights}
use gpt2_cpu_runtime.Model.Tensor.Lookup.{IsLoaded}
use gpt2_cpu_runtime.Benchmark.Samples.{sort, median as sample_median, no_setup, measure-Returns}
use gpt2_cpu_runtime.Benchmark.Samples.Median.{IsMedian, median-IsMedian}
use gpt2_cpu_runtime.Prelude.{
  ◌==◌, Bool-cases, ok, Returns, step, max_size, ◌≤◌, length, ℕ, ◌%◌, ◌≡◌, refl, ap, ◌∙◌, inl, inr,
  true, false, Option, some, List, [], ◌∷◌, ◌++◌, arith,
}

-- Both programs take the same median.
median_lem : {D : Type 0} ⦃dl : Float D⦄ (values : List D) → median values ≡ sample_median values
unfolding median sample_median
median_lem values = elim (Bool-cases (length (sort values) % 2 == 0)) [
  | inl even ↦ rw even
  | inr odd ↦ rw odd
]

-- A report on a case: the linear layer of its input, one sample for each repetition, and their
-- median.
pub record IsTimed {F D : Type 0} ⦃fl : Float F⦄ ⦃dl : Float D⦄ (settings : Settings)
    (item : LinearCase F) (r : CaseReport F D) : Type 0 where
  pub computed : IsComputed r.item
  pub same_case : SameCase item r.item
  pub count_lem : length r.samples ≡ settings.repetitions
  pub middle_lem : IsMedian r.samples r.middle

module _ {F : Type 0} ⦃fl : Float F⦄ {D : Type 0} ⦃dl : Float D⦄ where
  -- What the program reports on the cases of a model: each of them timed, in their order, and
  -- the estimate for a token from the medians.
  pub record IsReported (settings : Settings) (num_layers : ℕ) (w : ModelWeights F)
      (loaded : IsLoaded w) (out : Reported F D) : Type 0 where
    pub items : List (LinearCase F)
    pub has_cases : HasCases w loaded items
    pub qkv : CaseReport F D
    pub attention_projection : CaseReport F D
    pub fc : CaseReport F D
    pub fc_projection : CaseReport F D
    pub vocabulary : CaseReport F D
    pub cases_lem : out.cases ≡ qkv ∷ attention_projection ∷ fc ∷ fc_projection ∷ vocabulary ∷ []
    pub qkv_lem : IsTimed settings has_cases.qkv qkv
    pub attention_projection_lem :
        IsTimed settings has_cases.attention_projection attention_projection
    pub fc_lem : IsTimed settings has_cases.fc fc
    pub fc_projection_lem : IsTimed settings has_cases.fc_projection fc_projection
    pub vocabulary_lem : IsTimed settings has_cases.vocabulary vocabulary
    pub estimate_lem :
        out.estimated_linear_per_token
        ≡ some (
            dl.of_size num_layers
              *f (dl.nought +f qkv.middle +f attention_projection.middle +f fc.middle
                  +f fc_projection.middle)
            +f vocabulary.middle)

module _ {F : Type 0} ⦃fl : Float F⦄ {D : Type 0} ⦃dl : Float D⦄ (elapsed : ℕ → D)
    (executor : Option ℕ) (is_executor : IsExecutor executor) (settings : Settings)
    (positive : IsPositive settings) (repetitions_le : settings.repetitions ≤ max_size)
    (asymmetric : (a b : D) → dl.lt a b ≡ true → dl.lt b a ≡ false) (num_layers : ℕ) where
  report_case-Returns :
      (item : LinearCase F) (st : Reported F D)
      → IsCase item
      → Returns (report_case elapsed executor settings num_layers item st) λ st'.
        (r : CaseReport F D) × (readings : ℕ) × IsTimed settings item r
        × (st' ≡ add_report num_layers st readings r)
  unfolding report_case
  report_case-Returns item st is_case =
      let (m, e1, ((computed, same), count)) =
        measure-Returns (λ k. elapsed k /f dl.of_size settings.inner) no_setup
          (run_calls executor settings.inner) (λ it. IsCase it × SameCase item it)
          (λ it. IsCase it × SameCase item it) (λ it. IsComputed it × SameCase item it)
          settings.warmup settings.repetitions item st.readings (λ it p. (it, refl, p))
          (λ it p.
            run_calls-Returns executor settings.inner item it is_executor positive.inner_pos p)
          (λ it (computed, same). (computed.case_lem, same))
          (is_case, record { output = item.output; same = refl }) positive.repetitions_pos
          repetitions_le in
      let (middle, e2, in_the_middle) =
        median-IsMedian asymmetric m.milliseconds
          (omega (arith, count, positive.repetitions_pos)) in
      let e2' : median m.milliseconds ≡ ok middle = median_lem m.milliseconds ∙ e2 in
      let r : CaseReport F D = record {
        item = m.subject;
        samples = m.milliseconds;
        middle = middle;
      } in
      (
        add_report num_layers st m.readings r,
        step _ e1 (step _ e2' refl),
        (
          r,
          m.readings,
          record {
            computed = computed;
            same_case = same;
            count_lem = count;
            middle_lem = in_the_middle;
          },
          refl,
        ),
      )

  add_report-layer :
      (st : Reported F D) (readings : ℕ) (r : CaseReport F D)
      → str_eq r.item.name "vocabulary" ≡ false
      → add_report num_layers st readings r ≡ record {
        cases = st.cases ++ (r ∷ []);
        readings = readings;
        layer_total = st.layer_total +f r.middle;
        estimated_linear_per_token = st.estimated_linear_per_token;
      }
  unfolding add_report
  add_report-layer st readings r h = rw h

  add_report-vocabulary :
      (st : Reported F D) (readings : ℕ) (r : CaseReport F D)
      → str_eq r.item.name "vocabulary" ≡ true
      → add_report num_layers st readings r ≡ record {
        cases = st.cases ++ (r ∷ []);
        readings = readings;
        layer_total = st.layer_total;
        estimated_linear_per_token = some (dl.of_size num_layers *f st.layer_total +f r.middle);
      }
  unfolding add_report
  add_report-vocabulary st readings r h = rw h

  -- A case whose name is that of a layer is added to the sum.
  layer_case-Returns :
      (item : LinearCase F) (st : Reported F D)
      → str_eq item.name "vocabulary" ≡ false
      → IsCase item
      → Returns (report_case elapsed executor settings num_layers item st) λ st'.
        (r : CaseReport F D) × IsTimed settings item r
        × (st'.cases ≡ st.cases ++ (r ∷ []))
        × (st'.layer_total ≡ st.layer_total +f r.middle)
  layer_case-Returns item st other is_case =
      let (st', e, (r, readings, timed, after)) = report_case-Returns item st is_case in
      let named : str_eq r.item.name "vocabulary" ≡ false =
        ap (λ (it : LinearCase F). str_eq it.name "vocabulary") timed.same_case.same ∙ other in
      let added = after ∙ add_report-layer st readings r named in
      (
        st',
        e,
        (
          r,
          timed,
          ap (λ (s : Reported F D). s.cases) added,
          ap (λ (s : Reported F D). s.layer_total) added,
        ),
      )

  pub report_cases-Returns :
      (w : ModelWeights F) (loaded : IsLoaded w) (items : List (LinearCase F))
      → HasCases w loaded items
      → Returns
          (report_cases elapsed executor settings num_layers items no_report)
          (IsReported settings num_layers w loaded)
  unfolding report_cases
  report_cases-Returns w loaded items has =
      let m1 = has.qkv_lem.made in
      let m2 = has.attention_projection_lem.made in
      let m3 = has.fc_lem.made in
      let m4 = has.fc_projection_lem.made in
      let m5 = has.vocabulary_lem in
      let test = λ (n : String). str_eq n "vocabulary" in
      let (s1, e1, (r1, t1, c1, l1)) =
        layer_case-Returns has.qkv no_report (ap test m1.name_lem) m1.is_case in
      let (s2, e2, (r2, t2, c2, l2)) =
        layer_case-Returns has.attention_projection s1 (ap test m2.name_lem) m2.is_case in
      let (s3, e3, (r3, t3, c3, l3)) =
        layer_case-Returns has.fc s2 (ap test m3.name_lem) m3.is_case in
      let (s4, e4, (r4, t4, c4, l4)) =
        layer_case-Returns has.fc_projection s3 (ap test m4.name_lem) m4.is_case in
      let (s5, e5, (r5, readings, t5, after)) = report_case-Returns has.vocabulary s4 m5.is_case in
      let named : str_eq r5.item.name "vocabulary" ≡ true =
        ap (λ (it : LinearCase F). test it.name) t5.same_case.same ∙ ap test m5.name_lem in
      let added = after ∙ add_report-vocabulary s4 readings r5 named in
      (
        s5,
        rw has.cases_lem (step _ e1 (step _ e2 (step _ e3 (step _ e4 (step _ e5 refl))))),
        record {
          items = items;
          has_cases = has;
          qkv = r1;
          attention_projection = r2;
          fc = r3;
          fc_projection = r4;
          vocabulary = r5;
          cases_lem = ap (λ (s : Reported F D). s.cases) added ∙ rw (c4, c3, c2, c1);
          qkv_lem = t1;
          attention_projection_lem = t2;
          fc_lem = t3;
          fc_projection_lem = t4;
          vocabulary_lem = t5;
          estimate_lem =
              ap (λ (s : Reported F D). s.estimated_linear_per_token) added ∙ rw (l4, l3, l2, l1);
        },
      )
