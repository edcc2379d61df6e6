-- ===== src/Session/State/Stages.antt =====
-- The steps of a layer of `consume_token` on its one row: linear layers, parts, and attention.
use native.Mathlib.Decide.{dec_lt}
use gpt2_cpu_runtime.Prelude.{
  size_mod, le-mul_of_pos, ok, Returns, length, take, drop, ℕ, suc, ◌+◌, ◌*◌, ◌≤◌, ◌<◌, ◌≡◌, refl,
  sym, ap, ◌∙◌, ◌⊎◌, Option, none, some, List, [], arith,
}
use gpt2_cpu_runtime.Float.{Float}
use gpt2_cpu_runtime.Buffer.{subspan, subspan_lem, length-subspan, at, at-subspan}
use gpt2_cpu_runtime.Reference.{linear_row}
use gpt2_cpu_runtime.Kernels.Linear.{linear}
use gpt2_cpu_runtime.Kernels.Linear.Rows.{IsLinearCall}
use gpt2_cpu_runtime.Kernels.Attention.{cached_self_attention}
use gpt2_cpu_runtime.Kernels.Stages.{IsMatrix, linear_stage}
use gpt2_cpu_runtime.Kernels.Stages.Heads.{attention_row, cached_stage}
use gpt2_cpu_runtime.Executor.Work.{executor_linear-scalar}
use gpt2_cpu_runtime.Model.Tensor.{ModelWeights}
use gpt2_cpu_runtime.Model.Tensor.Lookup.{IsLoaded}
use gpt2_cpu_runtime.Model.Block.{projections}
use gpt2_cpu_runtime.Session.Cache.{KvCache}
use gpt2_cpu_runtime.Session.Cache.Entries.{layer_part, length-layer_part, at-layer_part}
use gpt2_cpu_runtime.Session.State.{run_linear}
use gpt2_cpu_runtime.Session.State.Filled.{CachedAt, IsFilled}
use gpt2_cpu_runtime.Session.Cache.Slots.{IsCache, slot}

-- No executor, or one with at least one thread.
abbrev pub IsExecutor : Option ℕ → Type 0
IsExecutor none = Unit
IsExecutor (some threads) = 0 < threads

module _ {F : Type 0} ⦃fl : Float F⦄ where
  run_linear_lem :
      (executor : Option ℕ) (output input weight bias : List F) (inputs outputs : ℕ)
      → IsExecutor executor
      → IsLinearCall output input weight bias 1 inputs outputs
      → run_linear executor output input weight bias inputs outputs
        ≡ linear output input weight bias 1 inputs outputs
  unfolding run_linear
  run_linear_lem none output input weight bias inputs outputs h call = refl
  run_linear_lem (some threads) output input weight bias inputs outputs h call =
      executor_linear-scalar threads output input weight bias inputs outputs h call

  -- A linear layer on the one row of a session, with or without an executor.
  pub run_stage :
      (executor : Option ℕ) (output input weight bias : List F) (inputs outputs : ℕ) (x : ℕ → ℕ → F)
      → IsExecutor executor
      → 1 * inputs < size_mod
      → 1 * outputs < size_mod
      → outputs * inputs < size_mod
      → length output ≡ 1 * outputs
      → length weight ≡ outputs * inputs
      → (bias ≡ []) ⊎ (length bias ≡ outputs)
      → IsMatrix 1 inputs x input
      → Returns
          (run_linear executor output input weight bias inputs outputs)
          (IsMatrix 1 outputs λ r. linear_row weight bias inputs (x r))
  run_stage executor output input weight bias inputs outputs x h fi fo fw eo ew eb m =
      let (call, (out, e, p)) =
        linear_stage output input weight bias 1 inputs outputs x fi fo fw eo ew eb m in
      (out, run_linear_lem executor output input weight bias inputs outputs h call ∙ e, p)

  -- A part of a row of queries, keys and values.
  pub part_lem :
      (q : List F) (x : ℕ → F) (c first : ℕ)
      → IsMatrix 1 (3 * c) (λ _. x) q
      → first + c ≤ 3 * c
      → (subspan q first c ≡ ok (take c (drop first q)))
        × (length (take c (drop first q)) ≡ c)
        × ((i : ℕ) → i < c → at (take c (drop first q)) i ≡ x (first + i))
  part_lem q x c first m h = (
    subspan_lem q first c (omega (arith, m.size_lem)),
    length-subspan q first c (omega (arith, m.size_lem)),
    λ i l.
        let z : 0 * (3 * c) + (first + i) ≡ first + i = omega arith in
        at-subspan q first c i l ∙ rw z at (m.entry_lem 0 (first + i) (omega arith) (omega arith)),
  )

  module _ (w : ModelWeights F) (loaded : IsLoaded w) (tokens : ℕ → ℕ) where
    open w.config use {channels as c, num_heads as heads}

    -- The attention of a layer over a cache that holds the layer up to the position.
    pub attention_step :
        (cache : KvCache F) (is_cache : IsCache cache) (layer t : ℕ) (output query scratch : List F)
        → cache.channels ≡ c
        → layer < cache.num_layers
        → layer < w.config.num_layers
        → t < cache.capacity
        → length output ≡ c
        → length query ≡ c
        → length scratch ≡ cache.capacity
        → ((i : ℕ) → i < c → at query i ≡ projections w tokens layer t (0 + i))
        → IsFilled w tokens t (suc layer) cache
        → Returns
            (cached_self_attention output query
              (layer_part cache layer cache.keys)
              (layer_part cache layer cache.values)
              scratch
              (t + 1)
              cache.capacity
              c
              heads)
            λ b.
              IsMatrix 1 c (λ _. attention_row c heads (projections w tokens layer) t) b.output
              × (length b.scratch ≡ cache.capacity)
    attention_step cache is_cache layer t output query scratch ec hl hw ht eo eq es hq filled =
        let v = loaded.is_valid in
        let area = ap (λ (n : ℕ). cache.capacity * n) ec in
        let ks_size =
          length-layer_part cache is_cache layer hl cache.keys is_cache.keys_size ∙ area in
        let vs_size =
          length-layer_part cache is_cache layer hl cache.values is_cache.values_size ∙ area in
        let held : (s : ℕ) → s < t + 1 → CachedAt w tokens cache layer s = λ s hs.
          elim (dec_lt s t) [
            | yes before ↦ filled.earlier layer s hw before
            | no now ↦ let e : s ≡ t = omega arith in rw e (filled.current layer (omega arith))
          ] in
        let here : (xs : List F) (s i : ℕ)
            → s < t + 1
            → i < c
            → at (layer_part cache layer xs) (s * c + i) ≡ at xs (slot cache layer s + i) =
          λ xs s i hs hi.
            let z : s * c + i ≡ s * cache.channels + i = ap (λ (n : ℕ). s * n + i) (sym ec) in
            rw z (at-layer_part cache is_cache layer hl xs s i (omega arith) (omega arith)) in
        let fits : cache.capacity * c < size_mod = omega (
          arith,
          area,
          le-mul_of_pos cache.layer_float_count cache.num_layers is_cache.layers_pos,
        ) in
        let (b, e, (size, kept, entry)) =
          cached_stage c heads (projections w tokens layer) v.channels_pos v.num_heads_pos v.divides
            output query (layer_part cache layer cache.keys) (layer_part cache layer cache.values)
            scratch t cache.capacity ht fits eo eq ks_size vs_size es
            (λ i hi. let z : 0 + i ≡ i = omega arith in rw z at (hq i hi))
            (λ s i hs hi. here cache.keys s i hs hi ∙ (held s hs i hi).0)
            (λ s i hs hi. here cache.values s i hs hi ∙ (held s hs i hi).1) in
        (
          b,
          e,
          (
            record {
              size_lem = omega (arith, size);
              entry_lem = λ r o hr ho.
                  let first : r ≡ 0 = omega arith in
                  let z : r * c + o ≡ o = rw first (omega arith) in rw z (entry o ho);
            },
            kept,
          ),
        )
