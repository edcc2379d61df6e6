-- ===== src/Executor/Sharing.antt =====
-- The shards of a job, in order, fill the output with its linear layer.
use native.Mathlib.Decide.{dec_lt}
use native.Mathlib.Nat.{mul-le-mul, le_refl}
use gpt2_cpu_runtime.Splice.{splice, splice-IsUpdated}
use gpt2_cpu_runtime.Executor.Partition.{
  first_of, count_of, first_of-suc, first_of-threads, first_of-le, shard_first_lem, shard_count_lem,
}
use gpt2_cpu_runtime.Prelude.{
  ◌==◌, Bool-cases, wmul_lem, row_end, Returns, for_range, for_range-Returns, length, take, drop, ℕ,
  suc, ◌+◌, ◌-◌, ◌*◌, ◌≤◌, ◌<◌, ◌≡◌, refl, ◌∙◌, inl, inr, true, List, arith,
}
use gpt2_cpu_runtime.Float.{Float}
use gpt2_cpu_runtime.Buffer.{subspan_lem, length-subspan, at, at-subspan}
use gpt2_cpu_runtime.Update.{IsUpdated, IsUpdated-congr}
use gpt2_cpu_runtime.Reference.{acc_range-congr, linear_row}
use gpt2_cpu_runtime.Kernels.Linear.Rows.{linear-Returns}
use gpt2_cpu_runtime.Executor.{Job, shard_work, run_shard}
use gpt2_cpu_runtime.Executor.Shards.{
  IsJob, channel, bias_part, bias_part_lem, bias_part_size, bias_at-bias_part,
}

module _ {F : Type 0} ⦃fl : Float F⦄ where
  module _ (job : Job F) (is_job : IsJob job) where
    open job use {input_channels as inputs, output_channels as outputs}

    abbrev slice : ℕ → ℕ → List F
    slice first count = take (count * inputs) (drop (first * inputs) job.weight)

    -- A row of the weights of a shard is a row of the weights of the job.
    row_of_slice :
        (first count o : ℕ)
        → first + count ≤ outputs
        → o < count
        → linear_row
            (slice first count)
            (bias_part job job.bias first count)
            inputs
            (λ i. at job.input (0 * inputs + i))
            o
          ≡ channel job (first + o)
    unfolding linear_row
    row_of_slice first count o h l =
        rw (bias_at-bias_part job job.bias first count o is_job.bias_size h l) (
          acc_range-congr inputs _ _ _ λ i m.
            let z : 0 * inputs + i ≡ i = omega arith in
            let e : first * inputs + (o * inputs + i) ≡ (first + o) * inputs + i = omega arith in
            rw (
              z,
              at-subspan job.weight (first * inputs) (count * inputs) (o * inputs + i)
                  (row_end o count i inputs l m),
              e,
            ))

    slice_le :
        (first count : ℕ)
        → first + count ≤ outputs
        → first * inputs + count * inputs ≤ outputs * inputs
    slice_le first count h = omega (arith, mul-le-mul h (le_refl inputs))

    -- The work of a shard fills its own channels and leaves the others as they are.
    pub shard_work-Returns :
        (first count : ℕ) (output : List F)
        → first + count ≤ outputs
        → length output ≡ outputs
        → Returns
            (shard_work job first count output)
            (IsUpdated first count (λ o. channel job (first + o)) output)
    unfolding shard_work
    shard_work-Returns first count output h e =
        let span = slice_le first count h in
        let part = take count (drop first output) in
        let part_size = length-subspan output first count (omega arith) in
        let weight_size =
          length-subspan job.weight (first * inputs) (count * inputs)
            (omega (arith, is_job.weight_size)) in
        let (out, e1, filled) =
          linear-Returns part job.input (slice first count) (bias_part job job.bias first count) 1
            inputs count
            (record {
              output_size = omega arith;
              input_size = omega (arith, is_job.input_size);
              weight_size = weight_size;
              bias_size = bias_part_size job job.bias first count is_job.bias_size h;
              output_fits = omega (arith, is_job.outputs_fit);
              input_fits = is_job.input_fits;
              weight_fits = omega (arith, is_job.weight_fits, is_job.weight_size);
            }) in
        let one : 0 * count ≡ 0 = omega arith in
        (
          splice output first out,
          rw (
            bias_part_lem job job.bias first count is_job.bias_size h,
            subspan_lem output first count (omega arith),
            wmul_lem first inputs (omega (arith, is_job.weight_fits, is_job.weight_size)),
            wmul_lem count inputs (omega (arith, is_job.weight_fits, is_job.weight_size)),
            subspan_lem job.weight (first * inputs) (count * inputs)
                (omega (arith, is_job.weight_size)),
            e1,
          ),
          IsUpdated-congr
              (λ o l.
                let z : 0 * count + o ≡ o = omega arith in
                rw z at (filled.1.entries 0 o (omega arith) l) ∙ row_of_slice first count o h l)
              (splice-IsUpdated output out first count (omega arith) (omega arith)),
        )

    unchanged :
        (first count : ℕ) (output : List F)
        → (count == 0) ≡ true
        → IsUpdated first count (λ o. channel job (first + o)) output output
    unchanged first count output e =
        let none_left : count ≡ 0 = ground arith in
        record {
          size_kept = refl;
          changed = λ i h. absurd (omega arith);
          below = λ j h. refl;
          above = λ j h. refl;
        }

    module _ (threads : ℕ) (threads_pos : 0 < threads) where
      -- A shard, also one without a channel, fills its own range.
      pub run_shard-Returns :
          (shard : ℕ) (output : List F)
          → shard < threads
          → length output ≡ outputs
          → Returns (run_shard threads job shard output) (
              IsUpdated
                (first_of threads outputs shard)
                (count_of threads outputs shard)
                (λ o. channel job (first_of threads outputs shard + o))
                output)
      unfolding run_shard
      run_shard-Returns shard output h e =
          let first = first_of threads outputs shard in
          let count = count_of threads outputs shard in
          let inside : first + count ≤ outputs = omega (
            arith,
            first_of-suc threads outputs shard,
            first_of-le threads outputs threads_pos (suc shard) h,
          ) in
          rw
            (
              shard_first_lem threads outputs threads_pos is_job.outputs_fit shard (omega arith),
              shard_count_lem threads outputs threads_pos is_job.outputs_fit shard h,
            )
            (elim (Bool-cases (count == 0)) [
              | inl none_left ↦ rw none_left (output, refl, unchanged first count output none_left)
              | inr some_left ↦ rw some_left (shard_work-Returns first count output inside e)
            ])

      -- The channels before `n` are computed.
      record IsComputed (n : ℕ) (output : List F) : Type 0 where
        size_kept : length output ≡ outputs
        computed : (o : ℕ) → o < n → at output o ≡ channel job o

      IsComputed-next :
          (first count : ℕ) (old new : List F)
          → IsComputed first old
          → IsUpdated first count (λ o. channel job (first + o)) old new
          → IsComputed (first + count) new
      IsComputed-next first count old new c u = record {
        size_kept = u.size_kept ∙ c.size_kept;
        computed = λ o h. elim (dec_lt o first) [
          | yes lower ↦ u.below o lower ∙ c.computed o lower
          | no upper ↦
              let e : first + (o - first) ≡ o = omega arith in
              rw e at (u.changed (o - first) (omega arith))
        ];
      }

      pub shards-Returns :
          (output : List F)
          → length output ≡ outputs
          → Returns
              (for_range threads 0 (run_shard threads job) output)
              λ out. (length out ≡ outputs) × ((o : ℕ) → o < outputs → at out o ≡ channel job o)
      shards-Returns output e =
          let (out, e1, c) =
            for_range-Returns (λ k b. IsComputed (first_of threads outputs k) b)
              (run_shard threads job) threads output
              (λ k b h c.
                let (b', e2, u) = run_shard-Returns k b h c.size_kept in
                (b', e2, rw (first_of-suc threads outputs k) (IsComputed-next _ _ b b' c u)))
              (record { size_kept = e; computed = λ o h. absurd (omega arith) }) in
          (
            out,
            e1,
            (
              c.size_kept,
              λ o h. c.computed o (omega (arith, first_of-threads threads outputs threads_pos)),
            ),
          )
