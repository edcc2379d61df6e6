-- ===== src/Examples/Executor.antt =====
-- Runs of the linear executor.
use gpt2_cpu_runtime.Buffer.{require_size, subspan, read, write}
use gpt2_cpu_runtime.Splice.{splice}
use gpt2_cpu_runtime.Examples.Numbers.{numbers}
use gpt2_cpu_runtime.Prelude.{
  wadd, wmul, ok, for_range, ℕ, suc, ◌+◌, ◌≤◌, ◌<◌, ◌≡◌, refl, inl, [], ◌∷◌, arith,
}
use gpt2_cpu_runtime.Kernels.Linear.{linear}
use gpt2_cpu_runtime.Executor.{shard_first, shard_count, Job, run_shard, executor_linear}
use gpt2_cpu_runtime.Executor.Partition.{shards-partition}
use gpt2_cpu_runtime.Executor.Work.{executor_linear-scalar}

-- Seven channels over three threads: ranges of three, two and two.
ranges :
    (shard_first 3 7 1 ≡ 3)
    × (shard_first 3 7 2 ≡ 5)
    × (shard_count 3 7 0 ≡ 3)
    × (shard_count 3 7 2 ≡ 2)
unfolding shard_first shard_count wadd wmul
ranges = (refl, refl, refl, refl)

abbrev three : Job ℕ
three = record {
  input = 1 ∷ 2 ∷ [];
  weight = 1 ∷ 0 ∷ 0 ∷ 1 ∷ 2 ∷ 3 ∷ [];
  bias = [];
  input_channels = 2;
  output_channels = 3;
}

shards_run : for_range 2 0 (run_shard 2 three) (0 ∷ 0 ∷ 0 ∷ []) ≡ ok (1 ∷ 2 ∷ 8 ∷ [])
unfolding for_range run_shard shard_first shard_count linear read write require_size wadd wmul
    subspan splice
shards_run = refl

shards-partition_example :
    (shard_first 3 7 0 ≡ 0)
    × (shard_first 3 7 3 ≡ 7)
    × ((shard : ℕ)
        → shard < 3
        → (shard_first 3 7 (suc shard) ≡ shard_first 3 7 shard + shard_count 3 7 shard)
          × (2 ≤ shard_count 3 7 shard)
          × (shard_count 3 7 shard ≤ 3))
shards-partition_example = shards-partition 3 7 (omega arith) (omega arith)

executor_linear-scalar_example :
    executor_linear {F = ℕ} 2 (0 ∷ 0 ∷ 0 ∷ []) (1 ∷ 2 ∷ []) (1 ∷ 0 ∷ 0 ∷ 1 ∷ 2 ∷ 3 ∷ []) [] 2 3
    ≡ linear (0 ∷ 0 ∷ 0 ∷ []) (1 ∷ 2 ∷ []) (1 ∷ 0 ∷ 0 ∷ 1 ∷ 2 ∷ 3 ∷ []) [] 1 2 3
executor_linear-scalar_example =
    executor_linear-scalar 2 (0 ∷ 0 ∷ 0 ∷ []) (1 ∷ 2 ∷ []) (1 ∷ 0 ∷ 0 ∷ 1 ∷ 2 ∷ 3 ∷ []) [] 2 3
      (omega arith)
      (record {
        output_size = refl;
        input_size = refl;
        weight_size = refl;
        bias_size = inl refl;
        output_fits = omega arith;
        input_fits = omega arith;
        weight_fits = omega arith;
      })
