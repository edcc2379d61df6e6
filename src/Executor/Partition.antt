-- ===== src/Executor/Partition.antt =====
-- The shards of `run_shard` partition the output channels.
use Prim.Native.Nat.{min}
use native.Mathlib.Nat.{div-add-mod, mod-lt, mul-le-mul, le_refl}
use gpt2_cpu_runtime.Prelude.{
  ltb, if◌then◌else◌, size_mod, wadd_lem, wmul_lem, ℕ, suc, ◌+◌, ◌*◌, ◌/◌, ◌%◌, ◌≤◌, ◌<◌, min, ◌≡◌,
  ◌∙◌, arith,
}
use gpt2_cpu_runtime.Executor.{shard_first, shard_count}

-- The exact first channel and channel count of a shard.
abbrev pub first_of : ℕ → ℕ → ℕ → ℕ
first_of threads outputs shard = shard * (outputs / threads) + min shard (outputs % threads)

abbrev pub count_of : ℕ → ℕ → ℕ → ℕ
count_of threads outputs shard =
    outputs / threads + (if ltb shard (outputs % threads) then 1 else 0)

module _ (threads outputs : ℕ) where
  pub first_of-suc :
      (shard : ℕ)
      → first_of threads outputs (suc shard)
        ≡ first_of threads outputs shard + count_of threads outputs shard
  first_of-suc shard = ground arith

  module _ (threads_pos : 0 < threads) where
    abbrev block_lem : threads * (outputs / threads) + outputs % threads ≡ outputs
    block_lem = div-add-mod outputs threads

    pub first_of-threads : first_of threads outputs threads ≡ outputs
    first_of-threads = omega (arith, block_lem, mod-lt outputs {m = threads} threads_pos)

    pub first_of-le : (shard : ℕ) → shard ≤ threads → first_of threads outputs shard ≤ outputs
    first_of-le shard h = omega (arith, block_lem, mul-le-mul h (le_refl (outputs / threads)))

    module _ (outputs_fit : outputs < size_mod) where
      pub shard_first_lem :
          (shard : ℕ)
          → shard ≤ threads
          → shard_first threads outputs shard ≡ first_of threads outputs shard
      unfolding shard_first
      shard_first_lem shard h =
          let bound = first_of-le shard h in
          rw (wmul_lem shard (outputs / threads) (omega arith))
            (wadd_lem (shard * (outputs / threads)) (min shard (outputs % threads)) (omega arith))

      pub shard_count_lem :
          (shard : ℕ)
          → shard < threads
          → shard_count threads outputs shard ≡ count_of threads outputs shard
      unfolding shard_count
      shard_count_lem shard h =
          wadd_lem (outputs / threads) (if ltb shard (outputs % threads) then 1 else 0)
            (omega (arith, first_of-le (suc shard) h, first_of-suc shard))

      -- For any number of threads the shards are consecutive ranges that start at channel 0 and
      -- end at the last output channel, and each holds the quotient or one channel more. No
      -- computation of a range wraps around.
      pub shards-partition :
          (shard_first threads outputs 0 ≡ 0)
          × (shard_first threads outputs threads ≡ outputs)
          × ((shard : ℕ)
              → shard < threads
              → (shard_first threads outputs (suc shard)
                  ≡ shard_first threads outputs shard + shard_count threads outputs shard)
                × (outputs / threads ≤ shard_count threads outputs shard)
                × (shard_count threads outputs shard ≤ outputs / threads + 1))
      shards-partition = (
        shard_first_lem 0 (omega arith) ∙ omega arith,
        shard_first_lem threads (omega arith) ∙ first_of-threads,
        λ shard h.
            rw
              (
                shard_first_lem (suc shard) h,
                shard_first_lem shard (omega arith),
                shard_count_lem shard h,
              )
              (first_of-suc shard, ground arith, ground arith),
      )
