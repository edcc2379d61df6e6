-- ===== src/Executor.antt =====
-- `LinearExecutor` (src/linear_executor.cpp): the partition of the output channels, one shard's
-- work, and the checks and the choice of path of `linear`.
pub mod Partition
pub mod Shards
pub mod Work
pub mod Sharing
pub mod Protocol
use gpt2_cpu_runtime.Splice.{splice}
use Prim.Native.Nat.{min}
use gpt2_cpu_runtime.Prelude.{
  ltb, ◌==◌, if◌then◌else◌, size_max, wadd, wmul, Error, Result, ok, ◌>>=◌, ◌>>◌, guard, reserve,
  ◌-◌, for_range, length, is_empty, ℕ, ◌/◌, ◌%◌, min, Bool, not, ◌&&◌, ◌||◌, List, [],
}
use gpt2_cpu_runtime.Float.{Float}
use gpt2_cpu_runtime.Buffer.{subspan, at}
use gpt2_cpu_runtime.Kernels.Linear.{linear}

abbrev pub min_weight_floats_per_thread : ℕ
min_weight_floats_per_thread = 65536

-- The constructor refuses zero threads, and reserves the places of its workers.
unfoldable pub make_executor : ℕ → Result ℕ
make_executor total_threads = do
  guard (not (total_threads == 0))
      (Error.invalid_argument "linear executor requires at least one total thread")
  reserve (total_threads - 1)
  ok total_threads

-- first = shard * block + std::min(shard, remainder)
unfoldable pub shard_first : ℕ → ℕ → ℕ → ℕ
shard_first threads outputs shard =
    wadd (wmul shard (outputs / threads)) (min shard (outputs % threads))

-- count = block + (shard < remainder ? 1 : 0)
unfoldable pub shard_count : ℕ → ℕ → ℕ → ℕ
shard_count threads outputs shard =
    wadd (outputs / threads) (if ltb shard (outputs % threads) then 1 else 0)

pub record Job (F : Type 0) : Type 0 where
  pub input : List F
  pub weight : List F
  pub bias : List F
  pub input_channels : ℕ
  pub output_channels : ℕ

-- One thread, too few outputs or too little work: the scalar kernel.
pub runs_scalar : ℕ → ℕ → ℕ → Bool
runs_scalar threads outputs weights =
    threads == 1 || (ltb outputs threads || ltb (weights / threads) min_weight_floats_per_thread)

module _ {F : Type 0} ⦃fl : Float F⦄ where
  -- The kernel call of `run_shard` on the channels `first .. first + count`.
  pub shard_work : Job F → ℕ → ℕ → List F → Result (List F)
  shard_work job first count output = do
    bias ← if is_empty job.bias then ok [] else subspan job.bias first count
    part ← subspan output first count
    weight ← subspan job.weight (wmul first job.input_channels) (wmul count job.input_channels)
    part' ← linear part job.input weight bias 1 job.input_channels count
    ok (splice output first part')

  -- `run_shard`: the output is shared with the other shards, the rest of the job is constant.
  unfoldable pub run_shard : ℕ → Job F → ℕ → List F → Result (List F)
  unfolding shard_work
  run_shard threads job shard output =
      let first = shard_first threads job.output_channels shard in
      let count = shard_count threads job.output_channels shard in
      if count == 0 then ok output else shard_work job first count output

  -- The sizes that `linear` checks before it takes the submission lock.
  pub sizes_match : (output input weight bias : List F) (inputs outputs : ℕ) → Bool
  sizes_match output input weight bias inputs outputs =
      length output == outputs
      && (length input == inputs
          && (length weight == wmul inputs outputs && (is_empty bias || length bias == outputs)))

  -- `LinearExecutor::linear`, with the shards run one after the other.
  unfoldable pub executor_linear :
      ℕ → (output input weight bias : List F) (inputs outputs : ℕ) → Result (List F)
  unfolding sizes_match runs_scalar
  executor_linear threads output input weight bias inputs outputs = do
    guard (not (not (inputs == 0) && ltb (size_max / inputs) outputs))
        (Error.overflow_error "linear executor weight size overflow")
    guard (sizes_match output input weight bias inputs outputs)
        (Error.invalid_argument "linear executor tensor size mismatch")
    let job : Job F = record {
      input = input;
      weight = weight;
      bias = bias;
      input_channels = inputs;
      output_channels = outputs;
    }
    if runs_scalar threads outputs (length weight)
        then linear output input weight bias 1 inputs outputs
        else for_range threads 0 (run_shard threads job) output
