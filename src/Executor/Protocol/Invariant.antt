-- ===== src/Executor/Protocol/Invariant.antt =====
-- What holds of the executor's state between steps.
pub mod Sums
use gpt2_cpu_runtime.Prelude.{
  ◌==◌, if◌then◌else◌, ◌>>=◌, ◌>>◌, length, ℕ, suc, ◌+◌, ◌<◌, ◌≡◌, Bool, true, false, none, List,
}
use gpt2_cpu_runtime.Float.{Float}
use gpt2_cpu_runtime.Buffer.{at}
use gpt2_cpu_runtime.Executor.{Job}
use gpt2_cpu_runtime.Executor.Partition.{first_of, count_of}
use gpt2_cpu_runtime.Executor.Shards.{IsJob, channel}
use gpt2_cpu_runtime.Executor.Protocol.{
  Worker, waiting, running, reporting, stopped, Submitter, idle, computing, awaiting, returned,
  State,
}
use gpt2_cpu_runtime.Executor.Protocol.Invariant.Sums.{sum}

-- A worker that has reported the shard of a generation counts one.
abbrev pub done : {F : Type 0} → ℕ → Worker F → ℕ
done generation (waiting observed) = if generation == observed then 1 else 0
done generation (running job observed) = 0
done generation (reporting error observed) = 0
done generation stopped = 0

-- A worker between calls has seen the last job, or has returned after shutdown.
abbrev pub IsResting : {F : Type 0} → ℕ → Bool → Worker F → Type 0
IsResting generation stopping (waiting observed) = observed ≡ generation
IsResting generation stopping (running job observed) = ⊥
IsResting generation stopping (reporting error observed) = ⊥
IsResting generation stopping stopped = stopping ≡ true

module _ {F : Type 0} ⦃fl : Float F⦄ where
  -- The whole linear layer of a job.
  abbrev pub IsLayer : Job F → List F → Type 0
  IsLayer job output =
      (length output ≡ job.output_channels)
      × ((o : ℕ) → o < job.output_channels → at output o ≡ channel job o)

module _ {F : Type 0} ⦃fl : Float F⦄ (n : ℕ) where
  -- A shard's channels are computed.
  abbrev pub IsWritten : Job F → List F → ℕ → Type 0
  IsWritten job output shard =
      (o : ℕ)
      → o < count_of (suc n) job.output_channels shard
      → at output (first_of (suc n) job.output_channels shard + o)
        ≡ channel job (first_of (suc n) job.output_channels shard + o)

  -- Worker `k` during a call: it has not seen the job, or works on this very job, or is done.
  abbrev pub IsWorking : Job F → ℕ → List F → ℕ → Worker F → Type 0
  IsWorking job generation output k (waiting observed) =
      (generation == observed) ≡ true → IsWritten job output (suc k)
  IsWorking job generation output k (running j observed) = (j ≡ job) × (observed ≡ generation)
  IsWorking job generation output k (reporting error observed) =
      (error ≡ none) × (observed ≡ generation) × IsWritten job output (suc k)
  IsWorking job generation output k stopped = ⊥

  -- A call of `linear` on `job` is under way; `first` is whether shard 0 is done.
  pub record IsCalling (job : Job F) (first : Bool) (s : State F) : Type 0 where
    pub is_job : IsJob job
    pub job_lem : s.job ≡ job
    pub size_lem : length s.output ≡ job.output_channels
    pub going : s.stopping ≡ false
    pub no_error : s.worker_error ≡ none
    pub counted : s.completed ≡ sum n λ k. done s.generation (s.workers k)
    pub working : (k : ℕ) → k < n → IsWorking job s.generation s.output k (s.workers k)
    pub first_lem : first ≡ true → IsWritten job s.output 0

  abbrev pub IsAtRest : State F → Type 0
  IsAtRest s = (k : ℕ) → k < n → IsResting s.generation s.stopping (s.workers k)

  abbrev pub IsInvariant : Submitter F → State F → Type 0
  IsInvariant idle s = IsAtRest s
  IsInvariant (computing job) s = IsCalling job false s
  IsInvariant (awaiting job error) s = (error ≡ none) × IsCalling job true s
  IsInvariant (returned job error) s = (error ≡ none) × IsLayer job s.output × IsAtRest s
