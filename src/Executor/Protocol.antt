-- ===== src/Executor/Protocol.antt =====
-- The threads of `LinearExecutor`: the submitting call, the workers and shutdown, as steps that are
-- interleaved in any order. A step is what one thread does under one lock of `state_mutex`, or one
-- shard's work, whose channels no other thread touches. Here a wait is a step that its condition
-- enables; Executor/Protocol/Signals has the same steps with the condition variables, where a blocked
-- thread waits for a notification.
pub mod Invariant
pub mod Moves
pub mod Safety
pub mod Calls
pub mod Variant
pub mod Signals
use gpt2_cpu_runtime.Prelude.{
  ◌==◌, if◌then◌else◌, wadd, Error, Result, err, ok, length, ℕ, suc, ◌<◌, ◌≡◌, Bool, true, false,
  Option, none, some, List, [],
}
use gpt2_cpu_runtime.Float.{Float}
use gpt2_cpu_runtime.Executor.{Job, run_shard}
use gpt2_cpu_runtime.Executor.Shards.{IsJob}

-- A thread of `worker_loop`, with its `observed_generation`: it waits for work, runs the shard of the
-- job that it has copied, or has run it, with the exception that came out; or it has returned.
pub data Worker (F : Type 0) : Type 0 where
  waiting : ℕ → Worker F
  running : Job F → ℕ → Worker F
  reporting : Option Error → ℕ → Worker F
  stopped : Worker F

-- The thread that holds `submit_mutex`, if any, with its `current` job and `caller_error`; and how the
-- last call has returned.
pub data Submitter (F : Type 0) : Type 0 where
  idle : Submitter F
  computing : Job F → Submitter F
  awaiting : Job F → Option Error → Submitter F
  returned : Job F → Option Error → Submitter F

-- What the mutex guards, the output that the job views, and the threads. Worker `k` has shard `k + 1`.
pub record State (F : Type 0) : Type 0 where
  pub job : Job F
  pub generation : ℕ
  pub completed : ℕ
  pub worker_error : Option Error
  pub stopping : Bool
  pub output : List F
  pub workers : ℕ → Worker F
  pub submitter : Submitter F

-- job_ = {}
abbrev pub empty_job : {F : Type 0} → Job F
empty_job = record { input = []; weight = []; bias = []; input_channels = 0; output_channels = 0 }

abbrev pub update {ℓ} : {A : Type ℓ} → (ℕ → A) → ℕ → A → ℕ → A
update f k a i = if i == k then a else f i

abbrev pub at_rest : {F : Type 0} → Submitter F → Bool
at_rest idle = true
at_rest (returned job error) = true
at_rest (computing job) = false
at_rest (awaiting job error) = false

-- The first of two exceptions is kept.
abbrev pub first_error : Option Error → Option Error → Option Error
first_error none e = e
first_error (some a) e = some a

abbrev pub init : {F : Type 0} → State F
init = record {
  job = empty_job;
  generation = 0;
  completed = 0;
  worker_error = none;
  stopping = false;
  output = [];
  workers = λ k. waiting 0;
  submitter = idle;
}

module _ {F : Type 0} where
  -- The critical section of `linear` that hands the job out.
  unfoldable pub submit : Job F → List F → State F → State F
  submit job output s = record s {
    job = job;
    completed = 0;
    worker_error = none;
    generation = wadd s.generation 1;
    output = output;
    submitter = computing job;
  }

  -- The critical section in which a woken worker copies the job.
  unfoldable pub fetch : ℕ → State F → State F
  fetch k s = record s { workers = update s.workers k (running s.job s.generation) }

  -- What a shard leaves: its output, or the exception that it threw.
  unfoldable pub worker_done : ℕ → ℕ → Result (List F) → State F → State F
  worker_done k observed (ok output) s = record s {
    output = output;
    workers = update s.workers k (reporting none observed);
  }
  worker_done k observed (err e) s = record s {
    workers = update s.workers k (reporting (some e) observed);
  }

  unfoldable pub caller_done : Job F → Result (List F) → State F → State F
  caller_done job (ok output) s = record s { output = output; submitter = awaiting job none }
  caller_done job (err e) s = record s { submitter = awaiting job (some e) }

  -- The critical section in which a worker records its exception and counts itself.
  unfoldable pub report : ℕ → Option Error → ℕ → State F → State F
  report k error observed s = record s {
    worker_error = first_error s.worker_error error;
    completed = wadd s.completed 1;
    workers = update s.workers k (waiting observed);
  }

  -- The critical section behind `work_done_`, and the exception that `linear` rethrows, if any.
  unfoldable pub finish : Job F → Option Error → State F → State F
  finish job caller_error s = record s {
    job = empty_job;
    submitter = returned job (first_error caller_error s.worker_error);
  }

  -- `stop_workers`, and a worker that returns.
  unfoldable pub stop : State F → State F
  stop s = record s { stopping = true }

  unfoldable pub leave : ℕ → State F → State F
  leave k s = record s { workers = update s.workers k stopped }

module _ {F : Type 0} ⦃fl : Float F⦄ (n : ℕ) where
  -- The steps of the `n` workers during a call.
  pub data WorkerStep (s : State F) : State F → Type 0 where
    wake :
        (k observed : ℕ)
        → k < n
        → s.workers k ≡ waiting observed
        → s.stopping ≡ false
        → (s.generation == observed) ≡ false
        → WorkerStep s (fetch k s)
    work :
        (k observed : ℕ) (job : Job F)
        → k < n
        → s.workers k ≡ running job observed
        → WorkerStep s (worker_done k observed (run_shard (suc n) job (suc k) s.output) s)
    count_in :
        (k observed : ℕ) (error : Option Error)
        → k < n
        → s.workers k ≡ reporting error observed
        → WorkerStep s (report k error observed s)

  -- The steps of a call after its submission.
  pub data CallStep (s : State F) : State F → Type 0 where
    helped_by : {t : State F} → WorkerStep s t → CallStep s t
    run_first :
        (job : Job F)
        → s.submitter ≡ computing job
        → CallStep s (caller_done job (run_shard (suc n) job 0 s.output) s)
    end :
        (job : Job F) (error : Option Error)
        → s.submitter ≡ awaiting job error
        → s.completed ≡ n
        → CallStep s (finish job error s)

  -- Every step: those of a call, a submission of a checked job, and those of shutdown. The destructor
  -- runs when no call does.
  pub data Step (s : State F) : State F → Type 0 where
    call : {t : State F} → CallStep s t → Step s t
    begin :
        (job : Job F) (output : List F)
        → at_rest s.submitter ≡ true
        → s.stopping ≡ false
        → IsJob job
        → length output ≡ job.output_channels
        → Step s (submit job output s)
    shut_down : at_rest s.submitter ≡ true → Step s (stop s)
    quit :
        (k observed : ℕ)
        → k < n
        → s.workers k ≡ waiting observed
        → s.stopping ≡ true
        → Step s (leave k s)

  pub data Reach : State F → Type 0 where
    start : Reach init
    later : {s t : State F} → Reach s → Step s t → Reach t
