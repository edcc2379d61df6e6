-- ===== src/Executor/Protocol/Signals.antt =====
-- The waits of `LinearExecutor` on its two condition variables: a thread that finds its condition
-- false blocks, and moves again only after a notification. The notifications come after the mutex is
-- released, as steps of their own.
pub mod Lost
pub mod Simulation
pub mod Potential
pub mod Progress
use gpt2_cpu_runtime.Prelude.{
  ◌==◌, Error, length, ℕ, suc, ◌<◌, ◌≡◌, Bool, true, false, Option, List,
}
use gpt2_cpu_runtime.Float.{Float}
use gpt2_cpu_runtime.Executor.{Job, run_shard}
use gpt2_cpu_runtime.Executor.Shards.{IsJob}
use gpt2_cpu_runtime.Executor.Protocol.{
  waiting, running, reporting, computing, awaiting, State, update, at_rest, init, submit, fetch,
  worker_done, caller_done, report, finish, stop, leave,
}

-- The state that the mutex guards, which workers are blocked on `work_ready_`, whether the caller is
-- blocked on `work_done_`, and who still has to notify: the thread that has handed a job out or has
-- set `stopping_`, and each worker that has counted itself.
pub record Threads (F : Type 0) : Type 0 where
  pub state : State F
  pub asleep : ℕ → Bool
  pub caller_asleep : Bool
  pub announcing : Bool
  pub signalling : ℕ → Bool

module _ {F : Type 0} where
  abbrev pub all_awake : Threads F
  all_awake = record {
    state = init;
    asleep = λ k. false;
    caller_asleep = false;
    announcing = false;
    signalling = λ k. false;
  }

  -- A job is handed out; `work_ready_.notify_all()` follows.
  abbrev pub hand_out : Job F → List F → Threads F → Threads F
  hand_out job output s = record s { state = submit job output s.state; announcing = true }

  -- work_ready_.notify_all()
  abbrev pub announce : Threads F → Threads F
  announce s = record s { asleep = λ k. false; announcing = false }

  -- A worker counts itself; `work_done_.notify_one()` follows.
  abbrev pub count_itself : ℕ → Option Error → ℕ → Threads F → Threads F
  count_itself k error observed s = record s {
    state = report k error observed s.state;
    signalling = update s.signalling k true;
  }

  -- work_done_.notify_one(): nobody but the caller that holds `submit_mutex` waits on it.
  abbrev pub signal : ℕ → Threads F → Threads F
  signal k s = record s { signalling = update s.signalling k false; caller_asleep = false }

  -- The two waits, when the condition is false.
  abbrev pub block : ℕ → Threads F → Threads F
  block k s = record s { asleep = update s.asleep k true }

  abbrev pub block_caller : Threads F → Threads F
  block_caller s = record s { caller_asleep = true }

  -- stop_workers, up to the joins.
  abbrev pub shut_workers : Threads F → Threads F
  shut_workers s = record s { state = stop s.state; announcing = true }

module _ {F : Type 0} ⦃fl : Float F⦄ (n : ℕ) where
  -- What the threads do while no call begins and nothing is shut down.
  pub data ThreadStep (s : Threads F) : Threads F → Type 0 where
    wakes :
        (k observed : ℕ)
        → k < n
        → s.state.workers k ≡ waiting observed
        → s.state.stopping ≡ false
        → (s.state.generation == observed) ≡ false
        → s.asleep k ≡ false
        → s.signalling k ≡ false
        → ThreadStep s (record s { state = fetch k s.state })
    works :
        (k observed : ℕ) (job : Job F)
        → k < n
        → s.state.workers k ≡ running job observed
        → ThreadStep s (record s {
          state = worker_done k observed (run_shard (suc n) job (suc k) s.state.output) s.state;
        })
    counts_in :
        (k observed : ℕ) (error : Option Error)
        → k < n
        → s.state.workers k ≡ reporting error observed
        → ThreadStep s (count_itself k error observed s)
    signals : (k : ℕ) → k < n → s.signalling k ≡ true → ThreadStep s (signal k s)
    blocks :
        (k observed : ℕ)
        → k < n
        → s.state.workers k ≡ waiting observed
        → s.state.stopping ≡ false
        → (s.state.generation == observed) ≡ true
        → s.asleep k ≡ false
        → s.signalling k ≡ false
        → ThreadStep s (block k s)
    announces : s.announcing ≡ true → ThreadStep s (announce s)
    runs_first :
        (job : Job F)
        → s.state.submitter ≡ computing job
        → s.announcing ≡ false
        → ThreadStep s
            (record s { state = caller_done job (run_shard (suc n) job 0 s.state.output) s.state })
    caller_blocks :
        (job : Job F) (error : Option Error)
        → s.state.submitter ≡ awaiting job error
        → (s.state.completed == n) ≡ false
        → s.caller_asleep ≡ false
        → ThreadStep s (block_caller s)
    ends :
        (job : Job F) (error : Option Error)
        → s.state.submitter ≡ awaiting job error
        → s.state.completed ≡ n
        → s.caller_asleep ≡ false
        → ThreadStep s (record s { state = finish job error s.state })

  -- Every step: those of the threads, a submission of a checked job, and those of shutdown.
  pub data AnyStep (s : Threads F) : Threads F → Type 0 where
    moves : {t : Threads F} → ThreadStep s t → AnyStep s t
    begins :
        (job : Job F) (output : List F)
        → at_rest s.state.submitter ≡ true
        → s.state.stopping ≡ false
        → IsJob job
        → length output ≡ job.output_channels
        → AnyStep s (hand_out job output s)
    shuts_down : at_rest s.state.submitter ≡ true → AnyStep s (shut_workers s)
    quits :
        (k observed : ℕ)
        → k < n
        → s.state.workers k ≡ waiting observed
        → s.state.stopping ≡ true
        → s.asleep k ≡ false
        → s.signalling k ≡ false
        → AnyStep s (record s { state = leave k s.state })

  pub data Reached : Threads F → Type 0 where
    woken : Reached all_awake
    on : {s t : Threads F} → Reached s → AnyStep s t → Reached t

  -- A number of steps of the threads, in some order.
  pub data ThreadRun (s : Threads F) : ℕ → Threads F → Type 0 where
    unmoved : ThreadRun s 0 s
    further : {k : ℕ} {t u : Threads F} → ThreadRun s k t → ThreadStep t u → ThreadRun s (suc k) u
