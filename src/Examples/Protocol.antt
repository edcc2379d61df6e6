-- ===== src/Examples/Protocol.antt =====
-- A call of the executor with two threads, step by step.
use gpt2_cpu_runtime.Buffer.{require_size, subspan, read, write}
use gpt2_cpu_runtime.Splice.{splice}
use gpt2_cpu_runtime.Prelude.{
  wadd, wmul, Error, for_range, ℕ, ◌+◌, ◌*◌, ◌≤◌, ◌≡◌, ◌⊎◌, refl, inl, Option, none, List, [], ◌∷◌,
  arith,
}
use gpt2_cpu_runtime.Kernels.Linear.{linear}
use gpt2_cpu_runtime.Executor.{shard_first, shard_count, Job, run_shard}
use gpt2_cpu_runtime.Executor.Shards.{IsJob}
use gpt2_cpu_runtime.Executor.Protocol.{
  returned, State, init, submit, fetch, worker_done, caller_done, report, finish, wake, work,
  count_in, helped_by, run_first, end, call, begin, Reach, start, later,
}
use gpt2_cpu_runtime.Executor.Protocol.Invariant.{IsLayer}
use gpt2_cpu_runtime.Executor.Protocol.Safety.{Reach-returned}
use gpt2_cpu_runtime.Executor.Protocol.Signals.{
  Threads, all_awake, hand_out, announce, count_itself, signal, block_caller, ThreadStep, wakes,
  works, counts_in, signals, announces, runs_first, caller_blocks, ends, woken, ThreadRun, unmoved,
  further,
}
use gpt2_cpu_runtime.Executor.Protocol.Signals.Progress.{hand_out-ends}
use gpt2_cpu_runtime.Examples.Numbers.{numbers}

abbrev small_job : Job ℕ
small_job = record {
  input = 1 ∷ 2 ∷ [];
  weight = 1 ∷ 0 ∷ 0 ∷ 1 ∷ 2 ∷ 3 ∷ [];
  bias = [];
  input_channels = 2;
  output_channels = 3;
}

small_job-IsJob : IsJob small_job
small_job-IsJob = record {
  input_size = refl;
  weight_size = refl;
  bias_size = inl refl;
  input_fits = omega arith;
  weight_fits = omega arith;
  outputs_fit = omega arith;
}

abbrev blank : List ℕ
blank = 0 ∷ 0 ∷ 0 ∷ []

-- The worker wakes before the caller has computed its own shard.
abbrev handed_out : State ℕ
handed_out = submit small_job blank init

abbrev fetched : State ℕ
fetched = fetch 0 handed_out

abbrev half_done : State ℕ
half_done = caller_done small_job (run_shard 2 small_job 0 fetched.output) fetched

abbrev worked : State ℕ
worked = worker_done 0 1 (run_shard 2 small_job 1 half_done.output) half_done

abbrev counted : State ℕ
counted = report 0 none 1 worked

abbrev ended : State ℕ
ended = finish small_job none counted

handed_out-Reach : Reach 1 handed_out
handed_out-Reach = later start (begin small_job blank refl refl small_job-IsJob refl)

ended-Reach : Reach 1 ended
unfolding submit fetch caller_done worker_done report finish run_shard shard_first shard_count
    linear read write require_size wadd wmul subspan splice for_range
ended-Reach =
    later
      (later
        (later
          (later (later handed_out-Reach (call (helped_by (wake 0 0 (omega arith) refl refl refl))))
            (call (run_first small_job refl)))
          (call (helped_by (work 0 1 small_job (omega arith) refl))))
        (call (helped_by (count_in 0 1 none (omega arith) refl))))
      (call (end small_job none refl refl))

Reach-returned_example : (◌≡◌ {A = Option Error} none none) × IsLayer small_job ended.output
unfolding submit fetch caller_done worker_done report finish run_shard shard_first shard_count
    linear read write require_size wadd wmul subspan splice for_range
Reach-returned_example = Reach-returned 1 (omega arith) ended small_job none ended-Reach refl

-- The same call with its notifications: the caller blocks before the worker has counted itself.
abbrev first_threads : Threads ℕ
first_threads = hand_out small_job blank all_awake

abbrev announced : Threads ℕ
announced = announce first_threads

abbrev blocked : Threads ℕ
blocked = block_caller (record announced { state = half_done })

abbrev self_counted : Threads ℕ
self_counted = count_itself 0 none 1 (record blocked { state = worked })

abbrev signalled : Threads ℕ
signalled = signal 0 self_counted

abbrev last_threads : Threads ℕ
last_threads = record signalled { state = ended }

signalled_run : ThreadRun 1 first_threads 8 last_threads
unfolding submit fetch caller_done worker_done report finish run_shard shard_first shard_count
    linear read write require_size wadd wmul subspan splice for_range
signalled_run =
    further
      (further
        (further
          (further
            (further
              (further
                (further (further unmoved (announces refl))
                  (wakes 0 0 (omega arith) refl refl refl refl refl))
                (runs_first small_job refl refl))
              (caller_blocks small_job none refl refl refl))
            (works 0 1 small_job (omega arith) refl))
          (counts_in 0 1 none (omega arith) refl))
        (signals 0 (omega arith) refl))
      (ends small_job none refl refl refl)

hand_out-ends_example :
    (8 ≤ 13 * 1 + 8)
    × (((u : Threads ℕ) × ThreadStep 1 last_threads u)
        ⊎ ((last_threads.state.submitter ≡ returned small_job none)
            × IsLayer small_job last_threads.state.output))
hand_out-ends_example =
    hand_out-ends 1 (omega arith) all_awake small_job blank last_threads 8 woken refl refl
      small_job-IsJob refl signalled_run
