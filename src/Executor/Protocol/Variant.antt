-- ===== src/Executor/Protocol/Variant.antt =====
-- The number of steps that are left of a call, which each of its steps lowers.
use gpt2_cpu_runtime.Prelude.{
  ◌==◌, if◌then◌else◌, eq→==, size_mod, Result, err, ok, step, ℕ, suc, ◌+◌, ◌<◌, ◌≡◌, refl, sym, ap,
  ◌∙◌, subst, inl, inr, Bool, true, false, Option, none, some, List, arith,
}
use gpt2_cpu_runtime.Float.{Float}
use gpt2_cpu_runtime.Executor.{Job, run_shard}
use gpt2_cpu_runtime.Executor.Protocol.{
  Worker, waiting, running, reporting, stopped, Submitter, idle, computing, awaiting, returned,
  State, update, at_rest, fetch, worker_done, caller_done, report, finish, WorkerStep, wake, work,
  count_in, CallStep, helped_by, run_first, end,
}
use gpt2_cpu_runtime.Executor.Protocol.Invariant.{done, IsWorking, IsCalling, IsInvariant}
use gpt2_cpu_runtime.Executor.Protocol.Invariant.Sums.{sum, sum-change, sum-search}
use gpt2_cpu_runtime.Executor.Protocol.Moves.{update_self, update_other, done-le}
use gpt2_cpu_runtime.Executor.Protocol.Calls.{CallStep-rest}

-- The steps that a thread still has to make in a call.
abbrev pub steps_left : {F : Type 0} → ℕ → Worker F → ℕ
steps_left generation (waiting observed) = if generation == observed then 0 else 3
steps_left generation (running job observed) = 2
steps_left generation (reporting error observed) = 1
steps_left generation stopped = 0

abbrev pub caller_steps : {F : Type 0} → Submitter F → ℕ
caller_steps idle = 0
caller_steps (computing job) = 2
caller_steps (awaiting job error) = 1
caller_steps (returned job error) = 0

-- The job of the last call.
abbrev pub current : {F : Type 0} → Submitter F → Option (Job F)
current idle = none
current (computing job) = some job
current (awaiting job error) = some job
current (returned job error) = some job

module _ {F : Type 0} ⦃fl : Float F⦄ (n : ℕ) (fits : suc n < size_mod) where
  abbrev pub variant : State F → ℕ
  variant s = caller_steps s.submitter + sum n λ k. steps_left s.generation (s.workers k)

  sum-steps_left :
      (g k : ℕ) (ws : ℕ → Worker F) (w : Worker F)
      → k < n
      → sum n (λ i. steps_left g (ws i)) + steps_left g w
        ≡ sum n (λ i. steps_left g (update ws k w i)) + steps_left g (ws k)
  sum-steps_left g k ws w h =
      ap (λ (x : ℕ). sum n (λ i. steps_left g (ws i)) + x)
        (ap (steps_left g) (sym (update_self ws k w)))
      ∙ sum-change n k (λ i. steps_left g (ws i)) (λ i. steps_left g (update ws k w i)) h
          λ i e. ap (steps_left g) (sym (update_other ws k i w e))

  -- Each step of a worker is one step less to make.
  WorkerStep-variant :
      (job : Job F) (first : Bool) (s t : State F)
      → IsCalling n job first s
      → WorkerStep n s t
      → suc (variant t) ≡ variant s
  unfolding fetch report
  WorkerStep-variant job first s t now (wake k observed h e going new) =
      let moved = sum-steps_left s.generation k s.workers (running s.job s.generation) h in
      let before : steps_left s.generation (s.workers k) ≡ 3 =
        ap (steps_left s.generation) e ∙ rw new in
      omega (arith, moved, before)
  WorkerStep-variant job first s t now (work k observed j h e) =
      ran (run_shard (suc n) j (suc k) s.output)
    where
      ran : (r : Result (List F)) → suc (variant (worker_done k observed r s)) ≡ variant s
      ran (ok out) =
          unfold worker_done in
          omega (
            arith,
            sum-steps_left s.generation k s.workers (reporting none observed) h,
            ap (steps_left s.generation) e,
          )
      ran (err x) =
          unfold worker_done in
          omega (
            arith,
            sum-steps_left s.generation k s.workers (reporting (some x) observed) h,
            ap (steps_left s.generation) e,
          )
  WorkerStep-variant job first s t now (count_in k observed error h e) =
      let (_, seen, _) = subst (IsWorking n job s.generation s.output k) e (now.working k h) in
      let moved = sum-steps_left s.generation k s.workers (waiting observed) h in
      let before : steps_left s.generation (s.workers k) ≡ 1 = ap (steps_left s.generation) e in
      let hit : (s.generation == observed) ≡ true = eq→== s.generation observed (sym seen) in
      let after : steps_left {F = F} s.generation (waiting observed) ≡ 0 = rw hit in
      omega (arith, moved, before, after)

  pub CallStep-variant :
      (s t : State F) (sub : Submitter F)
      → s.submitter ≡ sub
      → IsInvariant n sub s
      → CallStep n s t
      → suc (variant t) ≡ variant s
  CallStep-variant s t idle e rest step = absurd (CallStep-rest n fits s t rest (ap at_rest e) step)
  CallStep-variant s t (returned job error) e (_, layer, rest) step =
      absurd (CallStep-rest n fits s t rest (ap at_rest e) step)
  CallStep-variant s t (computing job) e now (helped_by step) =
      WorkerStep-variant job false s t now step
  CallStep-variant s t (awaiting job error) e (fine, now) (helped_by step) =
      WorkerStep-variant job true s t now step
  CallStep-variant s t sub e now (run_first j e') = ran (run_shard (suc n) j 0 s.output)
    where
      before : caller_steps s.submitter ≡ 2
      before = ap caller_steps e'

      ran : (r : Result (List F)) → suc (variant (caller_done j r s)) ≡ variant s
      ran (ok out) = unfold caller_done in omega (arith, before)
      ran (err x) = unfold caller_done in omega (arith, before)
  CallStep-variant s t sub e now (end j error e' all) =
      let before : caller_steps s.submitter ≡ 1 = ap caller_steps e' in
      unfold finish in omega (arith, before)

  -- A worker that has not reported can move.
  worker_moves :
      (job : Job F) (first : Bool) (s : State F) (k : ℕ) (w : Worker F)
      → IsCalling n job first s
      → k < n
      → s.workers k ≡ w
      → done s.generation w ≡ 0
      → (t : State F) × CallStep n s t
  worker_moves job first s k (waiting observed) now h e unseen =
      let new : (s.generation == observed) ≡ false = ground arith in
      (_, helped_by (wake k observed h e now.going new))
  worker_moves job first s k (running j observed) now h e unseen =
      (_, helped_by (work k observed j h e))
  worker_moves job first s k (reporting error observed) now h e unseen =
      (_, helped_by (count_in k observed error h e))
  worker_moves job first s k stopped now h e unseen =
      absurd (subst (IsWorking n job s.generation s.output k) e (now.working k h))

  -- During a call some thread can move.
  pub call_moves :
      (s : State F) (sub : Submitter F)
      → s.submitter ≡ sub
      → IsInvariant n sub s
      → at_rest sub ≡ false
      → (t : State F) × CallStep n s t
  call_moves s idle e now busy = absurd (cc)
  call_moves s (returned job error) e now busy = absurd (cc)
  call_moves s (computing job) e now busy = (_, run_first job e)
  call_moves s (awaiting job error) e (fine, now) busy =
      elim (sum-search n (λ i. done s.generation (s.workers i))
        λ i. done-le s.generation (s.workers i)) [
          | inl all ↦ (_, end job error e (now.counted ∙ all))
          | inr (k, h, unseen) ↦ worker_moves job true s k (s.workers k) now h refl unseen
        ]

  pub CallStep-current :
      (s t : State F) → CallStep n s t → current t.submitter ≡ current s.submitter
  CallStep-current s t (helped_by (wake k observed h e going new)) = unfold fetch in refl
  CallStep-current s t (helped_by (count_in k observed error h e)) = unfold report in refl
  CallStep-current s t (helped_by (work k observed j h e)) =
      ran (run_shard (suc n) j (suc k) s.output)
    where
      ran :
          (r : Result (List F))
          → current (worker_done k observed r s).submitter ≡ current s.submitter
      ran (ok out) = unfold worker_done in refl
      ran (err x) = unfold worker_done in refl
  CallStep-current s t (run_first j e) = ran (run_shard (suc n) j 0 s.output)
    where
      ran : (r : Result (List F)) → current (caller_done j r s).submitter ≡ current s.submitter
      ran (ok out) = unfold caller_done in sym (ap current e)
      ran (err x) = unfold caller_done in sym (ap current e)
  CallStep-current s t (end j error e all) = unfold finish in sym (ap current e)
