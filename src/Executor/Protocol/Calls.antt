-- ===== src/Executor/Protocol/Calls.antt =====
-- A call in progress: its invariant, which each step of its threads keeps.
use native.Mathlib.Decide.{dec_lt}
use gpt2_cpu_runtime.Prelude.{
  ◌==◌, eq→==, size_mod, wadd, ok, step, length, ℕ, zero, suc, ◌+◌, ◌-◌, ◌≤◌, ◌<◌, ◌≡◌, refl, sym,
  ap, ◌∙◌, subst, Bool, true, false, none, List, arith,
}
use gpt2_cpu_runtime.Float.{Float}
use gpt2_cpu_runtime.Executor.{Job, run_shard}
use gpt2_cpu_runtime.Executor.Partition.{first_of, count_of, first_of-suc, first_of-threads}
use gpt2_cpu_runtime.Executor.Shards.{IsJob}
use gpt2_cpu_runtime.Executor.Protocol.{
  Worker, waiting, running, reporting, stopped, Submitter, idle, computing, awaiting, returned,
  State, at_rest, first_error, submit, fetch, caller_done, report, finish, WorkerStep, wake, work,
  count_in, CallStep, helped_by, run_first, end,
}
use gpt2_cpu_runtime.Executor.Protocol.Invariant.{
  done, IsResting, IsLayer, IsWritten, IsWorking, IsCalling, IsAtRest, IsInvariant,
}
use gpt2_cpu_runtime.Executor.Protocol.Invariant.Sums.{sum-full, sum-zero}
use gpt2_cpu_runtime.Executor.Protocol.Moves.{
  done-le, IsWorking-kept, IsCalling-fetch, IsCalling-worker_done, IsCalling-report,
}
use gpt2_cpu_runtime.Executor.Sharing.{run_shard-Returns}

-- Every channel belongs to a shard.
covered :
    (n outputs m o : ℕ)
    → m ≤ suc n
    → o < first_of (suc n) outputs m
    → (shard : ℕ) × (shard < m)
      × (first_of (suc n) outputs shard ≤ o)
      × (o < first_of (suc n) outputs shard + count_of (suc n) outputs shard)
covered n outputs zero o h l = absurd (omega arith)
covered n outputs (suc m) o h l = elim (dec_lt o (first_of (suc n) outputs m)) [
  | yes lower ↦
      let (shard, less, from, to) = covered n outputs m o (omega arith) lower in
      (shard, omega arith, from, to)
  | no upper ↦ (m, omega arith, omega arith, omega (arith, first_of-suc (suc n) outputs m))
]

pub wadd-other : (g : ℕ) → (wadd g 1 == g) ≡ false
unfolding wadd
wadd-other g = ground arith

module _ {F : Type 0} ⦃fl : Float F⦄ (n : ℕ) (fits : suc n < size_mod) where
  IsCalling-caller_done :
      (job : Job F) (s : State F)
      → IsCalling n job false s
      → IsInvariant n
          (caller_done job (run_shard (suc n) job 0 s.output) s).submitter
          (caller_done job (run_shard (suc n) job 0 s.output) s)
  unfolding caller_done
  IsCalling-caller_done job s now =
      let (out, ran, u) =
        run_shard-Returns job now.is_job (suc n) (omega arith) 0 s.output (omega arith)
          now.size_lem in
      let after : IsCalling n job true (caller_done job (ok out) s) = record {
        is_job = now.is_job;
        job_lem = now.job_lem;
        size_lem = u.size_kept ∙ now.size_lem;
        going = now.going;
        no_error = now.no_error;
        counted = now.counted;
        working = λ i l.
            IsWorking-kept n fits job s.generation i 0 s.output out (s.workers i) u
              (now.working i l);
        first_lem = λ f. u.changed;
      } in
      subst (λ r. IsInvariant n (caller_done job r s).submitter (caller_done job r s)) (sym ran)
        (refl, after)

  IsLayer-finish :
      (job : Job F) (s : State F)
      → IsCalling n job true s
      → s.completed ≡ n
      → IsLayer job s.output × IsAtRest n s
  IsLayer-finish job s now all =
      let outputs = job.output_channels in
      let full =
        sum-full n (λ i. done s.generation (s.workers i)) (λ i. done-le s.generation (s.workers i))
          (sym now.counted ∙ all) in
      (
        (
          now.size_lem,
          λ o h.
              let (shard, less, from, to) =
                covered n outputs (suc n) o (omega arith)
                  (omega (arith, first_of-threads (suc n) outputs (omega arith))) in
              let first = first_of (suc n) outputs shard in
              let e : first + (o - first) ≡ o = omega arith in
              rw e at (written shard less (o - first) (omega arith)),
        ),
        λ k h. resting k (s.workers k) (full k h),
      )
    where
      reported :
          (k : ℕ) (w : Worker F)
          → done s.generation w ≡ 1
          → IsWorking n job s.generation s.output k w
          → IsWritten n job s.output (suc k)
      reported k (waiting observed) e h = h (ground arith)
      reported k (running j observed) e h = absurd (omega arith)
      reported k (reporting error observed) e h = absurd (omega arith)
      reported k stopped e h = absurd (omega arith)

      written : (shard : ℕ) → shard < suc n → IsWritten n job s.output shard
      written zero h = now.first_lem refl
      written (suc k) h =
          reported k (s.workers k)
            (sum-full n (λ i. done s.generation (s.workers i))
              (λ i. done-le s.generation (s.workers i)) (sym now.counted ∙ all) k (omega arith))
            (now.working k (omega arith))

      resting :
          (k : ℕ) (w : Worker F) → done s.generation w ≡ 1 → IsResting s.generation s.stopping w
      resting k (waiting observed) e = ground arith
      resting k (running j observed) e = absurd (omega arith)
      resting k (reporting error observed) e = absurd (omega arith)
      resting k stopped e = absurd (omega arith)

  pub IsCalling-submit :
      (job : Job F) (output : List F) (s : State F)
      → IsJob job
      → length output ≡ job.output_channels
      → s.stopping ≡ false
      → IsAtRest n s
      → IsCalling n job false (submit job output s)
  unfolding submit
  IsCalling-submit job output s is_job size going rest = record {
    is_job = is_job;
    job_lem = refl;
    size_lem = size;
    going = going;
    no_error = refl;
    counted = sym (sum-zero n _ λ k h. fresh k (s.workers k) (rest k h));
    working = λ k h. unseen k (s.workers k) (rest k h);
    first_lem = λ e. absurd (cc);
  }
    where
      fresh :
          (k : ℕ) (w : Worker F)
          → IsResting s.generation s.stopping w
          → done (wadd s.generation 1) w ≡ 0
      fresh k (waiting observed) e = rw e (rw (wadd-other s.generation))
      fresh k (running j observed) e = elim e [ ]
      fresh k (reporting error observed) e = elim e [ ]
      fresh k stopped e = refl

      unseen :
          (k : ℕ) (w : Worker F)
          → IsResting s.generation s.stopping w
          → IsWorking n job (wadd s.generation 1) output k w
      unseen k (waiting observed) e =
          λ same. let no : false ≡ true = rw (e, wadd-other s.generation) at same in absurd (cc)
      unseen k (running j observed) e = elim e [ ]
      unseen k (reporting error observed) e = elim e [ ]
      unseen k stopped e = absurd (cc)

  pub WorkerStep-IsCalling :
      (job : Job F) (first : Bool) (s t : State F)
      → IsCalling n job first s
      → WorkerStep n s t
      → IsCalling n job first t × (t.submitter ≡ s.submitter)
  WorkerStep-IsCalling job first s t now (wake k observed h e going new) =
      (IsCalling-fetch n fits job first s now k observed h e new, unfold fetch in refl)
  WorkerStep-IsCalling job first s t now (work k observed j h e) =
      IsCalling-worker_done n fits job first s now k observed j h e
  WorkerStep-IsCalling job first s t now (count_in k observed error h e) =
      (IsCalling-report n fits job first s now k observed error h e, unfold report in refl)

  -- No worker moves between calls.
  WorkerStep-rest : (s t : State F) → IsAtRest n s → WorkerStep n s t → ⊥
  WorkerStep-rest s t rest (wake k observed h e going new) =
      let seen = subst (IsResting s.generation s.stopping) e (rest k h) in
      let same = eq→== s.generation observed (sym seen) in absurd (cc)
  WorkerStep-rest s t rest (work k observed job h e) =
      subst (IsResting s.generation s.stopping) e (rest k h)
  WorkerStep-rest s t rest (count_in k observed error h e) =
      subst (IsResting s.generation s.stopping) e (rest k h)

  pub CallStep-rest :
      (s t : State F) → IsAtRest n s → at_rest s.submitter ≡ true → CallStep n s t → ⊥
  CallStep-rest s t rest free (helped_by step) = WorkerStep-rest s t rest step
  CallStep-rest s t rest free (run_first job e) = let h = ap at_rest e in absurd (cc)
  CallStep-rest s t rest free (end job error e all) = let h = ap at_rest e in absurd (cc)

  -- The steps of a call keep the invariant.
  pub CallStep-IsInvariant :
      (s t : State F) (sub : Submitter F)
      → s.submitter ≡ sub
      → IsInvariant n sub s
      → CallStep n s t
      → IsInvariant n t.submitter t
  CallStep-IsInvariant s t idle e rest step = absurd (CallStep-rest s t rest (ap at_rest e) step)
  CallStep-IsInvariant s t (returned job error) e (_, layer, rest) step =
      absurd (CallStep-rest s t rest (ap at_rest e) step)
  CallStep-IsInvariant s t (computing job) e now (helped_by step) =
      let (after, same) = WorkerStep-IsCalling job false s t now step in
      subst (λ sub. IsInvariant n sub t) (sym (same ∙ e)) after
  CallStep-IsInvariant s t (computing job) e now (run_first j e') =
      let both : computing job ≡ computing j = sym e ∙ e' in
      let same : job ≡ j = cc in
      IsCalling-caller_done j s (subst (λ i. IsCalling n i false s) same now)
  CallStep-IsInvariant s t (computing job) e now (end j error e' all) =
      let both : computing job ≡ awaiting j error = sym e ∙ e' in absurd (cc)
  CallStep-IsInvariant s t (awaiting job error) e (fine, now) (helped_by step) =
      let (after, same) = WorkerStep-IsCalling job true s t now step in
      subst (λ sub. IsInvariant n sub t) (sym (same ∙ e)) (fine, after)
  CallStep-IsInvariant s t (awaiting job error) e now (run_first j e') =
      let both : awaiting job error ≡ computing j = sym e ∙ e' in absurd (cc)
  CallStep-IsInvariant s t (awaiting job error) e (fine, now) (end j error' e' all) =
      let both : awaiting job error ≡ awaiting j error' = sym e ∙ e' in
      let same : job ≡ j = cc in
      let fine' : error' ≡ none = cc in
      let (layer, rest) = IsLayer-finish j s (subst (λ i. IsCalling n i true s) same now) all in
      let thrown : first_error error' s.worker_error ≡ none = rw (fine', now.no_error) in
      unfold finish in (thrown, layer, rest)
