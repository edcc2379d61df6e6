-- ===== src/Executor/Protocol/Moves.antt =====
-- The steps of the workers keep what holds of a call.
use native.Mathlib.Decide.{dec_lt}
use gpt2_cpu_runtime.Prelude.{
  ◌==◌, eq→==, Bool-cases, size_mod, wadd_lem, Error, Result, ok, ℕ, suc, ◌+◌, ◌-◌, ◌≤◌, ◌<◌, ◌≡◌,
  refl, sym, ap, ◌∙◌, subst, inl, inr, Bool, true, false, Option, none, List, arith,
}
use gpt2_cpu_runtime.Float.{Float}
use gpt2_cpu_runtime.Update.{IsUpdated}
use gpt2_cpu_runtime.Executor.{Job, run_shard}
use gpt2_cpu_runtime.Executor.Partition.{first_of, count_of}
use gpt2_cpu_runtime.Executor.Shards.{channel}
use gpt2_cpu_runtime.Executor.Protocol.{
  Worker, waiting, running, reporting, stopped, State, update, first_error, fetch, worker_done,
  report,
}
use gpt2_cpu_runtime.Executor.Protocol.Invariant.{done, IsWritten, IsWorking, IsCalling}
use gpt2_cpu_runtime.Executor.Protocol.Invariant.Sums.{sum, sum-change, sum-le}
use gpt2_cpu_runtime.Executor.Sharing.{run_shard-Returns}

pub update_self : {A : Type 0} (f : ℕ → A) (k : ℕ) (a : A) → update f k a k ≡ a
update_self f k a = let e : (k == k) ≡ true = eq→== k k refl in rw e

pub update_other :
    {A : Type 0} (f : ℕ → A) (k i : ℕ) (a : A) → (i == k) ≡ false → update f k a i ≡ f i
update_other f k i a e = rw e

pub done-le : {F : Type 0} (g : ℕ) (w : Worker F) → done g w ≤ 1
done-le g (waiting observed) = ground arith
done-le g (running j observed) = omega arith
done-le g (reporting e observed) = omega arith
done-le g stopped = omega arith

module _ {F : Type 0} ⦃fl : Float F⦄ (n : ℕ) (fits : suc n < size_mod) where
  abbrev pub IsShardDone : Job F → ℕ → List F → List F → Type 0
  IsShardDone job shard =
      IsUpdated (first_of (suc n) job.output_channels shard)
        (count_of (suc n) job.output_channels shard)
        (λ o. channel job (first_of (suc n) job.output_channels shard + o))

  -- A shard's work does not undo what is written.
  pub IsWritten-kept :
      (job : Job F) (shard other : ℕ) (old new : List F)
      → IsShardDone job other old new
      → IsWritten n job old shard
      → IsWritten n job new shard
  IsWritten-kept job shard other old new u before o h =
      let T = suc n in
      let p = first_of T job.output_channels shard + o in
      let first = first_of T job.output_channels other in
      let count = count_of T job.output_channels other in
      elim (dec_lt p first) [
        | yes lower ↦ u.below p lower ∙ before o h
        | no upper ↦ elim (dec_lt p (first + count)) [
          | yes inside ↦
              let e : first + (p - first) ≡ p = omega arith in
              rw e at (u.changed (p - first) (omega arith))
          | no above ↦ u.above p (omega arith) ∙ before o h
        ]
      ]

  pub IsWorking-kept :
      (job : Job F) (g k other : ℕ) (old new : List F) (w : Worker F)
      → IsShardDone job other old new
      → IsWorking n job g old k w
      → IsWorking n job g new k w
  IsWorking-kept job g k other old new (waiting observed) u h =
      λ e. IsWritten-kept job (suc k) other old new u (h e)
  IsWorking-kept job g k other old new (running j observed) u h = h
  IsWorking-kept job g k other old new (reporting error observed) u (a, b, h) =
      (a, b, IsWritten-kept job (suc k) other old new u h)
  IsWorking-kept job g k other old new stopped u h = h

  -- One worker moves on.
  IsWorking-update :
      (job : Job F) (g k : ℕ) (output : List F) (ws : ℕ → Worker F) (w : Worker F)
      → ((i : ℕ) → i < n → IsWorking n job g output i (ws i))
      → IsWorking n job g output k w
      → (i : ℕ) → i < n
      → IsWorking n job g output i (update ws k w i)
  IsWorking-update job g k output ws w all here i h = elim (Bool-cases (i == k)) [
    | inl same ↦
        let e : i ≡ k = ground arith in
        subst (λ j. IsWorking n job g output j (update ws k w j)) (sym e)
          (subst (IsWorking n job g output k) (sym (update_self ws k w)) here)
    | inr other ↦ subst (IsWorking n job g output i) (sym (update_other ws k i w other)) (all i h)
  ]

  sum-update :
      (g k : ℕ) (ws : ℕ → Worker F) (w : Worker F)
      → k < n
      → sum n (λ i. done g (ws i)) + done g w
        ≡ sum n (λ i. done g (update ws k w i)) + done g (ws k)
  sum-update g k ws w h =
      ap (λ (x : ℕ). sum n (λ i. done g (ws i)) + x) (ap (done g) (sym (update_self ws k w)))
      ∙ sum-change n k (λ i. done g (ws i)) (λ i. done g (update ws k w i)) h
          λ i e. ap (done g) (sym (update_other ws k i w e))

  module _ (job : Job F) (first : Bool) (s : State F) (now : IsCalling n job first s) where
    pub IsCalling-fetch :
        (k observed : ℕ)
        → k < n
        → s.workers k ≡ waiting observed
        → (s.generation == observed) ≡ false
        → IsCalling n job first (fetch k s)
    unfolding fetch
    IsCalling-fetch k observed h e new = record {
      is_job = now.is_job;
      job_lem = now.job_lem;
      size_lem = now.size_lem;
      going = now.going;
      no_error = now.no_error;
      counted =
          let moved = sum-update s.generation k s.workers (running s.job s.generation) h in
          let before : done s.generation (s.workers k) ≡ 0 = ap (done s.generation) e ∙ rw new in
          omega (arith, moved, before, now.counted);
      working =
          IsWorking-update job s.generation k s.output s.workers (running s.job s.generation)
            now.working (now.job_lem, refl);
      first_lem = now.first_lem;
    }

    -- What a worker has in hand, by what it is doing.
    at_worker :
        (k : ℕ) (w : Worker F) → k < n → s.workers k ≡ w → IsWorking n job s.generation s.output k w
    at_worker k w h e = subst (IsWorking n job s.generation s.output k) e (now.working k h)

    pub IsCalling-worker_done :
        (k observed : ℕ) (j : Job F)
        → k < n
        → s.workers k ≡ running j observed
        → IsCalling n job first (worker_done k observed (run_shard (suc n) j (suc k) s.output) s)
          × ((worker_done k observed (run_shard (suc n) j (suc k) s.output) s).submitter
              ≡ s.submitter)
    unfolding worker_done
    IsCalling-worker_done k observed j h e =
        let (same, seen) = at_worker k (running j observed) h e in
        let (out, ran, u) =
          run_shard-Returns job now.is_job (suc n) (omega arith) (suc k) s.output (omega arith)
            now.size_lem in
        let ran' : run_shard (suc n) j (suc k) s.output ≡ ok out =
          ap (λ (i : Job F). run_shard (suc n) i (suc k) s.output) same ∙ ran in
        let w = reporting none observed in
        let after : IsCalling n job first (worker_done k observed (ok out) s) = record {
          is_job = now.is_job;
          job_lem = now.job_lem;
          size_lem = u.size_kept ∙ now.size_lem;
          going = now.going;
          no_error = now.no_error;
          counted =
              let moved = sum-update s.generation k s.workers w h in
              let before : done s.generation (s.workers k) ≡ 0 = ap (done s.generation) e in
              omega (arith, moved, before, now.counted);
          working =
              IsWorking-update job s.generation k out s.workers w
                (λ i l.
                  IsWorking-kept job s.generation i (suc k) s.output out (s.workers i) u
                    (now.working i l))
                (refl, seen, u.changed);
          first_lem = λ f. IsWritten-kept job 0 (suc k) s.output out u (now.first_lem f);
        } in
        (
          subst (λ r. IsCalling n job first (worker_done k observed r s)) (sym ran') after,
          ap (λ (r : Result (List F)). (worker_done k observed r s).submitter) ran',
        )

    pub IsCalling-report :
        (k observed : ℕ) (error : Option Error)
        → k < n
        → s.workers k ≡ reporting error observed
        → IsCalling n job first (report k error observed s)
    unfolding report
    IsCalling-report k observed error h e =
        let (none_thrown, seen, written) = at_worker k (reporting error observed) h e in
        let w = waiting observed in
        let moved = sum-update s.generation k s.workers w h in
        let before : done s.generation (s.workers k) ≡ 0 = ap (done s.generation) e in
        let hit : (s.generation == observed) ≡ true = eq→== s.generation observed (sym seen) in
        let after : done s.generation w ≡ 1 = rw hit in
        let most =
          sum-le n (λ i. done s.generation (s.workers i)) λ i. done-le s.generation (s.workers i) in
        record {
          is_job = now.is_job;
          job_lem = now.job_lem;
          size_lem = now.size_lem;
          going = now.going;
          no_error = ap (λ (x : Option Error). first_error x error) now.no_error ∙ none_thrown;
          counted =
              wadd_lem s.completed 1 (omega (arith, now.counted, most))
              ∙ omega (arith, moved, before, after, now.counted);
          working =
              IsWorking-update job s.generation k s.output s.workers w now.working λ same. written;
          first_lem = now.first_lem;
        }
