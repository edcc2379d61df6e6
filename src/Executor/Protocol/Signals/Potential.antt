-- ===== src/Executor/Protocol/Signals/Potential.antt =====
-- A bound on the steps that the threads can make in a call, with their waits and notifications.
use gpt2_cpu_runtime.Prelude.{
  if◌then◌else◌, size_mod, wadd, ℕ, suc, ◌+◌, ◌*◌, ◌≤◌, ◌<◌, ◌≡◌, refl, sym, ap, ◌∙◌, Bool, true,
  false, List, arith,
}
use gpt2_cpu_runtime.Float.{Float}
use gpt2_cpu_runtime.Executor.{Job}
use gpt2_cpu_runtime.Executor.Protocol.{
  Worker, waiting, running, reporting, stopped, State, update, submit, helped_by, wake, work,
  count_in, run_first, end,
}
use gpt2_cpu_runtime.Executor.Protocol.Invariant.{IsResting, IsAtRest, IsInvariant}
use gpt2_cpu_runtime.Executor.Protocol.Invariant.Sums.{sum, sum-change, sum-const, sum-le}
use gpt2_cpu_runtime.Executor.Protocol.Moves.{update_self, update_other}
use gpt2_cpu_runtime.Executor.Protocol.Variant.{steps_left, variant, CallStep-variant}
use gpt2_cpu_runtime.Executor.Protocol.Calls.{wadd-other}
use gpt2_cpu_runtime.Executor.Protocol.Signals.{
  Threads, hand_out, ThreadStep, wakes, works, counts_in, signals, blocks, announces, runs_first,
  caller_blocks, ends,
}

-- A blocked thread has no step to block, and a thread that still has to notify has one to make.
abbrev unblocked : Bool → ℕ
unblocked asleep = if asleep then 0 else 1

abbrev pending : Bool → ℕ
pending signalling = if signalling then 1 else 0

unblocked-le : (b : Bool) → unblocked b ≤ 1
unblocked-le b = ground arith

pending-le : (b : Bool) → pending b ≤ 1
pending-le b = ground arith

-- One thread's flag changes.
sum-flag :
    (n k : ℕ) (f : Bool → ℕ) (flags : ℕ → Bool) (b : Bool)
    → k < n
    → sum n (λ i. f (flags i)) + f b ≡ sum n (λ i. f (update flags k b i)) + f (flags k)
sum-flag n k f flags b h =
    ap (λ (x : ℕ). sum n (λ i. f (flags i)) + x) (ap f (sym (update_self flags k b)))
    ∙ sum-change n k (λ i. f (flags i)) (λ i. f (update flags k b i)) h
        λ i e. ap f (sym (update_other flags k i b e))

module _ {F : Type 0} ⦃fl : Float F⦄ (n : ℕ) (fits : suc n < size_mod) where
  submit-variant :
      (job : Job F) (output : List F) (s : State F)
      → IsAtRest n s
      → s.stopping ≡ false
      → variant n fits (submit job output s) ≡ 3 * n + 2
  unfolding submit
  submit-variant job output s rest going =
      let all =
        sum-const n (λ k. steps_left (wadd s.generation 1) (s.workers k)) 3
          λ k h. unseen (s.workers k) (rest k h) in
      omega (arith, all)
    where
      unseen :
          (w : Worker F)
          → IsResting s.generation s.stopping w
          → steps_left (wadd s.generation 1) w ≡ 3
      unseen (waiting observed) e = rw e (rw (wadd-other s.generation))
      unseen (running job observed) e = elim e [ ]
      unseen (reporting error observed) e = elim e [ ]
      unseen stopped e = absurd (cc)

  -- A bound on the steps that the threads can still make, which each of them lowers.
  abbrev pub potential : Threads F → ℕ
  potential s =
      3 * variant n fits s.state
      + (if s.announcing then n + 1 else 0)
      + sum n (λ k. unblocked (s.asleep k))
      + 2 * sum n (λ k. pending (s.signalling k))
      + unblocked s.caller_asleep

  pub ThreadStep-potential :
      (s t : Threads F)
      → IsInvariant n s.state.submitter s.state
      → ThreadStep n s t
      → potential t < potential s
  ThreadStep-potential s t now (wakes k observed h e going new awake quiet) =
      let less =
        CallStep-variant n fits s.state t.state s.state.submitter refl now
          (helped_by (wake k observed h e going new)) in
      omega (arith, less)
  ThreadStep-potential s t now (works k observed job h e) =
      let less =
        CallStep-variant n fits s.state t.state s.state.submitter refl now
          (helped_by (work k observed job h e)) in
      omega (arith, less)
  ThreadStep-potential s t now (counts_in k observed error h e) =
      let less =
        CallStep-variant n fits s.state t.state s.state.submitter refl now
          (helped_by (count_in k observed error h e)) in
      omega (arith, less, sum-flag n k pending s.signalling true h)
  ThreadStep-potential s t now (signals k h e) =
      let before : pending (s.signalling k) ≡ 1 = ap pending e in
      omega (arith, before, sum-flag n k pending s.signalling false h)
  ThreadStep-potential s t now (blocks k observed h e going seen awake quiet) =
      let before : unblocked (s.asleep k) ≡ 1 = ap unblocked awake in
      omega (arith, before, sum-flag n k unblocked s.asleep true h)
  ThreadStep-potential s t now (announces e) =
      let all : sum n (λ k. unblocked false) ≡ 1 * n = sum-const n (λ k. 1) 1 λ k h. refl in
      let before : (if s.announcing then n + 1 else 0) ≡ n + 1 = rw e in omega (arith, all, before)
  ThreadStep-potential s t now (runs_first job e told) =
      let less =
        CallStep-variant n fits s.state t.state s.state.submitter refl now (run_first job e) in
      omega (arith, less)
  ThreadStep-potential s t now (caller_blocks job error e left awake) =
      let before : unblocked s.caller_asleep ≡ 1 = ap unblocked awake in omega (arith, before)
  ThreadStep-potential s t now (ends job error e all awake) =
      let less =
        CallStep-variant n fits s.state t.state s.state.submitter refl now (end job error e all) in
      omega (arith, less)

  pub hand_out-potential :
      (job : Job F) (output : List F) (s : Threads F)
      → IsAtRest n s.state
      → s.state.stopping ≡ false
      → potential (hand_out job output s) ≤ 13 * n + 8
  hand_out-potential job output s rest going = omega (
    arith,
    submit-variant job output s.state rest going,
    sum-le n (λ k. unblocked (s.asleep k)) (λ k. unblocked-le (s.asleep k)),
    sum-le n (λ k. pending (s.signalling k)) (λ k. pending-le (s.signalling k)),
    unblocked-le s.caller_asleep,
  )
