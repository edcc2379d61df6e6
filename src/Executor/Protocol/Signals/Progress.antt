-- ===== src/Executor/Protocol/Signals/Progress.antt =====
-- Every call returns, with its waits and notifications: no order of the steps of its threads is
-- stuck, and none goes on forever.
use gpt2_cpu_runtime.Prelude.{
  Bool-cases, eq→==, size_mod, step, length, ℕ, suc, ◌+◌, ◌*◌, ◌≤◌, ◌<◌, ◌≡◌, refl, ap, ◌∙◌, subst,
  ◌⊎◌, inl, inr, true, false, none, some, List, arith,
}
use gpt2_cpu_runtime.Float.{Float}
use gpt2_cpu_runtime.Executor.{Job}
use gpt2_cpu_runtime.Executor.Protocol.{
  Submitter, idle, computing, awaiting, returned, State, at_rest, submit, CallStep, helped_by, wake,
  work, count_in, run_first, end,
}
use gpt2_cpu_runtime.Executor.Protocol.Invariant.{IsLayer, IsInvariant}
use gpt2_cpu_runtime.Executor.Protocol.Safety.{IsInvariant-rest, Reach-IsInvariant}
use gpt2_cpu_runtime.Executor.Shards.{IsJob}
use gpt2_cpu_runtime.Executor.Protocol.Variant.{current, call_moves, CallStep-current}
use gpt2_cpu_runtime.Executor.Protocol.Signals.{
  Threads, hand_out, ThreadStep, wakes, works, counts_in, signals, announces, runs_first, ends,
  moves, begins, Reached, on, ThreadRun, unmoved, further,
}
use gpt2_cpu_runtime.Executor.Protocol.Signals.Lost.{IsIdle, HasNoLost, Reached-HasNoLost}
use gpt2_cpu_runtime.Executor.Protocol.Signals.Potential.{
  potential, ThreadStep-potential, hand_out-potential,
}
use gpt2_cpu_runtime.Executor.Protocol.Signals.Simulation.{ThreadStep-CallStep, Reached-Reach}

module _ {F : Type 0} ⦃fl : Float F⦄ (n : ℕ) (fits : suc n < size_mod) where
  -- When the protocol has a step to make, so has some thread: to make it, or to notify before.
  thread_moves :
      (s : Threads F) (u : State F)
      → HasNoLost n s
      → CallStep n s.state u
      → (t : Threads F) × ThreadStep n s t
  thread_moves s u held (helped_by (wake k observed h e going new)) =
      elim (Bool-cases (s.signalling k)) [
        | inl loud ↦ (_, signals k h loud)
        | inr quiet ↦ elim (Bool-cases (s.asleep k)) [
          | inr awake ↦ (_, wakes k observed h e going new awake quiet)
          | inl sleeping ↦ elim (held.held k h sleeping) [
            | inl soon ↦ (_, announces soon)
            | inr nothing_new ↦
                let quiet_too = subst (IsIdle s.state.generation s.state.stopping) e nothing_new in
                let seen = quiet_too.0 in absurd (cc)
          ]
        ]
      ]
  thread_moves s u held (helped_by (work k observed job h e)) = (_, works k observed job h e)
  thread_moves s u held (helped_by (count_in k observed error h e)) =
      (_, counts_in k observed error h e)
  thread_moves s u held (run_first job e) = elim (Bool-cases s.announcing) [
    | inl soon ↦ (_, announces soon)
    | inr told ↦ (_, runs_first job e told)
  ]
  thread_moves s u held (end job error e all) = elim (Bool-cases s.caller_asleep) [
    | inr awake ↦ (_, ends job error e all awake)
    | inl sleeping ↦ elim (held.caller_held sleeping).1 [
      | inl left ↦ let equal = eq→== s.state.completed n all in absurd (cc)
      | inr (k, h, loud) ↦ (_, signals k h loud)
    ]
  ]

  ThreadRun-potential :
      (s t : Threads F) (k : ℕ)
      → Reached n s
      → ThreadRun n s k t
      → Reached n t
        × (k + potential n fits t ≤ potential n fits s)
        × (current t.state.submitter ≡ current s.state.submitter)
  ThreadRun-potential s t k reach unmoved = (reach, omega arith, refl)
  ThreadRun-potential s t k reach (further {k = j} {t = r} run step) =
      let (mid, count, same) = ThreadRun-potential s r j reach run in
      let now = Reach-IsInvariant n fits r.state (Reached-Reach n r mid) in
      let less = ThreadStep-potential n fits r t now step in
      let kept : current t.state.submitter ≡ current r.state.submitter =
        elim (ThreadStep-CallStep n r t step) [
          | inl moved ↦ CallStep-current n fits r.state t.state moved
          | inr unchanged ↦ ap (λ (x : State F). current x.submitter) unchanged
        ] in
      (on mid (moves step), omega (arith, count, less), kept ∙ same)

  -- Either a thread can move, or the call has returned.
  moves-or-returned :
      (t : Threads F) (job : Job F) (sub : Submitter F)
      → t.state.submitter ≡ sub
      → Reached n t
      → current sub ≡ some job
      → ((u : Threads F) × ThreadStep n t u)
        ⊎ ((sub ≡ returned job none) × IsLayer job t.state.output)
  moves-or-returned t job sub e reach handed =
      split sub e
        (subst (λ x. IsInvariant n x t.state) e
          (Reach-IsInvariant n fits t.state (Reached-Reach n t reach)))
        handed
    where
      go :
          (x : Submitter F)
          → t.state.submitter ≡ x
          → IsInvariant n x t.state
          → at_rest x ≡ false
          → (u : Threads F) × ThreadStep n t u
      go x at now busy =
          let (u, step) = call_moves n fits t.state x at now busy in
          thread_moves t u (Reached-HasNoLost n t reach) step

      split :
          (x : Submitter F)
          → t.state.submitter ≡ x
          → IsInvariant n x t.state
          → current x ≡ some job
          → ((u : Threads F) × ThreadStep n t u)
            ⊎ ((x ≡ returned job none) × IsLayer job t.state.output)
      split idle at now j = absurd (cc)
      split (computing i) at now j = inl (go (computing i) at now refl)
      split (awaiting i error) at now j = inl (go (awaiting i error) at now refl)
      split (returned i error) at (fine, layer, rest) j =
          let same : i ≡ job = cc in
          inr (cc (fine, same), subst (λ x. IsLayer x t.state.output) same layer)

  -- Hand out a job of valid sizes in any state that the threads reach between calls, and let them
  -- move in any order, blocking in their waits and notifying. They make at most 13 * n + 8 steps.
  -- Before as well as after these, some thread can move or the call has returned, without an
  -- exception and with the whole linear layer: when no thread can move on, it has returned.
  pub hand_out-ends :
      (s : Threads F) (job : Job F) (output : List F) (t : Threads F) (k : ℕ)
      → Reached n s
      → at_rest s.state.submitter ≡ true
      → s.state.stopping ≡ false
      → IsJob job
      → length output ≡ job.output_channels
      → ThreadRun n (hand_out job output s) k t
      → (k ≤ 13 * n + 8)
        × (((u : Threads F) × ThreadStep n t u)
            ⊎ ((t.state.submitter ≡ returned job none) × IsLayer job t.state.output))
  hand_out-ends s job output t k reach free going is_job size run =
      let rest =
        IsInvariant-rest n fits s.state.submitter s.state free
          (Reach-IsInvariant n fits s.state (Reached-Reach n s reach)) in
      let (reached, count, same) =
        ThreadRun-potential (hand_out job output s) t k
          (on reach (begins job output free going is_job size)) run in
      let handed : current (hand_out job output s).state.submitter ≡ some job =
        unfold submit in refl in
      (
        omega (arith, count, hand_out-potential n fits job output s rest going),
        moves-or-returned t job t.state.submitter refl reached (same ∙ handed),
      )
