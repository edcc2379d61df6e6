-- ===== src/Executor/Protocol/Signals/Simulation.antt =====
-- The threads with their waits and notifications refine the protocol: they reach only what its steps
-- reach.
use gpt2_cpu_runtime.Prelude.{ℕ, ◌≡◌, refl, sym, subst, ◌⊎◌, inl, inr}
use gpt2_cpu_runtime.Float.{Float}
use gpt2_cpu_runtime.Executor.Protocol.{
  wake, work, count_in, CallStep, helped_by, run_first, end, call, begin, shut_down, quit, Reach,
  start, later,
}
use gpt2_cpu_runtime.Executor.Protocol.Signals.{
  Threads, ThreadStep, wakes, works, counts_in, signals, blocks, announces, runs_first,
  caller_blocks, ends, moves, begins, shuts_down, quits, Reached, woken, on,
}

module _ {F : Type 0} ⦃fl : Float F⦄ (n : ℕ) where
  -- A step of a thread is one of the protocol, or changes nothing that the mutex guards.
  pub ThreadStep-CallStep :
      (s t : Threads F) → ThreadStep n s t → CallStep n s.state t.state ⊎ (t.state ≡ s.state)
  ThreadStep-CallStep s t (wakes k observed h e going new awake quiet) =
      inl (helped_by (wake k observed h e going new))
  ThreadStep-CallStep s t (works k observed job h e) = inl (helped_by (work k observed job h e))
  ThreadStep-CallStep s t (counts_in k observed error h e) =
      inl (helped_by (count_in k observed error h e))
  ThreadStep-CallStep s t (signals k h e) = inr refl
  ThreadStep-CallStep s t (blocks k observed h e going seen awake quiet) = inr refl
  ThreadStep-CallStep s t (announces e) = inr refl
  ThreadStep-CallStep s t (runs_first job e told) = inl (run_first job e)
  ThreadStep-CallStep s t (caller_blocks job error e left awake) = inr refl
  ThreadStep-CallStep s t (ends job error e all awake) = inl (end job error e all)

  -- The threads with their waits reach only what the protocol reaches.
  pub Reached-Reach : (s : Threads F) → Reached n s → Reach n s.state
  Reached-Reach s woken = start
  Reached-Reach s (on {s = r} before (moves step)) = elim (ThreadStep-CallStep r s step) [
    | inl moved ↦ later (Reached-Reach r before) (call moved)
    | inr same ↦ subst (Reach n) (sym same) (Reached-Reach r before)
  ]
  Reached-Reach s (on {s = r} before (begins job output free going is_job size)) =
      later (Reached-Reach r before) (begin job output free going is_job size)
  Reached-Reach s (on {s = r} before (shuts_down free)) =
      later (Reached-Reach r before) (shut_down free)
  Reached-Reach s (on {s = r} before (quits k observed h e stopping awake quiet)) =
      later (Reached-Reach r before) (quit k observed h e stopping)
