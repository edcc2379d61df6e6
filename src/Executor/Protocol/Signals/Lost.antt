-- ===== src/Executor/Protocol/Signals/Lost.antt =====
-- No wake-up is lost: who is blocked has nothing to do, or will be notified.
use gpt2_cpu_runtime.Prelude.{
  ◌==◌, Bool-cases, Result, err, ok, ℕ, suc, ◌<◌, ◌≡◌, refl, sym, ap, ◌∙◌, subst, ◌⊎◌, inl, inr,
  Bool, true, false, List, arith,
}
use gpt2_cpu_runtime.Float.{Float}
use gpt2_cpu_runtime.Executor.{run_shard}
use gpt2_cpu_runtime.Executor.Protocol.{
  Worker, waiting, running, reporting, stopped, Submitter, idle, computing, awaiting, returned,
  update, at_rest, submit, fetch, worker_done, caller_done, report, finish, stop, leave,
}
use gpt2_cpu_runtime.Executor.Protocol.Moves.{update_self, update_other}
use gpt2_cpu_runtime.Executor.Protocol.Signals.{
  Threads, ThreadStep, wakes, works, counts_in, signals, blocks, announces, runs_first,
  caller_blocks, ends, AnyStep, moves, begins, shuts_down, quits, Reached, woken, on,
}

-- A worker whose condition is false.
abbrev pub IsIdle : {F : Type 0} → ℕ → Bool → Worker F → Type 0
IsIdle generation stopping (waiting observed) =
    ((generation == observed) ≡ true) × (stopping ≡ false)
IsIdle generation stopping (running job observed) = ⊥
IsIdle generation stopping (reporting error observed) = ⊥
IsIdle generation stopping stopped = ⊥

abbrev pub IsAwaiting : {F : Type 0} → Submitter F → Type 0
IsAwaiting idle = ⊥
IsAwaiting (computing job) = ⊥
IsAwaiting (awaiting job error) = Unit
IsAwaiting (returned job error) = ⊥

awake-held : (asleep announcing : Bool) → asleep ≡ false → asleep ≡ true → announcing ≡ true
awake-held asleep announcing awake sleeping = absurd (cc)

module _ {F : Type 0} ⦃fl : Float F⦄ (n : ℕ) where
  abbrev pub AreHeld :
      (announcing : Bool) (generation : ℕ) (stopping : Bool) (asleep : ℕ → Bool)
      (workers : ℕ → Worker F)
      → Type 0
  AreHeld announcing generation stopping asleep workers =
      (k : ℕ)
      → k < n
      → asleep k ≡ true
      → (announcing ≡ true) ⊎ IsIdle generation stopping (workers k)

  pub record HasNoLost (s : Threads F) : Type 0 where
    pub held : AreHeld s.announcing s.state.generation s.state.stopping s.asleep s.state.workers
    pub caller_held :
        s.caller_asleep ≡ true
        → IsAwaiting s.state.submitter
          × (((s.state.completed == n) ≡ false) ⊎ ((k : ℕ) × (k < n) × (s.signalling k ≡ true)))

  -- One worker moves on, which is not blocked, or is about to be notified.
  AreHeld-update :
      (a : Bool) (g : ℕ) (st : Bool) (asleep : ℕ → Bool) (ws : ℕ → Worker F) (k : ℕ) (w : Worker F)
      → AreHeld a g st asleep ws
      → (asleep k ≡ true → a ≡ true)
      → AreHeld a g st asleep (update ws k w)
  AreHeld-update a g st asleep ws k w all here i h sleeping = elim (Bool-cases (i == k)) [
    | inl same ↦ let e : i ≡ k = ground arith in inl (here (ap asleep (sym e) ∙ sleeping))
    | inr other ↦
        subst (λ x. (a ≡ true) ⊎ IsIdle g st x) (sym (update_other ws k i w other))
          (all i h sleeping)
  ]

  -- A worker that is at work is blocked in no wait.
  busy-held :
      (a : Bool) (g : ℕ) (st b : Bool) (w : Worker F)
      → (b ≡ true → (a ≡ true) ⊎ IsIdle g st w)
      → (IsIdle g st w → ⊥)
      → b ≡ true
      → a ≡ true
  busy-held a g st b w all busy sleeping = elim (all sleeping) [
    | inl soon ↦ soon
    | inr quiet ↦ absurd (busy quiet)
  ]

  free-awaiting : (sub : Submitter F) → at_rest sub ≡ true → IsAwaiting sub → ⊥
  free-awaiting idle e h = h
  free-awaiting (computing job) e h = h
  free-awaiting (awaiting job error) e h = absurd (cc)
  free-awaiting (returned job error) e h = h

  pub ThreadStep-HasNoLost : (s t : Threads F) → HasNoLost s → ThreadStep n s t → HasNoLost t
  ThreadStep-HasNoLost s t old (wakes k observed h e going new awake quiet) =
      unfold fetch in
      record {
        held =
            AreHeld-update s.announcing s.state.generation s.state.stopping s.asleep s.state.workers
              k (running s.state.job s.state.generation) old.held
              (awake-held (s.asleep k) s.announcing awake);
        caller_held = old.caller_held;
      }
  ThreadStep-HasNoLost s t old (works k observed job h e) =
      ran (run_shard (suc n) job (suc k) s.state.output)
    where
      none_asleep : s.asleep k ≡ true → s.announcing ≡ true
      none_asleep =
          busy-held s.announcing s.state.generation s.state.stopping (s.asleep k)
            (s.state.workers k) (old.held k h)
            λ quiet. subst (IsIdle s.state.generation s.state.stopping) e quiet

      ran :
          (r : Result (List F)) → HasNoLost (record s { state = worker_done k observed r s.state })
      ran (ok out) =
          unfold worker_done in
          record {
            held = AreHeld-update _ _ _ s.asleep s.state.workers k _ old.held none_asleep;
            caller_held = old.caller_held;
          }
      ran (err x) =
          unfold worker_done in
          record {
            held = AreHeld-update _ _ _ s.asleep s.state.workers k _ old.held none_asleep;
            caller_held = old.caller_held;
          }
  ThreadStep-HasNoLost s t old (counts_in k observed error h e) =
      unfold report in
      record {
        held =
            AreHeld-update s.announcing s.state.generation s.state.stopping s.asleep s.state.workers
              k (waiting observed) old.held
              (busy-held s.announcing s.state.generation s.state.stopping (s.asleep k)
                (s.state.workers k) (old.held k h)
                λ quiet. subst (IsIdle s.state.generation s.state.stopping) e quiet);
        caller_held =
            λ sleeping. ((old.caller_held sleeping).0, inr (k, h, update_self s.signalling k true));
      }
  ThreadStep-HasNoLost s t old (signals k h e) = record {
    held = old.held;
    caller_held = λ sleeping. absurd (cc);
  }
  ThreadStep-HasNoLost s t old (blocks k observed h e going seen awake quiet) = record {
    held = λ i l sleeping. elim (Bool-cases (i == k)) [
      | inl same ↦
          let at : i ≡ k = ground arith in
          inr (
            subst (IsIdle s.state.generation s.state.stopping) (sym (ap s.state.workers at ∙ e))
              (seen, going))
      | inr other ↦ old.held i l (sym (update_other s.asleep k i true other) ∙ sleeping)
    ];
    caller_held = old.caller_held;
  }
  ThreadStep-HasNoLost s t old (announces e) = record {
    held = λ k h sleeping. absurd (cc);
    caller_held = old.caller_held;
  }
  ThreadStep-HasNoLost s t old (runs_first job e told) =
      ran (run_shard (suc n) job 0 s.state.output)
    where
      up : s.caller_asleep ≡ true → ⊥
      up sleeping = subst IsAwaiting e (old.caller_held sleeping).0

      ran : (r : Result (List F)) → HasNoLost (record s { state = caller_done job r s.state })
      ran (ok out) =
          unfold caller_done in
          record { held = old.held; caller_held = λ sleeping. absurd (up sleeping) }
      ran (err x) =
          unfold caller_done in
          record { held = old.held; caller_held = λ sleeping. absurd (up sleeping) }
  ThreadStep-HasNoLost s t old (caller_blocks job error e left awake) = record {
    held = old.held;
    caller_held = λ sleeping. (subst IsAwaiting (sym e) tt, inl left);
  }
  ThreadStep-HasNoLost s t old (ends job error e all awake) =
      unfold finish in record { held = old.held; caller_held = λ sleeping. absurd (cc) }

  pub AnyStep-HasNoLost : (s t : Threads F) → HasNoLost s → AnyStep n s t → HasNoLost t
  AnyStep-HasNoLost s t old (moves step) = ThreadStep-HasNoLost s t old step
  AnyStep-HasNoLost s t old (begins job output free going is_job size) =
      unfold submit in
      record {
        held = λ k h sleeping. inl refl;
        caller_held =
            λ sleeping. absurd (free-awaiting s.state.submitter free (old.caller_held sleeping).0);
      }
  AnyStep-HasNoLost s t old (shuts_down free) =
      unfold stop in record { held = λ k h sleeping. inl refl; caller_held = old.caller_held }
  AnyStep-HasNoLost s t old (quits k observed h e stopping awake quiet) =
      unfold leave in
      record {
        held =
            AreHeld-update s.announcing s.state.generation s.state.stopping s.asleep s.state.workers
              k stopped old.held (awake-held (s.asleep k) s.announcing awake);
        caller_held = old.caller_held;
      }

  -- Nobody who has something to do is blocked without a notification to come, in any order of steps.
  pub Reached-HasNoLost : (s : Threads F) → Reached n s → HasNoLost s
  Reached-HasNoLost s woken = record {
    held = λ k h sleeping. absurd (cc);
    caller_held = λ sleeping. absurd (cc);
  }
  Reached-HasNoLost s (on {s = r} before step) =
      AnyStep-HasNoLost r s (Reached-HasNoLost r before) step
