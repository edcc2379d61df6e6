-- ===== src/Executor/Protocol/Safety.antt =====
-- Every step keeps the invariant, so that every call returns the whole layer without an exception.
use gpt2_cpu_runtime.Prelude.{
  ◌==◌, Bool-cases, size_mod, Error, step, ℕ, suc, ◌<◌, ◌≡◌, refl, subst, inl, inr, true, Option,
  none,
}
use gpt2_cpu_runtime.Float.{Float}
use gpt2_cpu_runtime.Executor.{Job}
use gpt2_cpu_runtime.Executor.Protocol.{
  Worker, waiting, running, reporting, stopped, Submitter, idle, computing, awaiting, returned,
  State, at_rest, submit, stop, leave, Step, call, begin, shut_down, quit, Reach, start, later,
}
use gpt2_cpu_runtime.Executor.Protocol.Invariant.{IsResting, IsLayer, IsAtRest, IsInvariant}
use gpt2_cpu_runtime.Executor.Protocol.Calls.{IsCalling-submit, CallStep-IsInvariant}

module _ {F : Type 0} ⦃fl : Float F⦄ (n : ℕ) (fits : suc n < size_mod) where
  IsAtRest-leave : (s : State F) (k : ℕ) → IsAtRest n s → s.stopping ≡ true → IsAtRest n (leave k s)
  unfolding leave
  IsAtRest-leave s k rest stopping i h = elim (Bool-cases (i == k)) [
    | inl same ↦ rw same stopping
    | inr other ↦ rw other (rest i h)
  ]

  IsAtRest-stop : (s : State F) → IsAtRest n s → IsAtRest n (stop s)
  unfolding stop
  IsAtRest-stop s rest k h = from (s.workers k) (rest k h)
    where
      from : (w : Worker F) → IsResting s.generation s.stopping w → IsResting s.generation true w
      from (waiting observed) e = e
      from (running job observed) e = e
      from (reporting error observed) e = e
      from stopped e = refl

  -- The steps between calls keep the invariant.
  pub IsInvariant-rest :
      (sub : Submitter F) (s : State F) → at_rest sub ≡ true → IsInvariant n sub s → IsAtRest n s
  IsInvariant-rest idle s free rest = rest
  IsInvariant-rest (returned job error) s free (_, layer, rest) = rest
  IsInvariant-rest (computing job) s free now = absurd (cc)
  IsInvariant-rest (awaiting job error) s free now = absurd (cc)

  stop-IsInvariant :
      (sub : Submitter F) (s : State F)
      → at_rest sub ≡ true
      → IsInvariant n sub s
      → IsInvariant n sub (stop s)
  stop-IsInvariant idle s free rest = IsAtRest-stop s rest
  stop-IsInvariant (returned job error) s free (fine, layer, rest) =
      (fine, unfold stop in layer, IsAtRest-stop s rest)
  stop-IsInvariant (computing job) s free now = absurd (cc)
  stop-IsInvariant (awaiting job error) s free now = absurd (cc)

  leave-IsInvariant :
      (sub : Submitter F) (s : State F) (k : ℕ)
      → s.stopping ≡ true
      → IsInvariant n sub s
      → IsInvariant n sub (leave k s)
  leave-IsInvariant idle s k stopping rest = IsAtRest-leave s k rest stopping
  leave-IsInvariant (returned job error) s k stopping (fine, layer, rest) =
      (fine, unfold leave in layer, IsAtRest-leave s k rest stopping)
  leave-IsInvariant (computing job) s k stopping now = let going = now.going in absurd (cc)
  leave-IsInvariant (awaiting job error) s k stopping (fine, now) =
      let going = now.going in absurd (cc)

  Step-IsInvariant :
      (s t : State F) → IsInvariant n s.submitter s → Step n s t → IsInvariant n t.submitter t
  unfolding submit stop leave
  Step-IsInvariant s t now (call step) = CallStep-IsInvariant n fits s t s.submitter refl now step
  Step-IsInvariant s t now (begin job output free going is_job size) =
      IsCalling-submit n fits job output s is_job size going
        (IsInvariant-rest s.submitter s free now)
  Step-IsInvariant s t now (shut_down free) = stop-IsInvariant s.submitter s free now
  Step-IsInvariant s t now (quit k observed h e stopping) =
      leave-IsInvariant s.submitter s k stopping now

  -- Every state that the threads reach, in whatever order they move, is one of the invariant: a
  -- worker of a call works on that call's job, once, and nobody works between calls.
  pub Reach-IsInvariant : (s : State F) → Reach n s → IsInvariant n s.submitter s
  Reach-IsInvariant s start = λ k h. refl
  Reach-IsInvariant s (later {s = r} before step) =
      Step-IsInvariant r s (Reach-IsInvariant r before) step

  -- A call of `linear` that has returned, after any earlier calls and any order of the steps of its
  -- threads, has thrown nothing, and its output is the whole linear layer of its job.
  pub Reach-returned :
      (s : State F) (job : Job F) (error : Option Error)
      → Reach n s
      → s.submitter ≡ returned job error
      → (error ≡ none) × IsLayer job s.output
  Reach-returned s job error reach e =
      let (fine, layer, _) = subst (λ sub. IsInvariant n sub s) e (Reach-IsInvariant s reach) in
      (fine, layer)
