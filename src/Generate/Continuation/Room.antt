-- ===== src/Generate/Continuation/Room.antt =====
-- The room that a cached generation needs, and its executor.
use gpt2_cpu_runtime.Prelude.{
  ltb, ◌==◌, if◌then◌else◌, le→ltb, Bool-cases, gt→==, size_mod, max_size, reserve_lem, wadd_lem,
  Returns, length, is_empty, ℕ, ◌+◌, ◌-◌, ◌≤◌, ◌<◌, ◌≡◌, refl, inl, inr, Bool, true, false, not,
  ◌&&◌, none, some, arith,
}
use gpt2_cpu_runtime.Executor.{make_executor}
use gpt2_cpu_runtime.Session.State.Stages.{IsExecutor}
use gpt2_cpu_runtime.Generate.Options.{Options}
use gpt2_cpu_runtime.Generate.Loops.{required_positions, choose_executor}

-- A capacity that holds what the request consumes: the prompt and all generated tokens but the last,
-- which is consumed for the dump only. The executor has room for its workers.
pub record HasRoom (options : Options) (capacity : ℕ) : Type 0 where
  pub decoded : length options.tokens + (options.max_new_tokens - 1) ≤ capacity
  pub dumped :
      is_empty options.dump_last_logits ≡ false
      → length options.tokens + options.max_new_tokens ≤ capacity
  pub threads_le : options.threads - 1 ≤ max_size

pub required_positions_lem :
    (options : Options) (capacity : ℕ)
    → HasRoom options capacity
    → length options.tokens + options.max_new_tokens < size_mod
    → ltb capacity (required_positions options) ≡ false
unfolding required_positions
required_positions_lem options capacity room small =
    let prompt = length options.tokens in
    let count = options.max_new_tokens in
    elim (Bool-cases (count == 0)) [
      | inl nothing ↦
          rw (nothing, both_false (is_empty options.dump_last_logits))
            (rw (wadd_lem prompt 0 (omega arith)) (
              rw (wadd_lem (prompt + 0) 0 (omega arith))
                (le→ltb capacity (prompt + 0 + 0) (omega (arith, room.decoded)))))
      | inr something ↦
          let positive = ==→pos count something in
          rw something (
            rw (wadd_lem prompt (count - 1) (omega arith))
              (elim (Bool-cases (is_empty options.dump_last_logits)) [
                | inl no_dump ↦ rw no_dump (
                    rw (wadd_lem (prompt + (count - 1)) 0 (omega arith))
                      (le→ltb capacity (prompt + (count - 1) + 0) (omega (arith, room.decoded))))
                | inr dump ↦ rw dump (
                    rw (wadd_lem (prompt + (count - 1)) 1 (omega arith)) (
                      le→ltb capacity (prompt + (count - 1) + 1)
                        (omega (arith, room.dumped dump, positive))))
              ]))
    ]
  where
    both_false : (b : Bool) → (not b && false) ≡ false
    both_false true = refl
    both_false false = refl

    ==→pos : (n : ℕ) → (n == 0) ≡ false → 0 < n
    ==→pos n h = ground arith

pub choose_executor-Returns :
    (threads : ℕ)
    → 0 < threads
    → threads - 1 ≤ max_size
    → Returns (choose_executor threads) IsExecutor
unfolding choose_executor make_executor
choose_executor-Returns threads h le = elim (Bool-cases (threads == 1)) [
  | inl one ↦ rw one (none, refl, tt)
  | inr more ↦ rw (more, gt→== threads 0 h, reserve_lem (threads - 1) le) (some threads, refl, h)
]

-- How many generated tokens the session has consumed after `n` rounds.
abbrev pub consumed_after : ℕ → ℕ → ℕ
consumed_after count n = if ltb n count then n else count - 1
