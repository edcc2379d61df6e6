-- ===== src/Exit.antt =====
-- How the programs end (app/*.cpp: what their `main` functions return and print).
use gpt2_cpu_runtime.Prelude.{Error, Result, err, ok, Option, none, some}

-- The usage and status 0 or 2, the output and status 0, or an error message and status 1.
pub data Exit (T : Type 0) : Type 0 where
  helped : Exit T
  misused : Exit T
  success : T → Exit T
  failure : Error → Exit T

-- The `try` block of `main` with its handler.
abbrev pub exit_of : {T : Type 0} → Result T → Exit T
exit_of (ok out) = success out
exit_of (err thrown) = failure thrown

-- The same behind the parsing of the command line, which may end the program.
abbrev pub run_options : {O T : Type 0} → (O → Result T) → Result (Option O) → Exit T
run_options run (ok none) = helped
run_options run (ok (some options)) = exit_of (run options)
run_options run (err thrown) = failure thrown
