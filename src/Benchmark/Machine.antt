-- ===== src/Benchmark/Machine.antt =====
-- What `gpt2_benchmark` reads of the machine: `cpu_model`, on the lines of /proc/cpuinfo.
use gpt2_cpu_runtime.Prelude.{
  ltb, ◌==◌, if◌then◌else◌, Error, Result, err, ok, length, drop, ℕ, ◌+◌, Bool, true, false, ◌&&◌,
  none, some, List, [], ◌∷◌,
}
use gpt2_cpu_runtime.Text.{codes}
use gpt2_cpu_runtime.Arguments.{find}

-- line.starts_with(field)
abbrev pub starts_with : (field line : List ℕ) → Bool
starts_with [] line = true
starts_with (c ∷ field) [] = false
starts_with (c ∷ field) (d ∷ line) = d == c && starts_with field line

-- line.substr(position), which throws when the position is behind the end.
unfoldable pub substr : List ℕ → ℕ → Result (List ℕ)
substr line position =
    if ltb (length line) position
    then err (Error.out_of_range "basic_string::substr")
    else ok (drop position line)

-- A file that cannot be read has no lines.
unfoldable pub cpu_model : List (List ℕ) → Result (List ℕ)
unfolding substr
cpu_model [] = ok (codes "unavailable")
cpu_model (line ∷ lines) =
    let rest = cpu_model lines in
    if starts_with (codes "model name") line
    then elim (find b':' line) [ none ↦ ok line | some colon ↦ substr line (colon + 2) ]
    else rest
