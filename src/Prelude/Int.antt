-- ===== src/Prelude/Int.antt =====
-- `std::int32_t` token IDs, as integers.
use Prim.Native.Nat.{ℕ, ◌-◌, ◌%◌, ◌^◌}
use mathlib.Core.Bool.{Bool, true, false}
use gpt2_cpu_runtime.Prelude.Words.{size_max}
use gpt2_cpu_runtime.Prelude.Tests.{ltb, if◌then◌else◌}

-- `negsuc n` is -(n + 1).
pub data ℤ : Type 0 where
  pos : ℕ → ℤ
  negsuc : ℕ → ℤ

-- static_cast<std::size_t>(n): negative numbers wrap around.
abbrev pub to_size : ℤ → ℕ
to_size (pos n) = n
to_size (negsuc n) = size_max - n

abbrev pub is_negative : ℤ → Bool
is_negative (pos n) = false
is_negative (negsuc n) = true

-- static_cast<std::int32_t>(n): the low 32 bits, in two's complement.
abbrev pub to_int32 : ℕ → ℤ
to_int32 n =
    if ltb (n % 2 ^ 32) (2 ^ 31) then pos (n % 2 ^ 32) else negsuc (2 ^ 32 - 1 - n % 2 ^ 32)
