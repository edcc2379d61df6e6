-- ===== src/Prelude/Words.antt =====
-- `std::size_t` is a number below 2^64: its sums and products wrap around.
use Prim.Native.Nat.{ℕ, zero, suc, ◌+◌, ◌*◌, ◌-◌, ◌/◌, ◌%◌, ◌^◌, ◌<◌, ◌≤◌}
use mathlib.Core.Path.{◌≡◌}
use native.Mathlib.Omega.{arith}
use native.Mathlib.Nat.{mod-eq_of_lt, div-add-mod}

abbrev pub size_mod : ℕ
size_mod = 2 ^ 64

-- `std::numeric_limits<std::size_t>::max()`.
abbrev pub size_max : ℕ
size_max = size_mod - 1

-- std::numeric_limits<std::streamsize>::max()
abbrev pub streamsize_max : ℕ
streamsize_max = 2 ^ 63 - 1

-- The `max_size()` of a `std::vector` of elements of eight bytes, `double` or `std::thread`, in the
-- standard library of GCC.
abbrev pub max_size : ℕ
max_size = (2 ^ 63 - 1) / 8

unfoldable pub wadd : ℕ → ℕ → ℕ
wadd a b = (a + b) % size_mod

unfoldable pub wmul : ℕ → ℕ → ℕ
wmul a b = (a * b) % size_mod

pub wadd_lem : (a b : ℕ) → a + b < size_mod → wadd a b ≡ a + b
unfolding wadd
wadd_lem a b h = mod-eq_of_lt h

pub wmul_lem : (a b : ℕ) → a * b < size_mod → wmul a b ≡ a * b
unfolding wmul
wmul_lem a b h = mod-eq_of_lt h

-- Entry `o` of row `r` lies before the end of `rows` rows of `n` entries.
pub row_end : (r rows o n : ℕ) → r < rows → o < n → r * n + o < rows * n
row_end r rows o n h k = grind arith

pub row_span : (r rows n : ℕ) → r < rows → r * n + n ≤ rows * n
row_span r rows n h = grind arith

-- Where the last row of a matrix starts.
pub last_start :
    (rows size total : ℕ) → 0 < rows → total ≡ rows * size → total - size ≡ (rows - 1) * size
last_start zero size total h e = absurd (omega arith)
last_start (suc rows) size total h e =
    let m : suc rows - 1 ≡ rows = omega arith in
    let s : suc rows * size ≡ rows * size + size = grind arith in rw m (omega (arith, s))

-- A whole number of heads fills the channels.
pub heads_fill : (channels heads : ℕ) → channels % heads ≡ 0 → heads * (channels / heads) ≡ channels
heads_fill channels heads h = omega (arith, div-add-mod channels heads)

pub le-mul_of_pos : (a n : ℕ) → 0 < n → a ≤ a * n
le-mul_of_pos a n h = grind arith

pub mul-le : (a b n : ℕ) → a ≤ b → a * n ≤ b * n
mul-le a b n h = grind arith
