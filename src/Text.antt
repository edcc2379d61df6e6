-- ===== src/Text.antt =====
-- Text as the programs walk it: a list of character codes. `std::from_chars` for base ten.
pub mod Print
use Prim.Native.Char.{code}
use Prim.Native.String.{String}
use gpt2_cpu_runtime.Prelude.{
  leb, ◌==◌, if◌then◌else◌, size_max, is_empty, ℕ, zero, suc, ◌+◌, ◌-◌, ◌*◌, ◌^◌, Bool, ◌&&◌, List,
  [], ◌∷◌,
}
use gpt2_cpu_runtime.Prelude.Int.{ℤ, pos, negsuc}

abbrev pub codes : String → List ℕ
codes String.[] = []
codes (String.◌∷◌ c s) = code c ∷ codes s

abbrev pub is_digit : ℕ → Bool
is_digit c = leb b'0' c && leb c b'9'

-- The digits at the head of a text, and what follows them.
unfoldable pub span_digits : List ℕ → List ℕ × List ℕ
span_digits [] = ([], [])
span_digits (c ∷ s) =
    let (ds, rest) = span_digits s in if is_digit c then (c ∷ ds, rest) else ([], c ∷ s)

-- The number that digits spell behind `n`, with no bound.
unfoldable pub value_from : ℕ → List ℕ → ℕ
value_from n [] = n
value_from n (c ∷ s) = value_from (n * 10 + (c - b'0')) s

-- What `std::from_chars` reports: `ec` where it is set, or the number and the text from `ptr` on.
pub data FromChars (A : Type 0) : Type 0 where
  invalid : FromChars A
  result_out_of_range : FromChars A
  parsed : A → List ℕ → FromChars A

-- An unsigned number up to `limit`.
unfoldable pub from_digits : ℕ → List ℕ → FromChars ℕ
from_digits limit text =
    let (ds, rest) = span_digits text in
    if is_empty ds
    then invalid
    else if leb (value_from 0 ds) limit
    then parsed (value_from 0 ds) rest
    else result_out_of_range

unfoldable pub from_chars_size : List ℕ → FromChars ℕ
from_chars_size = from_digits size_max

abbrev pub negate : ℕ → ℤ
negate zero = pos 0
negate (suc n) = negsuc n

abbrev pub with_sign : (ℕ → ℤ) → FromChars ℕ → FromChars ℤ
with_sign sign invalid = invalid
with_sign sign result_out_of_range = result_out_of_range
with_sign sign (parsed n rest) = parsed (sign n) rest

-- `std::int32_t`: a minus sign is read, a plus sign is not.
unfoldable pub from_chars_int32 : List ℕ → FromChars ℤ
from_chars_int32 [] = invalid
from_chars_int32 (c ∷ s) =
    if c == b'-'
    then with_sign negate (from_digits (2 ^ 31) s)
    else with_sign pos (from_digits (2 ^ 31 - 1) (c ∷ s))
