-- ===== src/Arguments.antt =====
-- The parsers that the command-line programs share: `parse_size` and `parse_tokens`
-- (app/gpt2_generate.cpp, and again in app/gpt2_benchmark.cpp).
pub mod Tokens
use Prim.Native.String.{String}
use mathlib.Core.Option
use gpt2_cpu_runtime.Prelude.{
  ◌==◌, if◌then◌else◌, Error, Result, err, ok, ◌>>=◌, guard, ◌>>◌, length, take, drop, is_empty, ℕ,
  zero, suc, not, Option, none, some, List, [], ◌∷◌, ◌++◌,
}
use gpt2_cpu_runtime.Prelude.Int.{ℤ}
use gpt2_cpu_runtime.Text.{
  FromChars, invalid, result_out_of_range, parsed, from_chars_size, from_chars_int32,
}

-- result.ec != std::errc{} || result.ptr != text.data() + text.size()
unfoldable pub whole : {A : Type 0} → String → FromChars A → Result A
whole message (parsed value []) = ok value
whole message (parsed value (c ∷ s)) = err (Error.invalid_argument message)
whole message invalid = err (Error.invalid_argument message)
whole message result_out_of_range = err (Error.invalid_argument message)

unfoldable pub parse_size : List ℕ → Result ℕ
unfolding whole
parse_size text = whole "invalid value for " (from_chars_size text)

-- text.find(character)
unfoldable pub find : ℕ → List ℕ → Option ℕ
find character [] = none
find character (c ∷ s) = if c == character then some 0 else Option.map suc (find character s)

-- text.substr(0, comma), where `none` is `npos`.
unfoldable pub head_item : Option ℕ → List ℕ → List ℕ
head_item none text = text
head_item (some comma) text = take comma text

unfoldable pub parse_token : List ℕ → Result ℤ
unfolding whole
parse_token item = whole "--tokens contains an invalid token ID" (from_chars_int32 item)

-- The loop of `parse_tokens`. Without fuel it faults.
unfoldable pub parse_items : ℕ → List ℕ → List ℤ → Result (List ℤ)
unfolding head_item parse_token
parse_items fuel [] tokens = ok tokens
parse_items zero (c ∷ s) tokens = err Error.fault
parse_items (suc fuel) (c ∷ s) tokens = do
  let text = c ∷ s
  let comma = find b',' text
  let item = head_item comma text
  guard (not (is_empty item)) (Error.invalid_argument "--tokens contains an empty token ID")
  token ← parse_token item
  let tokens' = tokens ++ (token ∷ [])
  elim comma [ none ↦ ok tokens' | some k ↦ parse_items fuel (drop (suc k) text) tokens' ]

-- Each round takes a character at least, so that `length text` rounds are enough.
unfoldable pub parse_tokens : List ℕ → Result (List ℤ)
unfolding parse_items
parse_tokens text = do
  tokens ← parse_items (length text) text []
  guard (not (is_empty tokens))
      (Error.invalid_argument "--tokens must contain at least one token ID")
  ok tokens
