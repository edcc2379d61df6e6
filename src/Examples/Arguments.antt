-- ===== src/Examples/Arguments.antt =====
-- Texts that the parsers read.
use gpt2_cpu_runtime.Prelude.{
  size_mod, ok, length, is_empty, ◌<◌, ◌≡◌, ◌↔◌, false, List, [], ◌∷◌, ◌++◌, arith,
}
use gpt2_cpu_runtime.Prelude.Int.{ℤ, pos, negsuc}
use gpt2_cpu_runtime.Text.{codes, value_from}
use gpt2_cpu_runtime.Text.Print.{AreDigits}
use gpt2_cpu_runtime.Arguments.{parse_size, parse_tokens}
use gpt2_cpu_runtime.Arguments.Tokens.{parse_size_iff, AllInt32, parse_tokens-AllInt32}
use gpt2_cpu_runtime.Arguments.Tokens.RoundTrip.{
  print_tokens, parse_tokens-print_tokens, parse_tokens-trailing,
}
use gpt2_cpu_runtime.Arguments.Tokens.Termination.{Ends, parse_tokens-Ends}

parse_size_iff_example : (parse_size (codes "42") ≡ ok 42) ↔ (
    AreDigits (codes "42")
    × (is_empty (codes "42") ≡ false)
    × (value_from 0 (codes "42") ≡ 42)
    × (42 < size_mod))
parse_size_iff_example = parse_size_iff (codes "42") 42

abbrev tokens : List ℤ
tokens = pos 15496 ∷ negsuc 0 ∷ []

tokens-AllInt32 : AllInt32 tokens
tokens-AllInt32 = (omega arith, (omega arith, tt))

parse_tokens-print_tokens_example : parse_tokens (print_tokens tokens) ≡ ok tokens
parse_tokens-print_tokens_example = parse_tokens-print_tokens tokens tokens-AllInt32 (omega arith)

tokens_read : parse_tokens (print_tokens tokens) ≡ ok tokens
tokens_read = parse_tokens-print_tokens tokens tokens-AllInt32 (omega arith)

parse_tokens-AllInt32_example : (0 < length tokens) × AllInt32 tokens
parse_tokens-AllInt32_example = parse_tokens-AllInt32 (print_tokens tokens) tokens tokens_read

parse_tokens-trailing_example : parse_tokens (print_tokens tokens ++ (b',' ∷ [])) ≡ ok tokens
parse_tokens-trailing_example = parse_tokens-trailing tokens tokens-AllInt32 (omega arith)

parse_tokens-Ends_example : Ends (parse_tokens (codes "1,,2"))
parse_tokens-Ends_example = parse_tokens-Ends (codes "1,,2")
