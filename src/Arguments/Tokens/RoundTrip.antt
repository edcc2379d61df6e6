-- ===== src/Arguments/Tokens/RoundTrip.antt =====
-- `parse_tokens` reads back a comma-separated print.
use mathlib.Core.List.{append-nil, append_assoc}
use mathlib.Core.Option
use gpt2_cpu_runtime.Prelude.{
  ltb, ◌==◌, if◌then◌else◌, Bool-cases, ok, length, take, drop, length-append, is_empty_lem, ℕ,
  zero, suc, ◌+◌, ◌/◌, ◌%◌, ◌≤◌, ◌<◌, ◌≡◌, refl, ap, ◌∙◌, inl, inr, false, Option, none, some, List,
  [], ◌∷◌, ◌++◌, arith,
}
use gpt2_cpu_runtime.Prelude.Int.{ℤ, pos, negsuc}
use gpt2_cpu_runtime.Text.{parsed, from_chars_int32}
use gpt2_cpu_runtime.Text.Print.{
  digits_of, print_size, print_int, AreDigits, digits_of-AreDigits, IsInt32,
  from_chars_int32-print_int,
}
use gpt2_cpu_runtime.Arguments.{whole, find, parse_token, parse_items, parse_tokens}
use gpt2_cpu_runtime.Arguments.Tokens.{AllInt32}

-- The tokens with commas between them, as the benchmark prints them, and a text behind them.
unfoldable pub spell : List ℤ → List ℕ → List ℕ
spell [] end = end
spell (t ∷ []) end = print_int t ++ end
spell (t ∷ u ∷ ts) end = print_int t ++ (b',' ∷ spell (u ∷ ts) end)

unfoldable pub print_tokens : List ℤ → List ℕ
unfolding spell
print_tokens tokens = spell tokens []

find-AreDigits : (s : List ℕ) → AreDigits s → find b',' s ≡ none
unfolding find
find-AreDigits [] h = refl
find-AreDigits (c ∷ s) (hc, h) =
    let other : (c == b',') ≡ false = ground arith in rw (other, find-AreDigits s h)

find-print_int : (t : ℤ) → find b',' (print_int t) ≡ none
unfolding print_int print_size find
find-print_int (pos n) = find-AreDigits (digits_of 20 n) (digits_of-AreDigits 20 n)
find-print_int (negsuc n) =
    rw (find-AreDigits (digits_of 20 (suc n)) (digits_of-AreDigits 20 (suc n)))

find-append :
    (s rest : List ℕ) → find b',' s ≡ none → find b',' (s ++ (b',' ∷ rest)) ≡ some (length s)
unfolding find
find-append [] rest h = refl
find-append (c ∷ s) rest h = elim (Bool-cases (c == b',')) [
  | inl here ↦ let h' : ◌≡◌ {A = Option ℕ} (some 0) none = rw here at h in absurd (cc)
  | inr other ↦
      let h' : Option.map suc (find b',' s) ≡ none = rw other at h in
      rw (other, find-append s rest (unmapped (find b',' s) h'))
]
  where
    unmapped : (o : Option ℕ) → Option.map suc o ≡ none → o ≡ none
    unmapped none e = refl
    unmapped (some k) e = absurd (cc)

take-length : (s rest : List ℕ) → take (length s) (s ++ rest) ≡ s
take-length [] rest = refl
take-length (c ∷ s) rest = ap (◌∷◌ c) (take-length s rest)

drop-length : (s : List ℕ) (c : ℕ) (rest : List ℕ) → drop (suc (length s)) (s ++ (c ∷ rest)) ≡ rest
drop-length [] c rest = refl
drop-length (d ∷ s) c rest = drop-length s c rest

length-print_int : (t : ℤ) → 0 < length (print_int t)
unfolding print_int print_size digits_of
length-print_int (pos n) =
    omega
      (arith, length-append (if ltb n 10 then [] else digits_of 19 (n / 10)) ((b'0' + n % 10) ∷ []))
length-print_int (negsuc n) = omega arith

parse_token-print_int : (t : ℤ) → IsInt32 t → parse_token (print_int t) ≡ ok t
unfolding parse_token
parse_token-print_int t h =
    let read = from_chars_int32-print_int t [] h tt in
    let read' : from_chars_int32 (print_int t) ≡ parsed t [] =
      rw (append-nil (print_int t)) at read in
    rw (read', whole)

-- A round on an item that is the last, and on one that a comma follows.
items_last :
    (fuel : ℕ) (s : List ℕ) (t : ℤ) (tokens : List ℤ)
    → 0 < length s
    → find b',' s ≡ none
    → parse_token s ≡ ok t
    → parse_items (suc fuel) s tokens ≡ ok (tokens ++ (t ∷ []))
unfolding parse_items
items_last fuel [] t tokens h e r = absurd (omega arith)
items_last fuel (c ∷ s) t tokens h e r = rw (e, r)

items_comma :
    (fuel : ℕ) (s rest : List ℕ) (t : ℤ) (tokens : List ℤ)
    → 0 < length s
    → find b',' s ≡ none
    → parse_token s ≡ ok t
    → parse_items (suc fuel) (s ++ (b',' ∷ rest)) tokens
      ≡ parse_items fuel rest (tokens ++ (t ∷ []))
unfolding parse_items
items_comma fuel [] rest t tokens h e r = absurd (omega arith)
items_comma fuel (c ∷ s) rest t tokens h e r = rw (
  find-append (c ∷ s) rest e,
  take-length (c ∷ s) (b',' ∷ rest),
  r,
  drop-length (c ∷ s) b',' rest,
)

-- The text behind the last token: nothing, or a comma.
data IsTrail : List ℕ → Type 0 where
  nothing : IsTrail []
  comma : IsTrail (b',' ∷ [])

parse_items-spell :
    (fuel : ℕ) (ts before : List ℤ) (trail : List ℕ)
    → IsTrail trail
    → AllInt32 ts
    → length ts ≤ fuel
    → 0 < length ts
    → parse_items fuel (spell ts trail) before ≡ ok (before ++ ts)
unfolding spell parse_items
parse_items-spell fuel [] before trail is_trail h room some_token = absurd (omega arith)
parse_items-spell zero (t ∷ ts) before trail is_trail h room some_token = absurd (omega arith)
parse_items-spell (suc fuel) (t ∷ []) before trail nothing (ht, h) room some_token =
    rw (append-nil (print_int t)) (
      items_last fuel (print_int t) t before (length-print_int t) (find-print_int t)
        (parse_token-print_int t ht))
parse_items-spell (suc fuel) (t ∷ []) before trail comma (ht, h) room some_token =
    items_comma fuel (print_int t) [] t before (length-print_int t) (find-print_int t)
      (parse_token-print_int t ht)
parse_items-spell (suc fuel) (t ∷ u ∷ ts) before trail is_trail (ht, h) room some_token =
    items_comma fuel (print_int t) (spell (u ∷ ts) trail) t before (length-print_int t)
      (find-print_int t) (parse_token-print_int t ht)
    ∙ parse_items-spell fuel (u ∷ ts) (before ++ (t ∷ [])) trail is_trail h (omega arith)
        (omega arith)
    ∙ ap ok (append_assoc before (t ∷ []) (u ∷ ts))

length-le-spell : (ts : List ℤ) (trail : List ℕ) → length ts ≤ length (spell ts trail)
unfolding spell
length-le-spell [] trail = omega arith
length-le-spell (t ∷ []) trail =
    omega (arith, length-append (print_int t) trail, length-print_int t)
length-le-spell (t ∷ u ∷ ts) trail = omega (
  arith,
  length-append (print_int t) (b',' ∷ spell (u ∷ ts) trail),
  length-le-spell (u ∷ ts) trail,
)

spell-append : (ts : List ℤ) (trail : List ℕ) → spell ts [] ++ trail ≡ spell ts trail
unfolding spell
spell-append [] trail = refl
spell-append (t ∷ []) trail = rw (append-nil (print_int t))
spell-append (t ∷ u ∷ ts) trail =
    append_assoc (print_int t) (b',' ∷ spell (u ∷ ts) []) trail
    ∙ ap (λ (r : List ℕ). print_int t ++ (b',' ∷ r)) (spell-append (u ∷ ts) trail)

parse_tokens-spell :
    (ts : List ℤ) (trail : List ℕ)
    → IsTrail trail
    → AllInt32 ts
    → 0 < length ts
    → parse_tokens (spell ts trail) ≡ ok ts
unfolding parse_tokens
parse_tokens-spell ts trail is_trail h some_token = rw (
  parse_items-spell (length (spell ts trail)) ts [] trail is_trail h (length-le-spell ts trail)
      some_token,
  is_empty_lem ts some_token,
)

-- The comma-separated print of a nonempty list of 32-bit tokens is read back as that list.
pub parse_tokens-print_tokens :
    (ts : List ℤ) → AllInt32 ts → 0 < length ts → parse_tokens (print_tokens ts) ≡ ok ts
unfolding print_tokens
parse_tokens-print_tokens ts h some_token = parse_tokens-spell ts [] nothing h some_token

-- A comma behind the last token of such a print is accepted and ignored, although an empty token is
-- refused everywhere else.
pub parse_tokens-trailing :
    (ts : List ℤ)
    → AllInt32 ts
    → 0 < length ts
    → parse_tokens (print_tokens ts ++ (b',' ∷ [])) ≡ ok ts
unfolding print_tokens
parse_tokens-trailing ts h some_token =
    rw (spell-append ts (b',' ∷ [])) (parse_tokens-spell ts (b',' ∷ []) comma h some_token)
