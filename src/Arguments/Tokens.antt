-- ===== src/Arguments/Tokens.antt =====
-- What `parse_size` and `parse_tokens` accept.
pub mod RoundTrip
pub mod Termination
use Prim.Native.String.{String}
use mathlib.Core.List.{append-nil}
use gpt2_cpu_runtime.Prelude.{
  leb, ◌==◌, Bool-cases, leb→le, Option-cases, size_mod, size_max, ok, guard, >>=-eq-ok,
  guard-eq-ok, length, drop, is_empty, ℕ, zero, suc, ◌-◌, ◌^◌, ◌≤◌, ◌<◌, ◌≡◌, refl, sym, ap, ◌∙◌,
  ◌↔◌, inl, inr, true, false, not, List, [], ◌∷◌, ◌++◌, arith,
}
use gpt2_cpu_runtime.Text.{
  is_digit, span_digits, value_from, FromChars, invalid, result_out_of_range, parsed, from_digits,
  from_chars_size, negate, with_sign, from_chars_int32,
}
use gpt2_cpu_runtime.Text.Print.{AreDigits, from_digits-AreDigits, IsInt32}
use gpt2_cpu_runtime.Arguments.{
  whole, parse_size, find, head_item, parse_token, parse_items, parse_tokens,
}
use gpt2_cpu_runtime.Prelude.Int.{ℤ, pos}

-- The digits at the head of a text, and what follows them, make up the text.
span_digits_sound :
    (s : List ℕ) → ((span_digits s).0 ++ (span_digits s).1 ≡ s) × AreDigits (span_digits s).0
unfolding span_digits
span_digits_sound [] = (refl, tt)
span_digits_sound (c ∷ s) = elim (Bool-cases (is_digit c)) [
  | inl digit ↦ let (e, h) = span_digits_sound s in rw digit (ap (◌∷◌ c) e, (digit, h))
  | inr other ↦ rw other (refl, tt)
]

-- A number that is read stays within the limit, and its digits spell it.
pub from_digits_sound :
    (limit n : ℕ) (s rest : List ℕ)
    → from_digits limit s ≡ parsed n rest
    → (ds : List ℕ) × (ds ++ rest ≡ s)
      × AreDigits ds
      × (is_empty ds ≡ false)
      × (value_from 0 ds ≡ n)
      × (n ≤ limit)
unfolding from_digits
from_digits_sound limit n s rest h =
    let (e, digits) = span_digits_sound s in
    let ds = (span_digits s).0 in
    let tail = (span_digits s).1 in
    let v = value_from 0 ds in
    elim (Bool-cases (is_empty ds)) [
      | inl empty ↦
          let h' : ◌≡◌ {A = FromChars ℕ} invalid (parsed n rest) = rw empty at h in absurd (cc)
      | inr some_digit ↦ elim (Bool-cases (leb v limit)) [
        | inl small ↦
            let h' : ◌≡◌ {A = FromChars ℕ} (parsed v tail) (parsed n rest) =
              rw (some_digit, small) at h in
            let ev : v ≡ n = cc in
            let er : tail ≡ rest = cc in
            (ds, rw (← er) e, digits, some_digit, ev, rw (← ev) (leb→le v limit small))
        | inr large ↦
            let h' : ◌≡◌ {A = FromChars ℕ} result_out_of_range (parsed n rest) =
              rw (some_digit, large) at h in
            absurd (cc)
      ]
    ]

-- What is accepted is a number that ends with the text.
whole_sound :
    {A : Type 0} (message : String) (r : FromChars A) (n : A)
    → whole message r ≡ ok n
    → r ≡ parsed n []
unfolding whole
whole_sound message invalid n h = cc
whole_sound message result_out_of_range n h = cc
whole_sound message (parsed v []) n h = cc
whole_sound message (parsed v (c ∷ s)) n h = cc

-- `parse_size` accepts a text exactly when it is one digit or more that spell a number that a
-- `std::size_t` holds, and returns that number.
pub parse_size_iff :
    (text : List ℕ) (n : ℕ)
    → (parse_size text ≡ ok n)
      ↔ (AreDigits text × (is_empty text ≡ false) × (value_from 0 text ≡ n) × (n < size_mod))
unfolding parse_size from_chars_size
parse_size_iff text n = (sound, complete)
  where
    sound :
        parse_size text ≡ ok n
        → AreDigits text × (is_empty text ≡ false) × (value_from 0 text ≡ n) × (n < size_mod)
    sound h =
        let e = whole_sound _ (from_digits size_max text) n h in
        let (ds, joined, digits, some_digit, spelled, small) =
          from_digits_sound size_max n text [] e in
        let same : ds ≡ text = sym (append-nil ds) ∙ joined in
        (rw same at digits, rw same at some_digit, rw same at spelled, omega arith)

    complete :
        AreDigits text × (is_empty text ≡ false) × (value_from 0 text ≡ n) × (n < size_mod)
        → parse_size text ≡ ok n
    complete (digits, some_digit, spelled, small) =
        let read = from_digits-AreDigits size_max text [] digits some_digit (omega arith) tt in
        let read' : from_digits size_max text ≡ parsed (value_from 0 text) [] =
          rw (append-nil text) at read in
        rw (read', whole) (ap ok spelled)

abbrev pub AllInt32 : List ℤ → Type 0
AllInt32 [] = Unit
AllInt32 (t ∷ ts) = IsInt32 t × AllInt32 ts

AllInt32-append : (ts us : List ℤ) → AllInt32 ts → AllInt32 us → AllInt32 (ts ++ us)
AllInt32-append [] us h k = k
AllInt32-append (t ∷ ts) us (ht, h) k = (ht, AllInt32-append ts us h k)

with_sign_sound :
    (sign : ℕ → ℤ) (r : FromChars ℕ) (t : ℤ) (rest : List ℕ)
    → with_sign sign r ≡ parsed t rest
    → (n : ℕ) × (r ≡ parsed n rest) × (sign n ≡ t)
with_sign_sound sign invalid t rest h = absurd (cc)
with_sign_sound sign result_out_of_range t rest h = absurd (cc)
with_sign_sound sign (parsed n rest') t rest h = (n, cc, cc)

negate-IsInt32 : (n : ℕ) → n ≤ 2 ^ 31 → IsInt32 (negate n)
negate-IsInt32 zero h = omega arith
negate-IsInt32 (suc n) h = omega arith

from_chars_int32-IsInt32 :
    (s : List ℕ) (t : ℤ) (rest : List ℕ) → from_chars_int32 s ≡ parsed t rest → IsInt32 t
unfolding from_chars_int32
from_chars_int32-IsInt32 [] t rest h = absurd (cc)
from_chars_int32-IsInt32 (c ∷ s) t rest h = elim (Bool-cases (c == b'-')) [
  | inl minus ↦
      let (n, e, same) = with_sign_sound negate (from_digits (2 ^ 31) s) t rest (rw minus at h) in
      let (ds, _, _, _, _, small) = from_digits_sound (2 ^ 31) n s rest e in
      rw (← same) (negate-IsInt32 n small)
  | inr plain ↦
      let (n, e, same) =
        with_sign_sound pos (from_digits (2 ^ 31 - 1) (c ∷ s)) t rest (rw plain at h) in
      let (ds, _, _, _, _, small) = from_digits_sound (2 ^ 31 - 1) n (c ∷ s) rest e in
      rw (← same) (omega arith)
]

parse_token-IsInt32 : (item : List ℕ) (t : ℤ) → parse_token item ≡ ok t → IsInt32 t
unfolding parse_token
parse_token-IsInt32 item t h =
    from_chars_int32-IsInt32 item t [] (whole_sound _ (from_chars_int32 item) t h)

-- The rounds of `parse_items` keep what is true of the tokens.
parse_items_sound :
    (fuel : ℕ) (text : List ℕ) (tokens out : List ℤ)
    → parse_items fuel text tokens ≡ ok out
    → AllInt32 tokens
    → AllInt32 out
unfolding parse_items
parse_items_sound fuel [] tokens out h all = let e : tokens ≡ out = cc in rw (← e) all
parse_items_sound zero (c ∷ s) tokens out h all = absurd (cc)
parse_items_sound (suc fuel) (c ∷ s) tokens out h all =
    let text = c ∷ s in
    let item = head_item (find b',' text) text in
    let (_, _, h1) = >>=-eq-ok (guard (not (is_empty item)) _) _ h in
    let (t, e, h2) = >>=-eq-ok (parse_token item) _ h1 in
    let all' = AllInt32-append tokens (t ∷ []) all (parse_token-IsInt32 item t e, tt) in
    elim (Option-cases (find b',' text)) [
      | inl last ↦
          let h3 : ok (tokens ++ (t ∷ [])) ≡ ok out = rw last at h2 in
          let same : tokens ++ (t ∷ []) ≡ out = cc in rw (← same) all'
      | inr (k, more) ↦
          parse_items_sound fuel (drop (suc k) text) (tokens ++ (t ∷ [])) out (rw more at h2) all'
    ]

-- What `parse_tokens` accepts is a nonempty list of numbers that an `std::int32_t` holds.
pub parse_tokens-AllInt32 :
    (text : List ℕ) (tokens : List ℤ)
    → parse_tokens text ≡ ok tokens
    → (0 < length tokens) × AllInt32 tokens
unfolding parse_tokens
parse_tokens-AllInt32 text tokens h =
    let (out, e, h1) = >>=-eq-ok (parse_items (length text) text []) _ h in
    let (_, checked, h2) = >>=-eq-ok (guard (not (is_empty out)) _) _ h1 in
    let same : out ≡ tokens = cc in
    let some_token = guard-eq-ok (not (is_empty out)) _ checked in
    rw (← same) (nonempty out some_token, parse_items_sound (length text) text [] out e tt)
  where
    nonempty : (ts : List ℤ) → not (is_empty ts) ≡ true → 0 < length ts
    nonempty [] e = absurd (cc)
    nonempty (t ∷ ts) e = omega arith
