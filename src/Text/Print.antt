-- ===== src/Text/Print.antt =====
-- Decimal prints, as `operator<<` writes them, and what `std::from_chars` makes of them.
use native.Mathlib.Nat.{pow-suc}
use gpt2_cpu_runtime.Prelude.{
  ltb, ◌==◌, if◌then◌else◌, ltb→lt, le→leb, Bool-cases, size_mod, size_max, is_empty, length-append,
  is_empty_lem, ℕ, zero, suc, ◌+◌, ◌-◌, ◌*◌, ◌/◌, ◌%◌, ◌^◌, ◌≤◌, ◌<◌, ◌≡◌, refl, ap, ◌∙◌, inl, inr,
  true, false, List, [], ◌∷◌, ◌++◌, arith,
}
use gpt2_cpu_runtime.Prelude.Int.{ℤ, pos, negsuc}
use gpt2_cpu_runtime.Text.{
  is_digit, span_digits, value_from, parsed, from_digits, from_chars_size, negate, with_sign,
  from_chars_int32,
}

-- The last `k` digits of a number, without leading zeros.
unfoldable pub digits_of : ℕ → ℕ → List ℕ
digits_of zero n = []
digits_of (suc k) n =
    let front = digits_of k (n / 10) in (if ltb n 10 then [] else front) ++ ((b'0' + n % 10) ∷ [])

-- A `std::size_t` has twenty digits at most.
unfoldable pub print_size : ℕ → List ℕ
print_size = digits_of 20

unfoldable pub print_int : ℤ → List ℕ
print_int (pos n) = print_size n
print_int (negsuc n) = b'-' ∷ print_size (suc n)

abbrev pub AreDigits : List ℕ → Type 0
AreDigits [] = Unit
AreDigits (c ∷ s) = (is_digit c ≡ true) × AreDigits s

-- A text that no digit begins.
abbrev pub EndsNumber : List ℕ → Type 0
EndsNumber [] = Unit
EndsNumber (c ∷ s) = is_digit c ≡ false

AreDigits-append : (s t : List ℕ) → AreDigits s → AreDigits t → AreDigits (s ++ t)
AreDigits-append [] t hs ht = ht
AreDigits-append (c ∷ s) t (hc, hs) ht = (hc, AreDigits-append s t hs ht)

value_from-append :
    (n : ℕ) (s : List ℕ) (c : ℕ) → value_from n (s ++ (c ∷ [])) ≡ value_from n s * 10 + (c - b'0')
unfolding value_from
value_from-append n [] c = refl
value_from-append n (d ∷ s) c = value_from-append (n * 10 + (d - b'0')) s c

digit_lem : (n : ℕ) → is_digit (b'0' + n % 10) ≡ true
digit_lem n = ground arith

pub digits_of-AreDigits : (k n : ℕ) → AreDigits (digits_of k n)
unfolding digits_of
digits_of-AreDigits zero n = tt
digits_of-AreDigits (suc k) n = elim (Bool-cases (ltb n 10)) [
  | inl small ↦ rw small (digit_lem n, tt)
  | inr large ↦
      rw large (
        AreDigits-append (digits_of k (n / 10)) _ (digits_of-AreDigits k (n / 10))
          (digit_lem n, tt))
]

value_from-digits_of : (k n : ℕ) → n < 10 ^ k → value_from 0 (digits_of k n) ≡ n
unfolding digits_of value_from
value_from-digits_of zero n h = omega arith
value_from-digits_of (suc k) n h = elim (Bool-cases (ltb n 10)) [
  | inl small ↦ let l = ltb→lt n 10 small in rw small (omega arith)
  | inr large ↦
      let rest = value_from-digits_of k (n / 10) (omega (arith, pow-suc 10 k)) in
      rw large (value_from-append 0 (digits_of k (n / 10)) (b'0' + n % 10) ∙ omega (arith, rest))
]

span_digits-append :
    (s rest : List ℕ) → AreDigits s → EndsNumber rest → span_digits (s ++ rest) ≡ (s, rest)
unfolding span_digits
span_digits-append [] [] h e = refl
span_digits-append [] (c ∷ rest) h e = rw e
span_digits-append (c ∷ s) rest (hc, hs) e = rw (span_digits-append s rest hs e, hc)

pub digits_of-pos : (k n : ℕ) → is_empty (digits_of (suc k) n) ≡ false
unfolding digits_of
digits_of-pos k n = is_empty_lem _ (
    omega
      (arith, length-append (if ltb n 10 then [] else digits_of k (n / 10)) ((b'0' + n % 10) ∷ [])))

-- Digits that spell a number up to the limit are read to their end.
pub from_digits-AreDigits :
    (limit : ℕ) (s rest : List ℕ)
    → AreDigits s
    → is_empty s ≡ false
    → value_from 0 s ≤ limit
    → EndsNumber rest
    → from_digits limit (s ++ rest) ≡ parsed (value_from 0 s) rest
unfolding from_digits
from_digits-AreDigits limit s rest digits some_digit h e =
    rw (span_digits-append s rest digits e, some_digit, le→leb (value_from 0 s) limit h)

-- A number up to the limit is read back from its print, whatever follows that is no digit.
pub from_digits-print_size :
    (limit n : ℕ) (rest : List ℕ)
    → limit < size_mod
    → n ≤ limit
    → EndsNumber rest
    → from_digits limit (print_size n ++ rest) ≡ parsed n rest
unfolding print_size
from_digits-print_size limit n rest small h e =
    let spelled = value_from-digits_of 20 n (omega arith) in
    from_digits-AreDigits limit (digits_of 20 n) rest (digits_of-AreDigits 20 n)
      (digits_of-pos 19 n) (omega (arith, spelled)) e
    ∙ ap (λ (v : ℕ). parsed v rest) spelled

pub from_chars_size-print_size :
    (n : ℕ) (rest : List ℕ)
    → n < size_mod
    → EndsNumber rest
    → from_chars_size (print_size n ++ rest) ≡ parsed n rest
unfolding from_chars_size
from_chars_size-print_size n rest h e =
    from_digits-print_size size_max n rest (omega arith) (omega arith) e

-- The numbers that an `std::int32_t` holds.
abbrev pub IsInt32 : ℤ → Type 0
IsInt32 (pos n) = n < 2 ^ 31
IsInt32 (negsuc n) = n < 2 ^ 31

digit-ne-minus : (c : ℕ) → is_digit c ≡ true → (c == b'-') ≡ false
digit-ne-minus c h = ground arith

-- A text that a digit begins is read without a sign.
from_chars_int32-digits :
    (s rest : List ℕ)
    → AreDigits s
    → is_empty s ≡ false
    → from_chars_int32 (s ++ rest) ≡ with_sign pos (from_digits (2 ^ 31 - 1) (s ++ rest))
unfolding from_chars_int32
from_chars_int32-digits [] rest h e = cc
from_chars_int32-digits (c ∷ s) rest (hc, hs) e = rw (digit-ne-minus c hc)

pub from_chars_int32-print_int :
    (n : ℤ) (rest : List ℕ)
    → IsInt32 n
    → EndsNumber rest
    → from_chars_int32 (print_int n ++ rest) ≡ parsed n rest
unfolding print_int print_size
from_chars_int32-print_int (pos n) rest h e =
    from_chars_int32-digits (digits_of 20 n) rest (digits_of-AreDigits 20 n) (digits_of-pos 19 n)
    ∙ ap (with_sign pos) (from_digits-print_size (2 ^ 31 - 1) n rest (omega arith) (omega arith) e)
from_chars_int32-print_int (negsuc n) rest h e =
    unfold from_chars_int32 in
    ap (with_sign negate)
      (from_digits-print_size (2 ^ 31) (suc n) rest (omega arith) (omega arith) e)
