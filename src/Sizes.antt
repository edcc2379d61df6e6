-- ===== src/Sizes.antt =====
-- The overflow checks on sizes that src/model.cpp and src/session.cpp share: `checked_add`,
-- `checked_multiply`, `product` and `checked_bytes`.
pub mod Products
use Prim.Native.String
use Prim.Native.String.{String}
use native.Mathlib.Nat.{mul-le-mul, le_refl, div-add-mod, mod-lt}
use gpt2_cpu_runtime.Prelude.{
  ltb, ◌==◌, if◌then◌else◌, lt→ltb, le→ltb, ltb→lt, ltb→le, Bool-cases, size_mod, size_max, wadd,
  wmul, wadd_lem, wmul_lem, Error, Result, ok, err, ◌>>=◌, ◌>>◌, ℕ, zero, suc, ◌+◌, ◌-◌, ◌*◌, ◌/◌,
  ◌≤◌, ◌<◌, ◌≡◌, ap, ◌∙◌, inl, inr, false, not, ◌&&◌, List, [], ◌∷◌, arith,
}

pub overflow : String → Error
overflow context = Error.overflow_error (String.◌++◌ "size overflow while computing " context)

unfoldable pub checked_add : ℕ → ℕ → String → Result ℕ
unfolding overflow
checked_add left right context =
    if ltb (size_max - left) right then err (overflow context) else ok (wadd left right)

unfoldable pub checked_multiply : ℕ → ℕ → String → Result ℕ
unfolding overflow
checked_multiply left right context =
    if not (left == 0) && ltb (size_max / left) right
    then err (overflow context)
    else ok (wmul left right)

-- The loop of `product`, from the value of `result`.
unfoldable pub product_from : ℕ → List ℕ → String → Result ℕ
product_from result [] context = ok result
product_from result (d ∷ dims) context = do
  next ← checked_multiply result d context
  product_from next dims context

unfoldable pub product : List ℕ → String → Result ℕ
unfolding product_from
product = product_from 1

-- sizeof(float) is 4.
unfoldable pub checked_bytes : ℕ → Result ℕ
checked_bytes float_count = checked_multiply float_count 4 "checkpoint payload bytes"

-- The mathematical product of dimensions.
abbrev pub volume : List ℕ → ℕ
volume [] = 1
volume (d ∷ dims) = d * volume dims

quotient_small : (a b q m : ℕ) → m < a * q + a → q < b → m < a * b
quotient_small a b q m h l = omega (arith, mul-le-mul (le_refl a) l)

quotient_large : (a b q m : ℕ) → a * q ≤ m → b ≤ q → a * b ≤ m
quotient_large a b q m h l = omega (arith, mul-le-mul (le_refl a) l)

-- For operands that a `std::size_t` can hold, `checked_add` is the exact sum when a `std::size_t`
-- can hold it, and throws `std::overflow_error` otherwise.
pub checked_add_exact :
    (a b : ℕ) (context : String)
    → a < size_mod
    → b < size_mod
    → checked_add a b context
      ≡ (if ltb (a + b) size_mod then ok (a + b) else err (overflow context))
unfolding checked_add
checked_add_exact a b context h k = elim (Bool-cases (ltb (a + b) size_mod)) [
  | inl fits ↦
      let l = ltb→lt (a + b) size_mod fits in
      rw (fits, le→ltb (size_max - a) b (omega arith), wadd_lem a b l)
  | inr large ↦
      let l = ltb→le (a + b) size_mod large in rw (large, lt→ltb (size_max - a) b (omega arith))
]

-- The test of an overflowing product, without an overflow.
pub overflow_test : (a b : ℕ) → (not (a == 0) && ltb (size_max / a) b) ≡ not (ltb (a * b) size_mod)
overflow_test zero b = ground arith
overflow_test (suc n) b =
    let a = suc n in
    let q = size_max / a in
    let nonzero : (a == 0) ≡ false = ground arith in
    let divided = div-add-mod size_max a in
    let lower : a * q ≤ size_max = omega (arith, divided) in
    let upper : size_max < a * q + a =
      omega (arith, divided, mod-lt size_max {m = a} (omega arith)) in
    elim (Bool-cases (ltb q b)) [
      | inl over ↦
          let l = quotient_small a b q size_max upper (ltb→lt q b over) in
          rw (nonzero, over, le→ltb (a * b) size_mod (omega arith))
      | inr under ↦
          let l = quotient_large a b q size_max lower (ltb→le q b under) in
          rw (nonzero, under, lt→ltb (a * b) size_mod (omega arith))
    ]

-- `checked_multiply` is the exact product when a `std::size_t` can hold it, and throws
-- `std::overflow_error` otherwise.
pub checked_multiply_exact :
    (a b : ℕ) (context : String)
    → checked_multiply a b context
      ≡ (if ltb (a * b) size_mod then ok (a * b) else err (overflow context))
unfolding checked_multiply
checked_multiply_exact a b context =
    rw (overflow_test a b) (elim (Bool-cases (ltb (a * b) size_mod)) [
      | inl fits ↦ rw fits (ap ok (wmul_lem a b (ltb→lt (a * b) size_mod fits)))
      | inr large ↦ rw large
    ])

pub checked_multiply_lem :
    (a b : ℕ) (context : String) → a * b < size_mod → checked_multiply a b context ≡ ok (a * b)
checked_multiply_lem a b context h =
    checked_multiply_exact a b context ∙ rw (lt→ltb (a * b) size_mod h)
