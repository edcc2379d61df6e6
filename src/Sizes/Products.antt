-- ===== src/Sizes/Products.antt =====
-- Products of dimensions: exact, or `std::overflow_error`.
use Prim.Native.String.{String}
use native.Mathlib.Nat.{mul-le-mul}
use gpt2_cpu_runtime.Prelude.{
  ltb, ltb→lt, ltb→le, Bool-cases, size_mod, le-mul_of_pos, Result, ok, err, ◌>>=◌, ℕ, ◌+◌, ◌*◌,
  ◌≤◌, ◌<◌, ◌≡◌, refl, ◌∙◌, ◌⊎◌, inl, inr, List, [], ◌∷◌, arith,
}
use gpt2_cpu_runtime.Sizes.{
  overflow, checked_add, checked_multiply, product_from, product, volume, checked_add_exact,
  checked_multiply_exact,
}

-- A computation of a size whose exact value is `n`: it gives `v` when a `std::size_t` can hold `n`,
-- and throws `std::overflow_error` otherwise.
abbrev pub ComputesSize {ℓ} : {A : Type ℓ} → Result A → ℕ → A → Type ℓ
ComputesSize r n v =
    ((n < size_mod) × (r ≡ ok v)) ⊎ ((size_mod ≤ n) × ((c : String) × (r ≡ err (overflow c))))

-- Dimensions that are positive and that a `std::size_t` can hold.
abbrev pub AreDimensions : List ℕ → Type 0
AreDimensions [] = Unit
AreDimensions (d ∷ dims) = (0 < d) × (d < size_mod) × AreDimensions dims

pub volume_pos : (dims : List ℕ) → AreDimensions dims → 0 < volume dims
volume_pos [] h = omega arith
volume_pos (d ∷ dims) (p, s, h) = let rest = volume_pos dims h in omega (arith, mul-le-mul p rest)

pub checked_multiply-ComputesSize :
    (a b : ℕ) (context : String) → ComputesSize (checked_multiply a b context) (a * b) (a * b)
checked_multiply-ComputesSize a b context = elim (Bool-cases (ltb (a * b) size_mod)) [
  | inl fits ↦ inl (ltb→lt (a * b) size_mod fits, checked_multiply_exact a b context ∙ rw fits)
  | inr large ↦
      inr (ltb→le (a * b) size_mod large, (context, checked_multiply_exact a b context ∙ rw large))
]

pub checked_add-ComputesSize :
    (a b : ℕ) (context : String)
    → a < size_mod
    → b < size_mod
    → ComputesSize (checked_add a b context) (a + b) (a + b)
checked_add-ComputesSize a b context h k = elim (Bool-cases (ltb (a + b) size_mod)) [
  | inl fits ↦ inl (ltb→lt (a + b) size_mod fits, checked_add_exact a b context h k ∙ rw fits)
  | inr large ↦
      inr (ltb→le (a + b) size_mod large, (context, checked_add_exact a b context h k ∙ rw large))
]

-- A size computed in two steps, of which the second is at least the first.
pub ComputesSize->>= {ℓ κ} :
    {A : Type ℓ} {B : Type κ} (r : Result A) (f : A → Result B) (n m : ℕ) (u : A) {v : B}
    → n ≤ m
    → ComputesSize r n u
    → (n < size_mod → ComputesSize (f u) m v)
    → ComputesSize (r >>= f) m v
ComputesSize->>= r f n m u h (inl (fits, e)) rest = rw e (rest fits)
ComputesSize->>= r f n m u h (inr (large, (c, e))) rest = inr (omega arith, (c, rw e))

pub product_from-ComputesSize :
    (result : ℕ) (dims : List ℕ) (context : String)
    → 0 < result
    → result < size_mod
    → AreDimensions dims
    → ComputesSize (product_from result dims context) (result * volume dims) (result * volume dims)
unfolding product_from
product_from-ComputesSize result [] context p s h =
    let e : result * 1 ≡ result = omega arith in rw e (inl (s, refl))
product_from-ComputesSize result (d ∷ dims) context p s (dp, ds, h) =
    let rest = volume_pos dims h in
    let e : result * (d * volume dims) ≡ result * d * volume dims = omega arith in
    let smaller : result * d ≤ result * d * volume dims =
      le-mul_of_pos (result * d) (volume dims) rest in
    rw e (
      ComputesSize->>= (checked_multiply result d context) (λ n. product_from n dims context)
        (result * d) (result * d * volume dims) (result * d) smaller
        (checked_multiply-ComputesSize result d context)
        λ fits.
          product_from-ComputesSize (result * d) dims context (omega (arith, mul-le-mul p dp)) fits
            h)

-- The product of positive dimensions is their exact volume when a `std::size_t` can hold it, and
-- throws `std::overflow_error` otherwise.
pub product-ComputesSize :
    (dims : List ℕ) (context : String)
    → AreDimensions dims
    → ComputesSize (product dims context) (volume dims) (volume dims)
unfolding product
product-ComputesSize dims context h =
    let e : 1 * volume dims ≡ volume dims = omega arith in
    rw e at (product_from-ComputesSize 1 dims context (omega arith) (omega arith) h)
