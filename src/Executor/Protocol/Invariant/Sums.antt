-- ===== src/Executor/Protocol/Invariant/Sums.antt =====
-- Sums over the workers.
use gpt2_cpu_runtime.Prelude.{
  ◌==◌, Bool-cases, lt→==, gt→==, ℕ, zero, suc, ◌+◌, ◌*◌, ◌≤◌, ◌<◌, ◌≡◌, refl, ◌⊎◌, inl, inr, false,
  arith,
}

unfoldable pub sum : ℕ → (ℕ → ℕ) → ℕ
sum zero f = 0
sum (suc n) f = sum n f + f n

pub sum-congr : (n : ℕ) (f g : ℕ → ℕ) → ((k : ℕ) → k < n → f k ≡ g k) → sum n f ≡ sum n g
unfolding sum
sum-congr zero f g h = refl
sum-congr (suc n) f g h =
    omega (arith, sum-congr n f g (λ k l. h k (omega arith)), h n (omega arith))

-- One worker's number changes.
pub sum-change :
    (n k : ℕ) (f g : ℕ → ℕ)
    → k < n
    → ((i : ℕ) → (i == k) ≡ false → f i ≡ g i)
    → sum n f + g k ≡ sum n g + f k
unfolding sum
sum-change zero k f g l h = absurd (omega arith)
sum-change (suc n) k f g l h = elim (Bool-cases (k == n)) [
  | inl last ↦
      let e : k ≡ n = ground arith in
      let same = sum-congr n f g λ i m. h i (lt→== i k (omega arith)) in rw e (omega (arith, same))
  | inr earlier ↦
      let less : k < n = ground arith in
      omega (arith, sum-change n k f g less h, h n (gt→== n k less))
]

-- When every number is at most one, the sum is the number of workers only if all are one.
pub sum-le : (n : ℕ) (f : ℕ → ℕ) → ((k : ℕ) → f k ≤ 1) → sum n f ≤ n
unfolding sum
sum-le zero f h = omega arith
sum-le (suc n) f h = omega (arith, sum-le n f h, h n)

pub sum-full : (n : ℕ) (f : ℕ → ℕ) → ((k : ℕ) → f k ≤ 1) → sum n f ≡ n → (k : ℕ) → k < n → f k ≡ 1
unfolding sum
sum-full zero f h e k l = absurd (omega arith)
sum-full (suc n) f h e k l = elim (Bool-cases (k == n)) [
  | inl last ↦ let same : k ≡ n = ground arith in rw same (omega (arith, sum-le n f h, h n))
  | inr earlier ↦
      let less : k < n = ground arith in sum-full n f h (omega (arith, sum-le n f h, h n)) k less
]

pub sum-zero : (n : ℕ) (f : ℕ → ℕ) → ((k : ℕ) → k < n → f k ≡ 0) → sum n f ≡ 0
unfolding sum
sum-zero zero f h = refl
sum-zero (suc n) f h = omega (arith, sum-zero n f (λ k l. h k (omega arith)), h n (omega arith))

-- Either all numbers are one, or one of them is zero.
pub sum-search :
    (n : ℕ) (f : ℕ → ℕ) → ((k : ℕ) → f k ≤ 1) → (sum n f ≡ n) ⊎ ((k : ℕ) × (k < n) × (f k ≡ 0))
unfolding sum
sum-search zero f h = inl refl
sum-search (suc n) f h = elim (sum-search n f h) [
  | inr (k, l, e) ↦ inr (k, omega arith, e)
  | inl all ↦ elim (Bool-cases (f n == 0)) [
    | inl nothing ↦ inr (n, omega arith, ground arith)
    | inr something ↦ let one : f n ≡ 1 = ground (arith, h n) in inl (omega arith)
  ]
]

pub sum-const : (n : ℕ) (f : ℕ → ℕ) (c : ℕ) → ((k : ℕ) → k < n → f k ≡ c) → sum n f ≡ c * n
unfolding sum
sum-const zero f c h = omega arith
sum-const (suc n) f c h =
    let before = sum-const n f c (λ k l. h k (omega arith)) in
    let e : c * suc n ≡ c * n + c = grind arith in omega (arith, before, h n (omega arith), e)
