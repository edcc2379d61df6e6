-- ===== src/Prelude/Results.antt =====
-- C++ exceptions as values. `fault` stands for undefined behaviour: an access outside a span.
use Prim.Native.Nat.{ℕ, zero, suc, ◌+◌, ◌≤◌, ◌<◌}
use Prim.Native.String.{String}
use mathlib.Core.Path.{◌≡◌, refl, sym, subst}
use mathlib.Core.Bool.{Bool, true, false}
use native.Mathlib.Omega.{arith}
use gpt2_cpu_runtime.Prelude.Tests.{if◌then◌else◌, leb, le→leb}
use gpt2_cpu_runtime.Prelude.Words.{max_size}

-- The classes of exceptions, each with the fixed part of its message.
pub data Error : Type 0 where
  invalid_argument : String → Error
  overflow_error : String → Error
  out_of_range : String → Error
  length_error : String → Error
  logic_error : String → Error
  runtime_error : String → Error
  fault : Error

-- What a call leaves behind: an exception that is on its way, or a value.
pub data Result {ℓ} (T : Type ℓ) : Type ℓ where
  err : Error → Result T
  ok : T → Result T

-- Statements in sequence: the first exception ends the block.
infixl 5 ◌>>=◌
abbrev pub ◌>>=◌ {ℓ κ} : {S : Type ℓ} {T : Type κ} → Result S → (S → Result T) → Result T
err thrown >>= rest = err thrown
ok value >>= rest = rest value

-- `if (!holds) throw thrown;`
abbrev pub guard : (holds : Bool) (thrown : Error) → Result (Unit {0})
guard holds thrown = if holds then ok tt else err thrown

infixl 5 ◌>>◌
abbrev pub ◌>>◌ {ℓ} : {T : Type ℓ} → Result (Unit {0}) → Result T → Result T
check >> rest = check >>= λ done. rest

-- The computation ends without an exception or a fault, in a value that satisfies `P`.
abbrev pub Returns {ℓ κ} : {A : Type ℓ} → Result A → (A → Type κ) → Type (ℓ ⊔ κ)
Returns {A = A} r P = (a : A) × (r ≡ ok a) × P a

module _ {ℓ κ μ ν} {A : Type ℓ} {B : Type κ} where
  -- Sequencing: the rest is run on a value that satisfies the first postcondition.
  pub Returns->>= :
      {P : A → Type μ} {Q : B → Type ν} (m : Result A) (f : A → Result B)
      → Returns m P
      → ((a : A) → P a → Returns (f a) Q)
      → Returns (m >>= f) Q
  Returns->>= {Q = Q} m f (a, e, p) rest = subst (λ r. Returns (r >>= f) Q) (sym e) (rest a p)

-- The first statement of a block ends in a value, and the rest of the block is run on it.
pub step {ℓ κ} :
    {A : Type ℓ} {B : Type κ} {m : Result A} {a : A} {r : Result B} (f : A → Result B)
    → m ≡ ok a
    → f a ≡ r
    → m >>= f ≡ r
step {r = r} f e rest = subst (λ n. n >>= f ≡ r) (sym e) rest

-- A block that ends in a value: so does its first statement, and the rest of the block.
pub >>=-eq-ok {ℓ κ} :
    {A : Type ℓ} {B : Type κ} (m : Result A) (f : A → Result B) {b : B}
    → m >>= f ≡ ok b
    → (a : A) × (m ≡ ok a) × (f a ≡ ok b)
>>=-eq-ok (ok a) f h = (a, refl, h)
>>=-eq-ok (err e) f h = absurd (cc)

pub ok-injective {ℓ} : {A : Type ℓ} {a b : A} → ok a ≡ ok b → a ≡ b
ok-injective h = cc

pub guard-eq-ok : (b : Bool) (e : Error) {u : Unit {0}} → guard b e ≡ ok u → b ≡ true
guard-eq-ok true e h = refl
guard-eq-ok false e h = absurd (cc)

-- A block that ends in a value has passed its guard.
pub guard-next {ℓ} :
    {T : Type ℓ} (b : Bool) (e : Error) (rest : Result T) {v : T}
    → guard b e >> rest ≡ ok v
    → (b ≡ true) × (rest ≡ ok v)
guard-next true e rest h = (refl, h)
guard-next false e rest h = absurd (cc)

pub guard-Returns : (b : Bool) (e : Error) → b ≡ true → guard b e ≡ ok tt
guard-Returns true e h = refl
guard-Returns false e h = cc

-- `reserve` of a `std::vector` of elements of eight bytes: it leaves the contents as they are.
unfoldable pub reserve : ℕ → Result (Unit {0})
reserve count = guard (leb count max_size) (Error.length_error "vector::reserve")

pub reserve_lem : (count : ℕ) → count ≤ max_size → reserve count ≡ ok tt
unfolding reserve
reserve_lem count h = guard-Returns (leb count max_size) _ (le→leb count max_size h)

-- for (i = i0; i < i0 + n; ++i) s = body(i, s), where an iteration may throw.
unfoldable pub for_range {ℓ} : {S : Type ℓ} → ℕ → ℕ → (ℕ → S → Result S) → S → Result S
for_range zero i body s = ok s
for_range (suc n) i body s = body i s >>= λ t. for_range n (i + 1) body t

module _ {ℓ κ} {S : Type ℓ} (P : ℕ → S → Type κ) (body : ℕ → S → Result S) where
  -- The rule for counted loops: each iteration returns and keeps the invariant.
  pub for_range-from :
      (n i j : ℕ) (s : S)
      → i + n ≡ j
      → ((k : ℕ) (t : S) → i ≤ k → k < j → P k t → Returns (body k t) (P (suc k)))
      → P i s
      → Returns (for_range n i body s) (P j)
  unfolding for_range
  for_range-from zero i j s e step p =
      let e' : i ≡ j = omega arith in (s, refl, subst (λ k. P k s) e' p)
  for_range-from (suc n) i j s e step p =
      let e' : suc i ≡ i + 1 = omega arith in
      Returns->>= {P = P (suc i)} {Q = P j} (body i s) (for_range n (i + 1) body)
        (step i s (omega arith) (omega arith) p)
        λ t q.
          for_range-from n (i + 1) j t (omega arith) (λ k u h. step k u (omega arith))
            (subst (λ k. P k t) e' q)

  pub for_range-Returns :
      (n : ℕ) (s : S)
      → ((k : ℕ) (t : S) → k < n → P k t → Returns (body k t) (P (suc k)))
      → P 0 s
      → Returns (for_range n 0 body s) (P n)
  for_range-Returns n s step p = for_range-from n 0 n s (omega arith) (λ k t _. step k t) p
