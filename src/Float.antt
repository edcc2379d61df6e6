-- ===== src/Float.antt =====
-- What the program does with a `float` or a `double`. The arithmetic is that of the machine: a
-- parameter of the model. No theorem depends on exact or associative sums; those on greedy selection
-- say where they ask that `<` is an order.
use gpt2_cpu_runtime.Prelude.{ℕ, Bool, if◌then◌else◌}

pub record Float (F : Type 0) : Type 0 where
  pub nought : F
  pub one : F
  -- std::numeric_limits<float>::lowest()
  pub lowest : F
  -- the constants 1.0e-5F, 0.5F, 0.01F, 0.044715F, static_cast<float>(2.0 / std::numbers::pi)
  pub epsilon : F
  pub half : F
  pub hundredth : F
  pub cube_factor : F
  pub two_over_pi : F
  -- static_cast<float>(n)
  pub of_size : ℕ → F
  pub add : F → F → F
  pub sub : F → F → F
  pub mul : F → F → F
  pub quot : F → F → F
  pub sqrt : F → F
  pub exp : F → F
  pub tanh : F → F
  -- a < b, a == 0.0F
  pub lt : F → F → Bool
  pub is_nought : F → Bool

infixl 65 ◌+f◌ ◌-f◌
infixl 70 ◌*f◌ ◌/f◌
module _ {F : Type 0} ⦃fl : Float F⦄ where
  abbrev pub ◌+f◌ : F → F → F
  ◌+f◌ = fl.add

  abbrev pub ◌-f◌ : F → F → F
  ◌-f◌ = fl.sub

  abbrev pub ◌*f◌ : F → F → F
  ◌*f◌ = fl.mul

  abbrev pub ◌/f◌ : F → F → F
  ◌/f◌ = fl.quot

  -- std::max(a, b)
  unfoldable pub fmax : F → F → F
  fmax a b = if fl.lt a b then b else a
