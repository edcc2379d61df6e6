-- ===== src/Examples/Numbers.antt =====
-- Natural numbers in the place of floats. Nothing is assumed of a `Float`, so that any operations do.
use gpt2_cpu_runtime.Prelude.{ltb, ◌==◌, ℕ, ◌+◌, ◌-◌, ◌*◌, ◌/◌}
use gpt2_cpu_runtime.Float.{Float}

instance abbrev pub numbers : Float ℕ
numbers = record {
  nought = 0;
  one = 1;
  lowest = 0;
  epsilon = 1;
  half = 1;
  hundredth = 1;
  cube_factor = 1;
  two_over_pi = 1;
  of_size = λ n. n;
  add = ◌+◌;
  sub = ◌-◌;
  mul = ◌*◌;
  quot = ◌/◌;
  sqrt = λ x. x;
  exp = λ x. x + 1;
  tanh = λ x. x;
  lt = ltb;
  is_nought = λ x. x == 0;
}
