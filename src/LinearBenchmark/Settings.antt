-- ===== src/LinearBenchmark/Settings.antt =====
-- The command line of `gpt2_linear_benchmark`.
use mathlib.Core.Option.{some-injective}
use gpt2_cpu_runtime.Prelude.{
  ◌==◌, Error, Result, ok, ◌>>=◌, guard, ◌>>◌, >>=-eq-ok, ok-injective, guard-next, ℕ, ◌<◌, ◌≡◌,
  subst, true, not, Option, none, some, List, [], ◌∷◌, arith,
}
use gpt2_cpu_runtime.Text.{from_chars_size}
use gpt2_cpu_runtime.Arguments.{whole}

pub record Settings : Type 0 where
  pub checkpoint : List ℕ
  pub warmup : ℕ
  pub repetitions : ℕ
  pub inner : ℕ
  pub threads : ℕ

-- A number of the command line.
unfoldable pub parse_count : List ℕ → Result ℕ
unfolding whole
parse_count text = do
  value ← whole "warmup, repetitions and inner calls must be positive" (from_chars_size text)
  guard (not (value == 0))
      (Error.invalid_argument "warmup, repetitions and inner calls must be positive")
  ok value

-- `none`: the number of arguments is not one, four or five, and the usage is printed.
unfoldable pub parse_settings : List (List ℕ) → Result (Option Settings)
unfolding parse_count
parse_settings (checkpoint ∷ []) =
    ok (
      some
        (record { checkpoint = checkpoint; warmup = 1; repetitions = 5; inner = 8; threads = 1 }))
parse_settings (checkpoint ∷ a ∷ b ∷ c ∷ []) = do
  warmup ← parse_count a
  repetitions ← parse_count b
  inner ← parse_count c
  ok (
      some (record {
        checkpoint = checkpoint;
        warmup = warmup;
        repetitions = repetitions;
        inner = inner;
        threads = 1;
      }))
parse_settings (checkpoint ∷ a ∷ b ∷ c ∷ d ∷ []) = do
  warmup ← parse_count a
  repetitions ← parse_count b
  inner ← parse_count c
  threads ← parse_count d
  ok (
      some (record {
        checkpoint = checkpoint;
        warmup = warmup;
        repetitions = repetitions;
        inner = inner;
        threads = threads;
      }))
parse_settings [] = ok none
parse_settings (a ∷ b ∷ []) = ok none
parse_settings (a ∷ b ∷ c ∷ []) = ok none
parse_settings (a ∷ b ∷ c ∷ d ∷ e ∷ f ∷ rest) = ok none

-- What the program accepts has a round of warm-up, a repetition, an inner call and a thread.
pub record IsPositive (settings : Settings) : Type 0 where
  pub warmup_pos : 0 < settings.warmup
  pub repetitions_pos : 0 < settings.repetitions
  pub inner_pos : 0 < settings.inner
  pub threads_pos : 0 < settings.threads

parse_count-pos : (text : List ℕ) (n : ℕ) → parse_count text ≡ ok n → 0 < n
unfolding parse_count
parse_count-pos text n e =
    let (value, _, e') = >>=-eq-ok (whole _ (from_chars_size text)) _ e in
    let (h, done) = guard-next (not (value == 0)) _ _ e' in
    let same : value ≡ n = ok-injective done in positive n (rw same at h)
  where
    positive : (n : ℕ) → not (n == 0) ≡ true → 0 < n
    positive n h = ground arith

-- What `parse_settings` returns is positive.
pub parse_settings-IsPositive :
    (arguments : List (List ℕ)) (settings : Settings)
    → parse_settings arguments ≡ ok (some settings)
    → IsPositive settings
unfolding parse_settings
parse_settings-IsPositive (checkpoint ∷ []) settings e =
    let same : record {
      checkpoint = checkpoint;
      warmup = 1;
      repetitions = 5;
      inner = 8;
      threads = 1;
    }
        ≡ settings =
      some-injective _ _ (ok-injective e) in
    subst IsPositive same (record {
      warmup_pos = omega arith;
      repetitions_pos = omega arith;
      inner_pos = omega arith;
      threads_pos = omega arith;
    })
parse_settings-IsPositive (checkpoint ∷ a ∷ b ∷ c ∷ []) settings e =
    let (warmup, h1, e1) = >>=-eq-ok (parse_count a) _ e in
    let (repetitions, h2, e2) = >>=-eq-ok (parse_count b) _ e1 in
    let (inner, h3, e3) = >>=-eq-ok (parse_count c) _ e2 in
    subst IsPositive (some-injective _ _ (ok-injective e3)) (record {
      warmup_pos = parse_count-pos a warmup h1;
      repetitions_pos = parse_count-pos b repetitions h2;
      inner_pos = parse_count-pos c inner h3;
      threads_pos = omega arith;
    })
parse_settings-IsPositive (checkpoint ∷ a ∷ b ∷ c ∷ d ∷ []) settings e =
    let (warmup, h1, e1) = >>=-eq-ok (parse_count a) _ e in
    let (repetitions, h2, e2) = >>=-eq-ok (parse_count b) _ e1 in
    let (inner, h3, e3) = >>=-eq-ok (parse_count c) _ e2 in
    let (threads, h4, e4) = >>=-eq-ok (parse_count d) _ e3 in
    subst IsPositive (some-injective _ _ (ok-injective e4)) (record {
      warmup_pos = parse_count-pos a warmup h1;
      repetitions_pos = parse_count-pos b repetitions h2;
      inner_pos = parse_count-pos c inner h3;
      threads_pos = parse_count-pos d threads h4;
    })
parse_settings-IsPositive [] settings e = absurd (cc)
parse_settings-IsPositive (a ∷ b ∷ []) settings e = absurd (cc)
parse_settings-IsPositive (a ∷ b ∷ c ∷ []) settings e = absurd (cc)
parse_settings-IsPositive (a ∷ b ∷ c ∷ d ∷ e' ∷ f ∷ rest) settings e = absurd (cc)
