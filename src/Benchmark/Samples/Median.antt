-- ===== src/Benchmark/Samples/Median.antt =====
-- `median` (app/gpt2_benchmark.cpp) against a description of the median that names no sorting.
use mathlib.Core.List.{Perm}
use mathlib.Core.List.Perm
use gpt2_cpu_runtime.Prelude.{
  ◌==◌, Bool-cases, gt→==, Returns, length, ℕ, ◌-◌, ◌/◌, ◌%◌, ◌<◌, ◌≡◌, refl, inl, inr, true, false,
  List, [], ◌∷◌, arith,
}
use gpt2_cpu_runtime.Float.{Float, ◌+f◌, ◌/f◌}
use gpt2_cpu_runtime.Buffer.{at, read_lem}
use gpt2_cpu_runtime.Benchmark.Samples.{insert_sorted, sort, length-sort, median}

module _ {F : Type 0} ⦃fl : Float F⦄ where
  -- The head of a list is not less than `x`.
  abbrev pub Follows : F → List F → Type 0
  Follows x [] = Unit
  Follows x (y ∷ ys) = fl.lt y x ≡ false

  -- No entry is less than the one before it.
  abbrev pub IsAscending : List F → Type 0
  IsAscending [] = Unit
  IsAscending (x ∷ xs) = Follows x xs × IsAscending xs

  -- The middle entry of the samples in ascending order, or half the sum of the two middle entries.
  pub record IsMedian (samples : List F) (m : F) : Type 0 where
    pub ordered : List F
    pub same_samples : Perm ordered samples
    pub ascending : IsAscending ordered
    pub odd_lem : length samples % 2 ≡ 1 → m ≡ at ordered (length samples / 2)
    pub even_lem :
        length samples % 2 ≡ 0
        → m
          ≡ (at ordered (length samples / 2 - 1) +f at ordered (length samples / 2)) /f fl.of_size 2

  insert_sorted-Perm : (x : F) (xs : List F) → Perm (insert_sorted x xs) (x ∷ xs)
  insert_sorted-Perm x [] = Perm.refl (x ∷ [])
  insert_sorted-Perm x (y ∷ ys) = elim (Bool-cases (fl.lt y x)) [
    | inl less ↦ rw less (Perm.trans (Perm.cons y (insert_sorted-Perm x ys)) (Perm.swap x y ys))
    | inr other ↦ rw other (Perm.refl (x ∷ y ∷ ys))
  ]

  sort-Perm : (xs : List F) → Perm (sort xs) xs
  unfolding sort
  sort-Perm [] = Perm.refl []
  sort-Perm (x ∷ xs) = Perm.trans (insert_sorted-Perm x (sort xs)) (Perm.cons x (sort-Perm xs))

  module _ (asymmetric : (a b : F) → fl.lt a b ≡ true → fl.lt b a ≡ false) where
    Follows-insert_sorted :
        (x y : F) (ys : List F) → fl.lt y x ≡ true → Follows y ys → Follows y (insert_sorted x ys)
    Follows-insert_sorted x y [] less h = asymmetric y x less
    Follows-insert_sorted x y (z ∷ zs) less h = elim (Bool-cases (fl.lt z x)) [
      | inl below ↦ rw below h
      | inr other ↦ rw other (asymmetric y x less)
    ]

    insert_sorted-IsAscending :
        (x : F) (xs : List F) → IsAscending xs → IsAscending (insert_sorted x xs)
    insert_sorted-IsAscending x [] h = (tt, tt)
    insert_sorted-IsAscending x (y ∷ ys) (follows, h) = elim (Bool-cases (fl.lt y x)) [
      | inl less ↦
          rw less (Follows-insert_sorted x y ys less follows, insert_sorted-IsAscending x ys h)
      | inr other ↦ rw other (other, (follows, h))
    ]

    sort-IsAscending : (xs : List F) → IsAscending (sort xs)
    unfolding sort
    sort-IsAscending [] = tt
    sort-IsAscending (x ∷ xs) = insert_sorted-IsAscending x (sort xs) (sort-IsAscending xs)

    -- Of one sample or more, `median` returns the middle one in ascending order, or half the sum of
    -- the two middle ones.
    pub median-IsMedian :
        (samples : List F) → 0 < length samples → Returns (median samples) (IsMedian samples)
    unfolding median
    median-IsMedian samples h =
        let sorted = sort samples in
        let size = length-sort samples in
        let n = length samples in
        elim (Bool-cases (n % 2 == 0)) [
          | inr odd ↦ (
            at sorted (n / 2),
            rw (size, odd) (read_lem sorted (n / 2) (omega (arith, size))),
            record {
              ordered = sorted;
              same_samples = sort-Perm samples;
              ascending = sort-IsAscending samples;
              odd_lem = λ e. refl;
              even_lem = λ e. absurd (not_both n odd e);
            },
          )
          | inl even ↦
              let inside : (n / 2 == 0) ≡ false = gt→== (n / 2) 0 (half n even h) in
              (
                (at sorted (n / 2 - 1) +f at sorted (n / 2)) /f fl.of_size 2,
                rw
                    (
                      size,
                      even,
                      inside,
                      read_lem sorted (n / 2 - 1) (omega (arith, size)),
                      read_lem sorted (n / 2) (omega (arith, size)),
                    )
                    refl,
                record {
                  ordered = sorted;
                  same_samples = sort-Perm samples;
                  ascending = sort-IsAscending samples;
                  odd_lem = λ e. absurd (both n even e);
                  even_lem = λ e. refl;
                },
              )
        ]
      where
        half : (n : ℕ) → (n % 2 == 0) ≡ true → 0 < n → 0 < n / 2
        half n even positive = ground arith

        not_both : (n : ℕ) → (n % 2 == 0) ≡ false → n % 2 ≡ 0 → ⊥
        not_both n odd e = ground arith

        both : (n : ℕ) → (n % 2 == 0) ≡ true → n % 2 ≡ 1 → ⊥
        both n even e = ground arith
