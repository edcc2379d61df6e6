-- ===== src/Generate/Greedy.antt =====
-- `greedy_token`: the first of the largest logits (`std::max_element`), as a token ID.
use native.Mathlib.Nat.{mod-eq_of_lt}
use gpt2_cpu_runtime.Prelude.{
  ltb, lt→ltb, refl, if◌then◌else◌, ltb→lt, ltb→le, Bool-cases, length, ℕ, suc, ◌+◌, ◌%◌, ◌^◌, ◌≤◌,
  ◌<◌, ◌≡◌, inl, inr, true, false, List, [], ◌∷◌, arith,
}
use gpt2_cpu_runtime.Prelude.Int.{ℤ, pos, to_int32}
use gpt2_cpu_runtime.Float.{Float}
use gpt2_cpu_runtime.Buffer.{at}
use gpt2_cpu_runtime.Model.Forward.{bad_token}

module _ {F : Type 0} ⦃fl : Float F⦄ where
  -- std::max_element: the loop, with the largest entry so far, its index, and the next index.
  unfoldable pub max_from : F → ℕ → ℕ → List F → ℕ
  max_from largest best i [] = best
  max_from largest best i (x ∷ xs) =
      if fl.lt largest x then max_from x i (i + 1) xs else max_from largest best (i + 1) xs

  unfoldable pub max_element : List F → ℕ
  unfolding max_from
  max_element [] = 0
  max_element (x ∷ xs) = max_from x 0 1 xs

  unfoldable pub greedy_token : List F → ℤ
  greedy_token logits = to_int32 (max_element logits)

  max_from-lt :
      (largest : F) (best i : ℕ) (xs : List F)
      → best < i
      → max_from largest best i xs < i + length xs
  unfolding max_from
  max_from-lt largest best i [] h = omega arith
  max_from-lt largest best i (x ∷ xs) h = elim (Bool-cases (fl.lt largest x)) [
    | inl greater ↦ rw greater (omega (arith, max_from-lt x i (i + 1) xs (omega arith)))
    | inr other ↦ rw other (omega (arith, max_from-lt largest best (i + 1) xs (omega arith)))
  ]

  -- The index that `std::max_element` finds lies in the span.
  pub max_element-lt : (xs : List F) → 0 < length xs → max_element xs < length xs
  unfolding max_element
  max_element-lt [] h = absurd (omega arith)
  max_element-lt (x ∷ xs) h = omega (arith, max_from-lt x 0 1 xs (omega arith))

  -- The greedy token of logits over a vocabulary that an `std::int32_t` can name is a token of
  -- that vocabulary.
  pub bad_token-greedy_token :
      (logits : List F)
      → 0 < length logits
      → length logits ≤ 2 ^ 31
      → bad_token (length logits) (greedy_token logits) ≡ false
  unfolding bad_token greedy_token
  bad_token-greedy_token logits nonempty small =
      let lt = max_element-lt logits nonempty in
      let e : max_element logits % 2 ^ 32 ≡ max_element logits = mod-eq_of_lt (omega arith) in
      rw e (ground arith)

  -- What `<` satisfies on the floats that satisfy `N`: it holds of floats that are not NaN.
  pub record IsOrder (N : F → Type 0) : Type 0 where
    pub irreflexive : (a : F) → N a → fl.lt a a ≡ false
    pub transitive :
        (a b c : F) → N a → N b → N c → fl.lt a b ≡ true → fl.lt b c ≡ true → fl.lt a c ≡ true
    pub cotransitive :
        (a b c : F) → N a → N b → N c → fl.lt a b ≡ false → fl.lt a c ≡ true → fl.lt b c ≡ true

  -- Entry `m` is the first of the largest of the first `n` entries.
  pub record IsFirstMaximum (x : ℕ → F) (n m : ℕ) : Type 0 where
    pub inside : m < n
    pub largest : (j : ℕ) → j < n → fl.lt (x m) (x j) ≡ false
    pub first : (j : ℕ) → j < m → fl.lt (x j) (x m) ≡ true

  module _ {N : F → Type 0} (order : IsOrder N) where
    max_from-IsFirstMaximum :
        (x : ℕ → F) (n best i : ℕ) (xs : List F)
        → i + length xs ≡ n
        → ((j : ℕ) → j < n → N (x j))
        → ((k : ℕ) → k < length xs → at xs k ≡ x (i + k))
        → IsFirstMaximum x i best
        → IsFirstMaximum x n (max_from (x best) best i xs)
    unfolding max_from
    max_from-IsFirstMaximum x n best i [] e numbers same found =
        let e' : i ≡ n = omega arith in rw e' at found
    max_from-IsFirstMaximum x n best i (y ∷ ys) e numbers same found =
        let e0 : i + 0 ≡ i = omega arith in
        let one : i + 1 ≡ suc i = omega arith in
        let here : y ≡ x i = rw e0 at (same 0 (omega arith)) in
        let next : (k : ℕ) → k < length ys → at ys k ≡ x (i + 1 + k) = λ k h.
          let m : i + suc k ≡ i + 1 + k = omega arith in rw m at (same (suc k) (omega arith)) in
        let N_best = numbers best (omega (arith, found.inside)) in
        let N_i = numbers i (omega arith) in
        elim (Bool-cases (fl.lt (x best) (x i))) [
          | inl greater ↦
              rw (here, greater)
                (max_from-IsFirstMaximum x n i (i + 1) ys (omega arith) numbers next (record {
                  inside = omega arith;
                  largest = λ j h. elim (Bool-cases (fl.lt (x i) (x j))) [
                    | inr less ↦ less
                    | inl more ↦ elim (Bool-cases (ltb j i)) [
                      | inl before ↦
                          let N_j = numbers j (omega arith) in
                          let up =
                            order.transitive (x best) (x i) (x j) N_best N_i N_j greater more in
                          absurd (cc (up, found.largest j (ltb→lt j i before)))
                      | inr at_i ↦
                          let same_index : j ≡ i = omega (arith, ltb→le j i at_i) in
                          rw same_index (order.irreflexive (x i) N_i)
                    ]
                  ];
                  first = λ j h.
                      order.cotransitive (x best) (x j) (x i) N_best (numbers j (omega arith)) N_i
                        (found.largest j h) greater;
                }))
          | inr other ↦
              rw (here, other)
                (max_from-IsFirstMaximum x n best (i + 1) ys (omega arith) numbers next (record {
                  inside = omega (arith, found.inside);
                  largest = λ j h. elim (Bool-cases (ltb j i)) [
                    | inl before ↦ found.largest j (ltb→lt j i before)
                    | inr at_i ↦
                        let same_index : j ≡ i = omega (arith, ltb→le j i at_i) in
                        rw same_index other
                  ];
                  first = found.first;
                }))
        ]

    max_element-IsFirstMaximum :
        (xs : List F)
        → 0 < length xs
        → ((j : ℕ) → j < length xs → N (at xs j))
        → IsFirstMaximum (at xs) (length xs) (max_element xs)
    unfolding max_element
    max_element-IsFirstMaximum [] h numbers = absurd (omega arith)
    max_element-IsFirstMaximum (x ∷ xs) h numbers =
        max_from-IsFirstMaximum (at (x ∷ xs)) (length (x ∷ xs)) 0 1 xs (omega arith) numbers
          (λ k h. let m : 1 + k ≡ suc k = omega arith in rw m)
          (record {
            inside = omega arith;
            largest = λ j h.
                let z : j ≡ 0 = omega arith in rw z (order.irreflexive x (numbers 0 (omega arith)));
            first = λ j h. absurd (omega arith);
          })

    -- On nonempty logits without NaN, whose number an `std::int32_t` can hold, the greedy token is
    -- the index of the first of the largest logits.
    pub greedy_token-IsFirstMaximum :
        (logits : List F)
        → 0 < length logits
        → length logits ≤ 2 ^ 31
        → ((j : ℕ) → j < length logits → N (at logits j))
        → (m : ℕ) × (greedy_token logits ≡ pos m) × IsFirstMaximum (at logits) (length logits) m
    unfolding greedy_token to_int32
    greedy_token-IsFirstMaximum logits nonempty small numbers =
        let lt = max_element-lt logits nonempty in
        let e : max_element logits % 2 ^ 32 ≡ max_element logits = mod-eq_of_lt (omega arith) in
        let positive : ltb (max_element logits) (2 ^ 31) ≡ true =
          lt→ltb (max_element logits) (2 ^ 31) (omega arith) in
        (
          max_element logits,
          rw (e, positive) refl,
          max_element-IsFirstMaximum logits nonempty numbers,
        )
