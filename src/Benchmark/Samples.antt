-- ===== src/Benchmark/Samples.antt =====
-- `Samples` and `measure`: a program measures an operation several times.
pub mod Median
use gpt2_cpu_runtime.Prelude.{
  ◌==◌, if◌then◌else◌, Bool-cases, gt→==, Error, Result, err, ok, ◌>>=◌, Returns, step, reserve,
  reserve_lem, max_size, ◌≤◌, ◌>>◌, for_range, for_range-Returns, length, length-append, ℕ, zero,
  suc, ◌+◌, ◌-◌, ◌/◌, ◌%◌, ◌<◌, ◌≡◌, refl, ap, ◌∙◌, inl, inr, true, false, not, List, [], ◌∷◌, ◌++◌,
  arith,
}
use gpt2_cpu_runtime.Float.{Float, ◌+f◌, ◌/f◌}
use gpt2_cpu_runtime.Buffer.{read, read_lem}

-- The samples that a measurement leaves, the state that the operation works on, and the number of
-- clock readings so far.
pub record Measured (S F : Type 0) : Type 0 where
  pub subject : S
  pub readings : ℕ
  pub milliseconds : List F

module _ {F : Type 0} ⦃fl : Float F⦄ where
  -- std::sort
  abbrev pub insert_sorted : F → List F → List F
  insert_sorted x [] = x ∷ []
  insert_sorted x (y ∷ ys) = if fl.lt y x then y ∷ insert_sorted x ys else x ∷ y ∷ ys

  unfoldable pub sort : List F → List F
  sort [] = []
  sort (x ∷ xs) = insert_sorted x (sort xs)

  unfoldable pub median : List F → Result F
  unfolding sort
  median milliseconds = do
    let sorted = sort milliseconds
    let middle = length sorted / 2
    if not (length sorted % 2 == 0) then read sorted middle else do
      a ← if middle == 0 then err Error.fault else read sorted (middle - 1)
      b ← read sorted middle
      ok ((a +f b) /f fl.of_size 2)

  length-insert_sorted : (x : F) (xs : List F) → length (insert_sorted x xs) ≡ suc (length xs)
  length-insert_sorted x [] = refl
  length-insert_sorted x (y ∷ ys) = elim (Bool-cases (fl.lt y x)) [
    | inl less ↦ rw less (ap suc (length-insert_sorted x ys))
    | inr other ↦ rw other
  ]

  pub length-sort : (xs : List F) → length (sort xs) ≡ length xs
  unfolding sort
  length-sort [] = refl
  length-sort (x ∷ xs) = length-insert_sorted x (sort xs) ∙ ap suc (length-sort xs)

  -- The median of one sample or more reads no entry outside of the sorted copy.
  pub median-Returns :
      (milliseconds : List F)
      → 0 < length milliseconds
      → Returns (median milliseconds) λ m. Unit {0}
  unfolding median
  median-Returns milliseconds h =
      let sorted = sort milliseconds in
      let size = length-sort milliseconds in
      let middle = length sorted / 2 in
      elim (Bool-cases (length sorted % 2 == 0)) [
        | inr odd ↦ rw (odd, read_lem sorted middle (omega (arith, size))) (_, refl, tt)
        | inl even ↦
            let inside : (middle == 0) ≡ false =
              gt→== middle 0 (half (length sorted) even (omega (arith, size))) in
            rw
              (
                even,
                inside,
                read_lem sorted (middle - 1) (omega (arith, size)),
                read_lem sorted middle (omega (arith, size)),
              )
              (_, refl, tt)
      ]
    where
      half : (n : ℕ) → (n % 2 == 0) ≡ true → 0 < n → 0 < n / 2
      half n even positive = ground arith

-- The set-up of an operation that needs none.
abbrev pub no_setup : {S : Type 0} → S → Result S
no_setup s = ok s

-- `elapsed k`: the milliseconds between reading `k` of the clock and the next.
module _ {F : Type 0} {S : Type 0} (elapsed : ℕ → F) (setup operation : S → Result S) where
  -- A round that is not timed, and one that is.
  unfoldable pub warm : ℕ → Measured S F → Result (Measured S F)
  warm index m = do
    prepared ← setup m.subject
    finished ← operation prepared
    ok (record m { subject = finished })

  unfoldable pub sample : ℕ → Measured S F → Result (Measured S F)
  sample index m = do
    prepared ← setup m.subject
    finished ← operation prepared
    ok (record {
      subject = finished;
      readings = m.readings + 2;
      milliseconds = m.milliseconds ++ (elapsed m.readings ∷ []);
    })

  unfoldable pub measure : (warmup repetitions : ℕ) → S → ℕ → Result (Measured S F)
  unfolding warm sample
  measure warmup repetitions s readings = do
    warmed ←
        for_range warmup 0 warm (record { subject = s; readings = readings; milliseconds = [] })
    reserve repetitions
    for_range repetitions 0 sample warmed

  -- When the set-up and the operation return, so does the measurement, with one sample for each
  -- repetition, and with what the last operation has left.
  pub measure-Returns :
      (P Q R : S → Type 0) (warmup repetitions : ℕ) (s : S) (readings : ℕ)
      → ((s' : S) → P s' → Returns (setup s') Q)
      → ((s' : S) → Q s' → Returns (operation s') R)
      → ((s' : S) → R s' → P s')
      → P s
      → 0 < repetitions
      → repetitions ≤ max_size
      → Returns
          (measure warmup repetitions s readings)
          λ m. R m.subject × (length m.milliseconds ≡ repetitions)
  unfolding measure
  measure-Returns P Q R warmup repetitions s readings sets runs back p positive le =
      let (warmed, e1, (p1, none_yet)) =
        for_range-Returns (λ k m. P m.subject × (length m.milliseconds ≡ 0)) warm warmup
          (record { subject = s; readings = readings; milliseconds = [] })
          (λ k m h (q, e).
            let (s1, e1, q1) = sets m.subject q in
            let (s2, e2, r) = runs s1 q1 in (_, step _ e1 (step _ e2 refl), (back s2 r, e)))
          (p, refl) in
      let (out, e2, (r, count)) =
        for_range-Returns
          (λ k m. (P m.subject × (0 < k → R m.subject)) × (length m.milliseconds ≡ k)) sample
          repetitions warmed
          (λ k m h ((q, _), e).
            let (s1, e1, q1) = sets m.subject q in
            let (s2, e2, r) = runs s1 q1 in
            (
              _,
              step _ e1 (step _ e2 refl),
              ((back s2 r, λ l. r), length-append m.milliseconds (_ ∷ []) ∙ omega (arith, e)),
            ))
          ((p1, λ l. absurd (omega arith)), none_yet) in
      (out, step _ e1 (step _ (reserve_lem repetitions le) e2), (r.1 positive, count))

  -- When the operation throws on what the set-up leaves, so does the measurement, at once.
  pub measure-throws :
      (P Q : S → Type 0) (thrown : Error) (warmup repetitions : ℕ) (s : S) (readings : ℕ)
      → ((s' : S) → P s' → Returns (setup s') Q)
      → ((s' : S) → Q s' → operation s' ≡ err thrown)
      → P s
      → 0 < repetitions
      → repetitions ≤ max_size
      → measure warmup repetitions s readings ≡ err thrown
  unfolding measure for_range
  measure-throws P Q thrown (suc warmup) repetitions s readings sets throws p positive le =
      let (s1, e1, q) = sets s p in
      let first : warm 0 (record { subject = s; readings = readings; milliseconds = [] })
          ≡ err thrown =
        unfold warm in step _ e1 (rw (throws s1 q)) in
      rw first
  measure-throws P Q thrown zero zero s readings sets throws p positive le = absurd (omega arith)
  measure-throws P Q thrown zero (suc repetitions) s readings sets throws p positive le =
      let (s1, e1, q) = sets s p in
      let first : sample 0 (record { subject = s; readings = readings; milliseconds = [] })
          ≡ err thrown =
        unfold sample in step _ e1 (rw (throws s1 q)) in
      step _ (reserve_lem (suc repetitions) le) (rw first)
