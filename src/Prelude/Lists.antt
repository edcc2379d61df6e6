-- ===== src/Prelude/Lists.antt =====
-- Lists measured and indexed by native numbers, under the library's names.
use Prim.Native.Nat.{ℕ, zero, suc, ◌+◌, ◌-◌, ◌≤◌, ◌<◌}
use mathlib.Core.Path.{◌≡◌, refl, ap}
use mathlib.Core.List.{List, [], ◌∷◌, ◌++◌}
use mathlib.Core.Bool.{Bool, true, false}
use native.Mathlib.Omega.{arith}

module _ {ℓ} {A : Type ℓ} where
  abbrev pub length : List A → ℕ
  length [] = 0
  length (x ∷ xs) = suc (length xs)

  abbrev pub get_or : List A → ℕ → A → A
  get_or [] i d = d
  get_or (x ∷ xs) zero d = x
  get_or (x ∷ xs) (suc i) d = get_or xs i d

  -- A write out of bounds changes nothing.
  abbrev pub set : List A → ℕ → A → List A
  set [] i v = []
  set (x ∷ xs) zero v = v ∷ xs
  set (x ∷ xs) (suc i) v = x ∷ set xs i v

  abbrev pub take : ℕ → List A → List A
  take zero xs = []
  take (suc n) [] = []
  take (suc n) (x ∷ xs) = x ∷ take n xs

  abbrev pub drop : ℕ → List A → List A
  drop zero xs = xs
  drop (suc n) [] = []
  drop (suc n) (x ∷ xs) = drop n xs

  abbrev pub replicate : ℕ → A → List A
  replicate zero a = []
  replicate (suc n) a = a ∷ replicate n a

  abbrev pub is_empty : List A → Bool
  is_empty [] = true
  is_empty (x ∷ xs) = false

  pub length-append : (xs ys : List A) → length (xs ++ ys) ≡ length xs + length ys
  length-append [] ys = omega arith
  length-append (x ∷ xs) ys = omega (arith, length-append xs ys)

  pub length-set : (xs : List A) (i : ℕ) (v : A) → length (set xs i v) ≡ length xs
  length-set [] i v = refl
  length-set (x ∷ xs) zero v = refl
  length-set (x ∷ xs) (suc i) v = ap suc (length-set xs i v)

  pub get_or-set_self :
      (xs : List A) (i : ℕ) (v d : A) → i < length xs → get_or (set xs i v) i d ≡ v
  get_or-set_self [] i v d h = elim h [ ]
  get_or-set_self (x ∷ xs) zero v d h = refl
  get_or-set_self (x ∷ xs) (suc i) v d h = get_or-set_self xs i v d (omega arith)

  pub get_or-set_lt :
      (xs : List A) (i j : ℕ) (v d : A) → i < j → get_or (set xs j v) i d ≡ get_or xs i d
  get_or-set_lt [] i j v d h = refl
  get_or-set_lt (x ∷ xs) i zero v d h = elim h [ ]
  get_or-set_lt (x ∷ xs) zero (suc j) v d h = refl
  get_or-set_lt (x ∷ xs) (suc i) (suc j) v d h = get_or-set_lt xs i j v d (omega arith)

  pub get_or-set_gt :
      (xs : List A) (i j : ℕ) (v d : A) → j < i → get_or (set xs j v) i d ≡ get_or xs i d
  get_or-set_gt [] i j v d h = refl
  get_or-set_gt (x ∷ xs) zero j v d h = elim h [ ]
  get_or-set_gt (x ∷ xs) (suc i) zero v d h = refl
  get_or-set_gt (x ∷ xs) (suc i) (suc j) v d h = get_or-set_gt xs i j v d (omega arith)

  pub length-take : (n : ℕ) (xs : List A) → n ≤ length xs → length (take n xs) ≡ n
  length-take zero xs h = refl
  length-take (suc n) [] h = elim h [ ]
  length-take (suc n) (x ∷ xs) h = ap suc (length-take n xs (omega arith))

  pub length-take_of_le : (n : ℕ) (xs : List A) → length xs ≤ n → length (take n xs) ≡ length xs
  length-take_of_le zero [] h = refl
  length-take_of_le zero (x ∷ xs) h = elim h [ ]
  length-take_of_le (suc n) [] h = refl
  length-take_of_le (suc n) (x ∷ xs) h = ap suc (length-take_of_le n xs (omega arith))

  pub length-drop : (n : ℕ) (xs : List A) → length (drop n xs) ≡ length xs - n
  length-drop zero xs = omega arith
  length-drop (suc n) [] = omega arith
  length-drop (suc n) (x ∷ xs) = omega (arith, length-drop n xs)

  pub length-replicate : (n : ℕ) (a : A) → length (replicate n a) ≡ n
  length-replicate zero a = refl
  length-replicate (suc n) a = ap suc (length-replicate n a)

  pub get_or-take : (n i : ℕ) (xs : List A) (d : A) → i < n → get_or (take n xs) i d ≡ get_or xs i d
  get_or-take zero i xs d h = elim h [ ]
  get_or-take (suc n) i [] d h = refl
  get_or-take (suc n) zero (x ∷ xs) d h = refl
  get_or-take (suc n) (suc i) (x ∷ xs) d h = get_or-take n i xs d (omega arith)

  pub get_or-drop : (n i : ℕ) (xs : List A) (d : A) → get_or (drop n xs) i d ≡ get_or xs (n + i) d
  get_or-drop zero i xs d = let e : 0 + i ≡ i = omega arith in rw e
  get_or-drop (suc n) i [] d = refl
  get_or-drop (suc n) i (x ∷ xs) d =
      let e : suc n + i ≡ suc (n + i) = omega arith in rw e (get_or-drop n i xs d)

  pub get_or-replicate : (n i : ℕ) (a : A) → get_or (replicate n a) i a ≡ a
  get_or-replicate zero i a = refl
  get_or-replicate (suc n) zero a = refl
  get_or-replicate (suc n) (suc i) a = get_or-replicate n i a

  pub get_or-append_left :
      (xs ys : List A) (i : ℕ) (d : A) → i < length xs → get_or (xs ++ ys) i d ≡ get_or xs i d
  get_or-append_left [] ys i d h = elim h [ ]
  get_or-append_left (x ∷ xs) ys zero d h = refl
  get_or-append_left (x ∷ xs) ys (suc i) d h = get_or-append_left xs ys i d (omega arith)

  pub get_or-append_right :
      (xs ys : List A) (i : ℕ) (d : A)
      → length xs ≤ i
      → get_or (xs ++ ys) i d ≡ get_or ys (i - length xs) d
  get_or-append_right [] ys i d h = let e : i - 0 ≡ i = omega arith in rw e
  get_or-append_right (x ∷ xs) ys zero d h = elim h [ ]
  get_or-append_right (x ∷ xs) ys (suc i) d h =
      let e : suc i - suc (length xs) ≡ i - length xs = omega arith in
      rw e (get_or-append_right xs ys i d (omega arith))

  -- Two lists are equal when they have one length and the same entries.
  pub list_ext :
      (xs ys : List A) (d : A)
      → length xs ≡ length ys
      → ((i : ℕ) → i < length xs → get_or xs i d ≡ get_or ys i d)
      → xs ≡ ys
  list_ext [] [] d e h = refl
  list_ext [] (y ∷ ys) d e h = absurd (omega arith)
  list_ext (x ∷ xs) [] d e h = absurd (omega arith)
  list_ext (x ∷ xs) (y ∷ ys) d e h =
      cc (h 0 (omega arith), list_ext xs ys d (omega arith) λ i k. h (suc i) (omega arith))

  pub is_empty_lem : (xs : List A) → 0 < length xs → is_empty xs ≡ false
  is_empty_lem [] h = absurd (omega arith)
  is_empty_lem (x ∷ xs) h = refl

  abbrev pub tabulate : ℕ → (ℕ → A) → List A
  tabulate zero f = []
  tabulate (suc n) f = f 0 ∷ tabulate n λ i. f (suc i)

  pub length-tabulate : (n : ℕ) (f : ℕ → A) → length (tabulate n f) ≡ n
  length-tabulate zero f = refl
  length-tabulate (suc n) f = ap suc (length-tabulate n λ i. f (suc i))

  pub get_or-tabulate : (n i : ℕ) (f : ℕ → A) (d : A) → i < n → get_or (tabulate n f) i d ≡ f i
  get_or-tabulate zero i f d h = elim h [ ]
  get_or-tabulate (suc n) zero f d h = refl
  get_or-tabulate (suc n) (suc i) f d h = get_or-tabulate n i (λ j. f (suc j)) d (omega arith)

  -- A list with known entries is the list of them.
  pub list_ext-tabulate :
      (n : ℕ) (f : ℕ → A) (xs : List A) (d : A)
      → length xs ≡ n
      → ((i : ℕ) → i < n → get_or xs i d ≡ f i)
      → xs ≡ tabulate n f
  list_ext-tabulate zero f [] d e h = refl
  list_ext-tabulate zero f (x ∷ xs) d e h = absurd (omega arith)
  list_ext-tabulate (suc n) f [] d e h = absurd (omega arith)
  list_ext-tabulate (suc n) f (x ∷ xs) d e h = cc (
    h 0 (omega arith),
    list_ext-tabulate n (λ i. f (suc i)) xs d (omega arith) λ i k. h (suc i) (omega arith),
  )
