-- ===== src/Buffer.antt =====
-- Spans of floats: checked sizes, reads and writes by index, and sub-spans.
use Prim.Native.String.{String, ◌++◌}
use gpt2_cpu_runtime.Prelude.{
  ℕ, ◌+◌, ◌≤◌, ◌<◌, ◌≡◌, ap, ◌∙◌, List, arith, ltb, leb, ◌==◌, if◌then◌else◌, Result, ok, err,
  Error, guard, size_mod, wadd, wadd_lem, length, get_or, set, take, drop, length-take, length-drop,
  get_or-take, get_or-drop,
}
use gpt2_cpu_runtime.Float.{Float}

-- The floats that a span views. Its length is a `std::size_t`.
abbrev pub IsSpan {ℓ} : {A : Type ℓ} → List A → Type 0
IsSpan xs = length xs < size_mod

module _ {ℓ} {A : Type ℓ} where
  -- `require_size` of the kernels.
  unfoldable pub require_size : List A → ℕ → String → Result (Unit {0})
  require_size values expected name =
      guard (length values == expected) (Error.invalid_argument (name ++ " has the wrong size"))

  pub require_size_lem :
      (values : List A) (expected : ℕ) (name : String)
      → length values ≡ expected
      → require_size values expected name ≡ ok tt
  unfolding require_size
  require_size_lem values expected name h = ground arith

  -- `span::subspan(offset, count)`, where a range outside the span is undefined.
  unfoldable pub subspan : List A → ℕ → ℕ → Result (List A)
  subspan xs offset count =
      if leb (offset + count) (length xs) then ok (take count (drop offset xs)) else err Error.fault

  pub subspan_lem :
      (xs : List A) (offset count : ℕ)
      → offset + count ≤ length xs
      → subspan xs offset count ≡ ok (take count (drop offset xs))
  unfolding subspan
  subspan_lem xs offset count h = ground arith

  pub length-subspan :
      (xs : List A) (offset count : ℕ)
      → offset + count ≤ length xs
      → length (take count (drop offset xs)) ≡ count
  length-subspan xs offset count h =
      length-take count (drop offset xs) (omega (arith, length-drop offset xs))

module _ {F : Type 0} ⦃fl : Float F⦄ where
  -- The entry that an index names.
  abbrev pub at : List F → ℕ → F
  at xs i = get_or xs i fl.nought

  -- `xs[i]`: outside the span this is undefined behaviour.
  unfoldable pub read : List F → ℕ → Result F
  read xs i = if ltb i (length xs) then ok (at xs i) else err Error.fault

  -- `xs[i] = v`.
  unfoldable pub write : List F → ℕ → F → Result (List F)
  write xs i v = if ltb i (length xs) then ok (set xs i v) else err Error.fault

  pub read_lem : (xs : List F) (i : ℕ) → i < length xs → read xs i ≡ ok (at xs i)
  unfolding read
  read_lem xs i h = ground arith

  pub write_lem : (xs : List F) (i : ℕ) (v : F) → i < length xs → write xs i v ≡ ok (set xs i v)
  unfolding write
  write_lem xs i v h = ground arith

  -- A read at a base and an offset whose sum is an index of the span.
  pub read-wadd :
      (xs : List F) (b i : ℕ)
      → IsSpan xs
      → b + i < length xs
      → read xs (wadd b i) ≡ ok (at xs (b + i))
  read-wadd xs b i s h = ap (read xs) (wadd_lem b i (omega arith)) ∙ read_lem xs (b + i) h

  pub write-wadd :
      (xs : List F) (b i : ℕ) (v : F)
      → IsSpan xs
      → b + i < length xs
      → write xs (wadd b i) v ≡ ok (set xs (b + i) v)
  write-wadd xs b i v s h =
      ap (λ k. write xs k v) (wadd_lem b i (omega arith)) ∙ write_lem xs (b + i) v h

  pub at-subspan :
      (xs : List F) (offset count i : ℕ)
      → i < count
      → at (take count (drop offset xs)) i ≡ at xs (offset + i)
  at-subspan xs offset count i h =
      get_or-take count i (drop offset xs) fl.nought h ∙ get_or-drop offset i xs fl.nought
