-- ===== src/Splice.antt =====
-- Copying one buffer over a range of another (`std::copy` to `begin() + first`).
use gpt2_cpu_runtime.Prelude.{
  length, take, drop, length-append, length-take, length-drop, get_or-take, get_or-drop,
  get_or-append_left, get_or-append_right, ℕ, ◌+◌, ◌-◌, ◌≤◌, ◌<◌, ◌≡◌, ◌∙◌, List, ◌++◌, arith,
}
use gpt2_cpu_runtime.Float.{Float}
use gpt2_cpu_runtime.Buffer.{at}
use gpt2_cpu_runtime.Update.{IsUpdated}

-- `output` with the entries from `first` on replaced by those of `part`.
unfoldable pub splice {ℓ} : {A : Type ℓ} → List A → ℕ → List A → List A
splice output first part = take first output ++ (part ++ drop (first + length part) output)

module _ {F : Type 0} ⦃fl : Float F⦄ where
  length-splice :
      (output part : List F) (first : ℕ)
      → first + length part ≤ length output
      → length (splice output first part) ≡ length output
  unfolding splice
  length-splice output part first h = omega (
    arith,
    length-append (take first output) (part ++ drop (first + length part) output),
    length-append part (drop (first + length part) output),
    length-take first output (omega arith),
    length-drop (first + length part) output,
  )

  splice_before :
      (output part : List F) (first j : ℕ)
      → first + length part ≤ length output
      → j < first
      → at (splice output first part) j ≡ at output j
  unfolding splice
  splice_before output part first j h l =
      get_or-append_left (take first output) _ j fl.nought
        (omega (arith, length-take first output (omega arith)))
      ∙ get_or-take first j output fl.nought l

  splice_inside :
      (output part : List F) (first i : ℕ)
      → first + length part ≤ length output
      → i < length part
      → at (splice output first part) (first + i) ≡ at part i
  unfolding splice
  splice_inside output part first i h l =
      let size = length-take first output (omega arith) in
      let e : first + i - length (take first output) ≡ i = omega arith in
      get_or-append_right (take first output) _ (first + i) fl.nought (omega arith)
      ∙ rw e (get_or-append_left part _ i fl.nought l)

  splice_after :
      (output part : List F) (first j : ℕ)
      → first + length part ≤ length output
      → first + length part ≤ j
      → at (splice output first part) j ≡ at output j
  unfolding splice
  splice_after output part first j h l =
      let size = length-take first output (omega arith) in
      let rest = part ++ drop (first + length part) output in
      let k = j - length (take first output) in
      let e : first + length part + (k - length part) ≡ j = omega arith in
      get_or-append_right (take first output) rest j fl.nought (omega arith)
      ∙ get_or-append_right part (drop (first + length part) output) k fl.nought (omega arith)
      ∙ get_or-drop (first + length part) (k - length part) output fl.nought
      ∙ rw e

  pub splice-IsUpdated :
      (output part : List F) (first count : ℕ)
      → length part ≡ count
      → first + count ≤ length output
      → IsUpdated first count (at part) output (splice output first part)
  splice-IsUpdated output part first count e h = record {
    size_kept = length-splice output part first (omega arith);
    changed = λ i l. splice_inside output part first i (omega arith) (omega arith);
    below = λ j l. splice_before output part first j (omega arith) l;
    above = λ j l. splice_after output part first j (omega arith) (omega arith);
  }
