-- ===== src/Executor/Shards.antt =====
-- One shard computes its channels of the linear layer, and the shards together compute the layer.
use gpt2_cpu_runtime.Prelude.{
  if◌then◌else◌, size_mod, ok, length, take, drop, is_empty, ℕ, ◌+◌, ◌*◌, ◌≤◌, ◌<◌, ◌≡◌, refl, ◌⊎◌,
  inl, inr, false, List, [], ◌∷◌, arith,
}
use gpt2_cpu_runtime.Float.{Float}
use gpt2_cpu_runtime.Buffer.{IsSpan, subspan, subspan_lem, length-subspan, at, at-subspan}
use gpt2_cpu_runtime.Reference.{bias_at, linear_row}
use gpt2_cpu_runtime.Executor.{Job}

module _ {F : Type 0} ⦃fl : Float F⦄ where
  module _ (job : Job F) where
    open job use {input_channels as inputs, output_channels as outputs}

    -- The job's sizes, as `linear` checks them.
    pub record IsJob : Type 0 where
      pub input_size : length job.input ≡ inputs
      pub weight_size : length job.weight ≡ outputs * inputs
      pub bias_size : (job.bias ≡ []) ⊎ (length job.bias ≡ outputs)
      pub input_fits : IsSpan job.input
      pub weight_fits : IsSpan job.weight
      pub outputs_fit : outputs < size_mod

    -- Output channel `o` of the job.
    abbrev pub channel : ℕ → F
    channel o = linear_row job.weight job.bias inputs (at job.input) o

    pub bias_part : List F → ℕ → ℕ → List F
    bias_part [] first count = []
    bias_part (b ∷ bs) first count = take count (drop first (b ∷ bs))

    pub bias_part_lem :
        (bias : List F) (first count : ℕ)
        → (bias ≡ []) ⊎ (length bias ≡ outputs)
        → first + count ≤ outputs
        → (if is_empty bias then ok [] else subspan bias first count)
          ≡ ok (bias_part bias first count)
    unfolding bias_part
    bias_part_lem [] first count h l = refl
    bias_part_lem (b ∷ bs) first count (inl e) l = cc
    bias_part_lem (b ∷ bs) first count (inr e) l = subspan_lem (b ∷ bs) first count (omega arith)

    pub bias_part_size :
        (bias : List F) (first count : ℕ)
        → (bias ≡ []) ⊎ (length bias ≡ outputs)
        → first + count ≤ outputs
        → (bias_part bias first count ≡ []) ⊎ (length (bias_part bias first count) ≡ count)
    unfolding bias_part
    bias_part_size [] first count h l = inl refl
    bias_part_size (b ∷ bs) first count (inl e) l = cc
    bias_part_size (b ∷ bs) first count (inr e) l =
        inr (length-subspan (b ∷ bs) first count (omega arith))

    not_empty : (xs : List F) → 0 < length xs → is_empty xs ≡ false
    not_empty [] h = absurd (omega arith)
    not_empty (x ∷ xs) h = refl

    pub bias_at-bias_part :
        (bias : List F) (first count o : ℕ)
        → (bias ≡ []) ⊎ (length bias ≡ outputs)
        → first + count ≤ outputs
        → o < count
        → bias_at (bias_part bias first count) o ≡ bias_at bias (first + o)
    unfolding bias_part bias_at
    bias_at-bias_part [] first count o h l m = refl
    bias_at-bias_part (b ∷ bs) first count o (inl e) l m = cc
    bias_at-bias_part (b ∷ bs) first count o (inr e) l m =
        let part = take count (drop first (b ∷ bs)) in
        rw (not_empty part (omega (arith, length-subspan (b ∷ bs) first count (omega arith))))
          (at-subspan (b ∷ bs) first count o m)
