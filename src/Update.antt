-- ===== src/Update.antt =====
-- Loops that change a range of a buffer in place, each entry from its own old value.
use native.Mathlib.Decide.{dec_lt}
use gpt2_cpu_runtime.Prelude.{
  ℕ, suc, ◌+◌, ◌≤◌, ◌<◌, ◌≡◌, refl, ◌∙◌, List, arith, Result, ok, Returns, for_range,
  for_range-Returns, length, set, length-set, get_or-set_self, get_or-set_lt, get_or-set_gt,
}
use gpt2_cpu_runtime.Float.{Float}
use gpt2_cpu_runtime.Buffer.{at}

module _ {F : Type 0} ⦃fl : Float F⦄ where
  -- `b` is `start` with the entries `base .. base + n` replaced by `g` of their index.
  pub record IsUpdated (base n : ℕ) (g : ℕ → F) (start b : List F) : Type 0 where
    pub size_kept : length b ≡ length start
    pub changed : (i : ℕ) → i < n → at b (base + i) ≡ g i
    pub below : (j : ℕ) → j < base → at b j ≡ at start j
    pub above : (j : ℕ) → base + n ≤ j → at b j ≡ at start j

  -- Two updates of one range are one update, by the later values.
  pub IsUpdated-trans :
      {base n : ℕ} {f g : ℕ → F} {start mid b : List F}
      → IsUpdated base n f start mid
      → IsUpdated base n g mid b
      → IsUpdated base n g start b
  IsUpdated-trans u v = record {
    size_kept = v.size_kept ∙ u.size_kept;
    changed = v.changed;
    below = λ j h. v.below j h ∙ u.below j h;
    above = λ j h. v.above j h ∙ u.above j h;
  }

  pub IsUpdated-congr :
      {base n : ℕ} {f g : ℕ → F} {start b : List F}
      → ((i : ℕ) → i < n → f i ≡ g i)
      → IsUpdated base n f start b
      → IsUpdated base n g start b
  IsUpdated-congr h u = record {
    size_kept = u.size_kept;
    changed = λ i l. u.changed i l ∙ h i l;
    below = u.below;
    above = u.above;
  }

  module _ (base : ℕ) (g : ℕ → F) (start : List F) where
    IsUpdated-set :
        (k : ℕ) (b : List F)
        → base + k < length start
        → IsUpdated base k g start b
        → IsUpdated base (suc k) g start (set b (base + k) (g k))
    IsUpdated-set k b h u = record {
      size_kept = length-set b _ _ ∙ u.size_kept;
      changed = λ i l. elim (dec_lt i k) [
        | yes lower ↦
            get_or-set_lt b (base + i) (base + k) (g k) fl.nought (omega arith) ∙ u.changed i lower
        | no last ↦
            let e : i ≡ k = omega arith in
            rw e (get_or-set_self b (base + k) (g k) fl.nought (omega (arith, u.size_kept)))
      ];
      below = λ j l. get_or-set_lt b j (base + k) (g k) fl.nought (omega arith) ∙ u.below j l;
      above = λ j l.
          get_or-set_gt b j (base + k) (g k) fl.nought (omega arith) ∙ u.above j (omega arith);
    }

    -- The loop `for k: b[base + k] = …`, whose new values are `g` as long as the entry is old.
    pub update_range :
        (n : ℕ) (cell : ℕ → List F → Result (List F))
        → base + n ≤ length start
        → ((k : ℕ) (b : List F)
            → k < n
            → length b ≡ length start
            → at b (base + k) ≡ at start (base + k)
            → cell k b ≡ ok (set b (base + k) (g k)))
        → Returns (for_range n 0 cell start) (IsUpdated base n g start)
    update_range n cell fits writes =
        for_range-Returns (λ k b. IsUpdated base k g start b) cell n start
          (λ k b h u. (
            _,
            writes k b h u.size_kept (u.above (base + k) (omega arith)),
            IsUpdated-set k b (omega arith) u,
          ))
          (record {
            size_kept = refl;
            changed = λ i h. absurd (omega arith);
            below = λ j h. refl;
            above = λ j h. refl;
          })
