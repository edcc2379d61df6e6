-- ===== src/Kernels/Pointwise.antt =====
-- `kernels::add_in_place` and `kernels::gelu_in_place` (src/kernels.cpp).
use gpt2_cpu_runtime.Prelude.{
  ℕ, zero, suc, ◌+◌, ◌<◌, ◌≡◌, refl, ap, List, [], ◌∷◌, arith, Result, ◌>>=◌, ◌>>◌, Returns,
  for_range, length,
}
use mathlib.Core.List.{map}
use gpt2_cpu_runtime.Float.{Float, ◌+f◌, ◌*f◌}
use gpt2_cpu_runtime.Buffer.{require_size, require_size_lem, at, read, write, read_lem, write_lem}
use gpt2_cpu_runtime.Update.{IsUpdated, update_range}
use gpt2_cpu_runtime.Reference.{gelu}

module _ {F : Type 0} ⦃fl : Float F⦄ where
  -- destination[index] += source[index]
  add_entry : List F → ℕ → List F → Result (List F)
  add_entry source index destination = do
    d ← read destination index
    s ← read source index
    write destination index (d +f s)

  unfoldable pub add_in_place : (destination source : List F) → Result (List F)
  unfolding add_entry
  add_in_place destination source = do
    require_size source (length destination) "add source"
    for_range (length destination) 0 (add_entry source) destination

  -- The body of the loop of `gelu_in_place`, `scaling` computed once before it.
  gelu_value : F → F → F
  gelu_value scaling value =
      let cube_term = fl.cube_factor *f value *f value *f value in
      fl.half *f value *f (fl.one +f fl.tanh (scaling *f (value +f cube_term)))

  unfoldable pub gelu_in_place : List F → List F
  unfolding gelu_value
  gelu_in_place values = map (gelu_value (fl.sqrt fl.two_over_pi)) values

  -- The sum of two vectors of one length, entry by entry.
  pub add_in_place-Returns :
      (destination source : List F)
      → length source ≡ length destination
      → Returns
          (add_in_place destination source)
          (IsUpdated 0 (length destination) (λ i. at destination i +f at source i) destination)
  unfolding add_in_place
  add_in_place-Returns destination source e =
      rw (require_size_lem source (length destination) "add source" e) (
        update_range 0 (λ i. at destination i +f at source i) destination (length destination)
          (add_entry source) (omega arith)
          λ k b h size old.
            let z : 0 + k ≡ k = omega arith in
            rw z (
              rw (
                read_lem b k (omega arith),
                read_lem source k (omega arith),
                write_lem b k (at b k +f at source k) (omega arith),
                rw z at old,
              )))

  pub length-gelu_in_place : (values : List F) → length (gelu_in_place values) ≡ length values
  unfolding gelu_in_place
  length-gelu_in_place [] = refl
  length-gelu_in_place (v ∷ vs) = ap suc (length-gelu_in_place vs)

  -- Every entry is replaced by its GELU.
  pub at-gelu_in_place :
      (values : List F) (i : ℕ)
      → i < length values
      → at (gelu_in_place values) i ≡ gelu (at values i)
  unfolding gelu_in_place gelu
  at-gelu_in_place [] i h = elim h [ ]
  at-gelu_in_place (v ∷ vs) zero h = refl
  at-gelu_in_place (v ∷ vs) (suc i) h = at-gelu_in_place vs i (omega arith)
