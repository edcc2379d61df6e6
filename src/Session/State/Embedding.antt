-- ===== src/Session/State/Embedding.antt =====
-- The embedding of a token at its position, and the rows of the real vocabulary.
use gpt2_cpu_runtime.Prelude.{
  row_end, Returns, for_range, length, take, drop, ℕ, ◌+◌, ◌*◌, ◌≤◌, ◌<◌, ◌≡◌, ap, List, [], arith,
}
use gpt2_cpu_runtime.Float.{Float, ◌+f◌, ◌*f◌}
use gpt2_cpu_runtime.Buffer.{IsSpan, at, write_lem, read-wadd, at-subspan}
use gpt2_cpu_runtime.Update.{update_range}
use gpt2_cpu_runtime.Reference.{acc_range-congr, linear_row}
use gpt2_cpu_runtime.Kernels.Stages.{IsMatrix}
use gpt2_cpu_runtime.Session.State.{embed_token}

module _ {F : Type 0} ⦃fl : Float F⦄ where
  -- The embedding of a token at a position fills the residual.
  pub embed_loop :
      (wte wpe : List F) (token_base position_base c : ℕ) (residual : List F)
      → IsSpan wte
      → IsSpan wpe
      → token_base + c ≤ length wte
      → position_base + c ≤ length wpe
      → length residual ≡ c
      → Returns
          (for_range c 0 (embed_token wte wpe token_base position_base) residual)
          (IsMatrix 1 c λ r o. at wte (token_base + o) +f at wpe (position_base + o))
  unfolding embed_token
  embed_loop wte wpe token_base position_base c residual st sp ht hp e =
      let (out, made, p) =
        update_range 0 (λ o. at wte (token_base + o) +f at wpe (position_base + o)) residual c
          (embed_token wte wpe token_base position_base) (omega arith)
          (λ k b h size old.
            let z : 0 + k ≡ k = omega arith in
            rw z (
              rw (
                read-wadd wte token_base k st (omega arith),
                read-wadd wpe position_base k sp (omega arith),
                write_lem b k (at wte (token_base + k) +f at wpe (position_base + k)) (omega arith),
              ))) in
      (
        out,
        made,
        record {
          size_lem = omega (arith, p.size_kept);
          entry_lem = λ r o hr ho.
              let first : r ≡ 0 = omega arith in
              let z : r * c + o ≡ 0 + o = rw first (omega arith) in rw z (p.changed o ho);
        },
      )

  -- The rows of the real vocabulary are the first rows of the token embedding.
  pub head_row :
      (wte : List F) (vocabulary_size c : ℕ) (x : ℕ → F) (v : ℕ)
      → v < vocabulary_size
      → linear_row (take (vocabulary_size * c) (drop 0 wte)) [] c x v ≡ linear_row wte [] c x v
  unfolding linear_row
  head_row wte vocabulary_size c x v h = acc_range-congr c _ _ _ λ i l.
      let z : 0 + (v * c + i) ≡ v * c + i = omega arith in
      ap (λ (t : F). x i *f t)
        (rw z at
          (at-subspan wte 0 (vocabulary_size * c) (v * c + i) (row_end v vocabulary_size i c h l)))
