-- ===== src/Kernels/Stages/Heads.antt =====
-- Attention on matrices: the rows that the causal and the cached kernel compute.
use native.Mathlib.Nat.{div-add-mod, mod-lt, mul-le-mul, le_refl}
use native.Mathlib.Decide.{dec_lt}
use gpt2_cpu_runtime.Prelude.{
  size_mod, row_span, heads_fill, Returns, length, ℕ, ◌+◌, ◌*◌, ◌/◌, ◌%◌, ◌≤◌, ◌<◌, ◌≡◌, ◌∙◌, List,
  arith,
}
use gpt2_cpu_runtime.Float.{Float}
use gpt2_cpu_runtime.Buffer.{at}
use gpt2_cpu_runtime.Reference.{attend_row, attend_row-congr}
use gpt2_cpu_runtime.Kernels.Stages.{IsMatrix}
use gpt2_cpu_runtime.Kernels.Attention.{scale_of, causal_self_attention, cached_self_attention}
use gpt2_cpu_runtime.Kernels.Attention.Causal.{causal_self_attention-Returns}
use gpt2_cpu_runtime.Kernels.Attention.Cached.{cached_self_attention-Returns}

-- A channel lies in one head.
pub head_of :
    (c heads o : ℕ)
    → 0 < c
    → c % heads ≡ 0
    → o < c
    → (o / (c / heads) < heads)
      × (o % (c / heads) < c / heads)
      × (o / (c / heads) * (c / heads) + o % (c / heads) ≡ o)
head_of c heads o pos divides h =
    let size = c / heads in
    let fill = heads_fill c heads divides in
    let size_pos : 0 < size = elim (dec_lt 0 size) [
      | yes p ↦ p
      | no z ↦ let e : size ≡ 0 = omega arith in absurd (omega (arith, rw e at fill))
    ] in
    let split = div-add-mod o size in
    let below : o / size < heads = elim (dec_lt (o / size) heads) [
      | yes p ↦ p
      | no z ↦
          let over : heads ≤ o / size = omega arith in
          absurd (omega (arith, fill, split, mul-le-mul over (le_refl size)))
    ] in
    (below, mod-lt o size_pos, omega (arith, split))

module _ {F : Type 0} ⦃fl : Float F⦄ where
  -- Channel `o` of the attention of position `t`, from the rows of queries, keys and values.
  unfoldable pub attention_row : (c heads : ℕ) (qkv : ℕ → ℕ → F) → ℕ → ℕ → F
  attention_row c heads qkv t o =
      let size = c / heads in
      let base = o / size * size in
      attend_row (t + 1) size (scale_of size) (λ i. qkv t (base + i))
        (λ s i. qkv s (c + (base + i))) (λ s i. qkv s (2 * c + (base + i))) (o % size)

  module _ (c heads : ℕ) (x : ℕ → ℕ → F) (c_pos : 0 < c) (heads_pos : 0 < heads)
      (divides : c % heads ≡ 0) where
    abbrev width : ℕ
    width = c / heads

    base_le : (o i : ℕ) → o < c → i < width → o / width * width + i < c
    base_le o i h k =
        let (l, m, e) = head_of c heads o c_pos divides h in
        omega (arith, heads_fill c heads divides, row_span (o / width) heads width l)

    pub causal_stage :
        (output qkv scratch : List F) (rows : ℕ)
        → 0 < rows
        → rows * (3 * c) < size_mod
        → length output ≡ rows * c
        → length scratch ≡ rows
        → IsMatrix rows (3 * c) x qkv
        → Returns
            (causal_self_attention output qkv scratch rows c heads)
            λ b. IsMatrix rows c (attention_row c heads x) b.output × (length b.scratch ≡ rows)
    unfolding attention_row
    causal_stage output qkv scratch rows rows_pos fits eo es m =
        let (b, e, (size_kept, scratch_kept, written)) =
          causal_self_attention-Returns output qkv scratch rows c heads (record {
            output_size = eo;
            qkv_size = omega (arith, m.size_lem);
            scratch_size = es;
            heads_pos = heads_pos;
            channels_pos = c_pos;
            divides = divides;
            qkv_fits = omega (arith, m.size_lem);
            rows_pos = rows_pos;
          }) in
        let entry = λ (s o : ℕ) (hs : s < rows) (ho : o < 3 * c). m.entry_lem s o hs ho in
        (
          b,
          e,
          (
            record {
              size_lem = size_kept;
              entry_lem = λ t o ht ho.
                  let (l, k, here) = head_of c heads o c_pos divides ho in
                  let place : t * c + o / width * width + o % width ≡ t * c + o =
                    omega (arith, here) in
                  rw place at (written t (o / width) (o % width) ht l k)
                  ∙ attend_row-congr (t + 1) width (scale_of width) _ _ _ _ _ _
                      (λ i hi.
                        let z : t * 3 * c + o / width * width + i
                            ≡ t * (3 * c) + (o / width * width + i) =
                          omega arith in
                        rw z (m.entry_lem t _ ht (omega (arith, base_le o i ho hi))))
                      (λ s i hs hi.
                        let z : s * 3 * c + c + o / width * width + i
                            ≡ s * (3 * c) + (c + (o / width * width + i)) =
                          omega arith in
                        rw z (m.entry_lem s _ (omega arith) (omega (arith, base_le o i ho hi))))
                      (λ s i hs hi.
                        let z : s * 3 * c + 2 * c + o / width * width + i
                            ≡ s * (3 * c) + (2 * c + (o / width * width + i)) =
                          omega arith in
                        rw z (m.entry_lem s _ (omega arith) (omega (arith, base_le o i ho hi))))
                      (o % width) k;
            },
            scratch_kept,
          ),
        )

    -- The cached kernel on the query of position `t`, where the first `t + 1` positions of the
    -- cache hold the keys and the values of their rows.
    pub cached_stage :
        (output query keys values scratch : List F) (t capacity : ℕ)
        → t < capacity
        → capacity * c < size_mod
        → length output ≡ c
        → length query ≡ c
        → length keys ≡ capacity * c
        → length values ≡ capacity * c
        → length scratch ≡ capacity
        → ((i : ℕ) → i < c → at query i ≡ x t i)
        → ((s i : ℕ) → s < t + 1 → i < c → at keys (s * c + i) ≡ x s (c + i))
        → ((s i : ℕ) → s < t + 1 → i < c → at values (s * c + i) ≡ x s (2 * c + i))
        → Returns
            (cached_self_attention output query keys values scratch (t + 1) capacity c heads)
            λ b.
              (length b.output ≡ c)
              × (length b.scratch ≡ capacity)
              × ((o : ℕ) → o < c → at b.output o ≡ attention_row c heads x t o)
    unfolding attention_row
    cached_stage output query keys values scratch t capacity ht fits eo eq ek ev es hq hk hv =
        let (b, e, (size_kept, scratch_kept, written)) =
          cached_self_attention-Returns output query keys values scratch (t + 1) capacity c heads
            (record {
              output_size = eo;
              query_size = eq;
              keys_size = ek;
              values_size = ev;
              scratch_size = es;
              visible_pos = omega arith;
              visible_le = omega arith;
              heads_pos = heads_pos;
              channels_pos = c_pos;
              divides = divides;
              keys_fits = omega arith;
            }) in
        (
          b,
          e,
          (
            size_kept,
            scratch_kept,
            λ o ho.
                let (l, k, here) = head_of c heads o c_pos divides ho in
                rw here at (written (o / width) (o % width) l k)
                ∙ attend_row-congr (t + 1) width (scale_of width) _ _ _ _ _ _
                    (λ i hi. hq _ (base_le o i ho hi))
                    (λ s i hs hi.
                      let z : s * c + o / width * width + i ≡ s * c + (o / width * width + i) =
                        omega arith in
                      rw z (hk s _ hs (base_le o i ho hi)))
                    (λ s i hs hi.
                      let z : s * c + o / width * width + i ≡ s * c + (o / width * width + i) =
                        omega arith in
                      rw z (hv s _ hs (base_le o i ho hi)))
                    (o % width) k,
          ),
        )
