-- ===== src/Kernels/Attention/Head.antt =====
-- One head of attention computes `attend_row`, in three loops that stay inside their spans.
use gpt2_cpu_runtime.Update.{IsUpdated, IsUpdated-trans, IsUpdated-congr, update_range}
use native.Mathlib.Decide.{dec_lt}
use gpt2_cpu_runtime.Prelude.{
  Returns, for_range, for_range-Returns, length, set, length-set, get_or-set_self, get_or-set_lt,
  get_or-set_gt, ℕ, suc, ◌+◌, ◌≤◌, ◌<◌, ◌≡◌, refl, ap, ◌∙◌, List, arith,
}
use gpt2_cpu_runtime.Float.{Float, ◌+f◌, ◌*f◌, fmax}
use gpt2_cpu_runtime.Buffer.{IsSpan, at, read_lem, write_lem, read-wadd, write-wadd}
use gpt2_cpu_runtime.Reference.{acc_range, max_range, score_of, weight_of, inverse_of, attend_row}
use gpt2_cpu_runtime.Kernels.Attention.{
  Buffers, add_product, score_source, exponential_source, add_weighted, weigh_source, attend_head,
}

module _ {F : Type 0} ⦃fl : Float F⦄ where
  module _ (query keys values : List F) (query_base : ℕ) (key_base value_base : ℕ → ℕ)
      (count size : ℕ) (scale : F) where
    abbrev query_row : ℕ → F
    query_row i = at query (query_base + i)

    abbrev key_rows : ℕ → ℕ → F
    key_rows s i = at keys (key_base s + i)

    abbrev value_rows : ℕ → ℕ → F
    value_rows s i = at values (value_base s + i)

    abbrev scores : ℕ → F
    scores = score_of size scale query_row key_rows

    abbrev weights : ℕ → F
    weights = weight_of count scores

    -- Entry `i` of the head's output.
    abbrev pub head_row : ℕ → F
    head_row = attend_row count size scale query_row key_rows value_rows

    -- The ranges that the head reads lie inside the spans.
    pub record IsReadable : Type 0 where
      pub query_fits : IsSpan query
      pub keys_fits : IsSpan keys
      pub values_fits : IsSpan values
      pub query_room : query_base + size ≤ length query
      pub key_room : (s : ℕ) → s < count → key_base s + size ≤ length keys
      pub value_room : (s : ℕ) → s < count → value_base s + size ≤ length values

    -- The first `k` scratch entries are `f`.
    record IsScratch (f : ℕ → F) (n k : ℕ) (scratch : List F) : Type 0 where
      size_kept : length scratch ≡ n
      filled : (s : ℕ) → s < k → at scratch s ≡ f s

    filled-set :
        (f : ℕ → F) (k : ℕ) (scratch : List F)
        → k < length scratch
        → ((s : ℕ) → s < k → at scratch s ≡ f s)
        → (s : ℕ) → s < suc k
        → at (set scratch k (f k)) s ≡ f s
    filled-set f k scratch room old s h = elim (dec_lt s k) [
      | yes lower ↦ get_or-set_lt scratch s k (f k) fl.nought lower ∙ old s lower
      | no last ↦
          let e : s ≡ k = omega arith in rw e (get_or-set_self scratch k (f k) fl.nought room)
    ]

    -- The first `k` scratch entries are weights, the others below `count` still scores.
    record IsWeighed (n k : ℕ) (scratch : List F) : Type 0 where
      size_kept : length scratch ≡ n
      weighed : (s : ℕ) → s < k → at scratch s ≡ weights s
      scored : (s : ℕ) → k ≤ s → s < count → at scratch s ≡ scores s

    exponential_loop :
        (n : ℕ) (scratch : List F)
        → count ≤ n
        → IsScratch scores n count scratch
        → Returns
            (for_range count 0
              (exponential_source (max_range count scores fl.lowest))
              (scratch, fl.nought))
            λ t. IsWeighed n count t.0 × (t.1 ≡ acc_range count weights fl.nought)
    unfolding exponential_source acc_range weight_of
    exponential_loop n scratch room start =
        for_range-Returns (λ k t. IsWeighed n k t.0 × (t.1 ≡ acc_range k weights fl.nought))
          (exponential_source (max_range count scores fl.lowest)) count (scratch, fl.nought)
          (λ k t h inv.
            let here : k < length t.0 = omega (arith, inv.0.size_kept) in
            (
              (set t.0 k (weights k), t.1 +f weights k),
              rw (
                read_lem t.0 k here,
                inv.0.scored k (omega arith) h,
                write_lem t.0 k (weights k) here,
              ),
              (
                record {
                  size_kept = length-set t.0 _ _ ∙ inv.0.size_kept;
                  weighed = filled-set weights k t.0 here inv.0.weighed;
                  scored = λ s l m.
                      get_or-set_gt t.0 s k (weights k) fl.nought (omega arith)
                      ∙ inv.0.scored s (omega arith) m;
                },
                rw (inv.1),
              ),
            ))
          (
            record {
              size_kept = start.size_kept;
              weighed = λ s h. absurd (omega arith);
              scored = λ s _ h. start.filled s h;
            },
            refl,
          )

    module _ (r : IsReadable) where
      product_loop :
          (s : ℕ)
          → s < count
          → Returns
              (for_range size 0 (add_product query keys query_base (key_base s)) fl.nought)
              λ v. v ≡ acc_range size (λ i. query_row i *f key_rows s i) fl.nought
      unfolding acc_range add_product
      product_loop s h =
          for_range-Returns (λ k v. v ≡ acc_range k (λ i. query_row i *f key_rows s i) fl.nought)
            (add_product query keys query_base (key_base s)) size fl.nought
            (λ k v l e. (
              v +f query_row k *f key_rows s k,
              rw (
                read-wadd query query_base k r.query_fits (omega (arith, r.query_room)),
                read-wadd keys (key_base s) k r.keys_fits (omega (arith, r.key_room s h)),
              ),
              rw e,
            ))
            refl

      score_loop :
          (n : ℕ) (scratch : List F)
          → count ≤ n
          → length scratch ≡ n
          → Returns
              (for_range count 0
                (score_source query keys query_base key_base size scale)
                (scratch, fl.lowest))
              λ t. IsScratch scores n count t.0 × (t.1 ≡ max_range count scores fl.lowest)
      unfolding score_source max_range score_of
      score_loop n scratch room e =
          for_range-Returns (λ k t. IsScratch scores n k t.0 × (t.1 ≡ max_range k scores fl.lowest))
            (score_source query keys query_base key_base size scale) count (scratch, fl.lowest)
            (λ k t h inv.
              let (v, e1, e2) = product_loop k h in
              let here : k < length t.0 = omega (arith, inv.0.size_kept) in
              (
                (set t.0 k (scores k), fmax t.1 (scores k)),
                rw (e1, e2, write_lem t.0 k (scores k) here),
                (
                  record {
                    size_kept = length-set t.0 _ _ ∙ inv.0.size_kept;
                    filled = filled-set scores k t.0 here inv.0.filled;
                  },
                  rw (inv.1),
                ),
              ))
            (record { size_kept = e; filled = λ s h. absurd (omega arith) }, refl)

      -- What one source position adds to the output.
      weigh_source_lem :
          (n ob k : ℕ) (inverse : F) (scratch out : List F)
          → k < count
          → count ≤ n
          → IsWeighed n count scratch
          → IsSpan out
          → ob + size ≤ length out
          → Returns (weigh_source values scratch value_base ob size inverse k out) (
              IsUpdated ob size
                (λ i. at out (ob + i) +f weights k *f inverse *f value_rows k i)
                out)
      unfolding weigh_source add_weighted
      weigh_source_lem n ob k inverse scratch out h l w fits room =
          rw (read_lem scratch k (omega (arith, w.size_kept)), w.weighed k h)
            (update_range ob _ out size
              (add_weighted values (value_base k) ob (weights k *f inverse)) room
              λ i b hi e old. rw (
                read-wadd b ob i (omega arith) (omega arith),
                read-wadd values (value_base k) i r.values_fits (omega (arith, r.value_room k h)),
                write-wadd b ob i _ (omega arith) (omega arith),
                old,
              ))

      weigh_loop :
          (n ob : ℕ) (inverse : F) (scratch out : List F)
          → count ≤ n
          → IsWeighed n count scratch
          → IsSpan out
          → ob + size ≤ length out
          → ((i : ℕ) → i < size → at out (ob + i) ≡ fl.nought)
          → Returns
              (for_range count 0 (weigh_source values scratch value_base ob size inverse) out)
              (IsUpdated ob size
                (λ i. acc_range count (λ s. weights s *f inverse *f value_rows s i) fl.nought)
                out)
      unfolding acc_range
      weigh_loop n ob inverse scratch out l w fits room zeros =
          for_range-Returns
            (λ k b.
              IsUpdated ob size
                (λ i. acc_range k (λ s. weights s *f inverse *f value_rows s i) fl.nought) out b)
            (weigh_source values scratch value_base ob size inverse) count out
            (λ k b h u.
              let (b', e, v) =
                weigh_source_lem n ob k inverse scratch b h l w (omega (arith, u.size_kept))
                  (omega (arith, u.size_kept)) in
              (
                b',
                e,
                IsUpdated-trans u (
                    IsUpdated-congr
                      (λ i hi.
                        ap (λ (x : F). x +f weights k *f inverse *f value_rows k i)
                          (u.changed i hi))
                      v),
              ))
            (record { size_kept = refl; changed = zeros; below = λ j h. refl; above = λ j h. refl })

      -- A head whose part of the output is zero writes that part, and no other.
      pub attend_head-Returns :
          (ob : ℕ) (b : Buffers F)
          → count ≤ length b.scratch
          → IsSpan b.output
          → ob + size ≤ length b.output
          → ((i : ℕ) → i < size → at b.output (ob + i) ≡ fl.nought)
          → Returns
              (attend_head query keys values query_base key_base value_base count size scale ob b)
              λ c.
                (length c.scratch ≡ length b.scratch) × IsUpdated ob size head_row b.output c.output
      unfolding attend_head attend_row inverse_of
      attend_head-Returns ob b l fits room zeros =
          let n = length b.scratch in
          let (t, e1, scored) = score_loop n b.scratch l refl in
          let (u, e2, weighed) = exponential_loop n t.0 l scored.0 in
          let (out, e3, updated) =
            weigh_loop n ob (inverse_of (acc_range count weights fl.nought)) u.0 b.output l
              weighed.0 fits room zeros in
          (
            record { output = out; scratch = u.0 },
            rw (e1, scored.1, e2, weighed.1, e3),
            (weighed.0.size_kept, updated),
          )
