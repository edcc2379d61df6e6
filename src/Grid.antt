-- ===== src/Grid.antt =====
-- Row-major buffers: `rows` rows of `width` entries, written row by row and entry by entry.
use native.Mathlib.Decide.{dec_lt}
use gpt2_cpu_runtime.Prelude.{
  ℕ, suc, ◌+◌, ◌*◌, ◌<◌, ◌≤◌, ◌≡◌, ◌∙◌, List, arith, Result, ok, Returns, for_range,
  for_range-Returns, row_end, length, set, length-set, get_or-set_self, get_or-set_lt,
}
use gpt2_cpu_runtime.Float.{Float}
use gpt2_cpu_runtime.Buffer.{at}

module _ {F : Type 0} ⦃fl : Float F⦄ where
  -- The first `rows` rows of a buffer hold the entries of `f`.
  pub record Holds (rows width : ℕ) (f : ℕ → ℕ → F) (buffer : List F) : Type 0 where
    pub entries : (r o : ℕ) → r < rows → o < width → at buffer (r * width + o) ≡ f r o

  module _ (width size : ℕ) (f : ℕ → ℕ → F) where
    -- The rows before `r` and the first `k` entries of row `r` are written.
    pub record IsWritten (r k : ℕ) (buffer : List F) : Type 0 where
      pub size_kept : length buffer ≡ size
      pub before : Holds r width f buffer
      pub within : (o : ℕ) → o < k → at buffer (r * width + o) ≡ f r o

    within-set :
        (r k : ℕ) (buffer : List F)
        → r * width + k < length buffer
        → ((o : ℕ) → o < k → at buffer (r * width + o) ≡ f r o)
        → (o : ℕ) → o < suc k
        → at (set buffer (r * width + k) (f r k)) (r * width + o) ≡ f r o
    within-set r k buffer h earlier o l = elim (dec_lt o k) [
      | yes lower ↦
          get_or-set_lt buffer (r * width + o) (r * width + k) (f r k) fl.nought (omega arith)
          ∙ earlier o lower
      | no last ↦
          let e : o ≡ k = omega arith in
          rw e (get_or-set_self buffer (r * width + k) (f r k) fl.nought h)
    ]

    IsWritten-set :
        (r k : ℕ) (buffer : List F)
        → r * width + k < size
        → IsWritten r k buffer
        → IsWritten r (suc k) (set buffer (r * width + k) (f r k))
    IsWritten-set r k buffer h w = record {
      size_kept = length-set buffer _ _ ∙ w.size_kept;
      before = record {
        entries = λ r' o hr ho.
            get_or-set_lt buffer (r' * width + o) (r * width + k) (f r k) fl.nought
              (omega (arith, row_end r' r o width hr ho))
            ∙ w.before.entries r' o hr ho;
      };
      within = within-set r k buffer (omega (arith, w.size_kept)) w.within;
    }

    -- A row is written by a loop whose iterations each write their own entry.
    pub fill_row :
        (r : ℕ) (cell : ℕ → List F → Result (List F)) (buffer : List F)
        → r * width + width ≤ size
        → ((k : ℕ) (b : List F)
            → k < width
            → length b ≡ size
            → cell k b ≡ ok (set b (r * width + k) (f r k)))
        → IsWritten r 0 buffer
        → Returns (for_range width 0 cell buffer) (IsWritten (suc r) 0)
    fill_row r cell buffer fits writes start =
        let (out, e, w) =
          for_range-Returns (IsWritten r) cell width buffer
            (λ k b h w. (_, writes k b h w.size_kept, IsWritten-set r k b (omega arith) w)) start in
        (
          out,
          e,
          record {
            size_kept = w.size_kept;
            before = record { entries = λ r' o hr ho. next out w r' o hr ho };
            within = λ o h. absurd (omega arith);
          },
        )
      where
        next :
            (out : List F)
            → IsWritten r width out
            → (r' o : ℕ) → r' < suc r
            → o < width
            → at out (r' * width + o) ≡ f r' o
        next out w r' o hr ho = elim (dec_lt r' r) [
          | yes lower ↦ w.before.entries r' o lower ho
          | no last ↦ let e : r' ≡ r = omega arith in rw e (w.within o ho)
        ]

    -- A matrix is written by a loop whose iterations each write their own row.
    pub fill_rows :
        (rows : ℕ) (row : ℕ → List F → Result (List F)) (buffer : List F)
        → length buffer ≡ size
        → ((r : ℕ) (b : List F)
            → r < rows
            → IsWritten r 0 b
            → Returns (row r b) (IsWritten (suc r) 0))
        → Returns (for_range rows 0 row buffer) λ out. (length out ≡ size) × Holds rows width f out
    fill_rows rows row buffer e writes =
        let (out, e', w) =
          for_range-Returns (λ r b. IsWritten r 0 b) row rows buffer writes
            (record {
              size_kept = e;
              before = record { entries = λ r o h. absurd (omega arith) };
              within = λ o h. absurd (omega arith);
            }) in
        (out, e', (w.size_kept, w.before))
