-- ===== src/Reference.antt =====
-- The mathematics of a GPT-2 layer on one row, entry by entry, over the machine's float operations.
-- Rows are functions of the channel. The kernels are proved to compute these functions; they state
-- the order of every accumulation, since float addition is not associative.
use gpt2_cpu_runtime.Prelude.{
  if◌then◌else◌, is_empty, ℕ, zero, suc, ◌+◌, ◌*◌, ◌<◌, ◌≡◌, refl, ap, List, arith,
}
use gpt2_cpu_runtime.Float.{Float, ◌+f◌, ◌-f◌, ◌*f◌, ◌/f◌, fmax}
use gpt2_cpu_runtime.Buffer.{at}

module _ {F : Type 0} ⦃fl : Float F⦄ where
  -- start + f 0 + f 1 + … + f (n - 1), from the left.
  unfoldable pub acc_range : ℕ → (ℕ → F) → F → F
  acc_range zero f start = start
  acc_range (suc n) f start = acc_range n f start +f f n

  -- The largest of `start` and the first `n` values, by `std::max` from the left.
  unfoldable pub max_range : ℕ → (ℕ → F) → F → F
  max_range zero f start = start
  max_range (suc n) f start = fmax (max_range n f start) (f n)

  pub acc_range-congr :
      (n : ℕ) (f g : ℕ → F) (start : F)
      → ((i : ℕ) → i < n → f i ≡ g i)
      → acc_range n f start ≡ acc_range n g start
  unfolding acc_range
  acc_range-congr zero f g start h = refl
  acc_range-congr (suc n) f g start h =
      cc (acc_range-congr n f g start (λ i k. h i (omega arith)), h n (omega arith))

  pub max_range-congr :
      (n : ℕ) (f g : ℕ → F) (start : F)
      → ((i : ℕ) → i < n → f i ≡ g i)
      → max_range n f start ≡ max_range n g start
  unfolding max_range
  max_range-congr zero f g start h = refl
  max_range-congr (suc n) f g start h =
      cc (max_range-congr n f g start (λ i k. h i (omega arith)), h n (omega arith))

  -- Entry `o` of a linear layer: the bias, or zero, plus the products in channel order.
  unfoldable pub bias_at : List F → ℕ → F
  bias_at bias o = if is_empty bias then fl.nought else at bias o

  unfoldable pub linear_row : List F → List F → ℕ → (ℕ → F) → ℕ → F
  linear_row weight bias inputs x o =
      acc_range inputs (λ i. x i *f at weight (o * inputs + i)) (bias_at bias o)

  -- Mean, variance and entry `c` of a normalised row.
  unfoldable pub mean_row : ℕ → (ℕ → F) → F
  mean_row n x = acc_range n x fl.nought /f fl.of_size n

  unfoldable pub shifted_square : F → F → F
  shifted_square mean v = (v -f mean) *f (v -f mean)

  unfoldable pub variance_row : ℕ → (ℕ → F) → F
  variance_row n x =
      acc_range n (λ i. shifted_square (mean_row n x) (x i)) fl.nought /f fl.of_size n

  unfoldable pub norm_row : List F → List F → ℕ → (ℕ → F) → ℕ → F
  norm_row weight bias n x c =
      fl.one /f fl.sqrt (variance_row n x +f fl.epsilon) *f (x c -f mean_row n x) *f at weight c
      +f at bias c

  -- One head of attention: the query against `count` keys, and the weighted sum of the values.
  unfoldable pub score_of : (size : ℕ) (scale : F) (query : ℕ → F) (keys : ℕ → ℕ → F) → ℕ → F
  score_of size scale query keys s = acc_range size (λ i. query i *f keys s i) fl.nought *f scale

  unfoldable pub weight_of : (count : ℕ) (scores : ℕ → F) → ℕ → F
  weight_of count scores s = fl.exp (scores s -f max_range count scores fl.lowest)

  unfoldable pub inverse_of : F → F
  inverse_of sum = if fl.is_nought sum then fl.nought else fl.one /f sum

  unfoldable pub attend_row :
      (count size : ℕ) (scale : F) (query : ℕ → F) (keys values : ℕ → ℕ → F) → ℕ → F
  attend_row count size scale query keys values i =
      let weights = weight_of count (score_of size scale query keys) in
      let inverse = inverse_of (acc_range count weights fl.nought) in
      acc_range count (λ s. weights s *f inverse *f values s i) fl.nought

  -- GELU of one value, by the tanh approximation.
  unfoldable pub gelu : F → F
  gelu v =
      let cube_term = fl.cube_factor *f v *f v *f v in
      fl.half *f v *f (fl.one +f fl.tanh (fl.sqrt fl.two_over_pi *f (v +f cube_term)))

  -- A head depends on the entries that it reads alone.
  module _ (count size : ℕ) (scale : F) (q q' : ℕ → F) (k k' v v' : ℕ → ℕ → F) where
    score_of-congr :
        ((i : ℕ) → i < size → q i ≡ q' i)
        → ((s i : ℕ) → s < count → i < size → k s i ≡ k' s i)
        → (s : ℕ) → s < count
        → score_of size scale q k s ≡ score_of size scale q' k' s
    unfolding score_of
    score_of-congr hq hk s h =
        ap (λ (t : F). t *f scale)
          (acc_range-congr size (λ i. q i *f k s i) (λ i. q' i *f k' s i) fl.nought
            λ i l. cc (hq i l, hk s i h l))

    pub attend_row-at :
        ((i : ℕ) → i < size → q i ≡ q' i)
        → ((s i : ℕ) → s < count → i < size → k s i ≡ k' s i)
        → (i : ℕ) → ((s : ℕ) → s < count → v s i ≡ v' s i)
        → attend_row count size scale q k v i ≡ attend_row count size scale q' k' v' i
    unfolding attend_row weight_of
    attend_row-at hq hk i hv =
        let same = weight_of-congr hq hk in
        let total =
          acc_range-congr count (weight_of count (score_of size scale q k))
            (weight_of count (score_of size scale q' k')) fl.nought same in
        acc_range-congr count _ _ fl.nought λ s l. cc (same s l, total, hv s l)
      where
        weight_of-congr :
            ((i : ℕ) → i < size → q i ≡ q' i)
            → ((s i : ℕ) → s < count → i < size → k s i ≡ k' s i)
            → (s : ℕ) → s < count
            → weight_of count (score_of size scale q k) s
              ≡ weight_of count (score_of size scale q' k') s
        weight_of-congr hq hk s l = cc (
          score_of-congr hq hk s l,
          max_range-congr count (score_of size scale q k) (score_of size scale q' k') fl.lowest
              (score_of-congr hq hk),
        )

    pub attend_row-congr :
        ((i : ℕ) → i < size → q i ≡ q' i)
        → ((s i : ℕ) → s < count → i < size → k s i ≡ k' s i)
        → ((s i : ℕ) → s < count → i < size → v s i ≡ v' s i)
        → (i : ℕ) → i < size
        → attend_row count size scale q k v i ≡ attend_row count size scale q' k' v' i
    attend_row-congr hq hk hv i h = attend_row-at hq hk i λ s l. hv s i l h

  pub linear_row-congr :
      (weight bias : List F) (inputs : ℕ) (x y : ℕ → F) (o : ℕ)
      → ((i : ℕ) → i < inputs → x i ≡ y i)
      → linear_row weight bias inputs x o ≡ linear_row weight bias inputs y o
  unfolding linear_row
  linear_row-congr weight bias inputs x y o h =
      acc_range-congr inputs _ _ _ λ i l. ap (λ (t : F). t *f at weight (o * inputs + i)) (h i l)

  mean_row-congr :
      (n : ℕ) (x y : ℕ → F) → ((i : ℕ) → i < n → x i ≡ y i) → mean_row n x ≡ mean_row n y
  unfolding mean_row
  mean_row-congr n x y h = ap (λ (t : F). t /f fl.of_size n) (acc_range-congr n x y fl.nought h)

  pub norm_row-congr :
      (weight bias : List F) (n : ℕ) (x y : ℕ → F) (c : ℕ)
      → c < n
      → ((i : ℕ) → i < n → x i ≡ y i)
      → norm_row weight bias n x c ≡ norm_row weight bias n y c
  unfolding norm_row variance_row
  norm_row-congr weight bias n x y c l h =
      let mean = mean_row-congr n x y h in
      let squares =
        acc_range-congr n (λ i. shifted_square (mean_row n x) (x i))
          (λ i. shifted_square (mean_row n y) (y i)) fl.nought (λ i k. cc (mean, h i k)) in
      cc (mean, squares, h c l)
