-- ===== src/Model/Checkpoint/Fields.antt =====
-- The header that `load_checkpoint` accepts: its dimensions and its sizes.
use Prim.Native.String.{String}
use gpt2_cpu_runtime.Prelude.{
  ltb, ◌==◌, if◌then◌else◌, ltb→lt, ltb→le, Bool-cases, size_mod, streamsize_max, Result, ok, guard,
  >>=-eq-ok, ok-injective, guard-eq-ok, guard-next, length, get_or, drop, ℕ, zero, suc, ◌+◌, ◌*◌,
  ◌%◌, ◌^◌, ◌≤◌, ◌<◌, ◌≡◌, refl, ap, subst, ◌⊎◌, inl, inr, Bool, true, false, not, ◌&&◌, List, [],
  ◌∷◌, arith,
}
use gpt2_cpu_runtime.Prelude.Int.{ℤ, pos, negsuc, to_size, to_int32}
use gpt2_cpu_runtime.Model.Checkpoint.{
  checkpoint_magic, checkpoint_header_ints, header_bytes, words, map_list, is_int, is_positive,
  header_at, positive_dimension, read_config, check_sizes, read_header,
}
use gpt2_cpu_runtime.Model.Config.{ModelConfig, IsSized}
use gpt2_cpu_runtime.Sizes.{checked_add, checked_bytes}
use gpt2_cpu_runtime.Sizes.Products.{
  ComputesSize, checked_multiply-ComputesSize, checked_add-ComputesSize,
}

pub length-map_list :
    {A : Type 0} {B : Type 0} (f : A → B) (xs : List A) → length (map_list f xs) ≡ length xs
length-map_list f [] = refl
length-map_list f (x ∷ xs) = ap suc (length-map_list f xs)

pub length-words : (n : ℕ) (bytes : List ℕ) → length (words n bytes) ≡ n
unfolding words
length-words zero bytes = refl
length-words (suc n) bytes = ap suc (length-words n (drop 4 bytes))

-- A positive number of this kind is below 2^31.
abbrev IsWord : ℤ → Type 0
IsWord t = is_positive t ≡ true → (0 < to_size t) × (to_size t < 2 ^ 31)

to_int32-IsWord : (k : ℕ) → IsWord (to_int32 k)
to_int32-IsWord k h = elim (Bool-cases (ltb (k % 2 ^ 32) (2 ^ 31))) [
  | inl small ↦
      let h' : not (k % 2 ^ 32 == 0) ≡ true = rw small at h in
      let less = ltb→lt (k % 2 ^ 32) (2 ^ 31) small in rw small (ground arith, less)
  | inr large ↦ let h' : false ≡ true = rw large at h in absurd (cc)
]

map_list-IsWord : (ws : List ℕ) (i : ℕ) → IsWord (get_or (map_list to_int32 ws) i (pos 0))
map_list-IsWord [] i h = absurd (cc)
map_list-IsWord (w ∷ ws) zero h = to_int32-IsWord w h
map_list-IsWord (w ∷ ws) (suc i) h = map_list-IsWord ws i h

-- The dimensions of a checkpoint are positive numbers that an `std::int32_t` holds.
pub record HasWords (config : ModelConfig) : Type 0 where
  pub max_sequence_length_lt : config.max_sequence_length < 2 ^ 31
  pub vocabulary_size_lt : config.vocabulary_size < 2 ^ 31
  pub padded_vocabulary_size_lt : config.padded_vocabulary_size < 2 ^ 31
  pub num_layers_lt : config.num_layers < 2 ^ 31
  pub num_heads_lt : config.num_heads < 2 ^ 31
  pub channels_lt : config.channels < 2 ^ 31

pub HasWords-IsSized : (config : ModelConfig) → HasWords config → IsSized config
HasWords-IsSized config h = record {
  max_sequence_length_lt = omega (arith, h.max_sequence_length_lt);
  vocabulary_size_lt = omega (arith, h.vocabulary_size_lt);
  padded_vocabulary_size_lt = omega (arith, h.padded_vocabulary_size_lt);
  num_layers_lt = omega (arith, h.num_layers_lt);
  num_heads_lt = omega (arith, h.num_heads_lt);
  channels_lt = omega (arith, h.channels_lt);
}

positive_dimension_sound :
    (ws : List ℕ) (index : ℕ) (name : String) (n : ℕ)
    → positive_dimension (map_list to_int32 ws) index name ≡ ok n
    → n < 2 ^ 31
unfolding positive_dimension
positive_dimension_sound ws index name n h =
    let header = map_list to_int32 ws in
    let (_, checked, h') = >>=-eq-ok (guard (is_positive (header_at header index)) _) _ h in
    let (_, small) = map_list-IsWord ws index (guard-eq-ok _ _ checked) in
    let same : to_size (header_at header index) ≡ n = cc in rw (← same) small

pub read_config_sound :
    (ws : List ℕ) (config : ModelConfig)
    → read_config (map_list to_int32 ws) ≡ ok config
    → HasWords config
unfolding read_config
read_config_sound ws config h =
    let header = map_list to_int32 ws in
    let (a, ea, h1) = >>=-eq-ok (positive_dimension header 2 "max_sequence_length") _ h in
    let (b, eb, h2) = >>=-eq-ok (positive_dimension header 3 "vocabulary_size") _ h1 in
    let (c, ec, h3) = >>=-eq-ok (positive_dimension header 4 "num_layers") _ h2 in
    let (d, ed, h4) = >>=-eq-ok (positive_dimension header 5 "num_heads") _ h3 in
    let (e, ee, h5) = >>=-eq-ok (positive_dimension header 6 "channels") _ h4 in
    let (f, ef, h6) =
      >>=-eq-ok
        (if is_int (header_at header 1) 1
          then ok b
          else positive_dimension header 7 "padded_vocabulary_size")
        _ h5 in
    let b_small = positive_dimension_sound ws 3 "vocabulary_size" b eb in
    let same : record {
      max_sequence_length = a;
      vocabulary_size = b;
      padded_vocabulary_size = f;
      num_layers = c;
      num_heads = d;
      channels = e;
    }
        ≡ config =
      ok-injective h6 in
    subst HasWords same (record {
      max_sequence_length_lt = positive_dimension_sound ws 2 "max_sequence_length" a ea;
      vocabulary_size_lt = b_small;
      padded_vocabulary_size_lt = padded b f b_small ef;
      num_layers_lt = positive_dimension_sound ws 4 "num_layers" c ec;
      num_heads_lt = positive_dimension_sound ws 5 "num_heads" d ed;
      channels_lt = positive_dimension_sound ws 6 "channels" e ee;
    })
  where
    padded :
        (b f : ℕ)
        → b < 2 ^ 31
        → (if is_int (header_at (map_list to_int32 ws) 1) 1
            then ok b
            else positive_dimension (map_list to_int32 ws) 7 "padded_vocabulary_size")
          ≡ ok f
        → f < 2 ^ 31
    padded b f small e = elim (Bool-cases (is_int (header_at (map_list to_int32 ws) 1) 1)) [
      | inl one ↦ let e' : ok b ≡ ok f = rw one at e in let same : b ≡ f = cc in rw (← same) small
      | inr three ↦
          let e' : positive_dimension (map_list to_int32 ws) 7 "padded_vocabulary_size" ≡ ok f =
            rw three at e in
          positive_dimension_sound ws 7 "padded_vocabulary_size" f e'
    ]

pub check_sizes_sound :
    (file_size total : ℕ)
    → check_sizes file_size total ≡ ok tt
    → (file_size ≡ header_bytes + total * 4) × (total * 4 ≤ streamsize_max)
unfolding check_sizes checked_bytes
check_sizes_sound file_size total h =
    let (payload, e1, h1) = >>=-eq-ok (checked_bytes total) _ h in
    let (expected, e2, h2) = >>=-eq-ok (checked_add header_bytes payload _) _ h1 in
    let (e3, h3) = guard-next (not (ltb file_size expected)) _ _ h2 in
    let (e4, h4) = guard-next (not (ltb expected file_size)) _ _ h3 in
    let (e5, _) = guard-next (not (ltb streamsize_max payload)) _ _ h4 in
    let (p, small) = computed _ _ _ _ (checked_multiply-ComputesSize total 4 _) e1 in
    let (q, _) =
      computed _ _ _ _
        (checked_add-ComputesSize header_bytes payload _ (omega arith) (omega (arith, p, small)))
        e2 in
    let lower = ltb→le file_size expected (not-true _ e3) in
    let upper = ltb→le expected file_size (not-true _ e4) in
    let bound = ltb→le streamsize_max payload (not-true _ e5) in
    (omega (arith, p, q, lower, upper), omega (arith, p, bound))
  where
    not-true : (b : Bool) → not b ≡ true → b ≡ false
    not-true true e = absurd (cc)
    not-true false e = refl

    computed :
        (r : Result ℕ) (n v out : ℕ) → ComputesSize r n v → r ≡ ok out → (out ≡ v) × (n < size_mod)
    computed r n v out (inl (small, e)) h = (cc, small)
    computed r n v out (inr (large, (c, e))) h = absurd (cc)

pub read_header_sound :
    (bytes : List ℕ) (reads : ℕ → Bool) (header : List ℤ)
    → read_header bytes reads ≡ ok header
    → (map_list to_int32 (words checkpoint_header_ints bytes) ≡ header)
      × ((to_size (header_at header 1) ≡ 1) ⊎ (to_size (header_at header 1) ≡ 3))
unfolding read_header
read_header_sound bytes reads header h =
    let made = map_list to_int32 (words checkpoint_header_ints bytes) in
    let (e1, h1) = guard-next (not (ltb (length bytes) header_bytes)) _ _ h in
    let (e2, h2) = guard-next (reads header_bytes) _ _ h1 in
    let (e3, h3) = guard-next (is_int (header_at made 0) checkpoint_magic) _ _ h2 in
    let (e4, h4) =
      guard-next (not (not (is_int (header_at made 1) 1) && not (is_int (header_at made 1) 3))) _ _
        h3 in
    let same : made ≡ header = ok-injective h4 in
    (
      same,
      subst (λ hd. (to_size (header_at hd 1) ≡ 1) ⊎ (to_size (header_at hd 1) ≡ 3)) same
          (version (header_at made 1) e4),
    )
  where
    version :
        (t : ℤ)
        → not (not (is_int t 1) && not (is_int t 3)) ≡ true
        → (to_size t ≡ 1) ⊎ (to_size t ≡ 3)
    version (pos n) e = ground arith
    version (negsuc n) e = absurd (cc)
