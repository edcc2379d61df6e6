-- ===== src/Model/Checkpoint/Accepted.antt =====
-- What is written of a checkpoint passes the checks of `load_checkpoint`.
use Prim.Native.String.{String}
use native.Mathlib.Nat.{mod-eq_of_lt}
use gpt2_cpu_runtime.Prelude.{
  ltb, ◌==◌, if◌then◌else◌, lt→ltb, le→ltb, eq→==, Bool-cases, gt→==, size_mod, streamsize_max, ok,
  step, guard-Returns, length, drop, ℕ, ◌+◌, ◌*◌, ◌%◌, ◌^◌, ◌≤◌, ◌<◌, ◌≡◌, refl, sym, ap, ◌∙◌, ◌⊎◌,
  inl, inr, Bool, true, not, ◌&&◌, List, arith,
}
use gpt2_cpu_runtime.Model.Config.{ModelConfig, IsValid, validate_iff}
use gpt2_cpu_runtime.Model.Tensor.{ModelWeights, make_weights}
use gpt2_cpu_runtime.Model.Checkpoint.{
  checkpoint_magic, checkpoint_header_ints, header_bytes, words, map_list, is_int, header_at,
  positive_dimension, read_config, check_sizes, read_header, read_payload,
}
use gpt2_cpu_runtime.Sizes.{checked_add, checked_bytes, checked_add_exact, checked_multiply_lem}
use gpt2_cpu_runtime.Prelude.Int.{ℤ, pos, to_int32}
use gpt2_cpu_runtime.Model.Tensor.Lookup.{IsLoaded}
use gpt2_cpu_runtime.Model.Checkpoint.Encoding.{header_words}
use gpt2_cpu_runtime.Model.Checkpoint.Fields.{HasWords}

pub to_int32_lem : (n : ℕ) → n < 2 ^ 31 → to_int32 n ≡ pos n
to_int32_lem n h =
    let e : n % 2 ^ 32 ≡ n = mod-eq_of_lt (omega arith) in rw (e, lt→ltb n (2 ^ 31) h)

positive_lem :
    (header : List ℤ) (index n : ℕ) (name : String)
    → header_at header index ≡ to_int32 n
    → 0 < n
    → n < 2 ^ 31
    → positive_dimension header index name ≡ ok n
unfolding positive_dimension
positive_lem header index n name e positive small = rw (e, to_int32_lem n small, gt→== n 0 positive)

pub read_config-header_words :
    (version : ℕ) (config : ModelConfig)
    → IsValid config
    → HasWords config
    → version < 2 ^ 31
    → (version ≡ 1 → config.padded_vocabulary_size ≡ config.vocabulary_size)
    → read_config (map_list to_int32 (header_words version config)) ≡ ok config
unfolding read_config
read_config-header_words version config v h small unpadded =
    let header = map_list to_int32 (header_words version config) in
    let V = config.vocabulary_size in
    let P = config.padded_vocabulary_size in
    step _
      (positive_lem header 2 config.max_sequence_length "max_sequence_length" refl
        v.max_sequence_length_pos h.max_sequence_length_lt)
      (step _
        (positive_lem header 3 V "vocabulary_size" refl v.vocabulary_size_pos h.vocabulary_size_lt)
        (step _
          (positive_lem header 4 config.num_layers "num_layers" refl v.num_layers_pos
            h.num_layers_lt)
          (step _
            (positive_lem header 5 config.num_heads "num_heads" refl v.num_heads_pos h.num_heads_lt)
            (step _
              (positive_lem header 6 config.channels "channels" refl v.channels_pos h.channels_lt)
              (step _ padded refl)))))
  where
    padded :
        (if is_int (to_int32 version) 1
          then ok config.vocabulary_size
          else positive_dimension
              (map_list to_int32 (header_words version config))
              7
              "padded_vocabulary_size")
        ≡ ok config.padded_vocabulary_size
    padded =
        let header = map_list to_int32 (header_words version config) in
        let read =
          positive_lem header 7 config.padded_vocabulary_size "padded_vocabulary_size" refl
            v.padded_vocabulary_size_pos h.padded_vocabulary_size_lt in
        rw (to_int32_lem version small) (elim (Bool-cases (version == 1)) [
          | inl one ↦ rw one (ap ok (sym (unpadded (ground arith))))
          | inr other ↦ rw other read
        ])

check_sizes_complete :
    (total : ℕ) → total * 4 ≤ streamsize_max → check_sizes (header_bytes + total * 4) total ≡ ok tt
unfolding check_sizes checked_bytes
check_sizes_complete total h =
    let size = header_bytes + total * 4 in
    step _ (checked_multiply_lem total 4 "checkpoint payload bytes" (omega arith)) (
      step _ added (
        step _ (guard-Returns (not (ltb size size)) _ (rw (le→ltb size size (omega arith)))) (
          step _ (guard-Returns (not (ltb size size)) _ (rw (le→ltb size size (omega arith)))) (
            step _
              (guard-Returns (not (ltb streamsize_max (total * 4))) _
                (rw (le→ltb streamsize_max (total * 4) h)))
              refl))))
  where
    added :
        checked_add header_bytes (total * 4) "checkpoint file size" ≡ ok (header_bytes + total * 4)
    added =
        checked_add_exact header_bytes (total * 4) "checkpoint file size" (omega arith)
          (omega arith)
        ∙ rw (lt→ltb (header_bytes + total * 4) size_mod (omega arith))

pub read_header_complete :
    (bytes : List ℕ) (reads : ℕ → Bool) (header : List ℤ)
    → map_list to_int32 (words checkpoint_header_ints bytes) ≡ header
    → header_bytes ≤ length bytes
    → reads header_bytes ≡ true
    → header_at header 0 ≡ pos checkpoint_magic
    → (header_at header 1 ≡ pos 1) ⊎ (header_at header 1 ≡ pos 3)
    → read_header bytes reads ≡ ok header
unfolding read_header
read_header_complete bytes reads header made enough readable magic version =
    let size = le→ltb (length bytes) header_bytes enough in
    let is_magic : is_int (header_at header 0) checkpoint_magic ≡ true =
      ap (λ (t : ℤ). is_int t checkpoint_magic) magic in
    step _ (guard-Returns (not (ltb (length bytes) header_bytes)) _ (rw size)) (
      step _ (guard-Returns (reads header_bytes) _ readable) (
        step _
          (guard-Returns
            (is_int (header_at (map_list to_int32 (words checkpoint_header_ints bytes)) 0)
              checkpoint_magic)
            _ (ap (λ (h : List ℤ). is_int (header_at h 0) checkpoint_magic) made ∙ is_magic))
          (step _
            (guard-Returns (supported (map_list to_int32 (words checkpoint_header_ints bytes))) _
              (ap supported made ∙ known (header_at header 1) version))
            (ap ok made))))
  where
    supported : List ℤ → Bool
    supported header =
        not (not (is_int (header_at header 1) 1) && not (is_int (header_at header 1) 3))

    known : (t : ℤ) → (t ≡ pos 1) ⊎ (t ≡ pos 3) → not (not (is_int t 1) && not (is_int t 3)) ≡ true
    known t (inl e) = rw e
    known t (inr e) = rw e

pub read_payload_complete :
    {F : Type 0} (of_bits : ℕ → F) (w : ModelWeights F) (bytes : List ℕ) (reads : ℕ → Bool)
    → IsLoaded w
    → length bytes ≡ header_bytes + w.layout.total_count * 4
    → w.layout.total_count * 4 ≤ streamsize_max
    → reads (length bytes) ≡ true
    → map_list of_bits (words w.layout.total_count (drop header_bytes bytes)) ≡ w.storage
    → read_payload of_bits bytes reads w.checkpoint_version w.config ≡ ok w
unfolding read_payload make_weights
read_payload_complete of_bits w bytes reads loaded size fits readable payload =
    step _ ((validate_iff w.config).1 loaded.is_valid) (
      step _ loaded.layout_made (
        step _
          (ap (λ (n : ℕ). check_sizes n w.layout.total_count) size
            ∙ check_sizes_complete w.layout.total_count fits)
          (step _ (guard-Returns (reads (length bytes)) _ readable) (
            rw payload (
              step _
                (guard-Returns (length w.storage == w.layout.total_count) _
                  (eq→== (length w.storage) w.layout.total_count loaded.storage_size))
                refl)))))
