-- ===== src/Model/Checkpoint/RoundTrip.antt =====
-- Checkpoints that are written for weights, as a test of the program writes them, are loaded back.
use gpt2_cpu_runtime.Prelude.{
  streamsize_max, ok, step, length, drop, ℕ, ◌+◌, ◌*◌, ◌^◌, ◌≤◌, ◌<◌, ◌≡◌, refl, ap, ◌∙◌, ◌⊎◌, inl,
  inr, Bool, true, List, [], ◌∷◌, arith,
}
use gpt2_cpu_runtime.Model.Tensor.{ModelWeights, make_weights}
use gpt2_cpu_runtime.Model.Checkpoint.{
  contents, checkpoint_header_ints, header_bytes, words, map_list, read_header, read_payload,
  load_checkpoint,
}
use gpt2_cpu_runtime.Prelude.Int.{pos, to_size, to_int32}
use gpt2_cpu_runtime.Model.Tensor.Lookup.{IsLoaded}
use gpt2_cpu_runtime.Model.Checkpoint.Encoding.{
  encode_words, AreWords, words-encode_words, drop-encode_words, length-encode_words, header_words,
  AreWords-replicate, encode_checkpoint, AreBits,
}
use gpt2_cpu_runtime.Model.Checkpoint.Accepted.{
  to_int32_lem, read_config-header_words, read_header_complete, read_payload_complete,
}
use gpt2_cpu_runtime.Model.Checkpoint.Fields.{length-map_list, HasWords}

module _ {F : Type 0} (to_bits : F → ℕ) (of_bits : ℕ → F) (bits : AreBits to_bits of_bits) where
  AreWords-storage : (xs : List F) → AreWords (map_list to_bits xs)
  AreWords-storage [] = tt
  AreWords-storage (x ∷ xs) = (bits.bits_lt x, AreWords-storage xs)

  decode-storage : (xs : List F) → map_list of_bits (map_list to_bits xs) ≡ xs
  decode-storage [] = refl
  decode-storage (x ∷ xs) = cc (bits.of_bits-to_bits x, decode-storage xs)

  read_storage :
      (xs : List F) (total : ℕ)
      → length xs ≡ total
      → map_list of_bits (words total (encode_words (map_list to_bits xs) [])) ≡ xs
  read_storage xs total e =
      let size : length (map_list to_bits xs) ≡ total = length-map_list to_bits xs ∙ e in
      rw (← size, words-encode_words (map_list to_bits xs) [] (AreWords-storage xs))
        (decode-storage xs)

  -- The checkpoint that is written for loaded weights of version 3, or of version 1 when the
  -- vocabulary has no padding, is loaded back as the same weights, when its dimensions fit an
  -- `std::int32_t` and its payload fits a stream.
  pub load_checkpoint-encode_checkpoint :
      (w : ModelWeights F) (reads : ℕ → Bool)
      → IsLoaded w
      → HasWords w.config
      → (w.checkpoint_version ≡ 3)
        ⊎ ((w.checkpoint_version ≡ 1)
            × (w.config.padded_vocabulary_size ≡ w.config.vocabulary_size))
      → w.layout.total_count * 4 ≤ streamsize_max
      → ((n : ℕ) → reads n ≡ true)
      → load_checkpoint of_bits (contents (encode_checkpoint to_bits w) reads) ≡ ok w
  unfolding load_checkpoint read_header read_payload encode_checkpoint make_weights
  load_checkpoint-encode_checkpoint w reads loaded dims version fits readable =
      let head = header_words w.checkpoint_version w.config in
      let payload = encode_words (map_list to_bits w.storage) [] in
      let bytes = encode_words head payload in
      let total = w.layout.total_count in
      let header = map_list to_int32 head in
      let small = version_lt version in
      let head_size : length head ≡ checkpoint_header_ints = refl in
      let payload_size : length payload ≡ total * 4 =
        length-encode_words (map_list to_bits w.storage) []
        ∙ omega (arith, length-map_list to_bits w.storage, loaded.storage_size) in
      let size : length bytes ≡ header_bytes + total * 4 =
        length-encode_words head payload ∙ omega (arith, payload_size) in
      let read : map_list to_int32 (words checkpoint_header_ints bytes) ≡ header =
        ap (map_list to_int32) (words-encode_words head payload (head_AreWords small)) in
      let rest : drop header_bytes bytes ≡ payload = drop-encode_words head payload in
      let storage = read_storage w.storage total loaded.storage_size in
      step _
        (read_header_complete bytes reads header read (omega (arith, size)) (readable header_bytes)
          refl (versions version))
        (step _
          (read_config-header_words w.checkpoint_version w.config loaded.is_valid dims small
            (unpadded version))
          (ap (λ (n : ℕ). read_payload of_bits bytes reads n w.config)
              (ap to_size (to_int32_lem w.checkpoint_version small))
            ∙ read_payload_complete of_bits w bytes reads loaded size fits (readable (length bytes))
                (ap (λ (b : List ℕ). map_list of_bits (words total b)) rest ∙ storage)))
    where
      version_lt :
          (w.checkpoint_version ≡ 3)
            ⊎ ((w.checkpoint_version ≡ 1)
                × (w.config.padded_vocabulary_size ≡ w.config.vocabulary_size))
          → w.checkpoint_version < 2 ^ 31
      version_lt (inl e) = omega arith
      version_lt (inr (e, p)) = omega arith

      versions :
          (w.checkpoint_version ≡ 3)
            ⊎ ((w.checkpoint_version ≡ 1)
                × (w.config.padded_vocabulary_size ≡ w.config.vocabulary_size))
          → (to_int32 w.checkpoint_version ≡ pos 1) ⊎ (to_int32 w.checkpoint_version ≡ pos 3)
      versions (inl e) = inr (ap to_int32 e)
      versions (inr (e, p)) = inl (ap to_int32 e)

      unpadded :
          (w.checkpoint_version ≡ 3)
            ⊎ ((w.checkpoint_version ≡ 1)
                × (w.config.padded_vocabulary_size ≡ w.config.vocabulary_size))
          → w.checkpoint_version ≡ 1
          → w.config.padded_vocabulary_size ≡ w.config.vocabulary_size
      unpadded (inl e) h = absurd (omega arith)
      unpadded (inr (e, p)) h = p

      head_AreWords :
          w.checkpoint_version < 2 ^ 31 → AreWords (header_words w.checkpoint_version w.config)
      head_AreWords small = (
        omega arith,
        (
          omega arith,
          (
            omega (arith, dims.max_sequence_length_lt),
            (
              omega (arith, dims.vocabulary_size_lt),
              (
                omega (arith, dims.num_layers_lt),
                (
                  omega (arith, dims.num_heads_lt),
                  (
                    omega (arith, dims.channels_lt),
                    (omega (arith, dims.padded_vocabulary_size_lt), AreWords-replicate 248),
                  ),
                ),
              ),
            ),
          ),
        ),
      )
