-- ===== src/Model/Checkpoint/Sound.antt =====
-- What `load_checkpoint` returns.
use gpt2_cpu_runtime.Prelude.{
  ◌==◌, ok, >>=-eq-ok, ok-injective, guard-next, length, drop, ℕ, ◌+◌, ◌*◌, ◌≡◌, refl, ap, ◌∙◌,
  subst, ◌⊎◌, Bool, List,
}
use gpt2_cpu_runtime.Prelude.Int.{to_size, to_int32}
use gpt2_cpu_runtime.Model.Checkpoint.{
  contents, checkpoint_header_ints, header_bytes, words, map_list, header_at, read_config,
  check_sizes, read_header, read_payload, load_checkpoint,
}
use gpt2_cpu_runtime.Model.Config.{ModelConfig, validate, validate_iff}
use gpt2_cpu_runtime.Model.Tensor.{ModelWeights, make_weights}
use gpt2_cpu_runtime.Model.Tensor.Lookup.{IsLoaded}
use gpt2_cpu_runtime.Model.Layout.{make_layout}
use gpt2_cpu_runtime.Model.Checkpoint.Fields.{
  length-map_list, length-words, HasWords, HasWords-IsSized, read_config_sound, check_sizes_sound,
  read_header_sound,
}

module _ {F : Type 0} (of_bits : ℕ → F) where
  -- What a checkpoint that is loaded looks like: the weights can be used by every other operation,
  -- and the file is exactly its header and the bytes of its floats.
  pub record IsCheckpoint (bytes : List ℕ) (w : ModelWeights F) : Type 0 where
    pub loaded : IsLoaded w
    pub dimensions : HasWords w.config
    pub version : (w.checkpoint_version ≡ 1) ⊎ (w.checkpoint_version ≡ 3)
    pub size : length bytes ≡ header_bytes + w.layout.total_count * 4
    pub payload :
        w.storage ≡ map_list of_bits (words w.layout.total_count (drop header_bytes bytes))

  read_payload_sound :
      (bytes : List ℕ) (reads : ℕ → Bool) (version : ℕ) (config : ModelConfig) (w : ModelWeights F)
      → HasWords config
      → (version ≡ 1) ⊎ (version ≡ 3)
      → read_payload of_bits bytes reads version config ≡ ok w
      → IsCheckpoint bytes w
  unfolding read_payload make_weights
  read_payload_sound bytes reads version config w dims known h =
      let (_, e1, h1) = >>=-eq-ok (validate config) _ h in
      let (layout, e2, h2) = >>=-eq-ok (make_layout config) _ h1 in
      let (_, e3, h3) = >>=-eq-ok (check_sizes (length bytes) layout.total_count) _ h2 in
      let (_, h4) = guard-next (reads (length bytes)) _ _ h3 in
      let storage = map_list of_bits (words layout.total_count (drop header_bytes bytes)) in
      let (_, h5) = guard-next (length storage == layout.total_count) _ _ h4 in
      let same : record {
        config = config;
        checkpoint_version = version;
        layout = layout;
        storage = storage;
      }
          ≡ w =
        ok-injective h5 in
      let (size, _) = check_sizes_sound (length bytes) layout.total_count e3 in
      subst (IsCheckpoint bytes) same (record {
        loaded = record {
          is_sized = HasWords-IsSized config dims;
          is_valid = (validate_iff config).0 e1;
          layout_made = e2;
          storage_size =
              length-map_list of_bits (words layout.total_count (drop header_bytes bytes))
              ∙ length-words layout.total_count (drop header_bytes bytes);
        };
        dimensions = dims;
        version = known;
        size = size;
        payload = refl;
      })

  -- When `load_checkpoint` returns weights, they satisfy everything that the rest of the program
  -- asks of loaded weights, their dimensions are positive numbers that an `std::int32_t` holds, the
  -- version is 1 or 3, and the file holds its header, one word for every parameter of the layout,
  -- of which the storage is made in order, and nothing else.
  pub load_checkpoint-IsCheckpoint :
      (bytes : List ℕ) (reads : ℕ → Bool) (w : ModelWeights F)
      → load_checkpoint of_bits (contents bytes reads) ≡ ok w
      → IsCheckpoint bytes w
  unfolding load_checkpoint
  load_checkpoint-IsCheckpoint bytes reads w h =
      let (header, e1, h1) = >>=-eq-ok (read_header bytes reads) _ h in
      let (same, version) = read_header_sound bytes reads header e1 in
      let (config, e2, h2) = >>=-eq-ok (read_config header) _ h1 in
      let e2' : read_config (map_list to_int32 (words checkpoint_header_ints bytes)) ≡ ok config =
        ap read_config same ∙ e2 in
      let dims = read_config_sound (words checkpoint_header_ints bytes) config e2' in
      read_payload_sound bytes reads (to_size (header_at header 1)) config w dims version h2
