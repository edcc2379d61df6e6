-- ===== src/Session/Cache/Entries.antt =====
-- The cache entry by entry: what a write changes, and what the spans of a layer view.
use gpt2_cpu_runtime.Prelude.{
  row_end, ok, length, take, drop, ℕ, ◌+◌, ◌*◌, ◌<◌, ◌≡◌, ap, ◌∙◌, ◌≢◌, ◌⊎◌, inl, inr, List, arith,
}
use gpt2_cpu_runtime.Float.{Float}
use gpt2_cpu_runtime.Buffer.{subspan_lem, length-subspan, at, at-subspan}
use gpt2_cpu_runtime.Update.{IsUpdated}
use gpt2_cpu_runtime.Splice.{splice-IsUpdated}
use gpt2_cpu_runtime.Session.Cache.{KvCache, layer_keys, layer_values}
use gpt2_cpu_runtime.Session.Cache.Slots.{
  IsCache, slot, layer_end, slot_end, layer_offset_lem, stored, slots_apart,
}

module _ {F : Type 0} ⦃fl : Float F⦄ where
  module _ (c : KvCache F) (w : IsCache c) (layer position : ℕ) (ks vs : List F)
      (layer_lt : layer < c.num_layers) (position_lt : position < c.capacity)
      (ks_size : length ks ≡ c.channels) (vs_size : length vs ≡ c.channels) where
    open c use {channels}

    abbrev after : KvCache F
    after = stored c w layer position ks vs

    keys_update : IsUpdated (slot c layer position) channels (at ks) c.keys after.keys
    keys_update =
        splice-IsUpdated c.keys ks (slot c layer position) channels ks_size
          (omega (arith, slot_end c w layer position layer_lt position_lt, w.keys_size))

    values_update : IsUpdated (slot c layer position) channels (at vs) c.values after.values
    values_update =
        splice-IsUpdated c.values vs (slot c layer position) channels vs_size
          (omega (arith, slot_end c w layer position layer_lt position_lt, w.values_size))

    -- The slot that is written holds the key and the value.
    pub stored_here :
        (i : ℕ)
        → i < channels
        → (at after.keys (slot c layer position + i) ≡ at ks i)
          × (at after.values (slot c layer position + i) ≡ at vs i)
    stored_here i h = (keys_update.changed i h, values_update.changed i h)

    -- Every other slot holds what it held.
    pub stored_elsewhere :
        (l p i : ℕ)
        → p < c.capacity
        → (layer ≢ l) ⊎ (position ≢ p)
        → i < channels
        → (at after.keys (slot c l p + i) ≡ at c.keys (slot c l p + i))
          × (at after.values (slot c l p + i) ≡ at c.values (slot c l p + i))
    stored_elsewhere l p i k apart h =
        elim (slots_apart c w layer position l p position_lt k apart) [
          | inl left ↦ (keys_update.above _ (omega arith), values_update.above _ (omega arith))
          | inr right ↦ (keys_update.below _ (omega arith), values_update.below _ (omega arith))
        ]

  -- The span of a layer in one of the two vectors.
  abbrev pub layer_part : KvCache F → ℕ → List F → List F
  layer_part c layer xs = take c.layer_float_count (drop (layer * c.layer_float_count) xs)

  module _ (c : KvCache F) (w : IsCache c) (layer : ℕ) (layer_lt : layer < c.num_layers) where
    pub layer_keys_lem : layer_keys c layer ≡ ok (layer_part c layer c.keys)
    unfolding layer_keys
    layer_keys_lem = rw (layer_offset_lem c w layer layer_lt) (
        subspan_lem c.keys (layer * c.layer_float_count) c.layer_float_count
          (omega (arith, layer_end c w layer layer_lt, w.keys_size)))

    pub layer_values_lem : layer_values c layer ≡ ok (layer_part c layer c.values)
    unfolding layer_values
    layer_values_lem = rw (layer_offset_lem c w layer layer_lt) (
        subspan_lem c.values (layer * c.layer_float_count) c.layer_float_count
          (omega (arith, layer_end c w layer layer_lt, w.values_size)))

    pub length-layer_part :
        (xs : List F)
        → length xs ≡ c.num_layers * c.layer_float_count
        → length (layer_part c layer xs) ≡ c.capacity * c.channels
    length-layer_part xs e =
        length-subspan xs (layer * c.layer_float_count) c.layer_float_count
          (omega (arith, layer_end c w layer layer_lt))
        ∙ w.layer_size

    pub at-layer_part :
        (xs : List F) (p i : ℕ)
        → p < c.capacity
        → i < c.channels
        → at (layer_part c layer xs) (p * c.channels + i) ≡ at xs (slot c layer p + i)
    at-layer_part xs p i h k =
        let e : layer * c.layer_float_count + (p * c.channels + i) ≡ slot c layer p + i =
          omega arith in
        at-subspan xs (layer * c.layer_float_count) c.layer_float_count (p * c.channels + i)
          (omega (arith, w.layer_size, row_end p c.capacity i c.channels h k))
        ∙ ap (at xs) e
