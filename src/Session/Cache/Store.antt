-- ===== src/Session/Cache/Store.antt =====
-- What is stored at a layer and a position is read back from there, and nothing else changes.
use gpt2_cpu_runtime.Prelude.{
  ok, Returns, length, ℕ, ◌+◌, ◌*◌, ◌≤◌, ◌<◌, ◌≡◌, sym, ap, ◌∙◌, ◌≢◌, ◌⊎◌, List, arith,
}
use gpt2_cpu_runtime.Float.{Float}
use gpt2_cpu_runtime.Splice.{splice-IsUpdated}
use gpt2_cpu_runtime.Session.Cache.{KvCache, store, key, value}
use gpt2_cpu_runtime.Session.Cache.Slots.{
  IsCache, slot, slot_end, key_lem, value_lem, stored, store_lem, slots_apart, read_spliced,
  read_elsewhere,
}

module _ {F : Type 0} ⦃fl : Float F⦄ where
  module _ (c : KvCache F) (w : IsCache c) (layer position : ℕ) (ks vs : List F)
      (layer_lt : layer < c.num_layers) (position_lt : position < c.capacity)
      (ks_size : length ks ≡ c.channels) (vs_size : length vs ≡ c.channels) where
    abbrev pub after : KvCache F
    after = stored c w layer position ks vs

    here : slot c layer position + c.channels ≤ c.num_layers * c.layer_float_count
    here = slot_end c w layer position layer_lt position_lt

    pub after-IsCache : IsCache (stored c w layer position ks vs)
    after-IsCache = record {
      layer_size = w.layer_size;
      keys_size =
          (splice-IsUpdated c.keys ks (slot c layer position) c.channels ks_size
            (omega (arith, here, w.keys_size))).size_kept
          ∙ w.keys_size;
      values_size =
          (splice-IsUpdated c.values vs (slot c layer position) c.channels vs_size
            (omega (arith, here, w.values_size))).size_kept
          ∙ w.values_size;
      storage_size = w.storage_size;
      bytes_fit = w.bytes_fit;
      layers_pos = w.layers_pos;
      capacity_pos = w.capacity_pos;
      channels_pos = w.channels_pos;
    }

    elsewhere :
        (l p : ℕ)
        → l < c.num_layers
        → p < c.capacity
        → (layer ≢ l) ⊎ (position ≢ p)
        → (key after l p ≡ key c l p) × (value after l p ≡ value c l p)
    elsewhere l p h k apart =
        let there = slot_end c w l p h k in
        let free = slots_apart c w layer position l p position_lt k apart in
        (
          key_lem after after-IsCache l p h k
              ∙ ap ok (
                  read_elsewhere c.keys ks (slot c layer position) (slot c l p) c.channels ks_size
                    (omega (arith, here, w.keys_size)) (omega (arith, there, w.keys_size)) free)
              ∙ sym (key_lem c w l p h k),
          value_lem after after-IsCache l p h k
              ∙ ap ok (
                  read_elsewhere c.values vs (slot c layer position) (slot c l p) c.channels vs_size
                    (omega (arith, here, w.values_size)) (omega (arith, there, w.values_size)) free)
              ∙ sym (value_lem c w l p h k),
        )

    -- In a well-formed cache, a write of one key and one value of the right size at a layer and a
    -- position in range succeeds and leaves the cache well-formed. The slot then reads back what was
    -- written, and every other slot in range reads back what it held before.
    pub store-key : Returns (store c layer position ks vs) λ c'.
        IsCache c'
        × (key c' layer position ≡ ok ks)
        × (value c' layer position ≡ ok vs)
        × ((l p : ℕ)
            → l < c.num_layers
            → p < c.capacity
            → (layer ≢ l) ⊎ (position ≢ p)
            → (key c' l p ≡ key c l p) × (value c' l p ≡ value c l p))
    store-key = (
      after,
      store_lem c w layer position ks vs layer_lt position_lt ks_size vs_size,
      (
        after-IsCache,
        key_lem after after-IsCache layer position layer_lt position_lt
            ∙ ap ok (
                read_spliced c.keys ks (slot c layer position) c.channels ks_size
                  (omega (arith, here, w.keys_size))),
        value_lem after after-IsCache layer position layer_lt position_lt
            ∙ ap ok (
                read_spliced c.values vs (slot c layer position) c.channels vs_size
                  (omega (arith, here, w.values_size))),
        elsewhere,
      ),
    )
