-- ===== src/Session/Cache/Slots.antt =====
-- The slots of the key and value cache: where they lie, what a read and a write does.
use native.Mathlib.Decide.{dec_lt}
use gpt2_cpu_runtime.Update.{IsUpdated}
use gpt2_cpu_runtime.Prelude.{
  lt→ltb, le→leb, eq→==, size_mod, wadd_lem, wmul_lem, row_span, ok, length, take, drop, list_ext,
  ℕ, ◌+◌, ◌*◌, ◌≤◌, ◌<◌, ◌≡◌, sym, ap, ◌∙◌, ◌≢◌, ◌⊎◌, inl, inr, List, arith,
}
use gpt2_cpu_runtime.Float.{Float}
use gpt2_cpu_runtime.Buffer.{subspan_lem, length-subspan, at, at-subspan}
use gpt2_cpu_runtime.Splice.{splice, splice-IsUpdated}
use gpt2_cpu_runtime.Session.Cache.{
  KvCache, layer_offset, position_offset, copy_to, store, key, value,
}

module _ {F : Type 0} where
  -- The sizes of the vectors, none of which wraps around.
  pub record IsCache (c : KvCache F) : Type 0 where
    pub layer_size : c.layer_float_count ≡ c.capacity * c.channels
    pub keys_size : length c.keys ≡ c.num_layers * c.layer_float_count
    pub values_size : length c.values ≡ c.num_layers * c.layer_float_count
    pub storage_size : c.storage_float_count ≡ 2 * (c.num_layers * c.layer_float_count)
    pub bytes_fit : c.storage_float_count * 4 < size_mod
    pub layers_pos : 0 < c.num_layers
    pub capacity_pos : 0 < c.capacity
    pub channels_pos : 0 < c.channels

module _ {F : Type 0} ⦃fl : Float F⦄ where
  -- The exact offset of a position of a layer.
  abbrev pub slot : KvCache F → ℕ → ℕ → ℕ
  slot c layer position = layer * c.layer_float_count + position * c.channels

  module _ (c : KvCache F) (w : IsCache c) where
    open w use {layer_size, keys_size, values_size, storage_size, bytes_fit}

    pub layer_end :
        (layer : ℕ)
        → layer < c.num_layers
        → layer * c.layer_float_count + c.layer_float_count ≤ c.num_layers * c.layer_float_count
    layer_end layer h = row_span layer c.num_layers c.layer_float_count h

    pub slot_end :
        (layer position : ℕ)
        → layer < c.num_layers
        → position < c.capacity
        → slot c layer position + c.channels ≤ c.num_layers * c.layer_float_count
    slot_end layer position h k =
        omega (arith, layer_end layer h, row_span position c.capacity c.channels k, layer_size)

    pub layer_offset_lem :
        (layer : ℕ) → layer < c.num_layers → layer_offset c layer ≡ ok (layer * c.layer_float_count)
    unfolding layer_offset
    layer_offset_lem layer h = rw (
      lt→ltb layer c.num_layers h,
      wmul_lem layer c.layer_float_count
          (omega (arith, layer_end layer h, storage_size, bytes_fit)),
    )

    pub position_offset_lem :
        (layer position : ℕ)
        → layer < c.num_layers
        → position < c.capacity
        → position_offset c layer position ≡ ok (slot c layer position)
    unfolding position_offset
    position_offset_lem layer position h k =
        let inside = slot_end layer position h k in
        rw (
          lt→ltb position c.capacity k,
          layer_offset_lem layer h,
          wmul_lem position c.channels (omega (arith, inside, storage_size, bytes_fit)),
          wadd_lem (layer * c.layer_float_count) (position * c.channels)
              (omega (arith, inside, storage_size, bytes_fit)),
        )

    pub key_lem :
        (layer position : ℕ)
        → layer < c.num_layers
        → position < c.capacity
        → key c layer position ≡ ok (take c.channels (drop (slot c layer position) c.keys))
    unfolding key
    key_lem layer position h k = rw (position_offset_lem layer position h k) (
        subspan_lem c.keys (slot c layer position) c.channels
          (omega (arith, slot_end layer position h k, keys_size)))

    pub value_lem :
        (layer position : ℕ)
        → layer < c.num_layers
        → position < c.capacity
        → value c layer position ≡ ok (take c.channels (drop (slot c layer position) c.values))
    unfolding value
    value_lem layer position h k = rw (position_offset_lem layer position h k) (
        subspan_lem c.values (slot c layer position) c.channels
          (omega (arith, slot_end layer position h k, values_size)))

    -- The cache after a write at `layer` and `position`.
    abbrev pub stored : ℕ → ℕ → List F → List F → KvCache F
    stored layer position ks vs = record c {
      keys = splice c.keys (slot c layer position) ks;
      values = splice c.values (slot c layer position) vs;
    }

    pub store_lem :
        (layer position : ℕ) (ks vs : List F)
        → layer < c.num_layers
        → position < c.capacity
        → length ks ≡ c.channels
        → length vs ≡ c.channels
        → store c layer position ks vs ≡ ok (stored layer position ks vs)
    unfolding store copy_to
    store_lem layer position ks vs h k e e' =
        let inside = slot_end layer position h k in
        rw (
          eq→== (length ks) c.channels e,
          eq→== (length vs) c.channels e',
          position_offset_lem layer position h k,
          le→leb (slot c layer position + length ks) (length c.keys)
              (omega (arith, inside, keys_size)),
          le→leb (slot c layer position + length vs) (length c.values)
              (omega (arith, inside, values_size)),
        )

    layer_below : (l p l' p' : ℕ) → p < c.capacity → l < l' → slot c l p + c.channels ≤ slot c l' p'
    layer_below l p l' p' h k =
        omega (
          arith,
          row_span l l' c.layer_float_count k,
          row_span p c.capacity c.channels h,
          layer_size,
        )

    -- Two different slots of a cache do not overlap.
    pub slots_apart :
        (l p l' p' : ℕ)
        → p < c.capacity
        → p' < c.capacity
        → (l ≢ l') ⊎ (p ≢ p')
        → (slot c l p + c.channels ≤ slot c l' p') ⊎ (slot c l' p' + c.channels ≤ slot c l p)
    slots_apart l p l' p' h k d = elim (dec_lt l l') [
      | yes up ↦ inl (layer_below l p l' p' h up)
      | no not_up ↦ elim (dec_lt l' l) [
        | yes down ↦ inr (layer_below l' p' l p k down)
        | no not_down ↦
            let same : l ≡ l' = omega arith in
            let e = ap (λ (n : ℕ). n * c.layer_float_count) same in
            elim (dec_lt p p') [
              | yes left ↦ inl (omega (arith, e, row_span p p' c.channels left))
              | no not_left ↦
                  let right : p' < p = omega arith in
                  inr (omega (arith, e, row_span p' p c.channels right))
            ]
      ]
    ]

  -- Reading a slot of a vector in which another slot was overwritten, or the same.
  pub read_spliced :
      (xs ks : List F) (offset n : ℕ)
      → length ks ≡ n
      → offset + n ≤ length xs
      → take n (drop offset (splice xs offset ks)) ≡ ks
  read_spliced xs ks offset n e h =
      let u = splice-IsUpdated xs ks offset n e h in
      let size = length-subspan (splice xs offset ks) offset n (omega (arith, u.size_kept)) in
      list_ext _ ks fl.nought (omega arith)
        λ i l. at-subspan (splice xs offset ks) offset n i (omega arith) ∙ u.changed i (omega arith)

  pub read_elsewhere :
      (xs ks : List F) (offset other n : ℕ)
      → length ks ≡ n
      → offset + n ≤ length xs
      → other + n ≤ length xs
      → (offset + n ≤ other) ⊎ (other + n ≤ offset)
      → take n (drop other (splice xs offset ks)) ≡ take n (drop other xs)
  read_elsewhere xs ks offset other n e h k apart =
      let u = splice-IsUpdated xs ks offset n e h in
      let size = length-subspan (splice xs offset ks) other n (omega (arith, u.size_kept)) in
      list_ext _ _ fl.nought (omega (arith, length-subspan xs other n k)) λ i l.
        at-subspan (splice xs offset ks) other n i (omega arith)
        ∙ outside u apart i (omega arith)
        ∙ sym (at-subspan xs other n i (omega arith))
    where
      outside :
          IsUpdated offset n (at ks) xs (splice xs offset ks)
          → (offset + n ≤ other) ⊎ (other + n ≤ offset)
          → (i : ℕ) → i < n
          → at (splice xs offset ks) (other + i) ≡ at xs (other + i)
      outside u (inl after) i l = u.above (other + i) (omega arith)
      outside u (inr before) i l = u.below (other + i) (omega arith)
