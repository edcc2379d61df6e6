-- ===== src/Examples/Cache.antt =====
-- A cache of one layer, two positions and two channels.
use gpt2_cpu_runtime.Sizes.{checked_multiply}
use gpt2_cpu_runtime.Examples.Numbers.{numbers}
use gpt2_cpu_runtime.Prelude.{wmul, ok, Returns, ℕ, ◌<◌, ◌≡◌, refl, ◌≢◌, ◌⊎◌, [], ◌∷◌, arith}
use gpt2_cpu_runtime.Session.Cache.{KvCache, make_cache, store, key, value}
use gpt2_cpu_runtime.Session.Cache.Store.{store-key}
use gpt2_cpu_runtime.Session.Cache.Slots.{IsCache}

abbrev small : KvCache ℕ
small = record {
  num_layers = 1;
  capacity = 2;
  channels = 2;
  layer_float_count = 4;
  storage_float_count = 8;
  keys = 0 ∷ 0 ∷ 0 ∷ 0 ∷ [];
  values = 0 ∷ 0 ∷ 0 ∷ 0 ∷ [];
}

small_made : make_cache 1 2 2 ≡ ok small
unfolding make_cache checked_multiply wmul
small_made = refl

store-key_example : Returns (store small 0 1 (5 ∷ 6 ∷ []) (7 ∷ 8 ∷ [])) λ c'.
    IsCache c'
    × (key c' 0 1 ≡ ok (5 ∷ 6 ∷ []))
    × (value c' 0 1 ≡ ok (7 ∷ 8 ∷ []))
    × ((l p : ℕ)
        → l < 1
        → p < 2
        → (◌≢◌ {A = ℕ} 0 l) ⊎ (◌≢◌ {A = ℕ} 1 p)
        → (key c' l p ≡ key small l p) × (value c' l p ≡ value small l p))
store-key_example =
    store-key small (omega arith) 0 1 (5 ∷ 6 ∷ []) (7 ∷ 8 ∷ []) (omega arith) (omega arith) refl
      refl
