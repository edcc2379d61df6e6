-- ===== src/Session/Cache.antt =====
-- `KVCache`: keys and values by layer and position, in two vectors of fixed size.
pub mod Store
pub mod Slots
pub mod Entries
use gpt2_cpu_runtime.Splice.{splice}
use gpt2_cpu_runtime.Prelude.{
  ltb, leb, ◌==◌, if◌then◌else◌, wadd, wmul, Error, Result, ok, err, ◌>>=◌, ◌>>◌, guard, length,
  replicate, ℕ, ◌+◌, not, ◌&&◌, ◌||◌, List,
}
use gpt2_cpu_runtime.Float.{Float}
use gpt2_cpu_runtime.Buffer.{subspan, write}
use gpt2_cpu_runtime.Sizes.{checked_multiply}

pub record KvCache (F : Type 0) : Type 0 where
  pub num_layers : ℕ
  pub capacity : ℕ
  pub channels : ℕ
  pub layer_float_count : ℕ
  pub storage_float_count : ℕ
  pub keys : List F
  pub values : List F

module _ {F : Type 0} where
  -- The constructor.
  unfoldable pub make_cache : ⦃fl : Float F⦄ → ℕ → ℕ → ℕ → Result (KvCache F)
  make_cache ⦃fl⦄ num_layers capacity channels = do
    guard (not (num_layers == 0 || (capacity == 0 || channels == 0)))
        (Error.invalid_argument "KV cache dimensions must be positive")
    layer_float_count ← checked_multiply capacity channels "KV cache layer size"
    total ← checked_multiply num_layers layer_float_count "KV cache storage size"
    storage_float_count ← checked_multiply 2 total "combined K/V float count"
    bytes ← checked_multiply storage_float_count 4 "combined K/V storage bytes"
    ok (record {
      num_layers = num_layers;
      capacity = capacity;
      channels = channels;
      layer_float_count = layer_float_count;
      storage_float_count = storage_float_count;
      keys = replicate total fl.nought;
      values = replicate total fl.nought;
    })

  unfoldable pub layer_offset : KvCache F → ℕ → Result ℕ
  layer_offset c layer = do
    guard (ltb layer c.num_layers) (Error.out_of_range "KV cache layer is out of range")
    ok (wmul layer c.layer_float_count)

  unfoldable pub position_offset : KvCache F → ℕ → ℕ → Result ℕ
  position_offset c layer position = do
    guard (ltb position c.capacity) (Error.out_of_range "KV cache position is out of range")
    base ← layer_offset c layer
    ok (wadd base (wmul position c.channels))

  -- std::copy(source.begin(), source.end(), target.begin() + offset): outside the target this is
  -- undefined behaviour.
  unfoldable pub copy_to : List F → ℕ → List F → Result (List F)
  copy_to target offset source =
      if leb (offset + length source) (length target)
      then ok (splice target offset source)
      else err Error.fault

  unfoldable pub store : KvCache F → ℕ → ℕ → List F → List F → Result (KvCache F)
  store c layer position key_values value_values = do
    guard (length key_values == c.channels && length value_values == c.channels)
        (Error.invalid_argument "KV cache write has the wrong channel count")
    offset ← position_offset c layer position
    keys ← copy_to c.keys offset key_values
    values ← copy_to c.values offset value_values
    ok (record c { keys = keys; values = values })

  unfoldable pub key : KvCache F → ℕ → ℕ → Result (List F)
  key c layer position = do
    offset ← position_offset c layer position
    subspan c.keys offset c.channels

  unfoldable pub value : KvCache F → ℕ → ℕ → Result (List F)
  value c layer position = do
    offset ← position_offset c layer position
    subspan c.values offset c.channels

  unfoldable pub layer_keys : KvCache F → ℕ → Result (List F)
  layer_keys c layer = do offset ← layer_offset c layer; subspan c.keys offset c.layer_float_count

  unfoldable pub layer_values : KvCache F → ℕ → Result (List F)
  layer_values c layer = do
    offset ← layer_offset c layer
    subspan c.values offset c.layer_float_count
