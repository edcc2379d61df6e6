-- ===== src/Model/Config.antt =====
-- `ModelConfig` and `ModelConfig::validate`.
use gpt2_cpu_runtime.Prelude.{
  ltb, ◌==◌, size_mod, Error, Result, ok, ◌>>◌, guard, ℕ, ◌%◌, ◌≤◌, ◌<◌, ◌≡◌, ◌↔◌, not, ◌||◌, arith,
}

pub record ModelConfig : Type 0 where
  pub max_sequence_length : ℕ
  pub vocabulary_size : ℕ
  pub padded_vocabulary_size : ℕ
  pub num_layers : ℕ
  pub num_heads : ℕ
  pub channels : ℕ

-- The six fields are of type `std::size_t`.
pub record IsSized (config : ModelConfig) : Type 0 where
  pub max_sequence_length_lt : config.max_sequence_length < size_mod
  pub vocabulary_size_lt : config.vocabulary_size < size_mod
  pub padded_vocabulary_size_lt : config.padded_vocabulary_size < size_mod
  pub num_layers_lt : config.num_layers < size_mod
  pub num_heads_lt : config.num_heads < size_mod
  pub channels_lt : config.channels < size_mod

unfoldable pub validate : ModelConfig → Result (Unit {0})
validate config = do
  guard
      (not (
        config.max_sequence_length == 0
        || config.vocabulary_size == 0
        || config.padded_vocabulary_size == 0
        || config.num_layers == 0
        || config.num_heads == 0
        || config.channels == 0))
      (Error.invalid_argument "all GPT-2 configuration dimensions must be positive")
  guard (config.channels % config.num_heads == 0)
      (Error.invalid_argument "channels must be divisible by num_heads")
  guard (not (ltb config.padded_vocabulary_size config.vocabulary_size))
      (Error.invalid_argument "padded_vocabulary_size must be at least vocabulary_size")

-- A configuration that the rest of the program can rely on.
pub record IsValid (config : ModelConfig) : Type 0 where
  pub max_sequence_length_pos : 0 < config.max_sequence_length
  pub vocabulary_size_pos : 0 < config.vocabulary_size
  pub padded_vocabulary_size_pos : 0 < config.padded_vocabulary_size
  pub num_layers_pos : 0 < config.num_layers
  pub num_heads_pos : 0 < config.num_heads
  pub channels_pos : 0 < config.channels
  pub divides : config.channels % config.num_heads ≡ 0
  pub vocabulary_size_le : config.vocabulary_size ≤ config.padded_vocabulary_size

validate_sound : (config : ModelConfig) → validate config ≡ ok tt → IsValid config
unfolding validate
validate_sound config h = ground arith

validate_complete : (config : ModelConfig) → IsValid config → validate config ≡ ok tt
unfolding validate
validate_complete config v = ground arith

-- `validate` accepts exactly the configurations whose dimensions are positive, whose heads divide
-- the channels, and whose padded vocabulary holds the real one.
pub validate_iff : (config : ModelConfig) → (validate config ≡ ok tt) ↔ IsValid config
validate_iff config = (validate_sound config, validate_complete config)
