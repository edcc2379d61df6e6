-- ===== src/Model/Checkpoint.antt =====
-- `ModelWeights::load_checkpoint`: the header of 256 words, the sizes and the payload.
pub mod Sound
pub mod Fields
pub mod RoundTrip
pub mod Accepted
pub mod Encoding
use Prim.Native.String
use Prim.Native.String.{String}
use gpt2_cpu_runtime.Prelude.{
  ltb, ◌==◌, if◌then◌else◌, streamsize_max, Error, Result, err, ok, ◌>>=◌, guard, ◌>>◌, length,
  get_or, drop, ℕ, zero, suc, ◌+◌, ◌*◌, Bool, false, not, ◌&&◌, List, [], ◌∷◌,
}
use gpt2_cpu_runtime.Prelude.Int.{ℤ, pos, negsuc, to_size, to_int32}
use gpt2_cpu_runtime.Sizes.{checked_add, checked_bytes}
use gpt2_cpu_runtime.Model.Config.{ModelConfig, validate}
use gpt2_cpu_runtime.Model.Layout.{make_layout}
use gpt2_cpu_runtime.Model.Tensor.{expected_size, ModelWeights, make_weights}

-- What the file system gives for a path: no stream, a stream of unknown size, or the bytes of the
-- file with the answer to a read of its first bytes, which may fail.
pub data CheckpointFile : Type 0 where
  unopened : CheckpointFile
  unmeasured : CheckpointFile
  contents : List ℕ → (ℕ → Bool) → CheckpointFile

abbrev pub checkpoint_magic : ℕ
checkpoint_magic = 20240326

abbrev pub checkpoint_header_ints : ℕ
checkpoint_header_ints = 256

-- 256 words of sizeof(std::int32_t) bytes.
abbrev pub header_bytes : ℕ
header_bytes = 1024

-- Four bytes in little-endian order, and the words at the head of some bytes.
unfoldable pub word_at : List ℕ → ℕ
word_at bytes =
    get_or bytes 0 0
    + 256 * get_or bytes 1 0
    + 65536 * get_or bytes 2 0
    + 16777216 * get_or bytes 3 0

unfoldable pub words : ℕ → List ℕ → List ℕ
unfolding word_at
words zero bytes = []
words (suc n) bytes = word_at bytes ∷ words n (drop 4 bytes)

abbrev pub map_list {ℓ} : {A : Type ℓ} {B : Type ℓ} → (A → B) → List A → List B
map_list f [] = []
map_list f (x ∷ xs) = f x ∷ map_list f xs

abbrev pub is_int : ℤ → ℕ → Bool
is_int (pos n) m = n == m
is_int (negsuc n) m = false

abbrev pub is_positive : ℤ → Bool
is_positive (pos n) = not (n == 0)
is_positive (negsuc n) = false

-- header[index]
abbrev pub header_at : List ℤ → ℕ → ℤ
header_at header index = get_or header index (pos 0)

unfoldable pub positive_dimension : List ℤ → ℕ → String → Result ℕ
positive_dimension header index name = do
  guard (is_positive (header_at header index))
      (Error.runtime_error (String.◌++◌ "invalid checkpoint dimension: " name))
  ok (to_size (header_at header index))

-- The configuration that a header describes.
unfoldable pub read_config : List ℤ → Result ModelConfig
unfolding positive_dimension
read_config header = do
  max_sequence_length ← positive_dimension header 2 "max_sequence_length"
  vocabulary_size ← positive_dimension header 3 "vocabulary_size"
  num_layers ← positive_dimension header 4 "num_layers"
  num_heads ← positive_dimension header 5 "num_heads"
  channels ← positive_dimension header 6 "channels"
  padded_vocabulary_size ←
      if is_int (header_at header 1) 1
      then ok vocabulary_size
      else positive_dimension header 7 "padded_vocabulary_size"
  ok (record {
    max_sequence_length = max_sequence_length;
    vocabulary_size = vocabulary_size;
    padded_vocabulary_size = padded_vocabulary_size;
    num_layers = num_layers;
    num_heads = num_heads;
    channels = channels;
  })

-- The checks of the file's size against the layout. The result is the payload's size.
unfoldable pub check_sizes : (file_size total_count : ℕ) → Result (Unit {0})
check_sizes file_size total_count = do
  payload_bytes ← checked_bytes total_count
  expected_size ← checked_add header_bytes payload_bytes "checkpoint file size"
  guard (not (ltb file_size expected_size))
      (Error.runtime_error "checkpoint has a truncated parameter payload")
  guard (not (ltb expected_size file_size))
      (Error.runtime_error "checkpoint contains unexpected trailing data")
  guard (not (ltb streamsize_max payload_bytes))
      (Error.overflow_error "checkpoint payload is too large for stream I/O")
  ok tt

-- The header of an open file.
unfoldable pub read_header : List ℕ → (ℕ → Bool) → Result (List ℤ)
unfolding words
read_header bytes reads = do
  guard (not (ltb (length bytes) header_bytes))
      (Error.runtime_error "checkpoint has a truncated header")
  guard (reads header_bytes) (Error.runtime_error "failed to read checkpoint header")
  let header = map_list to_int32 (words checkpoint_header_ints bytes)
  guard (is_int (header_at header 0) checkpoint_magic)
      (Error.runtime_error "checkpoint has bad magic")
  guard (not (not (is_int (header_at header 1) 1) && not (is_int (header_at header 1) 3)))
      (Error.runtime_error "unsupported checkpoint version: ")
  ok header

module _ {F : Type 0} (of_bits : ℕ → F) where
  -- The rest of the file behind its header; `of_bits` is the float with given bits.
  unfoldable pub read_payload :
      List ℕ → (ℕ → Bool) → (version : ℕ) → ModelConfig → Result (ModelWeights F)
  unfolding check_sizes words
  read_payload bytes reads version config = do
    validate config
    layout ← make_layout config
    _ ← check_sizes (length bytes) layout.total_count
    guard (reads (length bytes)) (Error.runtime_error "failed to read checkpoint parameter payload")
    let storage = map_list of_bits (words layout.total_count (drop header_bytes bytes))
    make_weights config version layout storage

  unfoldable pub load_checkpoint : CheckpointFile → Result (ModelWeights F)
  unfolding read_header read_config read_payload
  load_checkpoint unopened = err (Error.runtime_error "cannot open checkpoint: ")
  load_checkpoint unmeasured = err (Error.runtime_error "cannot determine checkpoint size: ")
  load_checkpoint (contents bytes reads) = do
    header ← read_header bytes reads
    config ← read_config header
    read_payload bytes reads (to_size (header_at header 1)) config
