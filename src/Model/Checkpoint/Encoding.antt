-- ===== src/Model/Checkpoint/Encoding.antt =====
-- Checkpoints as a test of the program writes them: the words of the header and of the payload.
use gpt2_cpu_runtime.Prelude.{
  length, drop, replicate, ℕ, zero, suc, ◌+◌, ◌*◌, ◌/◌, ◌%◌, ◌^◌, ◌<◌, ◌≡◌, refl, List, [], ◌∷◌,
  arith,
}
use gpt2_cpu_runtime.Model.Config.{ModelConfig}
use gpt2_cpu_runtime.Model.Tensor.{ModelWeights}
use gpt2_cpu_runtime.Model.Checkpoint.{checkpoint_magic, word_at, words, map_list}

-- Words as bytes in little-endian order, before other bytes.
unfoldable pub encode_words : List ℕ → List ℕ → List ℕ
encode_words [] rest = rest
encode_words (n ∷ ns) rest =
    (n % 256) ∷ (n / 256 % 256) ∷ (n / 65536 % 256) ∷ (n / 16777216 % 256) ∷ encode_words ns rest

abbrev pub AreWords : List ℕ → Type 0
AreWords [] = Unit
AreWords (n ∷ ns) = (n < 2 ^ 32) × AreWords ns

pub words-encode_words :
    (ns rest : List ℕ) → AreWords ns → words (length ns) (encode_words ns rest) ≡ ns
unfolding words encode_words word_at
words-encode_words [] rest h = refl
words-encode_words (n ∷ ns) rest (small, h) = cc (joined n small, words-encode_words ns rest h)
  where
    joined :
        (n : ℕ)
        → n < 2 ^ 32
        → n % 256
            + 256 * (n / 256 % 256)
            + 65536 * (n / 65536 % 256)
            + 16777216 * (n / 16777216 % 256)
          ≡ n
    joined n small = omega arith

pub drop-encode_words : (ns rest : List ℕ) → drop (length ns * 4) (encode_words ns rest) ≡ rest
unfolding encode_words
drop-encode_words [] rest = refl
drop-encode_words (n ∷ ns) rest =
    let e : suc (length ns) * 4 ≡ suc (suc (suc (suc (length ns * 4)))) = omega arith in
    rw e (drop-encode_words ns rest)

pub length-encode_words :
    (ns rest : List ℕ) → length (encode_words ns rest) ≡ length ns * 4 + length rest
unfolding encode_words
length-encode_words [] rest = omega arith
length-encode_words (n ∷ ns) rest = omega (arith, length-encode_words ns rest)

-- The words of the header; those behind the eighth are zero.
abbrev pub header_words : (version : ℕ) → ModelConfig → List ℕ
header_words version config =
    checkpoint_magic
    ∷ version
    ∷ config.max_sequence_length
    ∷ config.vocabulary_size
    ∷ config.num_layers
    ∷ config.num_heads
    ∷ config.channels
    ∷ config.padded_vocabulary_size
    ∷ replicate 248 0

pub AreWords-replicate : (n : ℕ) → AreWords (replicate n 0)
AreWords-replicate zero = tt
AreWords-replicate (suc n) = (omega arith, AreWords-replicate n)

module _ {F : Type 0} where
  unfoldable pub encode_checkpoint : (F → ℕ) → ModelWeights F → List ℕ
  encode_checkpoint to_bits w =
      encode_words (header_words w.checkpoint_version w.config)
        (encode_words (map_list to_bits w.storage) [])

  -- A float is read back from its bits.
  pub record AreBits (to_bits : F → ℕ) (of_bits : ℕ → F) : Type 0 where
    pub bits_lt : (x : F) → to_bits x < 2 ^ 32
    pub of_bits-to_bits : (x : F) → of_bits (to_bits x) ≡ x
