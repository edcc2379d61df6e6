-- ===== src/Generate/Agreement.antt =====
-- The two modes of `gpt2_generate` agree.
use mathlib.Core.Option
use gpt2_cpu_runtime.Prelude.{
  if◌then◌else◌, size_mod, streamsize_max, Returns, take, is_empty, ◌*◌, ◌≤◌, ◌<◌, ◌≡◌, refl, sym,
  ap, ◌∙◌, Bool, true, false, none, some, List, arith,
}
use gpt2_cpu_runtime.Prelude.Int.{ℤ}
use gpt2_cpu_runtime.Float.{Float}
use gpt2_cpu_runtime.Model.Tensor.{ModelWeights}
use gpt2_cpu_runtime.Model.Tensor.Lookup.{IsLoaded}
use gpt2_cpu_runtime.Generate.Options.{Options}
use gpt2_cpu_runtime.Generate.Loops.{OutputFiles, generate_full, generate_cached}
use gpt2_cpu_runtime.Generate.Continuation.{last_logits, continuation, IsRequest}
use gpt2_cpu_runtime.Generate.Continuation.Full.{
  AcceptsDump, take-last_logits, generate_full-Returns,
}
use gpt2_cpu_runtime.Generate.Continuation.Cached.{chosen_capacity, generate_cached-Returns}
use gpt2_cpu_runtime.Generate.Continuation.Room.{HasRoom}

module _ {F : Type 0} ⦃fl : Float F⦄ (w : ModelWeights F) (loaded : IsLoaded w) where
  open w.config use {
    vocabulary_size, padded_vocabulary_size, num_layers, channels, max_sequence_length,
  }

  -- For loaded weights, a request within the context and a capacity with room for it, with any
  -- positive number of threads whose workers a `std::vector` can hold, `generate_cached` and
  -- `generate_full` both return. They generate the
  -- same tokens and print the same steps, and when they dump logits, those of the cached mode are
  -- bit for bit those of the full mode, without the padding of the vocabulary.
  pub generate_cached-generate_full :
      (files : OutputFiles F) (options : Options)
      → IsRequest w options.tokens options.max_new_tokens
      → HasRoom options (chosen_capacity w loaded options)
      → chosen_capacity w loaded options ≤ max_sequence_length
      → 2 * (num_layers * (chosen_capacity w loaded options * channels)) * 4 < size_mod
      → 0 < options.threads
      → AcceptsDump files options.dump_last_logits
      → padded_vocabulary_size * 4 ≤ streamsize_max
      → Returns (generate_cached files options w) λ a. Returns (generate_full files options w) λ b.
        (a.tokens ≡ b.tokens)
        × (a.steps ≡ b.steps)
        × (a.dumped ≡ Option.map (take vocabulary_size) b.dumped)
  generate_cached-generate_full files options request room le fits positive accepts small =
      let (a, ea, of_session) =
        generate_cached-Returns w loaded files options request room le fits positive accepts
          (omega (arith, loaded.is_valid.vocabulary_size_le)) in
      let (b, eb, of_passes) = generate_full-Returns w loaded files options request accepts small in
      let tokens = continuation w options.tokens options.max_new_tokens in
      (
        a,
        ea,
        (
          b,
          eb,
          (
            of_session.tokens_lem ∙ sym of_passes.tokens_lem,
            of_session.steps_lem ∙ sym of_passes.steps_lem,
            of_session.dumped_lem
                ∙ shorter tokens (is_empty options.dump_last_logits)
                ∙ ap (Option.map (take vocabulary_size)) (sym of_passes.dumped_lem),
          ),
        ),
      )
    where
      shorter :
          (tokens : List ℤ) (b : Bool)
          → (if b then none else some (last_logits w vocabulary_size tokens))
            ≡ Option.map
                (take vocabulary_size)
                (if b then none else some (last_logits w padded_vocabulary_size tokens))
      shorter tokens true = refl
      shorter tokens false = ap some (sym (take-last_logits w loaded tokens))
