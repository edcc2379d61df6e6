-- ===== src/Generate/Continuation/Cached.antt =====
-- `generate_cached` computes the continuation of its prompt.
use gpt2_cpu_runtime.Prelude.{
  ltb, lt→ltb, size_mod, streamsize_max, Returns, step, guard-Returns, for_range-Returns, ℕ, zero,
  suc, ◌*◌, ◌≤◌, ◌<◌, ◌≡◌, refl, not, none, [], arith,
}
use gpt2_cpu_runtime.Float.{Float}
use gpt2_cpu_runtime.Model.Tensor.{ModelWeights}
use gpt2_cpu_runtime.Model.Tensor.Lookup.{IsLoaded}
use gpt2_cpu_runtime.Session.Api.Protocol.{prefill-IsSession}
use gpt2_cpu_runtime.Generate.Options.{Options}
use gpt2_cpu_runtime.Generate.Loops.{
  OutputFiles, value_or, CachedState, required_positions, cached_step, generate_cached,
}
use gpt2_cpu_runtime.Generate.Continuation.{continuation, step_lines, IsRequest}
use gpt2_cpu_runtime.Generate.Continuation.Full.{AcceptsDump, HasGenerated}
use gpt2_cpu_runtime.Session.Api.Fresh.{make_session-IsSession}
use gpt2_cpu_runtime.Generate.Continuation.Room.{
  HasRoom, required_positions_lem, choose_executor-Returns, consumed_after,
}
use gpt2_cpu_runtime.Generate.Continuation.Rounds.{
  IsCachedState, cached_step-Returns, dump_cached-Returns,
}

module _ {F : Type 0} ⦃fl : Float F⦄ (w : ModelWeights F) (loaded : IsLoaded w) where
  open w.config use {vocabulary_size, num_layers, channels, max_sequence_length}

  -- The capacity of the session: the option's, or the whole context.
  abbrev pub chosen_capacity : Options → ℕ
  chosen_capacity options = value_or options.capacity max_sequence_length

  -- For a request within the context and a capacity with room for it, `generate_cached` returns,
  -- with any positive number of threads whose workers a `std::vector` can hold. Its tokens and its printed steps are those of greedy
  -- generation by the reference network, and what it dumps, when a path is given, are the logits
  -- behind the last token, over the real vocabulary.
  pub generate_cached-Returns :
      (files : OutputFiles F) (options : Options)
      → IsRequest w options.tokens options.max_new_tokens
      → HasRoom options (chosen_capacity options)
      → chosen_capacity options ≤ max_sequence_length
      → 2 * (num_layers * (chosen_capacity options * channels)) * 4 < size_mod
      → 0 < options.threads
      → AcceptsDump files options.dump_last_logits
      → vocabulary_size * 4 ≤ streamsize_max
      → Returns (generate_cached files options w) (HasGenerated w loaded options vocabulary_size)
  unfolding generate_cached continuation step_lines
  generate_cached-Returns files options request room le fits positive accepts small =
      let prompt = options.tokens in
      let count = options.max_new_tokens in
      let capacity = chosen_capacity options in
      let enough =
        required_positions_lem options capacity room
          (omega (arith, request.within, loaded.is_sized.max_sequence_length_lt)) in
      let (s0, e0, fresh) =
        make_session-IsSession w loaded capacity (omega (arith, room.decoded, request.nonempty)) le
          fits in
      let (executor, e1, is_executor) =
        choose_executor-Returns options.threads positive room.threads_le in
      let (s1, e2, filled) =
        prefill-IsSession w loaded executor capacity prompt s0 is_executor fresh request.nonempty
          (omega (arith, room.decoded)) request.valid in
      let start : CachedState F = record {
        tokens = prompt;
        steps = [];
        session = s1;
        final_generated = none;
      } in
      let (st, e3, done) =
        for_range-Returns (IsCachedState w loaded capacity prompt count)
          (cached_step executor w count) count start
          (λ n st' lt now.
            cached_step-Returns w loaded capacity executor is_executor prompt count n st' request
              (omega (arith, room.decoded)) lt now)
          (record {
            tokens_lem = refl;
            steps_lem = refl;
            final_lem = refl;
            session_lem = rw (first_round count) filled;
          }) in
      let dumped =
        dump_cached-Returns w loaded capacity executor is_executor files options st request room
          accepts small done in
      (
        _,
        step _ (guard-Returns (not (ltb capacity (required_positions options))) _ (rw enough))
            (step _ e0 (step _ e1 (step _ e2 (step _ e3 (step _ dumped refl))))),
        record { tokens_lem = done.tokens_lem; steps_lem = done.steps_lem; dumped_lem = refl },
      )
    where
      first_round : (count : ℕ) → consumed_after count 0 ≡ 0
      first_round zero = refl
      first_round (suc n) = rw (lt→ltb 0 (suc n) (omega arith))
