-- ===== src/Examples/Generate.antt =====
-- Greedy generation over a model of one layer: two tokens of prompt and two that are generated.
use mathlib.Core.Option
use gpt2_cpu_runtime.Prelude.{Returns, take, ℕ, ◌≡◌, refl, true, false, none, List, [], ◌∷◌, arith}
use gpt2_cpu_runtime.Prelude.Int.{pos}
use gpt2_cpu_runtime.Buffer.{at}
use gpt2_cpu_runtime.Model.Forward.{bad_token}
use gpt2_cpu_runtime.Generate.Options.{ExecutionMode, Options}
use gpt2_cpu_runtime.Generate.Greedy.{
  max_element, greedy_token, bad_token-greedy_token, IsOrder, IsFirstMaximum,
  greedy_token-IsFirstMaximum,
}
use gpt2_cpu_runtime.Generate.Loops.{OutputFiles, generate_full, generate_cached}
use gpt2_cpu_runtime.Generate.Continuation.{IsRequest}
use gpt2_cpu_runtime.Generate.Continuation.Full.{AcceptsDump, HasGenerated, generate_full-Returns}
use gpt2_cpu_runtime.Generate.Continuation.Cached.{generate_cached-Returns}
use gpt2_cpu_runtime.Generate.Agreement.{generate_cached-generate_full}
use gpt2_cpu_runtime.Examples.Numbers.{numbers}
use gpt2_cpu_runtime.Examples.Session.{weights, weights-IsLoaded, prompt, prompt-AreTokens}
use gpt2_cpu_runtime.Generate.Continuation.Room.{HasRoom}

abbrev files : OutputFiles ℕ
files = record { opens = λ path. true; writes = λ path values. true }

abbrev options : Options
options = record {
  checkpoint = b'm' ∷ [];
  tokens = prompt;
  max_new_tokens = 2;
  dump_last_logits = b'd' ∷ [];
  capacity = none;
  threads = 3;
  mode = ExecutionMode.cached;
}

prompt-IsRequest : IsRequest weights prompt 2
prompt-IsRequest = record {
  nonempty = omega arith;
  valid = prompt-AreTokens;
  within = omega arith;
  named = omega arith;
  hidden_fits = omega arith;
  logits_fit = omega arith;
}

options-HasRoom : HasRoom options 4
options-HasRoom = record {
  decoded = omega arith;
  dumped = λ e. omega arith;
  threads_le = omega arith;
}

accepts : AcceptsDump files (b'd' ∷ [])
accepts = record { opened = refl; written = λ values. refl }

generate_cached-generate_full_example : Returns (generate_cached files options weights) λ a.
    Returns
      (generate_full files options weights)
      λ b. (a.tokens ≡ b.tokens) × (a.steps ≡ b.steps) × (a.dumped ≡ Option.map (take 5) b.dumped)
generate_cached-generate_full_example =
    generate_cached-generate_full weights weights-IsLoaded files options prompt-IsRequest
      options-HasRoom (omega arith) (omega arith) (omega arith) accepts (omega arith)

generate_full-Returns_example :
    Returns (generate_full files options weights) (HasGenerated weights weights-IsLoaded options 6)
generate_full-Returns_example =
    generate_full-Returns weights weights-IsLoaded files options prompt-IsRequest accepts
      (omega arith)

generate_cached-Returns_example :
    Returns
      (generate_cached files options weights)
      (HasGenerated weights weights-IsLoaded options 5)
generate_cached-Returns_example =
    generate_cached-Returns weights weights-IsLoaded files options prompt-IsRequest options-HasRoom
      (omega arith) (omega arith) (omega arith) accepts (omega arith)

numbers-IsOrder : IsOrder {F = ℕ} λ n. Unit
numbers-IsOrder = record {
  irreflexive = λ a n. ground arith;
  transitive = λ a b c n m l h k. ground arith;
  cotransitive = λ a b c n m l h k. ground arith;
}

abbrev logits : List ℕ
logits = 3 ∷ 7 ∷ 2 ∷ 7 ∷ []

greedy_token-IsFirstMaximum_example :
    (m : ℕ) × (greedy_token logits ≡ pos m) × IsFirstMaximum (at logits) 4 m
greedy_token-IsFirstMaximum_example =
    greedy_token-IsFirstMaximum numbers-IsOrder logits (omega arith) (omega arith) λ j h. tt

max_element_test : max_element logits ≡ 1
unfolding max_element
max_element_test = refl

bad_token-greedy_token_example : bad_token 4 (greedy_token logits) ≡ false
bad_token-greedy_token_example = bad_token-greedy_token logits (omega arith) (omega arith)
