-- ===== src/Examples/Session.antt =====
-- A session over a model of one layer: two tokens of prompt and one that is decoded.
use gpt2_cpu_runtime.Prelude.{
  ok, Returns, replicate, ℕ, ◌+◌, ◌*◌, ◌<◌, ◌≡◌, refl, inl, inr, none, some, List, [], ◌∷◌, ◌++◌,
  arith,
}
use gpt2_cpu_runtime.Prelude.Int.{ℤ, pos}
use gpt2_cpu_runtime.Buffer.{at}
use gpt2_cpu_runtime.Examples.Numbers.{numbers}
use gpt2_cpu_runtime.Examples.Sizes.{tiny, tiny-IsValid, tiny-IsSized}
use gpt2_cpu_runtime.Model.Layout.{parameter_shapes, make_layout}
use gpt2_cpu_runtime.Model.Layout.Exact.{total_of, shapes_of, layout_of, make_layout-ComputesSize}
use gpt2_cpu_runtime.Model.Tensor.{ModelWeights, layer_parameters}
use gpt2_cpu_runtime.Model.Tensor.Lookup.{IsLoaded}
use gpt2_cpu_runtime.Model.Tensor.Parameters.{
  parameters_of, AreParameters, layer_parameters-Returns,
}
use gpt2_cpu_runtime.Model.Workspace.{Workspace}
use gpt2_cpu_runtime.Model.Forward.{bad_token, forward}
use gpt2_cpu_runtime.Model.Forward.Rows.{AreTokens, token_at, IsPrompt, HasLogits, forward-Returns}
use gpt2_cpu_runtime.Model.Block.{logit}
use gpt2_cpu_runtime.Model.Block.Causal.{logit-congr}
use gpt2_cpu_runtime.Session.Cache.{KvCache}
use gpt2_cpu_runtime.Session.State.{Session, make_session}
use gpt2_cpu_runtime.Session.Api.{prefill, decode}
use gpt2_cpu_runtime.Session.Api.Protocol.{prefill-IsSession, decode-IsSession}
use gpt2_cpu_runtime.Session.Api.Fresh.{make_session-IsSession}
use gpt2_cpu_runtime.Session.Api.Equivalence.{run_session, run_session-forward}
use gpt2_cpu_runtime.Sizes.Products.{ComputesSize}
use gpt2_cpu_runtime.Session.Api.Consumed.{IsSession}

abbrev pub weights : ModelWeights ℕ
weights = record {
  config = tiny;
  checkpoint_version = 1;
  layout = layout_of tiny;
  storage = replicate 98 1;
}

tiny_layout : make_layout tiny ≡ ok (layout_of tiny)
unfolding total_of parameter_shapes
tiny_layout = from (make_layout-ComputesSize tiny tiny-IsSized tiny-IsValid)
  where
    from :
        ComputesSize (make_layout tiny) (total_of (shapes_of tiny)) (layout_of tiny)
        → make_layout tiny ≡ ok (layout_of tiny)
    from (inl (fits, e)) = e
    from (inr (large, thrown)) = absurd (omega arith)

pub weights-IsLoaded : IsLoaded weights
unfolding total_of parameter_shapes
weights-IsLoaded = record {
  is_sized = tiny-IsSized;
  is_valid = tiny-IsValid;
  layout_made = tiny_layout;
  storage_size = refl;
}

abbrev pub prompt : List ℤ
prompt = pos 1 ∷ pos 4 ∷ []

abbrev rest : List ℤ
rest = pos 2 ∷ []

pub prompt-AreTokens : AreTokens 5 prompt
unfolding bad_token
prompt-AreTokens = (refl, (refl, tt))

rest-AreTokens : AreTokens 5 rest
unfolding bad_token
rest-AreTokens = (refl, tt)

all-IsPrompt : IsPrompt weights weights-IsLoaded (prompt ++ rest)
unfolding bad_token
all-IsPrompt = record {
  nonempty = omega arith;
  within = omega arith;
  valid = (refl, (refl, (refl, tt)));
  hidden_fits = omega arith;
  logits_fit = omega arith;
}

abbrev blank : Workspace ℕ
blank = record {
  sequence_length = 0;
  residual = [];
  normalized = [];
  qkv = [];
  attention_output = [];
  projected = [];
  mlp_hidden = [];
  attention_scores = [];
  logits = [];
}

run_session-forward_example : Returns (run_session (some 3) weights 4 prompt rest) λ s.
    (s.size ≡ 3)
    × Returns
        (forward weights (prompt ++ rest) blank)
        λ out. (v : ℕ) → v < 5 → at s.logits v ≡ at out.logits (2 * 6 + v)
run_session-forward_example =
    run_session-forward weights weights-IsLoaded (some 3) (omega arith) 4 prompt rest blank
      (omega arith) (omega arith) (omega arith) (omega arith) prompt-AreTokens rest-AreTokens
      all-IsPrompt

forward-Returns_example :
    Returns
      (forward weights (prompt ++ rest) blank)
      (HasLogits weights weights-IsLoaded (prompt ++ rest) all-IsPrompt)
forward-Returns_example =
    forward-Returns weights weights-IsLoaded (prompt ++ rest) all-IsPrompt blank

make_session-IsSession_example :
    Returns (make_session weights 4) (IsSession weights weights-IsLoaded [] 4)
make_session-IsSession_example =
    make_session-IsSession weights weights-IsLoaded 4 (omega arith) (omega arith) (omega arith)

abbrev pub fresh_cache : KvCache ℕ
fresh_cache = record {
  num_layers = 1;
  capacity = 4;
  channels = 2;
  layer_float_count = 8;
  storage_float_count = 16;
  keys = replicate 8 0;
  values = replicate 8 0;
}

abbrev pub fresh : Session ℕ
fresh = record {
  cache = fresh_cache;
  size = 0;
  residual = replicate 2 0;
  normalized = replicate 2 0;
  qkv = replicate 6 0;
  attention_output = replicate 2 0;
  projected = replicate 2 0;
  mlp_hidden = replicate 8 0;
  attention_scores = replicate 4 0;
  logits = replicate 5 0;
}

pub fresh-IsSession : IsSession weights weights-IsLoaded [] 4 fresh
fresh-IsSession = record {
  size_lem = refl;
  at_lem = record {
    consumed = record {
      ready = record {
        cache_lem = omega arith;
        layers_lem = refl;
        channels_lem = refl;
        within = omega arith;
        residual_size = refl;
        normalized_size = refl;
        qkv_size = refl;
        attention_size = refl;
        projected_size = refl;
        hidden_size = refl;
        scores_size = refl;
        logits_size = refl;
      };
      filled = record {
        earlier = λ l p hl hp. absurd (omega arith);
        current = λ l hl. absurd (omega arith);
      };
    };
    last_logits = λ p e. absurd (omega arith);
    capacity_lem = refl;
  };
}

prefill-IsSession_example :
    Returns (prefill (some 3) weights prompt fresh) (IsSession weights weights-IsLoaded prompt 4)
prefill-IsSession_example =
    prefill-IsSession weights weights-IsLoaded (some 3) 4 prompt fresh (omega arith) fresh-IsSession
      (omega arith) (omega arith) prompt-AreTokens

abbrev pub filled_session : Session ℕ
filled_session =
    (prefill-IsSession weights weights-IsLoaded none 4 prompt fresh tt fresh-IsSession (omega arith)
      (omega arith) prompt-AreTokens).0

pub filled_session-IsSession : IsSession weights weights-IsLoaded prompt 4 filled_session
filled_session-IsSession =
    (prefill-IsSession weights weights-IsLoaded none 4 prompt fresh tt fresh-IsSession (omega arith)
      (omega arith) prompt-AreTokens).2

decode-IsSession_example :
    Returns
      (decode none weights (pos 2) filled_session)
      (IsSession weights weights-IsLoaded (prompt ++ rest) 4)
unfolding bad_token
decode-IsSession_example =
    decode-IsSession weights weights-IsLoaded none 4 prompt (pos 2) filled_session tt
      (prefill-IsSession weights weights-IsLoaded none 4 prompt fresh tt fresh-IsSession
        (omega arith) (omega arith) prompt-AreTokens).2
      (omega arith) (omega arith) refl

logit-congr_example :
    logit weights (token_at prompt) 0 ≡ logit weights (token_at (pos 1 ∷ pos 3 ∷ [])) 0
unfolding token_at
logit-congr_example =
    logit-congr weights (token_at prompt) (token_at (pos 1 ∷ pos 3 ∷ [])) 0
      λ s h. let e : s ≡ 0 = omega arith in rw e same
  where
    same : token_at prompt 0 ≡ token_at (pos 1 ∷ pos 3 ∷ []) 0
    same = refl

layer_parameters-Returns_example :
    (layer_parameters "session layer offset" weights 0 6 8 ≡ ok (parameters_of weights 0))
    × AreParameters 2 (parameters_of weights 0)
layer_parameters-Returns_example =
    layer_parameters-Returns weights weights-IsLoaded 0 (omega arith) "session layer offset"
