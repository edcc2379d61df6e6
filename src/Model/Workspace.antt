-- ===== src/Model/Workspace.antt =====
-- `InferenceWorkspace`: the buffers of the full-prefix pass.
pub mod Resize
use gpt2_cpu_runtime.Prelude.{
  ltb, ◌==◌, ltb→lt, ltb→le, Bool-cases, Error, Result, ok, ◌>>=◌, ◌>>◌, guard, length, take,
  replicate, length-append, length-take, length-take_of_le, length-replicate, ℕ, ◌-◌, ◌≡◌, inl, inr,
  not, ◌||◌, List, [], ◌++◌, arith,
}
use gpt2_cpu_runtime.Float.{Float}
use gpt2_cpu_runtime.Sizes.{checked_multiply}
use gpt2_cpu_runtime.Model.Config.{ModelConfig, validate}

pub record Workspace (F : Type 0) : Type 0 where
  pub sequence_length : ℕ
  pub residual : List F
  pub normalized : List F
  pub qkv : List F
  pub attention_output : List F
  pub projected : List F
  pub mlp_hidden : List F
  pub attention_scores : List F
  pub logits : List F

-- A workspace as it is made: its buffers are empty.
abbrev pub empty_workspace : {F : Type 0} → Workspace F
empty_workspace = record {
  sequence_length = 0;
  residual = [];
  normalized = [];
  qkv = [];
  attention_output = [];
  projected = [];
  mlp_hidden = [];
  attention_scores = [];
  logits = [];
}

module _ {F : Type 0} ⦃fl : Float F⦄ where
  -- `std::vector<float>::resize`: a prefix is kept, new entries are zero.
  unfoldable pub resize_vector : List F → ℕ → List F
  resize_vector xs n = take n xs ++ replicate (n - length xs) fl.nought

  pub length-resize_vector : (xs : List F) (n : ℕ) → length (resize_vector xs n) ≡ n
  unfolding resize_vector
  length-resize_vector xs n = elim (Bool-cases (ltb n (length xs))) [
    | inl less ↦
        let l = ltb→lt n (length xs) less in
        omega (
          arith,
          length-append (take n xs) (replicate (n - length xs) fl.nought),
          length-take n xs (omega arith),
          length-replicate (n - length xs) fl.nought,
        )
    | inr more ↦
        let l = ltb→le n (length xs) more in
        omega (
          arith,
          length-append (take n xs) (replicate (n - length xs) fl.nought),
          length-take_of_le n xs l,
          length-replicate (n - length xs) fl.nought,
        )
  ]

  unfoldable pub resize : ModelConfig → ℕ → Workspace F → Result (Workspace F)
  resize config n ws = do
    validate config
    guard (not (n == 0 || ltb config.max_sequence_length n))
        (Error.invalid_argument "workspace sequence length is out of range")
    token_channels ← checked_multiply n config.channels "workspace token channels"
    qkv_count ← checked_multiply token_channels 3 "workspace qkv"
    hidden_count ← checked_multiply token_channels 4 "workspace MLP hidden"
    logits_count ← checked_multiply n config.padded_vocabulary_size "workspace logits"
    ok (record {
      sequence_length = n;
      residual = resize_vector ws.residual token_channels;
      normalized = resize_vector ws.normalized token_channels;
      qkv = resize_vector ws.qkv qkv_count;
      attention_output = resize_vector ws.attention_output token_channels;
      projected = resize_vector ws.projected token_channels;
      mlp_hidden = resize_vector ws.mlp_hidden hidden_count;
      attention_scores = resize_vector ws.attention_scores n;
      logits = resize_vector ws.logits logits_count;
    })
