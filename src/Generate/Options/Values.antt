-- ===== src/Generate/Options/Values.antt =====
-- What the parsers guarantee of the values of options.
use Prim.Native.String.{String}
use gpt2_cpu_runtime.Prelude.{
  if◌then◌else◌, size_mod, ok, ◌>>=◌, >>=-eq-ok, ok-injective, set, ℕ, ◌<◌, ◌≡◌, subst, Bool, true,
  false, Option, some, List,
}
use gpt2_cpu_runtime.Generate.Options.{same_text, Options, parse_mode, set_option}
use gpt2_cpu_runtime.Arguments.{parse_size, parse_tokens}
use gpt2_cpu_runtime.Arguments.Tokens.{parse_size_iff, AllInt32, parse_tokens-AllInt32}
use gpt2_cpu_runtime.Prelude.Int.{ℤ}
use gpt2_cpu_runtime.Text.{codes}

-- What the parsers guarantee of the values of options.
pub record AreValues (tokens : List ℤ) (max_new_tokens : ℕ) (capacity : Option ℕ) (threads : ℕ)
    : Type 0 where
  pub tokens_lem : AllInt32 tokens
  pub max_new_tokens_lem : max_new_tokens < size_mod
  pub capacity_lem : (n : ℕ) → capacity ≡ some n → n < size_mod
  pub threads_lem : threads < size_mod

abbrev pub AreRead : Options → Type 0
AreRead options = AreValues options.tokens options.max_new_tokens options.capacity options.threads

size_read : (text : List ℕ) (n : ℕ) → parse_size text ≡ ok n → n < size_mod
size_read text n e = let (_, _, _, small) = (parse_size_iff text n).0 e in small

-- What sets an option either is this branch of the chain, or lies behind it.
pick {ℓ} :
    {P : Type ℓ} (b : Bool) {A : Type 0} {x r : A} {rest : Option A}
    → (x ≡ r → P)
    → (rest ≡ some r → P)
    → (if b then some x else rest) ≡ some r
    → P
pick true hit next e = hit (cc)
pick false hit next e = next e

module _ (value : List ℕ) (options out : Options) (before : AreRead options) where
  -- An option whose value is a size.
  sized :
      (set : ℕ → Options)
      → ((n : ℕ) → n < size_mod → AreRead (set n))
      → (parse_size value >>= λ n. ok (set n)) ≡ ok out
      → AreRead out
  sized set keeps e =
      let (n, read, done) = >>=-eq-ok (parse_size value) _ e in
      let same : set n ≡ out = ok-injective done in
      subst AreRead same (keeps n (size_read value n read))

  tokens_set :
      (parse_tokens value >>= λ ts. ok (record options { tokens = ts })) ≡ ok out → AreRead out
  tokens_set e =
      let (ts, read, done) = >>=-eq-ok (parse_tokens value) _ e in
      let same : record options { tokens = ts } ≡ out = ok-injective done in
      let (_, all) = parse_tokens-AllInt32 value ts read in
      subst AreRead same (record {
        tokens_lem = all;
        max_new_tokens_lem = before.max_new_tokens_lem;
        capacity_lem = before.capacity_lem;
        threads_lem = before.threads_lem;
      })

  mode_set : (parse_mode value >>= λ m. ok (record options { mode = m })) ≡ ok out → AreRead out
  mode_set e =
      let (m, read, done) = >>=-eq-ok (parse_mode value) _ e in
      let same : record options { mode = m } ≡ out = ok-injective done in subst AreRead same before

  kept : (options' : Options) → AreRead options' → ok options' ≡ ok out → AreRead out
  kept options' read e = let same : options' ≡ out = ok-injective e in subst AreRead same read

  max_new_tokens_set : (n : ℕ) → n < size_mod → AreRead (record options { max_new_tokens = n })
  max_new_tokens_set n small = record {
    tokens_lem = before.tokens_lem;
    max_new_tokens_lem = small;
    capacity_lem = before.capacity_lem;
    threads_lem = before.threads_lem;
  }

  capacity_set : (n : ℕ) → n < size_mod → AreRead (record options { capacity = some n })
  capacity_set n small = record {
    tokens_lem = before.tokens_lem;
    max_new_tokens_lem = before.max_new_tokens_lem;
    capacity_lem = λ m h. let n_m : n ≡ m = cc in rw (← n_m) small;
    threads_lem = before.threads_lem;
  }

  threads_set : (n : ℕ) → n < size_mod → AreRead (record options { threads = n })
  threads_set n small = record {
    tokens_lem = before.tokens_lem;
    max_new_tokens_lem = before.max_new_tokens_lem;
    capacity_lem = before.capacity_lem;
    threads_lem = small;
  }

  -- Setting an option keeps what is true of the values.
  pub set_option-AreRead :
      (argument : List ℕ) → set_option argument value options ≡ some (ok out) → AreRead out
  unfolding set_option
  set_option-AreRead argument =
      let is = λ (s : String). same_text argument (codes s) in
      pick (is "--checkpoint") (kept (record options { checkpoint = value }) before) (
        pick (is "--tokens") tokens_set (
          pick (is "--max-new-tokens")
            (sized (λ n. record options { max_new_tokens = n }) max_new_tokens_set)
            (pick (is "--dump-last-logits")
              (kept (record options { dump_last_logits = value }) before)
              (pick (is "--mode") mode_set (
                pick (is "--capacity")
                  (sized (λ n. record options { capacity = some n }) capacity_set)
                  (pick (is "--threads") (sized (λ n. record options { threads = n }) threads_set)
                    λ e. absurd (cc)))))))
