-- ===== src/Generate/Options/Sound.antt =====
-- What `parse_options` accepts.
use gpt2_cpu_runtime.Prelude.{
  ◌==◌, gt→==, ok, guard, step, >>=-eq-ok, guard-eq-ok, guard-Returns, is_empty, ℕ, ◌<◌, ◌≡◌, refl,
  ap, ◌↔◌, ◌⊎◌, inl, inr, Bool, true, false, not, ◌&&◌, ◌||◌, Option, none, some, arith,
}
use gpt2_cpu_runtime.Generate.Options.{ExecutionMode, is_full, has_value, Options, check_options}

-- The options that the program accepts.
pub record AreAccepted (options : Options) (saw_greedy : Bool) : Type 0 where
  pub checkpoint_given : is_empty options.checkpoint ≡ false
  pub tokens_given : is_empty options.tokens ≡ false
  pub greedy_given : (saw_greedy ≡ true) ⊎ (options.max_new_tokens ≡ 0)
  pub threads_pos : 0 < options.threads
  pub full_lem :
      options.mode ≡ ExecutionMode.full → (options.capacity ≡ none) × (options.threads ≡ 1)

nor-true : (a b : Bool) → not (a || b) ≡ true → (a ≡ false) × (b ≡ false)
nor-true true b e = absurd (cc)
nor-true false true e = absurd (cc)
nor-true false false e = (refl, refl)

nand-true : (a b : Bool) → not (a && b) ≡ true → a ≡ true → b ≡ false
nand-true true true e h = absurd (cc)
nand-true true false e h = refl
nand-true false b e h = absurd (cc)

full→is_full : (m : ExecutionMode) → m ≡ ExecutionMode.full → is_full m ≡ true
full→is_full m e = rw e

none_lem : (o : Option ℕ) → has_value o ≡ false → o ≡ none
none_lem none e = refl
none_lem (some n) e = absurd (cc)

greedy_lem : (g : Bool) (n : ℕ) → not (not g && not (n == 0)) ≡ true → (g ≡ true) ⊎ (n ≡ 0)
greedy_lem true n e = inl refl
greedy_lem false n e = inr (ground arith)

pub threads_lem :
    (f : Bool) (n : ℕ) → not (n == 0 || (f && not (n == 1))) ≡ true → (0 < n) × (f ≡ true → n ≡ 1)
threads_lem f n e = (ground arith, λ h. ground arith)

given : (a b : Bool) → a ≡ false → b ≡ false → not (a || b) ≡ true
given a b e h = rw (e, h)

asked : (g : Bool) (n : ℕ) → (g ≡ true) ⊎ (n ≡ 0) → not (not g && not (n == 0)) ≡ true
asked g n (inl e) = rw e
asked true n (inr e) = refl
asked false n (inr e) = rw e

uncapped :
    (m : ExecutionMode) (o : Option ℕ)
    → (m ≡ ExecutionMode.full → o ≡ none)
    → not (is_full m && has_value o) ≡ true
uncapped ExecutionMode.full o h = rw (h refl)
uncapped ExecutionMode.cached o h = refl

threaded :
    (m : ExecutionMode) (n : ℕ)
    → 0 < n
    → (m ≡ ExecutionMode.full → n ≡ 1)
    → not (n == 0 || (is_full m && not (n == 1))) ≡ true
threaded ExecutionMode.full n positive h = rw (h refl)
threaded ExecutionMode.cached n positive h = rw (gt→== n 0 positive)

-- The checks behind the loop pass exactly the accepted options, as they are.
pub check_options_iff :
    (options out : Options) (saw_greedy : Bool)
    → (check_options options saw_greedy ≡ ok out)
      ↔ (AreAccepted options saw_greedy × (options ≡ out))
unfolding check_options
check_options_iff options out saw_greedy = (sound, complete)
  where
    sound :
        check_options options saw_greedy ≡ ok out → AreAccepted options saw_greedy × (options ≡ out)
    sound h =
        let (_, e1, h1) = >>=-eq-ok (guard _ _) _ h in
        let (_, e2, h2) = >>=-eq-ok (guard _ _) _ h1 in
        let (_, e3, h3) = >>=-eq-ok (guard _ _) _ h2 in
        let (_, e4, h4) = >>=-eq-ok (guard _ _) _ h3 in
        let (path, tokens) =
          nor-true (is_empty options.checkpoint) (is_empty options.tokens) (guard-eq-ok _ _ e1) in
        let (positive, one) =
          threads_lem (is_full options.mode) options.threads (guard-eq-ok _ _ e4) in
        (
          record {
            checkpoint_given = path;
            tokens_given = tokens;
            greedy_given = greedy_lem saw_greedy options.max_new_tokens (guard-eq-ok _ _ e2);
            threads_pos = positive;
            full_lem = λ e.
                let f = full→is_full options.mode e in
                (
                  none_lem options.capacity (
                      nand-true (is_full options.mode) (has_value options.capacity)
                        (guard-eq-ok _ _ e3) f),
                  one f,
                );
          },
          cc,
        )

    complete :
        AreAccepted options saw_greedy × (options ≡ out) → check_options options saw_greedy ≡ ok out
    complete (accepted, same) =
        step _
          (guard-Returns _ _ (
            given (is_empty options.checkpoint) (is_empty options.tokens) accepted.checkpoint_given
              accepted.tokens_given))
          (step _
            (guard-Returns _ _ (asked saw_greedy options.max_new_tokens accepted.greedy_given))
            (step _
              (guard-Returns _ _
                (uncapped options.mode options.capacity λ e. (accepted.full_lem e).0))
              (step _
                (guard-Returns _ _ (
                  threaded options.mode options.threads accepted.threads_pos
                    λ e. (accepted.full_lem e).1))
                (ap ok same))))
