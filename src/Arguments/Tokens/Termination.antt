-- ===== src/Arguments/Tokens/Termination.antt =====
-- The loop of `parse_tokens` ends on every text.
use Prim.Native.String.{String}
use gpt2_cpu_runtime.Prelude.{
  Option-cases, Error, Result, err, ok, ◌>>=◌, guard, length, drop, is_empty, length-drop, ℕ, zero,
  suc, ◌≤◌, ◌≡◌, refl, ◌⊎◌, inl, inr, Bool, true, false, not, List, [], ◌∷◌, ◌++◌, arith,
}
use gpt2_cpu_runtime.Prelude.Int.{ℤ}
use gpt2_cpu_runtime.Text.{FromChars, invalid, result_out_of_range, parsed, from_chars_int32}
use gpt2_cpu_runtime.Arguments.{whole, find, head_item, parse_token, parse_items, parse_tokens}

length-drop-suc : (k c : ℕ) (s : List ℕ) → length (drop (suc k) (c ∷ s)) ≤ length s
length-drop-suc k c s = omega (arith, length-drop k s)

-- A computation that ends: in a value, or by throwing `std::invalid_argument`.
abbrev pub Ends {ℓ} : {A : Type ℓ} → Result A → Type ℓ
Ends {A = A} r =
    ((a : A) × (r ≡ ok a)) ⊎ ((message : String) × (r ≡ err (Error.invalid_argument message)))

Ends->>= {ℓ κ} :
    {A : Type ℓ} {B : Type κ} (m : Result A) (f : A → Result B)
    → Ends m
    → ((a : A) → Ends (f a))
    → Ends (m >>= f)
Ends->>= m f (inl (a, e)) h = rw e (h a)
Ends->>= m f (inr (message, e)) h = inr (message, rw e)

guard-Ends : (b : Bool) (message : String) → Ends (guard b (Error.invalid_argument message))
guard-Ends true message = inl (tt, refl)
guard-Ends false message = inr (message, refl)

whole-Ends : {A : Type 0} (message : String) (r : FromChars A) → Ends (whole message r)
unfolding whole
whole-Ends message invalid = inr (message, refl)
whole-Ends message result_out_of_range = inr (message, refl)
whole-Ends message (parsed v []) = inl (v, refl)
whole-Ends message (parsed v (c ∷ s)) = inr (message, refl)

parse_items-Ends :
    (fuel : ℕ) (text : List ℕ) (tokens : List ℤ)
    → length text ≤ fuel
    → Ends (parse_items fuel text tokens)
unfolding parse_items parse_token
parse_items-Ends fuel [] tokens room = inl (tokens, refl)
parse_items-Ends zero (c ∷ s) tokens room = absurd (omega arith)
parse_items-Ends (suc fuel) (c ∷ s) tokens room =
    let text = c ∷ s in
    let item = head_item (find b',' text) text in
    Ends->>= (guard (not (is_empty item)) _) _ (guard-Ends _ _) λ _.
      Ends->>= (parse_token item) _ (whole-Ends _ (from_chars_int32 item)) λ t.
        elim (Option-cases (find b',' text)) [
          | inl last ↦ rw last (inl (tokens ++ (t ∷ []), refl))
          | inr (k, more) ↦ rw more (
              parse_items-Ends fuel (drop (suc k) text) (tokens ++ (t ∷ []))
                (omega (arith, length-drop-suc k c s)))
        ]

-- On every text the loop of `parse_tokens` ends, within as many rounds as the text has characters:
-- in a list of tokens, or by throwing `std::invalid_argument`.
pub parse_tokens-Ends : (text : List ℕ) → Ends (parse_tokens text)
unfolding parse_tokens
parse_tokens-Ends text =
    Ends->>= (parse_items (length text) text []) _
      (parse_items-Ends (length text) text [] (omega arith))
      λ tokens.
        Ends->>= (guard (not (is_empty tokens)) _) _ (guard-Ends _ _) λ _. inl (tokens, refl)
