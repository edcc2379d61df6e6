-- ===== src/Generate/Options/Accepted.antt =====
-- The whole of `parse_options`: what it returns, and the command line that spells given options.
use gpt2_cpu_runtime.Prelude.{
  if◌then◌else◌, Option-cases, Error, Result, err, ok, ◌>>=◌, >>=-eq-ok, ok-injective, ℕ, ◌≡◌, ap,
  ◌∙◌, subst, inl, inr, Bool, true, false, some, List, [], ◌∷◌, arith,
}
use gpt2_cpu_runtime.Text.{codes}
use gpt2_cpu_runtime.Generate.Options.{
  same_text, Options, default_options, set_option, Parsed, usage, read_to_end, parse_arguments,
  check_options, finish_options, parse_options,
}
use gpt2_cpu_runtime.Generate.Options.Sound.{AreAccepted, check_options_iff}
use gpt2_cpu_runtime.Generate.Options.Values.{AreRead, set_option-AreRead}

read_to_end-injective :
    {o p : Options} {g h : Bool} → read_to_end o g ≡ read_to_end p h → (o ≡ p) × (g ≡ h)
read_to_end-injective e = (cc, cc)

-- An argument that takes no value, at the end or before other arguments.
bare_cases :
    (greedy help : Bool) (onward : Result Parsed) (out : Options) (g : Bool)
    → (if greedy
        then onward
        else if help
        then ok usage
        else err (Error.invalid_argument "unknown or incomplete argument: "))
      ≡ ok (read_to_end out g)
    → onward ≡ ok (read_to_end out g)
bare_cases true help onward out g e = e
bare_cases false true onward out g e = absurd (cc)
bare_cases false false onward out g e = absurd (cc)

-- The loop keeps what is true of the values.
parse_arguments-AreRead :
    (arguments : List (List ℕ)) (options out : Options) (saw g : Bool)
    → AreRead options
    → parse_arguments arguments options saw ≡ ok (read_to_end out g)
    → AreRead out
unfolding parse_arguments
parse_arguments-AreRead [] options out saw g before e =
    let (same, _) = read_to_end-injective (ok-injective e) in subst AreRead same before
parse_arguments-AreRead (argument ∷ []) options out saw g before e =
    let end =
      bare_cases (same_text argument (codes "--greedy")) (same_text argument (codes "--help")) _ out
        g e in
    let (same, _) = read_to_end-injective (ok-injective end) in subst AreRead same before
parse_arguments-AreRead (argument ∷ value ∷ rest) options out saw g before e =
    elim (Option-cases (set_option argument value options)) [
      | inl bare ↦
          let e' = rw (bare, parse_arguments) at e in
          let onward =
            bare_cases (same_text argument (codes "--greedy")) (same_text argument (codes "--help"))
              (parse_arguments (value ∷ rest) options true) out g e' in
          parse_arguments-AreRead (value ∷ rest) options out true g before onward
      | inr (r, valued) ↦
          let e' : r >>= (λ options'. parse_arguments rest options' saw) ≡ ok (read_to_end out g) =
            rw (valued, parse_arguments) at e in
          let (o, read, e'') = >>=-eq-ok r _ e' in
          parse_arguments-AreRead rest o out saw g
            (set_option-AreRead value options o before argument (valued ∙ ap some read)) e''
    ]

-- When `parse_options` returns options, the paths and tokens are given, every token is a number that
-- an `std::int32_t` holds, the counts are numbers that a `std::size_t` holds, there is a thread, and
-- the full mode has no capacity and one thread.
pub parse_options-AreAccepted :
    (arguments : List (List ℕ)) (options : Options)
    → parse_options arguments ≡ ok (some options)
    → AreRead options × ((saw_greedy : Bool) × AreAccepted options saw_greedy)
unfolding parse_options
parse_options-AreAccepted arguments options e =
    let (result, read, e') = >>=-eq-ok (parse_arguments arguments default_options false) _ e in
    from result read e'
  where
    start : AreRead default_options
    start = record {
      tokens_lem = tt;
      max_new_tokens_lem = omega arith;
      capacity_lem = λ n h. absurd (cc);
      threads_lem = omega arith;
    }

    from :
        (result : Parsed)
        → parse_arguments arguments default_options false ≡ ok result
        → finish_options result ≡ ok (some options)
        → AreRead options × ((saw_greedy : Bool) × AreAccepted options saw_greedy)
    from usage read e = unfold finish_options in absurd (cc)
    from (read_to_end o g) read e =
        let e' : check_options o g >>= (λ checked. ok (some checked)) ≡ ok (some options) =
          unfold finish_options in e in
        let (p, checked, last) = >>=-eq-ok (check_options o g) _ e' in
        let (accepted, o_p) = (check_options_iff o p g).0 checked in
        let p_options : p ≡ options = cc in
        let same = o_p ∙ p_options in
        (
          subst AreRead same
              (parse_arguments-AreRead arguments default_options o false g start read),
          (g, subst (λ q. AreAccepted q g) same accepted),
        )
