-- ===== src/Repl/Quoting.antt =====
-- Quoted arguments: the search for the closing quote stops at the opening one.
use xendbg.Prelude.{
  ℕ, suc, ◌+◌, true, false, ◌≡◌, refl, ap, ◌∙◌, some, List, [], ◌∷◌, ◌++◌, ◌==◌, ==_refl, Bytes,
  length, ok, err, arith,
}
use xendbg.Text.{codes, is_space, skip_spaces}
use xendbg.Registers.{same_text}
use xendbg.Repl.Scan.{is_quote, match_quoted, match_optionally_quoted_string, next_char, Matcher}
use xendbg.Repl.Command.{Options, Argument, extra_argument, ArgsHandle, FlagsHandle}
use xendbg.Repl.Command.Match.{match_flags, match_flags_from, match_args, match_args_from}
use xendbg.Repl.Command.Verb.{Verb, match_behind_name, action_behind}
use xendbg.Repl.Command.Words.{IsWord, IsBoundary, value_taken-word, skip_spaces-space}
use xendbg.Repl.Command.CommandLine.{interpret_line-verb, lookup_verb, lookup_command}
use xendbg.Repl.Lines.{noticed, too_many_arguments, interpret_line, run_line}
use xendbg.Repl.Actions.{setup_repl, guest_command, guest_verbs, attach_verb}

match_optionally_quoted_string-quote :
    (q : ℕ) (s : Bytes) → is_quote q ≡ true → match_optionally_quoted_string (q ∷ s) ≡ s
unfolding match_optionally_quoted_string next_char
match_optionally_quoted_string-quote q s quote = rw quote (rw (==_refl q))

quote-IsSpace : (q : ℕ) → is_quote q ≡ true → is_space q ≡ false
unfolding is_space
quote-IsSpace q quote = ground arith

quote-dash : (q : ℕ) → is_quote q ≡ true → (q == b'-') ≡ false
quote-dash q quote = ground arith

skip_spaces-other : (c : ℕ) (s : Bytes) → is_space c ≡ false → skip_spaces (c ∷ s) ≡ c ∷ s
unfolding skip_spaces
skip_spaces-other c s other = rw other

match_flags-none :
    (c : ℕ) (s : Bytes) → (c == b'-') ≡ false → match_flags [] false (c ∷ s) ≡ ok (c ∷ s, [])
unfolding match_flags match_flags_from
match_flags-none c s other =
    let e : length (c ∷ s) + 1 ≡ suc (length (c ∷ s)) = omega arith in rw e (rw other)

match_args-quote :
    (arg : Argument) (q d : ℕ) (text : Bytes)
    → arg.matcher ≡ match_quoted
    → is_quote q ≡ true
    → match_args (arg ∷ []) (q ∷ d ∷ text) ≡ ok (d ∷ text, (arg.name, q ∷ []) ∷ [])
unfolding match_args match_args_from
match_args-quote arg q d text matcher quote =
    rw (skip_spaces-other q (d ∷ text) (quote-IsSpace q quote)) (
      rw (ap (λ (f : Matcher). f (q ∷ d ∷ text)) matcher) (
        rw (match_optionally_quoted_string-quote q (d ∷ text) quote)
          (rw (value_taken-word arg (q ∷ []) (d ∷ text) (λ e. cc)))))

module _ {A : Type 0} (verb : Verb A) where
  behind_steps :
      (begin flags_end args_end : Bytes) (flags : FlagsHandle) (args : ArgsHandle)
      → match_flags verb.flags false (skip_spaces begin) ≡ ok (flags_end, flags)
      → match_args verb.args (skip_spaces flags_end) ≡ ok (args_end, args)
      → match_behind_name verb begin ≡ action_behind verb flags args (skip_spaces args_end)
  unfolding match_behind_name
  behind_steps begin flags_end args_end flags args e e' = rw e (rw e')

  -- One argument, quoted: the quote is its value, and the rest is too much.
  match_behind_name-quote :
      (arg : Argument) (q d : ℕ) (text : Bytes)
      → verb.flags ≡ []
      → verb.args ≡ arg ∷ []
      → arg.matcher ≡ match_quoted
      → is_quote q ≡ true
      → is_space d ≡ false
      → match_behind_name verb (b' ' ∷ q ∷ d ∷ text) ≡ err (extra_argument (d ∷ text))
  unfolding action_behind
  match_behind_name-quote arg q d text flags args matcher quote other =
      let s : Bytes = q ∷ d ∷ text in
      let here : skip_spaces s ≡ s = skip_spaces-other q (d ∷ text) (quote-IsSpace q quote) in
      behind_steps (b' ' ∷ s) s (d ∷ text) [] ((arg.name, q ∷ []) ∷ [])
        (ap (λ fs. match_flags fs false (skip_spaces (b' ' ∷ s))) flags
          ∙ ap (match_flags [] false) (skip_spaces-space s ∙ here)
          ∙ match_flags-none q (d ∷ text) (quote-dash q quote))
        (ap (λ list. match_args list (skip_spaces s)) args
          ∙ ap (match_args (arg ∷ [])) here
          ∙ match_args-quote arg q d text matcher quote)
      ∙ rw (skip_spaces-other d text other)

guest-IsWord : IsWord (codes "guest")
unfolding is_space
guest-IsWord = (λ e. cc, (refl, (refl, (refl, (refl, (refl, tt))))))

attach-IsWord : IsWord (codes "attach")
unfolding is_space
attach-IsWord = (λ e. cc, (refl, (refl, (refl, (refl, (refl, (refl, tt)))))))

space-IsBoundary : (s : Bytes) → IsBoundary (b' ' ∷ s)
unfolding is_space
space-IsBoundary s = refl

lookup_verb-attach :
    (names : List Bytes)
    → lookup_verb (codes "attach") (guest_verbs names) ≡ some (attach_verb names)
unfolding lookup_verb same_text
lookup_verb-attach names = refl

lookup_command-guest :
    (paths : Bytes → Options) (names : List Bytes)
    → lookup_command (codes "guest") (setup_repl paths names) ≡ some (guest_command names)
unfolding lookup_command same_text setup_repl
lookup_command-guest paths names = refl

module _ (paths : Bytes → Options) (names : List Bytes) (last : Bytes) (q d : ℕ) (text : Bytes)
    (quote : is_quote q ≡ true) (other : is_space d ≡ false) where
  interpret_line-quoted :
      interpret_line (setup_repl paths names) (codes "guest attach " ++ (q ∷ d ∷ text))
      ≡ err (extra_argument (d ∷ text))
  interpret_line-quoted =
      interpret_line-verb (attach_verb names) (b' ' ∷ q ∷ d ∷ text)
        (space-IsBoundary (q ∷ d ∷ text)) (err (extra_argument (d ∷ text)))
        (match_behind_name-quote (attach_verb names) _ q d text refl refl refl quote other)
        (codes "guest") [] (guest_verbs names) guest-IsWord attach-IsWord (lookup_verb-attach names)
        (setup_repl paths names) (lookup_command-guest paths names)

  -- A guest cannot be attached by a quoted name: behind `guest attach `, a quote and a character
  -- that is no space, the rest of the line is reported as an argument too many.
  pub run_line-quoted :
      run_line (setup_repl paths names) last (codes "guest attach " ++ (q ∷ d ∷ text))
      ≡ noticed (too_many_arguments (d ∷ text))
  unfolding run_line
  run_line-quoted = rw interpret_line-quoted
