-- ===== src/Repl/Command/CommandLine.antt =====
-- A line that names a command, a verb, flags and arguments: `interpret_line` of it.
mod Parts
unfoldable pub use Parts.{lookup_verb, lookup_command}
pub use Parts.{
  match_flags-uses, skip_spaces_idem, match_args-words, same_place-behind, first_found, none_found,
  match_verb-other, match_command-other, expect-first,
}
use xendbg.Prelude.{
  some_injective, ◌≤◌, ◌<◌, false, ◌≡◌, refl, ◌∙◌, ap, inl, inr, Option, none, some, List, [], ◌∷◌,
  ◌++◌, map, ==_refl, if◌then◌else◌, Bytes, All, length, length-append, Bool-cases, Result, ok, err,
  ◌>>=◌, arith,
}
use xendbg.Text.{skip_spaces}
use xendbg.Registers.{same_text_refl, same_text}
use xendbg.Repl.Scan.{same_place, expect}
use xendbg.Repl.Command.{Argument, ArgsHandle, CommandFault}
use xendbg.Repl.Command.Match.{match_args, match_args_from, match_flags}
use xendbg.Repl.Command.Verb.{
  Verb, Command, group, command_verb, name_of, match_behind_name, match_verb, match_verbs,
  match_command,
}
use xendbg.Repl.Command.Words.{
  length-skip_spaces, IsWord, IsBoundary, words_text, Taken, values_of, match_args_from-words,
  skip_spaces-word, skip_spaces-space, next_whitespace-word, text_between-word, same_place-word,
  expect-word, words_text-IsBoundary,
}
use xendbg.Repl.Command.Flags.{
  FlagUse, IsUse, use_text, long_use, short_use, uses_text, entry_of, StartsNoFlag, skip_spaces-use,
  match_flags_from-uses, uses_text-IsBoundary,
}
use xendbg.Repl.Lines.{interpret_line}

-- A line whose first two words name a command and one of its verbs, for what the verb makes of the
-- rest: an action or an exception.
module _ {A : Type 0} (verb : Verb A) (behind_name : Bytes) (edge : IsBoundary behind_name)
    (m : Result CommandFault A)
    (meant : match_behind_name verb behind_name ≡ (m >>= (λ a. ok (some a)))) where
  abbrev action_meant : Result CommandFault (Option A)
  action_meant = m >>= (λ a. ok (some a))

  match_verb-own :
      IsWord verb.name → match_verb verb (b' ' ∷ (verb.name ++ behind_name)) ≡ action_meant
  unfolding match_verb
  match_verb-own word =
      rw (expect-word verb.name behind_name word edge)
        (rw (same_place-behind verb.name behind_name) meant)

  match_verbs-own :
      (verbs : List (Verb A))
      → IsWord verb.name
      → lookup_verb verb.name verbs ≡ some verb
      → match_verbs verbs (b' ' ∷ (verb.name ++ behind_name)) ≡ action_meant
  unfolding match_verbs lookup_verb
  match_verbs-own [] word found = cc
  match_verbs-own (v ∷ verbs) word found = elim (Bool-cases (same_text v.name verb.name)) [
    | inl same ↦
        let here : v ≡ verb = some_injective (rw same at found) in
        first_found _ _ _
          (ap (λ u. match_verb u (b' ' ∷ (verb.name ++ behind_name))) here ∙ match_verb-own word)
    | inr other ↦
        none_found _ _ (
          match_verb-other v verb.name behind_name (b' ' ∷ (verb.name ++ behind_name))
            (skip_spaces-space (verb.name ++ behind_name)
              ∙ skip_spaces-word verb.name behind_name word)
            word edge other)
        ∙ match_verbs-own verbs word (rw other at found)
  ]

  module _ (name description : Bytes) (verbs : List (Verb A)) (named : IsWord name)
      (word : IsWord verb.name) (found : lookup_verb verb.name verbs ≡ some verb) where
    abbrev line : Bytes
    line = name ++ (b' ' ∷ (verb.name ++ behind_name))

    match_command-own : match_command (group name description verbs) line ≡ action_meant
    unfolding match_command
    match_command-own =
        let next = b' ' ∷ (verb.name ++ behind_name) in
        rw (expect-first name next named refl)
          (rw (same_place-word name next named.0) (match_verbs-own verbs word found))

    pub interpret_line-verb :
        (commands : List (Command A))
        → lookup_command name commands ≡ some (group name description verbs)
        → interpret_line commands line ≡ action_meant
    unfolding interpret_line lookup_command
    interpret_line-verb [] h = cc
    interpret_line-verb (cmd ∷ commands) h = elim (Bool-cases (same_text (name_of cmd) name)) [
      | inl same ↦
          let here : cmd ≡ group name description verbs = some_injective (rw same at h) in
          first_found _ _ _ (ap (λ c. match_command c line) here ∙ match_command-own)
      | inr other ↦
          none_found _ _
            (match_command-other cmd name (b' ' ∷ (verb.name ++ behind_name)) named refl other)
          ∙ interpret_line-verb commands (rw other at h)
    ]

module _ {A : Type 0} (verb : Verb A) (us : List FlagUse) (ws : List Bytes)
    (uses : All (IsUse verb.flags) us) (taken : Taken verb.args ws)
    (start : StartsNoFlag (skip_spaces (words_text ws []))) where
  pub match_behind_name-uses :
      match_behind_name verb (uses_text us (words_text ws []))
      ≡ (verb.make_action (map entry_of us) (values_of verb.args ws) >>= (λ a. ok (some a)))
  unfolding match_behind_name
  match_behind_name-uses =
      rw (match_flags-uses verb us (words_text ws []) uses (words_text-IsBoundary ws [] tt) start)
        (rw (skip_spaces_idem (words_text ws [])) (rw (match_args-words verb.args ws taken) refl))

  -- A line that is the name of a command, the name of one of its verbs, uses of flags of the verb
  -- and a word for each of its arguments is interpreted as the action of that verb on these flags
  -- and words. The two names are words and are the first of their lists, each use names a flag by
  -- a name that is the first of its kind, each matcher takes its word whatever follows, and the
  -- arguments do not begin with a dash.
  pub interpret_line-command_line :
      (name description : Bytes) (verbs : List (Verb A)) (commands : List (Command A))
      → IsWord name
      → IsWord verb.name
      → lookup_verb verb.name verbs ≡ some verb
      → lookup_command name commands ≡ some (group name description verbs)
      → interpret_line commands (name ++ (b' ' ∷ (verb.name ++ uses_text us (words_text ws []))))
        ≡ (verb.make_action (map entry_of us) (values_of verb.args ws) >>= (λ a. ok (some a)))
  interpret_line-command_line name description verbs commands named word found here =
      interpret_line-verb verb (uses_text us (words_text ws []))
        (uses_text-IsBoundary us (words_text ws []) (words_text-IsBoundary ws [] tt)) _
        match_behind_name-uses name description verbs named word found commands here
