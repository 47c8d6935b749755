-- ===== src/Repl/Lines.antt =====
-- `REPL` (src/REPL/REPL.hpp, src/REPL/REPL.cpp): the commands in their order, what a line is
-- interpreted as, and the completion of a line. Reading and printing of lines is left to readline.
use xendbg.Prelude.{
  Bool, true, false, ◌&&◌, Option, none, some, ltb, ◌==◌, if◌then◌else◌, List, [], ◌∷◌, ◌++◌, Bytes,
  Result, ok, err, ◌>>=◌,
}
use xendbg.Text.{is_alpha, skip_spaces}
use xendbg.Repl.Scan.{text_between, next_whitespace, is_prefix}
use xendbg.Repl.Command.{
  Options, CommandFault, unknown_flag, arg_match_failed, flag_arg_match_failed, extra_argument,
  is_empty,
}
use xendbg.Repl.Command.Verb.{Command, name_of, match_command, complete_command}

-- `operator<` of std::string.
unfoldable pub text_lt : Bytes → Bytes → Bool
text_lt s [] = false
text_lt [] (d ∷ t) = true
text_lt (c ∷ s) (d ∷ t) =
    let rest = text_lt s t in if ltb c d then true else if c == d then rest else false

-- What is printed for a line: the exceptions that the loop catches, with the text that they name.
pub data Notice : Type 0 where
  blank invalid_input : Notice
  too_many_arguments : Bytes → Notice
  invalid_value : Bytes → Bytes → Notice  -- value, argument
  invalid_flag_value : Bytes → Bytes → Bytes → Notice  -- and flag
  no_such_flag : Bytes → Notice

-- What a line comes to: an action for the handler, a notice, or an exception that ends the loop.
pub data Interpreted (A : Type 0) : Type 0 where
  acted : A → Interpreted A
  noticed : Notice → Interpreted A
  uncaught : CommandFault → Interpreted A

abbrev word_at : Bytes → Bytes
word_at pos = text_between pos (next_whitespace pos)

module _ {A : Type 0} where
  -- The commands are sorted after each one that is added; the names differ.
  unfoldable pub insert_command : Command A → List (Command A) → List (Command A)
  unfolding text_lt
  insert_command cmd [] = cmd ∷ []
  insert_command cmd (c ∷ commands) =
      let rest = insert_command cmd commands in
      if text_lt (name_of cmd) (name_of c) then cmd ∷ c ∷ commands else c ∷ rest

  unfoldable pub sort_commands : List (Command A) → List (Command A)
  unfolding insert_command
  sort_commands [] = []
  sort_commands (c ∷ commands) = insert_command c (sort_commands commands)

  unfoldable pub add_command : Command A → List (Command A) → List (Command A)
  unfolding sort_commands
  add_command cmd commands = sort_commands (commands ++ (cmd ∷ []))

  -- The action of the first command that has one.
  unfoldable pub interpret_line : List (Command A) → Bytes → Result CommandFault (Option A)
  unfolding match_command
  interpret_line [] line = ok none
  interpret_line (cmd ∷ commands) line = do
    action ← match_command cmd line
    let rest = interpret_line commands line
    elim action [ none ↦ rest | some a ↦ ok (some a) ]

  unfoldable pub command_options : List (Command A) → Bytes → Result CommandFault Options
  unfolding complete_command
  command_options [] line = ok none
  command_options (cmd ∷ commands) line = do
    options ← complete_command cmd line
    let rest = command_options commands line
    elim options [ none ↦ rest | some o ↦ ok (some o) ]

  abbrev pub command_names : List (Command A) → List Bytes
  command_names [] = []
  command_names (cmd ∷ commands) = name_of cmd ∷ command_names commands

  abbrev chosen : List (Command A) → Options → List Bytes
  chosen commands none = command_names commands
  chosen commands (some options) = options

  -- The options of the custom completer, of a command, or all names.
  unfoldable pub complete_line :
      (Bytes → Options) → List (Command A) → Bytes → Result CommandFault (List Bytes)
  unfolding command_options
  complete_line custom commands line = elim (custom line) [
    | some options ↦ ok options
    | none ↦ (command_options commands line >>= (λ options. ok (chosen commands options)))
  ]

  -- The handlers of the loop.
  unfoldable pub notice_of : CommandFault → Interpreted A
  unfolding next_whitespace
  notice_of (extra_argument rest) = noticed (too_many_arguments rest)
  notice_of (arg_match_failed pos arg) = noticed (invalid_value (word_at pos) arg.name)
  notice_of (flag_arg_match_failed pos flag arg) =
      noticed (invalid_flag_value (word_at pos) arg.name flag.long_name)
  notice_of (unknown_flag pos) = noticed (no_such_flag (word_at pos))
  notice_of e = uncaught e

  -- No handler for lines that match nothing is set.
  unfoldable pub outcome_of : Result CommandFault (Option A) → Interpreted A
  unfolding notice_of
  outcome_of (ok (some action)) = acted action
  outcome_of (ok none) = noticed invalid_input
  outcome_of (err e) = notice_of e

  -- One round of `run`. The last line of the history takes the place of an empty one.
  unfoldable pub run_line : List (Command A) → Bytes → Bytes → Interpreted A
  unfolding outcome_of interpret_line skip_spaces
  run_line commands last line =
      if is_empty line
      then outcome_of (interpret_line commands last)
      else if is_empty (skip_spaces line)
      then noticed blank
      else outcome_of (interpret_line commands line)

-- `command_generator`: the next option that goes on from the text, and the options behind it. A flag
-- of one letter is put before each option.
abbrev pub is_short_flag : Bytes → Bool
is_short_flag (c ∷ d ∷ []) = c == b'-' && is_alpha d
is_short_flag _ = false

unfoldable pub command_generator : Bytes → List Bytes → Option (Bytes × List Bytes)
unfolding is_prefix is_alpha
command_generator text [] = none
command_generator text (s ∷ options) =
    let rest = command_generator text options in
    let option = if is_short_flag text then text ++ s else s in
    if is_prefix text option then some (option, options) else rest
