-- ===== src/Repl/Command/Verb.antt =====
-- src/REPL/Command/Verb.cpp, Command.cpp and CommandVerb.cpp. An action is what the closure that
-- `_make_action` returns stands for; its type is a parameter.
use xendbg.Prelude.{
  true, false, Option, none, some, if◌then◌else◌, List, [], ◌∷◌, ◌++◌, Bytes, Result, ok, err,
  ◌>>=◌,
}
use xendbg.Text.{skip_spaces}
use xendbg.Repl.Scan.{same_place, next_whitespace, expect}
use xendbg.Repl.Command.{
  Options, Argument, complete_argument, Flag, CommandFault, extra_argument, flag_arg_match_failed,
  is_empty, ArgsHandle, FlagsHandle, has_flag,
}
use xendbg.Repl.Command.Match.{match_args, match_flags, Flagged, get_next_arg}

pub record Verb (A : Type 0) : Type 0 where
  pub name : Bytes
  pub description : Bytes
  pub flags : List Flag
  pub args : List Argument
  pub make_action : FlagsHandle → ArgsHandle → Result CommandFault A

-- `CommandBase` with its two subclasses.
pub data Command (A : Type 0) : Type 0 where
  group : Bytes → Bytes → List (Verb A) → Command A  -- name, description, verbs
  command_verb : Verb A → Command A

-- The two names of each flag that was not given.
unfoldable pub flag_options : FlagsHandle → List Flag → List Bytes
unfolding has_flag
flag_options handle [] = []
flag_options handle (flag ∷ flags) =
    let rest = flag_options handle flags in
    if has_flag flag.short_name handle
    then rest
    else (b'-' ∷ flag.short_name ∷ []) ∷ (b'-' ∷ b'-' ∷ flag.long_name) ∷ rest

abbrev pub arg_options : Option (Bytes × Argument) → List Bytes
arg_options none = []
arg_options (some (pos, arg)) = elim (complete_argument arg pos) [
  | none ↦ []
  | some options ↦ options
]

-- The handler for an argument of a flag that is missing: its options, if it is the last word.
unfoldable pub complete_flag_arg : Argument → Bytes → Options
unfolding skip_spaces next_whitespace complete_argument
complete_flag_arg arg pos =
    if is_empty (skip_spaces (next_whitespace pos)) then complete_argument arg pos else some []

module _ {A : Type 0} where
  -- Nothing may follow the arguments.
  unfoldable pub action_behind :
      Verb A → FlagsHandle → ArgsHandle → Bytes → Result CommandFault (Option A)
  action_behind verb flags args [] = verb.make_action flags args >>= (λ action. ok (some action))
  action_behind verb flags args (c ∷ s) = err (extra_argument (c ∷ s))

  unfoldable pub match_behind_name : Verb A → Bytes → Result CommandFault (Option A)
  unfolding match_flags match_args skip_spaces action_behind
  match_behind_name verb name_end = do
    (flags_end, flags) ← match_flags verb.flags false (skip_spaces name_end)
    (args_end, args) ← match_args verb.args (skip_spaces flags_end)
    action_behind verb flags args (skip_spaces args_end)

  unfoldable pub match_verb : Verb A → Bytes → Result CommandFault (Option A)
  unfolding expect match_behind_name
  match_verb verb begin =
      if same_place (expect verb.name begin) begin
      then ok none
      else match_behind_name verb (expect verb.name begin)

  abbrev complete_args : Verb A → Flagged → Result CommandFault Options
  complete_args verb (ok (flags_end, flags)) =
      get_next_arg verb.args (skip_spaces flags_end)
      >>= (λ next. ok (some (arg_options next ++ flag_options flags verb.flags)))
  complete_args verb (err (flag_arg_match_failed pos flag arg)) = ok (complete_flag_arg arg pos)
  complete_args verb (err e) = err e

  unfoldable pub complete_verb : Verb A → Bytes → Result CommandFault Options
  unfolding expect match_flags get_next_arg flag_options complete_flag_arg skip_spaces
  complete_verb verb begin =
      if same_place (expect verb.name begin) begin
      then ok none
      else complete_args verb (match_flags verb.flags true (skip_spaces (expect verb.name begin)))

  -- The action of the first verb that has one.
  unfoldable pub match_verbs : List (Verb A) → Bytes → Result CommandFault (Option A)
  unfolding match_verb
  match_verbs [] begin = ok none
  match_verbs (verb ∷ verbs) begin = do
    action ← match_verb verb begin
    let rest = match_verbs verbs begin
    elim action [ none ↦ rest | some a ↦ ok (some a) ]

  unfoldable pub complete_verbs : List (Verb A) → Bytes → Result CommandFault Options
  unfolding complete_verb
  complete_verbs [] begin = ok none
  complete_verbs (verb ∷ verbs) begin = do
    options ← complete_verb verb begin
    let rest = complete_verbs verbs begin
    elim options [ none ↦ rest | some o ↦ ok (some o) ]

  abbrev pub name_of : Command A → Bytes
  name_of (group name description verbs) = name
  name_of (command_verb verb) = verb.name

  unfoldable pub match_command : Command A → Bytes → Result CommandFault (Option A)
  unfolding expect match_verb match_verbs
  match_command (command_verb verb) begin = match_verb verb begin
  match_command (group name description verbs) begin =
      if same_place (expect name begin) begin
      then ok none
      else match_verbs verbs (expect name begin)

  abbrev verb_names : List (Verb A) → List Bytes
  verb_names [] = []
  verb_names (verb ∷ verbs) = verb.name ∷ verb_names verbs

  -- The names of the verbs, where no verb has options of its own.
  unfoldable pub complete_command : Command A → Bytes → Result CommandFault Options
  unfolding expect complete_verb complete_verbs
  complete_command (command_verb verb) begin = complete_verb verb begin
  complete_command (group name description verbs) begin =
      if same_place (expect name begin) begin
      then ok none
      else (complete_verbs verbs (expect name begin)
          >>= (λ options. ok (elim options [ none ↦ some (verb_names verbs) | some o ↦ some o ])))
