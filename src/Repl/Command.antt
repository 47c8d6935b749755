-- ===== src/Repl/Command.antt =====
-- The commands of the REPL (src/REPL/Command): arguments, flags, verbs and commands, what they match
-- and what they offer as completions.
pub mod Match
pub mod Verb
pub mod Words
pub mod Flags
pub mod CommandLine
pub mod Total
use xendbg.Prelude.{
  ℕ, zero, suc, ◌+◌, Bool, true, false, not, ◌&&◌, ◌||◌, Option, none, some, ltb, ◌==◌,
  if◌then◌else◌, List, [], ◌∷◌, ◌++◌, map, Bytes, length, get_elem?, drop, Result, ok, err, ◌>>=◌,
}
use xendbg.Text.{is_space, skip_spaces, StoulError}
use xendbg.Registers.{same_text}
use xendbg.Repl.Scan.{
  same_place, text_between, next_char, next_not_char, next_whitespace, is_prefix, expect, Matcher,
}

-- Options for the completion, where there are any.
abbrev pub Options : Type 0
Options = Option (List Bytes)

pub record Argument : Type 0 where
  pub name : Bytes
  pub description : Bytes
  pub matcher : Matcher
  pub completer : Option (Bytes → Options)
  pub default_value : Bytes
  pub is_optional : Bool

-- The two constructors.
abbrev pub make_argument : Bytes → Bytes → Matcher → Option (Bytes → Options) → Argument
make_argument name description matcher completer = record {
  name = name;
  description = description;
  matcher = matcher;
  completer = completer;
  default_value = [];
  is_optional = false;
}

abbrev pub make_optional_argument :
    Bytes → Bytes → Matcher → Bytes → Option (Bytes → Options) → Argument
make_optional_argument name description matcher default_value completer = record {
  name = name;
  description = description;
  matcher = matcher;
  completer = completer;
  default_value = default_value;
  is_optional = true;
}

abbrev pub completed : Bytes → Option (Bytes → Options) → Options
completed begin none = none
completed begin (some completer) = completer begin

unfoldable pub complete_argument : Argument → Bytes → Options
complete_argument arg begin = completed begin arg.completer

pub record Flag : Type 0 where
  pub short_name : ℕ
  pub long_name : Bytes
  pub description : Bytes
  pub args : List Argument

-- The exceptions, with the iterators that they carry. `number_out_of_range` and
-- `not_a_number` are what std::stoul throws.
pub data CommandFault : Type 0 where
  default_arg_position flag_name_fault no_such_argument number_out_of_range : CommandFault
  not_a_number out_of_fuel : CommandFault
  unknown_flag : Bytes → CommandFault
  arg_match_failed : Bytes → Argument → CommandFault
  flag_arg_match_failed : Bytes → Flag → Argument → CommandFault
  extra_argument : Bytes → CommandFault

abbrev pub is_empty : Bytes → Bool
is_empty [] = true
is_empty (c ∷ s) = false

-- `validate_args`: the flag is `prev_arg_has_default`.
unfoldable pub validate_args : Bool → List Argument → Result CommandFault (Unit {0})
validate_args prev [] = ok tt
validate_args prev (arg ∷ args) =
    if is_empty arg.default_value && prev
    then err default_arg_position
    else validate_args (not (is_empty arg.default_value)) args

-- The last argument so far has a default, and the new one has none.
unfoldable pub validate_new_arg : List Argument → Argument → Result CommandFault (Unit {0})
validate_new_arg [] new_arg = ok tt
validate_new_arg (arg ∷ []) new_arg =
    if not (is_empty arg.default_value) && is_empty new_arg.default_value
    then err default_arg_position
    else ok tt
validate_new_arg (_ ∷ arg ∷ args) new_arg = validate_new_arg (arg ∷ args) new_arg

-- `ArgsHandle`: names and values, in the order of the arguments.
abbrev pub ArgsHandle : Type 0
ArgsHandle = List (Bytes × Bytes)

abbrev pub put : Argument → Bytes → ArgsHandle → ArgsHandle
put arg value handle = handle ++ ((arg.name, value) ∷ [])

abbrev pub value_or_fault : Option Bytes → Result CommandFault Bytes
value_or_fault none = err no_such_argument
value_or_fault (some value) = ok value

abbrev value_of : Option (Bytes × Bytes) → Option Bytes
value_of none = none
value_of (some (name, value)) = some value

-- `get` by index and by name.
unfoldable pub get_at : ℕ → ArgsHandle → Result CommandFault Bytes
get_at index handle = value_or_fault (value_of (get_elem? handle index))

unfoldable pub get_opt : Bytes → ArgsHandle → Option Bytes
unfolding same_text
get_opt name [] = none
get_opt name ((n, value) ∷ handle) =
    let rest = get_opt name handle in if same_text n name then some value else rest

unfoldable pub get_named : Bytes → ArgsHandle → Result CommandFault Bytes
unfolding get_opt
get_named name handle = value_or_fault (get_opt name handle)

-- `FlagsHandle`.
pub record FlagEntry : Type 0 where
  pub short_name : ℕ
  pub long_name : Bytes
  pub args : ArgsHandle

abbrev pub FlagsHandle : Type 0
FlagsHandle = List FlagEntry

abbrev pub put_flag : Flag → ArgsHandle → FlagsHandle → FlagsHandle
put_flag flag args handle =
    handle
    ++ (record { short_name = flag.short_name; long_name = flag.long_name; args = args } ∷ [])

unfoldable pub get_flag : ℕ → FlagsHandle → Option ArgsHandle
get_flag short_name [] = none
get_flag short_name (entry ∷ handle) =
    let rest = get_flag short_name handle in
    if entry.short_name == short_name then some entry.args else rest

unfoldable pub has_flag : ℕ → FlagsHandle → Bool
unfolding get_flag
has_flag short_name handle = elim (get_flag short_name handle) [ none ↦ false | some _ ↦ true ]
