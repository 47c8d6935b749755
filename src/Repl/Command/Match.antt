-- ===== src/Repl/Command/Match.antt =====
-- src/REPL/Command/Match.cpp and Flag.cpp: what arguments and flags take of a line. The results hold
-- the iterator behind what was matched.
use xendbg.Prelude.{
  ℕ, zero, suc, ◌+◌, Bool, true, false, not, ◌&&◌, ◌||◌, Option, none, some, ltb, ◌==◌,
  if◌then◌else◌, List, [], ◌∷◌, Bytes, length, drop, Result, ok, err, ◌>>=◌,
}
use xendbg.Text.{skip_spaces, StoulError}
use xendbg.Registers.{same_text}
use xendbg.Repl.Scan.{
  same_place, text_between, next_char, next_not_char, next_whitespace, is_prefix,
}
use xendbg.Repl.Command.{
  Argument, complete_argument, Flag, CommandFault, flag_name_fault, number_out_of_range,
  out_of_fuel, unknown_flag, arg_match_failed, flag_arg_match_failed, is_empty, ArgsHandle, put,
  FlagsHandle, put_flag, validate_args,
}

abbrev pub from_stoul : Result StoulError Bytes → Result CommandFault Bytes
from_stoul (ok it) = ok it
from_stoul (err e) = err number_out_of_range

-- The value of an argument that is matched from `it` to `arg_end`.
unfoldable pub value_taken : Argument → Bytes → Bytes → Result CommandFault Bytes
value_taken arg it arg_end =
    if same_place arg_end it
    then if arg.is_optional then ok arg.default_value else err (arg_match_failed it arg)
    else ok (text_between it arg_end)

unfoldable pub match_args_from :
    List Argument → ArgsHandle → Bytes → Result CommandFault (Bytes × ArgsHandle)
unfolding skip_spaces value_taken
match_args_from [] handle it = ok (it, handle)
match_args_from (arg ∷ args) handle it = do
  arg_end ← from_stoul (arg.matcher (skip_spaces it))
  value ← value_taken arg (skip_spaces it) arg_end
  match_args_from args (put arg value handle) arg_end

unfoldable pub match_args : List Argument → Bytes → Result CommandFault (Bytes × ArgsHandle)
unfolding match_args_from
match_args args begin = match_args_from args [] begin

-- The constructor of `Flag`, which checks the name and the arguments.
unfoldable pub make_flag : ℕ → Bytes → Bytes → List Argument → Result CommandFault Flag
unfolding next_whitespace next_char validate_args
make_flag short_name long_name description args =
    if not (is_empty (next_whitespace long_name))
    then err flag_name_fault
    else if same_place (next_char b'-' long_name) long_name
    then err flag_name_fault
    else (validate_args false args >>= (λ _. ok (record {
      short_name = short_name;
      long_name = long_name;
      description = description;
      args = args;
    })))

-- The character at an iterator. (At the end of the line, the 0 behind the string.)
abbrev pub char_at : Bytes → ℕ
char_at [] = 0
char_at (c ∷ s) = c

-- `begin`, with the dashes that end at `flag_start`.
unfoldable pub match_dashes : Flag → Bytes → Bytes → Bytes → Bytes
unfolding same_text
match_dashes flag begin flag_start next_ws =
    if same_place flag_start begin
    then begin
    else if length begin == length flag_start + 1
    then if same_place flag_start next_ws && flag.short_name == 0
      then next_ws
      else if char_at flag_start == flag.short_name
      then drop 1 flag_start
      else begin
    else if length begin == length flag_start + 2
    then if same_place flag_start next_ws && is_empty flag.long_name
      then next_ws
      else if same_text flag.long_name (text_between flag_start next_ws)
      then next_ws
      else begin
    else begin

unfoldable pub match_flag_name : Flag → Bytes → Bytes
unfolding skip_spaces next_not_char next_whitespace match_dashes
match_flag_name flag begin =
    let it = skip_spaces begin in
    match_dashes flag it (next_not_char b'-' it) (next_whitespace (next_not_char b'-' it))

-- The handler of `Flag::match`.
abbrev pub of_flag : {A : Type 0} → Flag → Result CommandFault A → Result CommandFault A
of_flag flag (err (arg_match_failed pos arg)) = err (flag_arg_match_failed pos flag arg)
of_flag flag r = r

unfoldable pub match_flag : Flag → Bytes → Result CommandFault (Bytes × ArgsHandle)
unfolding match_flag_name match_args
match_flag flag begin =
    if same_place (match_flag_name flag begin) begin
    then ok (begin, [])
    else of_flag flag (match_args flag.args (match_flag_name flag begin))

-- The first flag whose name is matched.
unfoldable pub find_flag : Bytes → List Flag → Option Flag
unfolding match_flag_name
find_flag it [] = none
find_flag it (flag ∷ flags) =
    let rest = find_flag it flags in
    if same_place (match_flag_name flag it) it then rest else some flag

abbrev pub Flagged : Type 0
Flagged = Result CommandFault (Bytes × FlagsHandle)

-- An unknown flag that is ignored; `again` is the next round of the loop.
unfoldable pub skip_unknown : FlagsHandle → Bytes → Bytes → (Bytes → Flagged) → Flagged
unfolding next_char next_whitespace
skip_unknown handle prev_it it again =
    if same_place it prev_it
    then ok (next_whitespace (drop 1 it), handle)
    else if length prev_it == length it + 1 && same_place it (next_char b'-' it)
    then ok (next_whitespace (drop 2 it), handle)
    else again it

-- One round of the loop at a dash.
unfoldable pub match_flag_or_skip :
    Bool → FlagsHandle → Bytes → Option Flag → (FlagsHandle → Bytes → Flagged) → Flagged
unfolding match_flag skip_spaces skip_unknown next_char
match_flag_or_skip ignore handle it (some flag) again = do
  (args_end, args) ← match_flag flag it
  again (put_flag flag args handle) (skip_spaces args_end)
match_flag_or_skip true handle it none again =
    skip_unknown handle it (next_char b'-' it) (again handle)
match_flag_or_skip false handle it none again = err (unknown_flag it)

unfoldable pub match_flags_from : ℕ → Bool → List Flag → FlagsHandle → Bytes → Flagged
unfolding match_flag_or_skip find_flag
match_flags_from zero ignore flags handle it = err out_of_fuel
match_flags_from (suc fuel) ignore flags handle [] = ok ([], handle)
match_flags_from (suc fuel) ignore flags handle (c ∷ s) =
    let round =
      match_flag_or_skip ignore handle (c ∷ s) (find_flag (c ∷ s) flags)
        (match_flags_from fuel ignore flags) in
    if c == b'-' then round else ok (c ∷ s, handle)

unfoldable pub match_flags : List Flag → Bool → Bytes → Flagged
unfolding match_flags_from
match_flags flags ignore begin = match_flags_from (length begin + 1) ignore flags [] begin

-- Where one of the options goes on behind what was matched.
unfoldable pub has_partial_match : Bytes → List Bytes → Bool
unfolding is_prefix
has_partial_match text [] = false
has_partial_match text (opt ∷ options) =
    let rest = has_partial_match text options in
    if ltb (length text) (length opt) && is_prefix text opt then true else rest

abbrev pub is_partial : Bytes → Option (List Bytes) → Bool
is_partial text none = false
is_partial text (some options) = has_partial_match text options

unfoldable pub get_next_arg :
    List Argument → Bytes → Result CommandFault (Option (Bytes × Argument))
unfolding skip_spaces has_partial_match complete_argument
get_next_arg [] it = ok none
get_next_arg (arg ∷ args) it = do
  arg_end ← from_stoul (arg.matcher it)
  let rest = get_next_arg args (skip_spaces arg_end)
  let found =
      same_place arg_end it || is_partial (text_between it arg_end) (complete_argument arg it)
  if found then ok (some (it, arg)) else rest
