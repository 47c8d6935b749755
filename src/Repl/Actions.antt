-- ===== src/Repl/Actions.antt =====
-- The commands that `DebuggerREPL::setup_repl` adds (src/REPL/DebuggerREPL.cpp), up to the actions
-- that their verbs make. An action is a constructor that holds what the closure holds; Repl/Perform
-- has what it does. Descriptions are left out: they are only printed.
mod Base
unfoldable pub use Base.{format_of, word_size_of, make_print, make_set, make_examine, stoul_of}
pub use Base.{
  Format, decimal, hexadecimal, binary, Action, cpu_get, print_help, quit, symbol_list,
  symbol_clear, guest_list, guest_detach, guest_pause, guest_unpause, info_guest, info_registers,
  info_variables, info_xen, breakpoint_list, continue_, step, watchpoint_list, cpu_set,
  breakpoint_delete, watchpoint_delete, symbol_load, guest_attach, unset, breakpoint_create,
  print_value, set_value, disassemble_at, examine_at, watchpoint_create, argument, one_of, verb,
  simple, commands_of, with_number, with_text, flag, letters, word_size_flag,
}
use xendbg.Prelude.{
  ℕ, Option, none, some, ◌==◌, if◌then◌else◌, List, [], ◌∷◌, Bytes, Result, ok, err, ◌>>=◌,
}
use xendbg.Text.{codes, stoul, StoulError, invalid_argument, out_of_range}
use xendbg.Repl.Scan.{
  Matcher, match_everything, match_quoted, match_number_unsigned, make_match_one_of,
}
use xendbg.Repl.Command.{
  Options, Argument, make_argument, Flag, CommandFault, number_out_of_range, not_a_number,
  ArgsHandle, get_at, get_named, FlagsHandle, get_flag,
}
use xendbg.Repl.Command.Verb.{Verb, Command, group, command_verb}
use xendbg.Repl.Lines.{add_command}
use Prim.Native.String.{String}

abbrev pub cpu_command : Command Action
cpu_command = commands_of "cpu" (
    simple "get" cpu_get
    ∷ verb "set" (argument "id" match_number_unsigned ∷ []) (with_number cpu_set)
    ∷ [])

abbrev pub help_command : Command Action
help_command = command_verb (simple "help" print_help)

abbrev pub quit_command : Command Action
quit_command = command_verb (simple "quit" quit)

-- The paths in a directory, and the names of the guests, are parameters.
abbrev pub symbol_command : (Bytes → Options) → Command Action
symbol_command paths = commands_of "symbol" (
    simple "list" symbol_list
    ∷ verb "load" (make_argument (codes "file") [] match_everything (some paths) ∷ [])
        (with_text symbol_load)
    ∷ simple "clear" symbol_clear
    ∷ [])

abbrev pub attach_verb : List Bytes → Verb Action
attach_verb names =
    verb "attach"
      (make_argument (codes "domid/name") [] match_quoted (some (λ begin. some names)) ∷ [])
      (λ handle. do text ← get_named (codes "domid/name") handle; ok (guest_attach text))

abbrev pub guest_verbs : List Bytes → List (Verb Action)
guest_verbs names =
    simple "list" guest_list
    ∷ attach_verb names
    ∷ simple "detach" guest_detach
    ∷ simple "pause" guest_pause
    ∷ simple "unpause" guest_unpause
    ∷ []

abbrev pub guest_command : List Bytes → Command Action
guest_command names = commands_of "guest" (guest_verbs names)

abbrev pub info_command : Command Action
info_command = commands_of "info" (
    simple "guest" info_guest
    ∷ simple "registers" info_registers
    ∷ simple "variables" info_variables
    ∷ simple "xen" info_xen
    ∷ [])

abbrev pub print_command : Command Action
print_command = command_verb (record {
  name = codes "print";
  description = [];
  flags = flag b'f' "format" (one_of "fmt" (letters "bxd")) ∷ [];
  args = argument "expr" match_everything ∷ [];
  make_action = make_print;
})

abbrev pub set_command : Command Action
set_command = command_verb (record {
  name = codes "set";
  description = [];
  flags = word_size_flag ∷ [];
  args = argument "{$var, *expr} = expr" match_everything ∷ [];
  make_action = make_set;
})

abbrev pub unset_command : Command Action
unset_command = command_verb (
    verb "unset" (argument "$var" match_everything ∷ [])
      (λ handle. do text ← get_named (codes "$var") handle; ok (unset text)))

abbrev pub disassemble_command : Command Action
disassemble_command = command_verb (
    verb "disassemble" (argument "addr" match_quoted ∷ argument "len" match_quoted ∷ []) (λ handle.
      do address ← get_at 0 handle; len ← get_at 1 handle; ok (disassemble_at address len)))

abbrev pub examine_command : Command Action
examine_command = command_verb (record {
  name = codes "examine";
  description = [];
  flags = word_size_flag ∷ flag b'n' "num-words" (argument "num" match_quoted) ∷ [];
  args = argument "expr" match_everything ∷ [];
  make_action = make_examine;
})

abbrev pub breakpoint_command : Command Action
breakpoint_command = commands_of "breakpoint" (
    verb "create" (argument "addr" match_everything ∷ []) (with_text breakpoint_create)
    ∷ verb "delete" (argument "id" match_number_unsigned ∷ []) (with_number breakpoint_delete)
    ∷ simple "list" breakpoint_list
    ∷ [])

abbrev pub continue_command : Command Action
continue_command = command_verb (simple "continue" continue_)

abbrev pub step_command : Command Action
step_command = command_verb (simple "step" step)

abbrev pub watchpoint_command : Command Action
watchpoint_command = commands_of "watchpoint" (
    verb "create"
      (argument "addr" match_number_unsigned
        ∷ argument "len" match_number_unsigned
        ∷ make_argument (codes "type") [] (make_match_one_of (letters "rwa")) none
        ∷ [])
      (λ handle. do
        address ← get_at 0 handle
        len ← get_at 1 handle
        type ← get_at 2 handle
        ok (watchpoint_create address len type))
    ∷ verb "delete" (argument "id" match_number_unsigned ∷ []) (with_number watchpoint_delete)
    ∷ simple "list" watchpoint_list
    ∷ [])

-- The commands, in the order in which `setup_repl` adds them.
abbrev pub added : (Bytes → Options) → List Bytes → List (Command Action)
added paths names =
    cpu_command
    ∷ help_command
    ∷ quit_command
    ∷ symbol_command paths
    ∷ guest_command names
    ∷ info_command
    ∷ print_command
    ∷ set_command
    ∷ unset_command
    ∷ disassemble_command
    ∷ examine_command
    ∷ breakpoint_command
    ∷ continue_command
    ∷ step_command
    ∷ watchpoint_command
    ∷ []

unfoldable pub add_all : List (Command Action) → List (Command Action) → List (Command Action)
unfolding add_command
add_all [] commands = commands
add_all (cmd ∷ more) commands = add_all more (add_command cmd commands)

unfoldable pub setup_repl : (Bytes → Options) → List Bytes → List (Command Action)
unfolding add_all
setup_repl paths names = add_all (added paths names) []
