-- ===== src/Repl/Numbering.antt =====
-- The numbers of breakpoints and watchpoints over a whole session of the REPL.
pub mod Tables
mod Steps
mod Parts
use xendbg.Prelude.{
  ◌^◌, arith, ℕ, ℕ, zero, suc, ◌≡◌, refl, ◌==◌, ltb, Option-cases, Result, ◌>>=◌, ◌^◌, ◌%◌, ◌-◌,
  arith,
}
use xendbg.Text.{StoulError, stoul, invalid_argument, out_of_range}
use xendbg.Registers.{Context}
use xendbg.Xen.Hypervisor.{Hypervisor}
use xendbg.Xen.Guests.{DomainAny, Answers, GuestsFault, get_domain_from_domid, get_domain_from_name}
use xendbg.Debugger.Target.{Target, TargetFault, TargetResult, WatchpointType}
use xendbg.Expr.Syntax
use xendbg.Expr.Syntax.{Expression, variable, unex, binex}
use xendbg.Expr.Parser.{ParseError}
use xendbg.Server.Handler
use xendbg.Repl.Wrapper.{
  examine, Wrapper, WrapperFault, Wrapped, Names, Table, Watchpoint, evaluate_expression,
  evaluate_set_expression, watch_numbered, delete_var, detach,
}
use xendbg.Repl.Shell
use xendbg.Repl.Shell.{
  Shell, ShellFault, Output, print, on_wrapper, with_wrapped, with_parsed, with_guests, with_guest,
  with_pointer, print_guests, print_symbols, print_variables, print_registers, created_breakpoint,
  deleted_breakpoint, created_watchpoint, deleted_watchpoint,
}
use xendbg.Repl.Perform.{
  disassemble, examine_words, set_cpu, on_guest, attach_guest, attach_named, detach_guest,
  unset_parsed, attached_wrapper, after_attach, attach_found, guest_by, is_current, with_word_size,
  print_breakpoints, found_context, switched, cpu_printed, loaded, watched, on_hvm, no_domid,
}
use xendbg.Repl.Numbering.Tables.{
  LeavesNumbered, watch_numbered-IsNumbered, delete_var-IsNumbered, detach-IsNumbered,
}
use xendbg.Repl.Numbering.Steps.{with_wrapped-KeepsNumbers}
use xendbg.Repl.Numbering.Parts.{
  switched-KeepsNumbers, attach_found-KeepsNumbers, guest_by-KeepsNumbers,
}
use xendbg.Repl.Command.Verb.{Command}
