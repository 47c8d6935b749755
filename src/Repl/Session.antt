-- ===== src/Repl/Session.antt =====
-- A session of the REPL (src/REPL/REPL.cpp `REPL::run`, src/REPL/DebuggerREPL.cpp
-- `DebuggerREPL::run`): lines are interpreted and performed until `quit`, or until an exception that
-- no handler names ends the process.
use xendbg.Prelude.{Bool, true, false, if◌then◌else◌, List, [], ◌∷◌, Bytes, ok, err}
use xendbg.Xen.Hypervisor.{Hypervisor}
use xendbg.Xen.Domain.{call_failed}
use xendbg.Debugger.Base
use xendbg.Debugger.Target.{TargetFault, memory_fault, domain_fault, no_context}
use xendbg.Expr.Tokenizer.{TokenizeError}
use xendbg.Expr.Parser.{
  ParseError, tokenize_error, missing_expression, missing_operand, extra_token,
  expect_missing_token, expect_wrong_token,
}
use xendbg.Server.Handler.{Backend}
use xendbg.Repl.Command.Verb.{Command}
use xendbg.Repl.Wrapper.{
  WrapperFault, no_such_breakpoint, no_such_watchpoint, no_such_symbol, no_such_variable,
  no_guest_attached, debugger_fault,
}
use xendbg.Repl.Lines.{Interpreted, acted, noticed, uncaught, invalid_input, run_line}
use xendbg.Repl.Actions.{Action}
use xendbg.Repl.Shell
use xendbg.Repl.Shell.{
  Shell, ShellFault, wrapper_fault, parse_fault, no_such_domain, not_supported, file_load, Shelled,
  World,
}
use xendbg.Repl.Perform.{perform}

-- The faults whose exceptions `DebuggerREPL::run` has a handler for. The others end the process:
-- exceptions that it does not name, and null pointers.
abbrev is_caught_target : TargetFault → Bool
is_caught_target (memory_fault Base.xen_exception) = true
is_caught_target (domain_fault call_failed) = true
is_caught_target no_context = true
is_caught_target _ = false

abbrev is_caught_wrapper : WrapperFault → Bool
is_caught_wrapper no_such_breakpoint = true
is_caught_wrapper no_such_watchpoint = true
is_caught_wrapper no_such_symbol = true
is_caught_wrapper no_such_variable = true
is_caught_wrapper no_guest_attached = true
is_caught_wrapper (debugger_fault f) = is_caught_target f
is_caught_wrapper _ = false

abbrev is_caught_parse : ParseError → Bool
is_caught_parse (tokenize_error (TokenizeError.invalid_input pos)) = true
is_caught_parse (missing_expression pos) = true
is_caught_parse (missing_operand pos) = true
is_caught_parse (extra_token pos) = true
is_caught_parse expect_missing_token = true
is_caught_parse (expect_wrong_token pos) = true
is_caught_parse _ = false

unfoldable pub is_caught : ShellFault → Bool
is_caught (wrapper_fault f) = is_caught_wrapper f
is_caught (parse_fault e) = is_caught_parse e
is_caught Shell.invalid_input = true
is_caught no_such_domain = true
is_caught not_supported = true
is_caught file_load = true
is_caught _ = false

pub data Round (D : Type 0) : Type 0 where
  goes_on terminates : Shell D → Round D

unfoldable pub handle_action : {D : Type 0} → Shelled D → Round D
unfolding is_caught
handle_action (ok s) = goes_on s
handle_action (err (f, s)) = if is_caught f then goes_on s else terminates s

abbrev pub shell_of : {D : Type 0} → Round D → Shell D
shell_of (goes_on s) = s
shell_of (terminates s) = s

abbrev pub continue_round : {D : Type 0} → (Shell D → Round D) → Round D → Round D
continue_round next (goes_on s) = next s
continue_round next (terminates s) = terminates s

-- The line that was meant: the last one, where the line is empty.
abbrev if_empty : Bytes → Bytes → Bytes
if_empty last [] = last
if_empty last (c ∷ line) = c ∷ line

module _ {D : Type 0} (x : Hypervisor) (b : Backend D) (world : World D)
    (commands : List (Command Action)) where
  abbrev pub after_line : Shell D → Interpreted Action → Round D
  after_line s (acted action) = handle_action (perform x b world action s)
  after_line s (noticed notice) = goes_on s
  after_line s (uncaught e) = terminates s

  -- The last line of the history: a line is added where no exception was thrown for it.
  abbrev pub history_after : Bytes → Bytes → Interpreted Action → Bytes
  history_after last line (acted action) = if_empty last line
  history_after last line (noticed invalid_input) = if_empty last line
  history_after last line _ = last

  unfoldable pub run_lines : Bytes → List Bytes → Shell D → Round D
  unfolding run_line perform handle_action
  run_lines last [] s = goes_on s
  run_lines last (line ∷ lines) s =
      let next = run_lines (history_after last line (run_line commands last line)) lines in
      if s.running
      then continue_round next (after_line s (run_line commands last line))
      else goes_on s
