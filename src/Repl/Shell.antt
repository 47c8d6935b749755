-- ===== src/Repl/Shell.antt =====
-- The state of `DebuggerREPL` (src/REPL/DebuggerREPL.hpp) and what its actions print and throw.
use xendbg.Prelude.{ℕ, Bool, Option, none, some, List, [], ◌∷◌, Bytes, Result, ok, err}
use xendbg.Registers.{Context}
use xendbg.Xen.Guests.{DomainAny, Answers, GuestsFault}
use xendbg.Debugger.Target.{TargetFault}
use xendbg.Expr.Parser.{ParseError}
use xendbg.Repl.Wrapper.{Wrapper, WrapperFault, Wrapped, Names, Watchpoint}
use xendbg.Repl.Actions.{Format}

-- What is printed; numbers are printed in base 16 where the source says so.
pub data Output : Type 0 where
  help already_attached interrupted hit_unknown : Output
  cpu_line : ℕ → ℕ → Output
  cpu_too_high switched_cpu attached_to detached_from : ℕ → Output
  created_breakpoint deleted_breakpoint hit_breakpoint : ℕ → Output
  created_watchpoint deleted_watchpoint : ℕ → Output
  symbol_line variable_line register_line : Bytes → ℕ → Output
  guest_line : ℕ → Bytes → Output
  value_line : Format → ℕ → Output
  memory_lines : ℕ → List Bytes → Output  -- the words, their high bytes in front
  instructions : ℕ → Bytes → ℕ → Output  -- what Capstone is given, and how many are printed
  breakpoint_line : ℕ → ℕ → List Bytes → Output
  watchpoint_line : ℕ → Watchpoint → Output
  guest_info : ℕ → ℕ → Bool → Output  -- domid, virtual CPUs, paused
  xen_info : Output

-- The members; `max_vcpu_id` is not initialised before a guest is attached.
pub record Shell (D : Type 0) : Type 0 where
  pub wrapper : Wrapper D
  pub vcpu_id : ℕ
  pub max_vcpu_id : Option ℕ
  pub running : Bool
  pub printed : List Output

pub data ShellFault : Type 0 where
  wrapper_fault : WrapperFault → ShellFault
  parse_fault : ParseError → ShellFault
  guests_fault : GuestsFault → ShellFault
  invalid_input no_such_domain not_supported file_load uninitialised out_of_range : ShellFault

-- An action that throws leaves the state that it had reached.
abbrev pub Shelled : Type 0 → Type 0
Shelled D = Result (ShellFault × Shell D) (Shell D)

-- What is not in the repository: the other guests, the construction of a debugger with its `attach`,
-- ELF files, and the event loop, which ends by a stop of the guest or by SIGINT (the flag).
pub record World (D : Type 0) : Type 0 where
  pub answers : Answers
  pub attach_to : DomainAny → Result (TargetFault × D) D
  pub domid_of : D → ℕ
  pub is_hvm : D → Bool
  pub load_file : Bytes → Option Names
  pub run_loop : D → Bool × D

module _ {D : Type 0} where
  abbrev pub print : Output → Shell D → Shell D
  print out s = record s { printed = out ∷ s.printed }

  -- A call of the wrapper: one that changes it, and one that computes a value.
  abbrev pub on_wrapper : Shell D → Wrapped D → Shelled D
  on_wrapper s (ok w) = ok (record s { wrapper = w })
  on_wrapper s (err (f, w)) = err (wrapper_fault f, record s { wrapper = w })

  abbrev pub with_wrapped :
      {V : Type 0} → Shell D → Result WrapperFault V → (V → Shelled D) → Shelled D
  with_wrapped s (ok v) next = next v
  with_wrapped s (err f) next = err (wrapper_fault f, s)

  abbrev pub with_parsed :
      {V : Type 0} → Shell D → Result ParseError V → (V → Shelled D) → Shelled D
  with_parsed s (ok v) next = next v
  with_parsed s (err e) next = err (parse_fault e, s)

  abbrev pub with_guests :
      {V : Type 0} → Shell D → Result GuestsFault V → (V → Shelled D) → Shelled D
  with_guests s (ok v) next = next v
  with_guests s (err e) next = err (guests_fault e, s)

  -- `get_debugger_or_fail`, and `get_debugger()->`.
  abbrev pub with_guest : Shell D → Option D → (D → Shelled D) → Shelled D
  with_guest s none next = err (wrapper_fault WrapperFault.no_guest_attached, s)
  with_guest s (some d) next = next d

  abbrev pub with_pointer : Shell D → Option D → (D → Shelled D) → Shelled D
  with_pointer s none next = err (wrapper_fault WrapperFault.null_debugger, s)
  with_pointer s (some d) next = next d

  -- A line for each entry.
  unfoldable pub print_symbols : Names → Shell D → Shell D
  print_symbols [] s = s
  print_symbols ((name, address) ∷ names) s =
      print_symbols names (print (symbol_line name address) s)

  unfoldable pub print_variables : Names → Shell D → Shell D
  print_variables [] s = s
  print_variables ((name, value) ∷ names) s =
      print_variables names (print (variable_line name value) s)

  unfoldable pub print_registers : Context → Shell D → Shell D
  print_registers [] s = s
  print_registers (r ∷ regs) s = print_registers regs (print (register_line r.type.name r.value) s)

  unfoldable pub print_guests : Answers → List DomainAny → Shell D → Shell D
  print_guests a [] s = s
  print_guests a (d ∷ domains) s =
      print_guests a domains (print (guest_line d.domid (a.name d.domid)) s)
