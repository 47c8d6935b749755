-- ===== src/Repl/Perform.antt =====
-- What the actions of the commands do (src/REPL/DebuggerREPL.cpp), and the operations of
-- `DebuggerWrapper` that they add (src/REPL/DebuggerWrapper.hpp).
mod Base
unfoldable pub use Base.{words_from, names_at, number_at, type_of, without_trailing}
pub use Base.{no_domid}
use xendbg.Prelude.{
  ℕ, ◌-◌, ◌+◌, ◌%◌, ◌^◌, zero, suc, Bool, true, false, ltb, ◌==◌, if◌then◌else◌, Option, none, some,
  List, [], ◌∷◌, Bytes, take, drop, Result, ok, err, ◌>>=◌,
}
use xendbg.Text.{codes, stoul, StoulError, invalid_argument, out_of_range}
use xendbg.Registers.{RegistersAny, context_of, read_register}
use xendbg.Xen.Hypervisor.{cpu_context, Hypervisor}
use xendbg.Xen.Domain.{call_failed, pause, unpause}
use xendbg.Xen.Guests.{DomainAny, get_domains, get_domain_from_domid, get_domain_from_name}
use xendbg.Debugger.Target.{
  Target, TargetFault, domain_fault, no_context, TargetResult, on_domain, WatchpointType,
  read_watchpoint, write_watchpoint, access_watchpoint,
}
use xendbg.Expr.Syntax.{Expression, variable}
use xendbg.Expr.Parser.{parse}
use xendbg.Server.Handler
use xendbg.Server.Handler.{Backend}
use xendbg.Repl.Wrapper.{
  Wrapper, Wrapped, debugger_fault, kept, Table, Names, Watchpoint, delete_var, evaluate_expression,
  evaluate_set_expression, examine, insert_numbered, remove_numbered, watch_numbered,
  unwatch_numbered, detach,
}
use xendbg.Repl.Actions.{
  Action, cpu_get, print_help, quit, symbol_list, symbol_clear, guest_list, guest_detach,
  guest_pause, guest_unpause, info_guest, info_registers, info_variables, info_xen, breakpoint_list,
  continue_, step, watchpoint_list, cpu_set, breakpoint_delete, watchpoint_delete, symbol_load,
  guest_attach, unset, breakpoint_create, print_value, set_value, disassemble_at, examine_at,
  watchpoint_create,
}
use xendbg.Repl.Shell.{
  help, already_attached, interrupted, hit_unknown, cpu_line, cpu_too_high, switched_cpu,
  attached_to, detached_from, created_breakpoint, deleted_breakpoint, hit_breakpoint,
  created_watchpoint, deleted_watchpoint, value_line, memory_lines, instructions, breakpoint_line,
  watchpoint_line, guest_info, xen_info, Shell, ShellFault, wrapper_fault, invalid_input,
  no_such_domain, not_supported, file_load, uninitialised, Shelled, World, print, on_wrapper,
  with_wrapped, with_parsed, with_guests, with_guest, with_pointer, print_symbols, print_variables,
  print_registers, print_guests,
}

-- The words of a memory block, their high bytes in front.
module _ {D : Type 0} (x : Hypervisor) (b : Backend D) (world : World D) where
  unfoldable pub print_breakpoints : Table ℕ → Shell D → Shell D
  unfolding names_at
  print_breakpoints [] s = s
  print_breakpoints ((id, address) ∷ table) s =
      print_breakpoints table
        (print (breakpoint_line id address (names_at address s.wrapper.symbols)) s)

  unfoldable pub print_watchpoints : Table Watchpoint → Shell D → Shell D
  print_watchpoints [] s = s
  print_watchpoints ((id, wp) ∷ table) s = print_watchpoints table (print (watchpoint_line id wp) s)

  -- `get_cpu_context(_vcpu_id)`.
  abbrev pub found_context : Shell D → Option RegistersAny → (RegistersAny → Shelled D) → Shelled D
  found_context s none next = err (wrapper_fault (debugger_fault no_context), s)
  found_context s (some regs) next = next regs

  abbrev pub with_context : Shell D → D → (RegistersAny → Shelled D) → Shelled D
  with_context s d next = found_context s (cpu_context x (b.target d).domain.issued s.vcpu_id) next

  -- `disassemble`.
  unfoldable pub disassemble : ℕ → ℕ → ℕ → Shell D → Shelled D
  unfolding examine
  disassemble address size max_instrs s =
      with_wrapped s (examine x b address 1 size s.wrapper)
        (λ bytes. ok (print (instructions address bytes max_instrs) s))

  -- `examine`.
  unfoldable pub examine_words : ℕ → ℕ → ℕ → Shell D → Shelled D
  unfolding examine words_from
  examine_words address word_size num_words s =
      with_wrapped s (examine x b address word_size num_words s.wrapper)
        (λ bytes. ok (print (memory_lines address (words_from num_words word_size bytes)) s))

  -- X86_MAX_INSTRUCTION_SIZE * STEP_PRINT_INSTRS, and STEP_PRINT_INSTRS.
  unfoldable pub disassemble_here : RegistersAny → Shell D → Shelled D
  unfolding disassemble read_register
  disassemble_here regs s = disassemble (read_register (codes "eip") (codes "rip") regs) 64 4 s

  abbrev pub with_value : Shell D → Bytes → (ℕ → Shelled D) → Shelled D
  with_value s text next =
      with_parsed s (parse [] text) (λ e. with_wrapped s (evaluate_expression x b e s.wrapper) next)

  abbrev pub switched : ℕ → Shell D → D → Option ℕ → Shelled D
  switched id s d none = err (uninitialised, s)
  switched id s d (some max) =
      if ltb max id
      then ok (print (cpu_too_high max) s)
      else ok (
          print (switched_cpu id) (record s {
            vcpu_id = id;
            wrapper = record s.wrapper {
              vcpu_id = id % 2 ^ 32;
              debugger = some (b.with_target d (record (b.target d) { vcpu_id = id % 2 ^ 32 }));
            };
          }))

  unfoldable pub set_cpu : ℕ → Shell D → Shelled D
  set_cpu id s = with_guest s s.wrapper.debugger (λ d. switched id s d s.max_vcpu_id)

  -- The guest by its number, or by its name where there is no number.
  abbrev pub guest_by :
      Shell D → Bytes → Result StoulError (ℕ × Bytes) → (Option DomainAny → Shelled D) → Shelled D
  guest_by s text (ok (n, rest)) next =
      if n % 2 ^ 16 == no_domid
      then with_guests s (get_domain_from_name world.answers text) next
      else with_guests s (get_domain_from_domid world.answers (n % 2 ^ 16)) next
  guest_by s text (err invalid_argument) next =
      with_guests s (get_domain_from_name world.answers text) next
  guest_by s text (err out_of_range) next = err (ShellFault.out_of_range, s)

  abbrev pub attach_found :
      (DomainAny → Shell D → Shelled D) → Shell D → Option DomainAny → Shelled D
  attach_found attach s none = err (no_such_domain, s)
  attach_found attach s (some domain) = attach domain s

  -- `DebuggerWrapper::attach`; the breakpoints with their numbers stay.
  abbrev pub attached_wrapper : Wrapper D → Result (TargetFault × D) D → Wrapped D
  attached_wrapper w (ok d) = ok (record w { debugger = some d; vcpu_id = 0 })
  attached_wrapper w (err (f, d)) = err (debugger_fault f, record w { debugger = some d })

  -- What follows `get_dominfo`, which may throw.
  abbrev pub with_info : Shell D → D → Shelled D → Shelled D
  with_info s d next =
      if x.has_dominfo (b.target d).domain.issued
      then next
      else err (wrapper_fault (debugger_fault (domain_fault call_failed)), s)

  -- Behind `_dwrap.attach`. Capstone is opened here.
  abbrev pub after_attach : ℕ → Shell D → Shelled D
  after_attach domid s = with_guest s s.wrapper.debugger (λ d. with_info s d (
      ok (
        print (attached_to domid)
          (record s { max_vcpu_id = some (x.max_vcpu_id (b.target d).domain.issued) }))))

  abbrev pub is_current : ℕ → Option D → Bool
  is_current domid none = false
  is_current domid (some d) = world.domid_of d == domid

  unfoldable pub attach_guest : DomainAny → Shell D → Shelled D
  attach_guest domain s =
      if is_current domain.domid s.wrapper.debugger
      then ok (print already_attached s)
      else (on_wrapper s (attached_wrapper s.wrapper (world.attach_to domain))
          >>= after_attach domain.domid)

  unfoldable pub attach_named : Bytes → Shell D → Shelled D
  unfolding stoul get_domain_from_domid get_domain_from_name attach_guest
  attach_named text s = guest_by s text (stoul 10 text) (attach_found attach_guest s)

  unfoldable pub detach_guest : Shell D → Shelled D
  unfolding detach
  detach_guest s = with_guest s s.wrapper.debugger (λ d.
      on_wrapper s (detach x b s.wrapper)
      >>= (λ s'. ok (print (detached_from (world.domid_of d)) s')))

  abbrev pub on_guest : (Target → TargetResult) → Shell D → Shelled D
  on_guest f s =
      with_guest s s.wrapper.debugger
        (λ d. on_wrapper s (kept x b s.wrapper (Handler.on_target x b f d)))

  -- `continue`: up to the next stop, or SIGINT.
  abbrev pub print_stop : Bool → Option ℕ → Shell D → Shell D
  print_stop true id s = print interrupted s
  print_stop false (some id) s = print (hit_breakpoint id) s
  print_stop false none s = print hit_unknown s

  unfoldable pub report_at : Bool → Shell D → RegistersAny → Shelled D
  unfolding disassemble_here number_at read_register
  report_at stopped s regs =
      let id = number_at (read_register (codes "eip") (codes "rip") regs) s.wrapper.breakpoints in
      disassemble_here regs (print_stop stopped id s)

  unfoldable pub report_stop : Bool → Shell D → Shelled D
  unfolding report_at
  report_stop stopped s =
      with_guest s s.wrapper.debugger (λ d. with_context s d (report_at stopped s))

  abbrev pub keep_debugger : D → Shell D → Shell D
  keep_debugger d s = record s { wrapper = record s.wrapper { debugger = some d } }

  unfoldable pub continue_guest : Shell D → Shelled D
  unfolding report_stop
  continue_guest s = with_guest s s.wrapper.debugger (λ d. do
    s' ← on_wrapper s (kept x b s.wrapper (b.continue_ d))
    with_guest s' s'.wrapper.debugger
        (λ d'. let (stopped, d2) = world.run_loop d' in report_stop stopped (keep_debugger d2 s')))

  -- `step`: the pointer to the debugger is not tested.
  unfoldable pub step_guest : Shell D → Shelled D
  unfolding disassemble_here
  step_guest s = with_pointer s s.wrapper.debugger (λ d. do
    s' ← on_wrapper s (kept x b s.wrapper (b.single_step d))
    with_guest s' s'.wrapper.debugger (λ d'. with_context s' d' (λ regs. disassemble_here regs s')))

  -- `is_hvm`, which does not test the pointer either.
  abbrev pub on_hvm : Shell D → Shelled D → Shelled D
  on_hvm s next =
      with_pointer s s.wrapper.debugger
        (λ d. if world.is_hvm d then next else err (not_supported, s))

  abbrev pub watched : ℕ → ℕ → Shell D → Option WatchpointType → Shelled D
  watched address len s none = err (invalid_input, s)
  watched address len s (some type) =
      on_wrapper s (watch_numbered x b address len type s.wrapper)
      >>= (λ s'. ok (print (created_watchpoint s'.wrapper.watchpoint_id) s'))

  unfoldable pub create_watchpoint : Bytes → Bytes → Bytes → Shell D → Shelled D
  unfolding evaluate_expression parse watch_numbered type_of
  create_watchpoint address_str len_str type_str s = on_hvm s (
      with_value s address_str
        (λ address. with_value s len_str (λ len. watched address len s (type_of type_str))))

  -- The word size that is given, or that of the guest.
  abbrev pub with_word_size : Shell D → ℕ → (ℕ → Shelled D) → Shelled D
  with_word_size s zero next =
      with_guest s s.wrapper.debugger (λ d. next (x.word_size (b.target d).domain.issued))
  with_word_size s (suc n) next = next (suc n)

  abbrev pub unset_parsed : Shell D → Expression → Shelled D
  unset_parsed s (variable name) = on_wrapper s (delete_var x b name s.wrapper)
  unset_parsed s e = err (invalid_input, s)

  unfoldable pub unset_variable : Bytes → Shell D → Shelled D
  unfolding parse delete_var
  unset_variable text s = with_parsed s (parse [] text) (unset_parsed s)

  abbrev pub loaded : Shell D → Option Names → Shelled D
  loaded s none = err (file_load, s)
  loaded s (some names) = ok (record s { wrapper = record s.wrapper { symbols = names } })

  unfoldable pub load_symbols : Bytes → Shell D → Shelled D
  unfolding without_trailing
  load_symbols filename s = loaded s (world.load_file (without_trailing filename))

  abbrev pub cpu_printed : Shell D → Option ℕ → Shelled D
  cpu_printed s none = err (uninitialised, s)
  cpu_printed s (some max) = ok (print (cpu_line s.vcpu_id max) s)

  unfoldable pub perform : Action → Shell D → Shelled D
  unfolding print_breakpoints print_watchpoints print_symbols print_variables print_registers
      print_guests get_domains disassemble examine_words set_cpu attach_named detach_guest pause
      unpause continue_guest step_guest create_watchpoint unset_variable load_symbols
      insert_numbered remove_numbered unwatch_numbered evaluate_expression evaluate_set_expression
      parse
  perform cpu_get s = with_guest s s.wrapper.debugger (λ d. cpu_printed s s.max_vcpu_id)
  perform (cpu_set id) s = set_cpu id s
  perform print_help s = ok (print help s)
  perform quit s = ok (record s { running = false })
  perform symbol_list s = ok (print_symbols s.wrapper.symbols s)
  perform (symbol_load filename) s = load_symbols filename s
  perform symbol_clear s = ok (record s { wrapper = record s.wrapper { symbols = [] } })
  perform guest_list s =
      with_guests s (get_domains world.answers)
        (λ domains. ok (print_guests world.answers domains s))
  perform (guest_attach text) s = attach_named text s
  perform guest_detach s = detach_guest s
  perform guest_pause s = on_guest (on_domain (pause x)) s
  perform guest_unpause s = on_guest (on_domain (unpause x)) s
  perform info_guest s = with_guest s s.wrapper.debugger (λ d.
      let issued = (b.target d).domain.issued in
      with_info s d
        (ok (print (guest_info (world.domid_of d) (x.max_vcpu_id issued + 1) (x.paused issued)) s)))
  perform info_registers s =
      with_guest s s.wrapper.debugger
        (λ d. with_context s d (λ regs. ok (print_registers (context_of regs) s)))
  perform info_variables s = ok (print_variables s.wrapper.variables s)
  perform info_xen s = ok (print xen_info s)
  perform (print_value format text) s =
      with_value s text (λ value. ok (print (value_line format value) s))
  perform (set_value text word_size) s = with_parsed s (parse [] text) (λ e.
      with_word_size s word_size
        (λ size. on_wrapper s (evaluate_set_expression x b e size s.wrapper)))
  perform (unset text) s = unset_variable text s
  perform (disassemble_at address_str len_str) s =
      with_value s address_str
        (λ address. with_value s len_str (λ len. disassemble address len 0 s))
  perform (examine_at text word_size num_words) s =
      with_value s text
        (λ address. with_word_size s word_size (λ size. examine_words address size num_words s))
  perform (breakpoint_create text) s = with_value s text (λ address.
      on_wrapper s (insert_numbered x b address s.wrapper)
      >>= (λ s'. ok (print (created_breakpoint s'.wrapper.breakpoint_id) s')))
  perform (breakpoint_delete id) s =
      on_wrapper s (remove_numbered x b id s.wrapper)
      >>= (λ s'. ok (print (deleted_breakpoint id) s'))
  perform breakpoint_list s = ok (print_breakpoints s.wrapper.breakpoints s)
  perform continue_ s = continue_guest s
  perform step s = step_guest s
  perform (watchpoint_create address_str len_str type_str) s =
      create_watchpoint address_str len_str type_str s
  perform (watchpoint_delete id) s = on_hvm s (
      on_wrapper s (unwatch_numbered x b id s.wrapper)
      >>= (λ s'. ok (print (deleted_watchpoint id) s')))
  perform watchpoint_list s = on_hvm s (ok (print_watchpoints s.wrapper.watchpoints s))
