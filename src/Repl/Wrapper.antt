-- ===== src/Repl/Wrapper.antt =====
-- `DebuggerWrapper` (src/REPL/DebuggerWrapper.hpp, src/REPL/DebuggerWrapper.cpp): variables, symbols,
-- breakpoints with their numbers, and the evaluation of expressions, over the virtual functions of a
-- debugger. Loading symbols from a file is left out.
mod Base
unfoldable pub use Base.{
  get_entry, set_entry, erase_entry, le_bytes, le_value, arithmetic, evaluate_binary,
}
pub use Base.{
  Table, Names, Wrapped, get_number, erase_number, assign_number, found_or, attached, Watchpoint,
  Wrapper, WrapperFault, no_such_breakpoint, no_such_watchpoint, no_such_symbol, no_such_variable,
  invalid_expression, no_guest_attached, null_debugger, division_by_zero, debugger_fault,
}
use xendbg.Prelude.{
  ℕ, zero, suc, ◌+◌, ◌-◌, ◌*◌, ◌/◌, ◌%◌, ◌^◌, Option, none, some, ◌==◌, if◌then◌else◌, List, [],
  ◌∷◌, Bytes, Result, ok, err, ◌>>=◌,
}
use xendbg.Registers.{RegistersAny, Metadata, context_of, find, has_name, same_text}
use xendbg.Xen.Hypervisor.{cpu_context, Hypervisor}
use xendbg.Debugger.Base.{
  Fault, insert_breakpoint, remove_breakpoint, read_memory_masking_breakpoints,
  write_memory_retaining_breakpoints,
}
use xendbg.Debugger.Target.{
  TargetFault, memory_fault, no_context, WatchpointType, on_debugger, on_domain,
}
use xendbg.Expr.Syntax
use xendbg.Expr.Syntax.{
  Expression, variable, unex, binex, UnaryOperator, dereference, negate, BinaryOperator, add,
  equals, divide, multiply, subtract,
}
use xendbg.Server.Handler
use xendbg.Server.Handler.{Backend}

module _ {D : Type 0} (x : Hypervisor) (b : Backend D) where
  unfoldable pub get_var : Bytes → Wrapper D → Result WrapperFault ℕ
  unfolding get_entry
  get_var name w = found_or no_such_variable (get_entry name w.variables)

  unfoldable pub set_var : Bytes → ℕ → Wrapper D → Wrapper D
  unfolding set_entry
  set_var name value w = record w { variables = set_entry name value w.variables }

  abbrev pub deleted : Bytes → Wrapper D → Option ℕ → Wrapped D
  deleted name w none = err (no_such_variable, w)
  deleted name w (some v) = ok (record w { variables = erase_entry name w.variables })

  unfoldable pub delete_var : Bytes → Wrapper D → Wrapped D
  unfolding get_entry erase_entry
  delete_var name w = deleted name w (get_entry name w.variables)

  unfoldable pub lookup_symbol : Bytes → Wrapper D → Result WrapperFault ℕ
  unfolding get_entry
  lookup_symbol name w = found_or no_such_symbol (get_entry name w.symbols)

  -- The register of a name, or the variable.
  abbrev pub named : Bytes → Wrapper D → Option (Metadata × ℕ) → Result WrapperFault ℕ
  named name w none = get_var name w
  named name w (some (md, value)) = ok value

  abbrev pub in_context : Bytes → Wrapper D → Option RegistersAny → Result WrapperFault ℕ
  in_context name w none = err (debugger_fault no_context)
  in_context name w (some regs) = named name w (find (has_name name) 0 0 (context_of regs))

  unfoldable pub evaluate_variable : Bytes → Wrapper D → Result WrapperFault ℕ
  unfolding get_var find
  evaluate_variable name w =
      attached w.debugger
        (λ d. in_context name w (cpu_context x (b.target d).domain.issued w.vcpu_id))

  abbrev pub word_of : Result Fault Bytes → Result WrapperFault ℕ
  word_of (ok bytes) = ok (le_value bytes)
  word_of (err f) = err (debugger_fault (memory_fault f))

  unfoldable pub evaluate_unary : UnaryOperator → Wrapper D → ℕ → Result WrapperFault ℕ
  unfolding le_value read_memory_masking_breakpoints
  evaluate_unary dereference w address =
      attached w.debugger
        (λ d. word_of (read_memory_masking_breakpoints address 8 (b.target d).debugger))
  evaluate_unary negate w value = ok ((2 ^ 64 - value) % 2 ^ 64)

  unfoldable pub evaluate_expression : Expression → Wrapper D → Result WrapperFault ℕ
  unfolding lookup_symbol evaluate_variable evaluate_unary evaluate_binary
  evaluate_expression (Syntax.constant value) w = ok value
  evaluate_expression (Syntax.label name) w = lookup_symbol name w
  evaluate_expression (variable name) w = evaluate_variable name w
  evaluate_expression (unex op e) w = evaluate_expression e w >>= evaluate_unary op w
  evaluate_expression (binex op e e') w =
      evaluate_binary op (evaluate_expression e w) (evaluate_expression e' w)

  -- A call of the debugger, in the state of the wrapper.
  abbrev pub kept : Wrapper D → Result (TargetFault × D) D → Wrapped D
  kept w (ok d) = ok (record w { debugger = some d })
  kept w (err (f, d)) = err (debugger_fault f, record w { debugger = some d })

  abbrev pub with_debugger : Wrapper D → Option D → (D → Wrapped D) → Wrapped D
  with_debugger w none next = err (no_guest_attached, w)
  with_debugger w (some d) next = next d

  abbrev pub with_value : Wrapper D → Result WrapperFault ℕ → (ℕ → Wrapped D) → Wrapped D
  with_value w (ok v) next = next v
  with_value w (err f) next = err (f, w)

  -- The register is written in a copy of the context, which is dropped.
  abbrev pub assigned_name : Bytes → ℕ → Wrapper D → Option (Metadata × ℕ) → Wrapper D
  assigned_name name value w none = set_var name value w
  assigned_name name value w (some found) = w

  abbrev pub assigned_in : Bytes → ℕ → Wrapper D → D → Option RegistersAny → Wrapped D
  assigned_in name value w d none = err (debugger_fault no_context, w)
  assigned_in name value w d (some regs) =
      kept (assigned_name name value w (find (has_name name) 0 0 (context_of regs)))
        (Handler.on_target x b (on_domain (b.set_cpu_context regs w.vcpu_id)) d)

  unfoldable pub set_variable : Bytes → ℕ → Wrapper D → Wrapped D
  unfolding set_var find
  set_variable name value w =
      with_debugger w w.debugger
        (λ d. assigned_in name value w d (cpu_context x (b.target d).domain.issued w.vcpu_id))

  unfoldable pub set_memory : ℕ → ℕ → ℕ → Wrapper D → Wrapped D
  unfolding le_bytes write_memory_retaining_breakpoints
  set_memory address value word_size w = with_debugger w w.debugger (λ d. kept w (
      Handler.on_target x b
        (on_debugger (write_memory_retaining_breakpoints address (le_bytes word_size value))) d))

  -- `{$var, *expr} = expr`; any unary operator is taken for `*`.
  unfoldable pub evaluate_set_expression : Expression → ℕ → Wrapper D → Wrapped D
  unfolding evaluate_expression set_variable set_memory
  evaluate_set_expression (binex equals (variable name) e) word_size w =
      with_value w (evaluate_expression e w) (λ value. set_variable name value w)
  evaluate_set_expression (binex equals (unex op e) e') word_size w =
      with_debugger w w.debugger (λ d. with_value w (evaluate_expression e w) (λ address.
        with_value w (evaluate_expression e' w) (λ value. set_memory address value word_size w)))
  evaluate_set_expression _ word_size w = err (invalid_expression, w)

  unfoldable pub examine : ℕ → ℕ → ℕ → Wrapper D → Result WrapperFault Bytes
  unfolding read_memory_masking_breakpoints
  examine address word_size num_words w = attached w.debugger (λ d.
      elim (read_memory_masking_breakpoints address ((word_size * num_words) % 2 ^ 64)
        (b.target d).debugger) [
          | ok bytes ↦ ok bytes
          | err f ↦ err (debugger_fault (memory_fault f))
        ])

  -- The number of the breakpoint is the new `breakpoint_id`.
  unfoldable pub insert_numbered : ℕ → Wrapper D → Wrapped D
  unfolding insert_breakpoint
  insert_numbered address w = with_debugger w w.debugger (λ d. do
    w' ← kept w (Handler.on_target x b (on_debugger (insert_breakpoint address)) d)
    let id = (w'.breakpoint_id + 1) % 2 ^ 64
    ok (record w' { breakpoint_id = id; breakpoints = assign_number id address w'.breakpoints }))

  abbrev pub removed : ℕ → Wrapper D → Option ℕ → Wrapped D
  removed id w none = err (no_such_breakpoint, w)
  removed id w (some address) = with_debugger w w.debugger (λ d. do
    w' ← kept w (Handler.on_target x b (on_debugger (remove_breakpoint address)) d)
    ok (record w' { breakpoints = erase_number id w'.breakpoints }))

  unfoldable pub remove_numbered : ℕ → Wrapper D → Wrapped D
  unfolding remove_breakpoint
  remove_numbered id w = removed id w (get_number id w.breakpoints)

  unfoldable pub watch_numbered : ℕ → ℕ → WatchpointType → Wrapper D → Wrapped D
  watch_numbered address size type w = with_debugger w w.debugger (λ d. do
    w' ← kept w (b.insert_watchpoint address (size % 2 ^ 32) type d)
    let id = (w'.watchpoint_id + 1) % 2 ^ 64
    let wp : Watchpoint = record { address = address; length = size; type = type }
    ok (record w' { watchpoint_id = id; watchpoints = assign_number id wp w'.watchpoints }))

  abbrev pub unwatched : ℕ → Wrapper D → Option Watchpoint → Wrapped D
  unwatched id w none = err (no_such_watchpoint, w)
  unwatched id w (some wp) = with_debugger w w.debugger (λ d. do
    w' ← kept w (b.remove_watchpoint wp.address (wp.length % 2 ^ 32) wp.type d)
    ok (record w' { watchpoints = erase_number id w'.watchpoints }))

  unfoldable pub unwatch_numbered : ℕ → Wrapper D → Wrapped D
  unwatch_numbered id w = unwatched id w (get_number id w.watchpoints)

  abbrev pub detached : Wrapper D → Option D → Wrapped D
  detached w none = err (null_debugger, w)
  detached w (some d) = do
    w' ← kept w (b.detach d)
    ok (record w' { debugger = none; variables = []; symbols = [] })

  -- The pointer to the debugger is not tested.
  unfoldable pub detach : Wrapper D → Wrapped D
  detach w = detached w w.debugger
