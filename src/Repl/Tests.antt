-- ===== src/Repl/Tests.antt =====
-- Assignments at concrete inputs, for a PV guest.
mod Sessions
use xendbg.Prelude.{◌/◌, ◌≡◌, refl, true, false, none, some, [], ◌∷◌, ok, arith}
use xendbg.Text.{codes}
use xendbg.Registers.{Metadata, x86_64, cleared, set_register, find}
use xendbg.Xen.Hypervisor.{cpu_context, set_context}
use xendbg.Xen.Conversion.{fields, convert_regs_to_pv64}
use xendbg.Xen.Sample.{accepting_pv, at_100, raw_at_100}
use xendbg.Xen.DomainPv.{set_cpu_context}
use xendbg.Debugger.Guest.{map_memory}
use xendbg.Debugger.Base.{has_breakpoint}
use xendbg.Debugger.Target.{Target, stop_breakpoint, sigstop}
use xendbg.Debugger.Pv.{DebuggerPv}
use xendbg.Expr.Syntax
use xendbg.Expr.Syntax.{Expression, variable, unex, binex, dereference, equals, add}
use xendbg.Server.Memory.{IsWritable}
use xendbg.Server.Backends.{pv}
use xendbg.Repl.Wrapper.{Wrapper, evaluate_expression, evaluate_set_expression, set_entry}
use xendbg.Repl.Assignment.{
  memory_set, evaluate_set_expression-dereference, evaluate_set_expression-variable,
  evaluate_set_expression-register,
}

-- Frames in the order of the pages, all of them mappable; the byte 7 everywhere; no breakpoint.
abbrev target : Target
target = record {
  debugger = record {
    breakpoints = [];
    guest = record {
      space = record { translate = λ a. a / 4096; mappable = λ f. true };
      memory = λ a. 7;
    };
  };
  domain = record { vcpu_pause_state = false ∷ false ∷ []; issued = [] };
  vcpu_id = 0;
  is_attached = true;
  last_stop_reason = stop_breakpoint sigstop 0;
  stopped = [];
}

abbrev pub guest : DebuggerPv
guest = record {
  target = target;
  timer_is_running = false;
  is_in_pre_continue_singlestep = false;
  is_continuing = false;
  last_single_step_vcpu_id = 0;
  last_single_step_breakpoint_addr = none;
}

abbrev pub wrapper : Wrapper DebuggerPv
wrapper = record {
  debugger = some guest;
  vcpu_id = 0;
  breakpoint_id = 0;
  watchpoint_id = 0;
  breakpoints = [];
  watchpoints = [];
  symbols = [];
  variables = [];
}

-- `30 + 1` and `0x1234`.
abbrev sum : Expression
sum = binex add (Syntax.constant 30) (Syntax.constant 1)

abbrev number : Expression
number = Syntax.constant 0x1234

at_31 : IsWritable 31 8 target.debugger
unfolding map_memory has_breakpoint
at_31 = record {
  address_positive = omega arith;
  size_positive = omega arith;
  fits = omega arith;
  before = refl;
  clear = tt;
  window = record { base = 31; extent = 4065 };
  mapped = refl;
  covers = omega arith;
}

evaluate_set_expression-dereference_example :
    (evaluate_set_expression accepting_pv
        (pv accepting_pv)
        (binex equals (unex dereference sum) number)
        8
        wrapper
      ≡ ok (memory_set accepting_pv (pv accepting_pv) 31 0x1234 guest wrapper))
    × (evaluate_expression accepting_pv
          (pv accepting_pv)
          (unex dereference (Syntax.constant 31))
          (memory_set accepting_pv (pv accepting_pv) 31 0x1234 guest wrapper)
        ≡ ok 0x1234)
unfolding evaluate_expression
evaluate_set_expression-dereference_example =
    evaluate_set_expression-dereference accepting_pv (pv accepting_pv) (λ d t. refl) sum number
      wrapper guest refl refl refl (omega arith) at_31

-- The guest once its registers have been written back.
abbrev written : DebuggerPv
written = record guest {
  target = record target {
    domain = record {
      vcpu_pause_state = false ∷ false ∷ [];
      issued = set_context 0 (convert_regs_to_pv64 (fields (λ f. 8)) at_100 raw_at_100) ∷ [];
    };
  };
}

evaluate_set_expression-variable_example :
    (evaluate_set_expression accepting_pv
        (pv accepting_pv)
        (binex equals (variable (codes "n")) sum)
        8
        wrapper
      ≡ ok (record wrapper { debugger = some written; variables = set_entry (codes "n") 31 [] }))
    × (evaluate_expression accepting_pv
          (pv accepting_pv)
          (variable (codes "n"))
          (record wrapper { debugger = some written; variables = set_entry (codes "n") 31 [] })
        ≡ ok 31)
unfolding cpu_context evaluate_expression set_cpu_context find cleared set_register
evaluate_set_expression-variable_example =
    evaluate_set_expression-variable accepting_pv (pv accepting_pv) (codes "n") sum 8 wrapper guest
      written (x86_64 at_100) refl refl refl refl refl refl

abbrev rip : Metadata
rip = record { id = 16; width = 8; offset = 128; name = codes "rip"; gcc_id = 16 }

evaluate_set_expression-register_example :
    evaluate_set_expression accepting_pv
      (pv accepting_pv)
      (binex equals (variable (codes "rip")) sum)
      8
      wrapper
    ≡ evaluate_set_expression accepting_pv
        (pv accepting_pv)
        (binex equals (variable (codes "rip")) number)
        8
        wrapper
unfolding cpu_context evaluate_expression find cleared set_register
evaluate_set_expression-register_example =
    evaluate_set_expression-register accepting_pv (pv accepting_pv) (codes "rip") sum number 8
      wrapper guest (x86_64 at_100) {md = rip} refl refl refl refl refl
