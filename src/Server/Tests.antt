-- ===== src/Server/Tests.antt =====
-- Sessions with a client at concrete inputs.
use xendbg.Prelude.{
  ℕ, ◌/◌, ◌≡◌, refl, true, false, none, some, Bytes, [], ◌∷◌, Result, ok, err, arith,
}
use xendbg.Text.{codes}
use xendbg.Xen.Hypervisor.{cpu_context}
use xendbg.Xen.Sample.{accepting, accepting_pv, accepting-IsLawful}
use xendbg.Xen.Domain.Order.{IsOrdered}
use xendbg.Debugger.Guest.{map_memory}
use xendbg.Debugger.Base.{has_breakpoint}
use xendbg.Debugger.Target.{Target, TargetFault, stop_breakpoint, sigstop}
use xendbg.Debugger.Hvm.{DebuggerHvm, single_step}
use xendbg.Debugger.Pv.{DebuggerPv}
use xendbg.Gdb.Packet.{make_packet, to_string}
use xendbg.Gdb.Queue.Stream.{wire}
use xendbg.Gdb.Request
use xendbg.Gdb.Request.Client.{Number}
use xendbg.Gdb.Request.Client.Commands.{read_memory, write_memory}
use xendbg.Gdb.Response.{not_supported}
use xendbg.Gdb.Connection.{Session, Connection, Uncaught, send, on_data}
use xendbg.Gdb.Connection.Delivery.{at_rest}
use xendbg.Gdb.Connection.Commands.{items}
use xendbg.Server.Session.{on_request}
use xendbg.Server.Backends.{hvm, pv}
use xendbg.Server.Order.{on_data-IsOrdered}
use xendbg.Server.Memory.{IsWritable, replied_to, on_data-write_read}
use xendbg.Server.Watchpoints.{on_request-no_watchpoint}

-- Frames in the order of the pages, all of them mappable; the byte 7 everywhere; no breakpoint.
abbrev target : Target
target = record {
  debugger = record {
    breakpoints = [];
    guest = record {
      space = record { translate = λ a. a / 4096; mappable = λ f. true };
      memory = λ a. 7;
    };
  };
  domain = record { vcpu_pause_state = false ∷ false ∷ []; issued = [] };
  vcpu_id = 0;
  is_attached = true;
  last_stop_reason = stop_breakpoint sigstop 0;
  stopped = [];
}

abbrev hvm_debugger : DebuggerHvm
hvm_debugger = record {
  target = target;
  last_single_step_breakpoint_addr = none;
  is_continuing = false;
  non_stop_mode = false;
  monitoring = true;
}

abbrev pv_debugger : DebuggerPv
pv_debugger = record {
  target = target;
  timer_is_running = false;
  is_in_pre_continue_singlestep = false;
  is_continuing = false;
  last_single_step_vcpu_id = 0;
  last_single_step_breakpoint_addr = none;
}

abbrev session : {D : Type 0} → D → Session D
session d = record {
  ack_mode = true;
  error_strings = false;
  closed = false;
  written = [];
  handler = d;
}

abbrev connected : {D : Type 0} → D → Connection D
connected d = record {
  is_initializing = false;
  input_queue = record { buffer = []; packets = [] };
  session = session d;
}

abbrev error_of : TargetFault → ℕ × Bytes
error_of f = (1, [])

-- `$s#73`: one step.
abbrev step : Bytes
step = to_string (make_packet (codes "s"))

abbrev left : Result Uncaught (Connection DebuggerHvm) → Connection DebuggerHvm
left (ok c) = c
left (err e) = connected hvm_debugger

abbrev stepped : Connection DebuggerHvm
stepped =
    left (on_data (on_request accepting (hvm accepting) error_of) step (connected hvm_debugger))

on_data-IsOrdered_example : IsOrdered accepting stepped.session.handler.target.domain.issued
unfolding cpu_context on_data on_request to_string make_packet single_step
on_data-IsOrdered_example =
    on_data-IsOrdered accepting accepting-IsLawful error_of step (connected hvm_debugger)
      {c' = stepped} refl tt

-- `1f`, and `02`.
abbrev address : Number 64
address = record {
  first = 1;
  others = 15 ∷ [];
  are_digits = (omega arith, (omega arith, tt));
  fits = omega arith;
}

abbrev two : Number 64
two = record {
  first = 0;
  others = 2 ∷ [];
  are_digits = (omega arith, (omega arith, tt));
  fits = omega arith;
}

abbrev two_bytes : Bytes
two_bytes = 0xAB ∷ 7 ∷ []

at_31 : IsWritable 31 2 target.debugger
unfolding map_memory has_breakpoint
at_31 = record {
  address_positive = omega arith;
  size_positive = omega arith;
  fits = omega arith;
  before = refl;
  clear = tt;
  window = record { base = 31; extent = 4065 };
  mapped = refl;
  covers = omega arith;
}

on_data-write_read_example :
    on_data
      (on_request accepting_pv (pv accepting_pv) error_of)
      (wire (items (write_memory address two two_bytes ∷ read_memory address two ∷ [])))
      (connected pv_debugger)
    ≡ at_rest (on_request accepting_pv (pv accepting_pv) error_of) false [] (
        ok (
          replied_to accepting_pv
            (pv accepting_pv)
            (λ d t. refl)
            error_of
            31
            two_bytes
            (session pv_debugger)))
on_data-write_read_example =
    on_data-write_read accepting_pv (pv accepting_pv) (λ d t. refl) error_of address two two_bytes
      (connected pv_debugger) refl ((omega arith, (omega arith, tt)), refl, omega arith) at_31

on_request-no_watchpoint_example :
    (on_request accepting_pv
        (pv accepting_pv)
        error_of
        (Request.breakpoint_insert 2 100 4)
        (session pv_debugger)
      ≡ some (send not_supported (session pv_debugger)))
    × (on_request accepting_pv
          (pv accepting_pv)
          error_of
          (Request.breakpoint_remove 2 100 4)
          (session pv_debugger)
        ≡ some (send not_supported (session pv_debugger)))
on_request-no_watchpoint_example =
    on_request-no_watchpoint accepting_pv error_of 2 100 4 (session pv_debugger) (omega arith)
