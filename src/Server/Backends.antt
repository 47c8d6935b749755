-- ===== src/Server/Backends.antt =====
-- The two debuggers as what the request handler works on.
use xendbg.Prelude.{ℕ, err}
use xendbg.Xen.Hypervisor.{Hypervisor}
use xendbg.Xen.DomainPv
use xendbg.Xen.DomainHvm
use xendbg.Debugger.Target.{WatchpointType, feature_not_supported}
use xendbg.Debugger.Hvm
use xendbg.Debugger.Hvm.{DebuggerHvm, insert_watchpoint, remove_watchpoint}
use xendbg.Debugger.Pv
use xendbg.Debugger.Pv.{DebuggerPv, PvResult}
use xendbg.Server.Handler.{Backend}

-- `Debugger::insert_watchpoint` and `Debugger::remove_watchpoint`, which `DebuggerPV` inherits.
unfoldable pub no_watchpoint : ℕ → ℕ → WatchpointType → DebuggerPv → PvResult
no_watchpoint address bytes type p = err (feature_not_supported, p)

abbrev pub pv : Hypervisor → Backend DebuggerPv
pv x = record {
  target = λ p. p.target;
  with_target = λ p t. record p { target = t };
  continue_ = Pv.continue_ x;
  single_step = Pv.single_step x;
  detach = Pv.detach x;
  insert_watchpoint = no_watchpoint;
  remove_watchpoint = no_watchpoint;
  set_cpu_context = DomainPv.set_cpu_context x;
}

abbrev pub hvm : Hypervisor → Backend DebuggerHvm
hvm x = record {
  target = λ h. h.target;
  with_target = λ h t. record h { target = t };
  continue_ = Hvm.continue_ x;
  single_step = Hvm.single_step x;
  detach = Hvm.detach x;
  insert_watchpoint = insert_watchpoint x;
  remove_watchpoint = remove_watchpoint x;
  set_cpu_context = DomainHvm.set_cpu_context x;
}
