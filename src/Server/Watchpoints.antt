-- ===== src/Server/Watchpoints.antt =====
-- Watchpoints and hardware breakpoints of a PV domain.
use xendbg.Prelude.{
  ℕ, ◌≡◌, ◌≢◌, refl, Option, none, some, ◌==◌, ==_iff, Bool-cases, inl, inr, Bytes,
}
use xendbg.Xen.Hypervisor.{Hypervisor}
use xendbg.Debugger.Target.{TargetFault, WatchpointType}
use xendbg.Debugger.Pv.{DebuggerPv}
use xendbg.Gdb.Request
use xendbg.Gdb.Response.{not_supported}
use xendbg.Gdb.Connection.{Session, send}
use xendbg.Server.Handler.{watchpoint_of, handle, on_breakpoint, on_watchpoint}
use xendbg.Server.Session.{catch_fault, catches, on_request}
use xendbg.Server.Backends.{no_watchpoint, pv}

module _ (x : Hypervisor) (error_of : TargetFault → ℕ × Bytes) where
  refused :
      (type : Option WatchpointType) (a kind : ℕ) (s : Session DebuggerPv)
      → catches x (pv x) error_of (on_watchpoint x (pv x) no_watchpoint type a kind s)
        ≡ some (send not_supported s)
  unfolding catches catch_fault no_watchpoint
  refused none a kind s = refl
  refused (some type) a kind s = refl

  -- A client of a PV debugger that sets or removes anything but a software breakpoint gets the reply
  -- for what is not supported, and nothing else changes.
  pub on_request-no_watchpoint :
      (type a kind : ℕ) (s : Session DebuggerPv)
      → type ≢ 0
      → (on_request x (pv x) error_of (Request.breakpoint_insert type a kind) s
          ≡ some (send not_supported s))
        × (on_request x (pv x) error_of (Request.breakpoint_remove type a kind) s
            ≡ some (send not_supported s))
  unfolding on_request handle on_breakpoint
  on_request-no_watchpoint type a kind s n = elim (Bool-cases (type == 0)) [
    | inl e ↦ absurd (n ((==_iff type 0).0 e))
    | inr e ↦
        (rw e (refused (watchpoint_of type) a kind s), rw e (refused (watchpoint_of type) a kind s))
  ]
