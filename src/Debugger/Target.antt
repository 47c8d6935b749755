-- ===== src/Debugger/Target.antt =====
-- The state of a `Debugger` (include/Debugger/Debugger.hpp, src/Debugger/Debugger.cpp) with the domain
-- that it drives: attaching, detaching, and the reasons for which the guest stopped.
use xendbg.Prelude.{ℕ, Bool, true, false, Option, none, some, List, ◌∷◌, Result, ok, err, ◌>>=◌}
use xendbg.Xen.Hypervisor.{Hypervisor}
use xendbg.Xen.Domain.{Domain, DomainFault, DomainResult, pause, unpause, unpause_all_vcpus}
use xendbg.Debugger.Base.{Debugger, Fault, Outcome, cleanup, insert_breakpoint, remove_breakpoint}

-- include/Debugger/WatchpointType.hpp and StopReason.hpp.
pub data WatchpointType : Type 0 where
  access_watchpoint read_watchpoint write_watchpoint : WatchpointType

pub data StopReason : Type 0 where
  stop_breakpoint : ℕ → ℕ → StopReason  -- signal, vcpu_id
  stop_watchpoint : ℕ → ℕ → ℕ → WatchpointType → StopReason  -- and address, type

abbrev pub sigtrap : ℕ
sigtrap = 5

abbrev pub sigstop : ℕ
sigstop = 19

-- `stopped` holds what `_on_stop` was called with, the last one in front.
pub record Target : Type 0 where
  pub debugger : Debugger
  pub domain : Domain
  pub vcpu_id : ℕ
  pub is_attached : Bool
  pub last_stop_reason : StopReason
  pub stopped : List StopReason

-- The exceptions: those of the guest's memory, those of the domain, a register context that cannot
-- be read, and FeatureNotSupportedException.
pub data TargetFault : Type 0 where
  memory_fault : Fault → TargetFault
  domain_fault : DomainFault → TargetFault
  no_context : TargetFault
  feature_not_supported : TargetFault

abbrev pub TargetResult : Type 0
TargetResult = Result (TargetFault × Target) Target

-- An operation on the breakpoints, or on the domain, as one on the target.
abbrev pub of_outcome : Target → Outcome → TargetResult
of_outcome t (ok d) = ok (record t { debugger = d })
of_outcome t (err (f, d)) = err (memory_fault f, record t { debugger = d })

abbrev pub on_debugger : (Debugger → Outcome) → Target → TargetResult
on_debugger f t = of_outcome t (f t.debugger)

abbrev pub of_domain : Target → DomainResult → TargetResult
of_domain t (ok d) = ok (record t { domain = d })
of_domain t (err (f, d)) = err (domain_fault f, record t { domain = d })

abbrev pub on_domain : (Domain → DomainResult) → Target → TargetResult
on_domain f t = of_domain t (f t.domain)

unfoldable pub did_stop : StopReason → Target → Target
did_stop reason t = record t { last_stop_reason = reason; stopped = reason ∷ t.stopped }

module _ (x : Hypervisor) where
  -- `Debugger::attach`.
  unfoldable pub attach : Target → TargetResult
  unfolding pause
  attach t = on_domain (pause x) (record t { is_attached = true })

  -- `Debugger::detach`.
  unfoldable pub detach : Target → TargetResult
  unfolding pause unpause unpause_all_vcpus cleanup
  detach t = do
    t1 ← on_domain (pause x) t
    t2 ← on_debugger cleanup t1
    t3 ← on_domain (unpause_all_vcpus x) t2
    t4 ← on_domain (unpause x) t3
    ok (record t4 { is_attached = false })

-- The first lines of both functions `single_step`: a breakpoint at the instruction is lifted, and
-- its address is returned.
unfoldable pub step_over : ℕ → Bool → Target → Result (TargetFault × Target) (Option ℕ × Target)
unfolding remove_breakpoint
step_over instr_ptr false t = ok (none, t)
step_over instr_ptr true t = do
  t' ← on_debugger (remove_breakpoint instr_ptr) t
  ok (some instr_ptr, t')

-- The lines of both event handlers that put a lifted breakpoint back.
unfoldable pub put_back : Option ℕ → Target → TargetResult
unfolding insert_breakpoint
put_back none t = ok t
put_back (some address) t = on_debugger (insert_breakpoint address) t
