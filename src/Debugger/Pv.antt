-- ===== src/Debugger/Pv.antt =====
-- `DebuggerPV` (include/Debugger/DebuggerPV.hpp, src/Debugger/DebuggerPV.cpp). What the timer finds
-- (XEN_DOMCTL_gdbsx_domstatus) is the argument of `on_timer`.
pub mod Stepping
use xendbg.Prelude.{
  ℕ, ◌+◌, ◌-◌, ◌^◌, Bool, true, false, Option, none, some, ◌==◌, if◌then◌else◌, Result, ok, err,
  ◌>>=◌,
}
use xendbg.Text.{codes}
use xendbg.Registers.{RegistersAny, x86_32, x86_64, read_register, get, set_register}
use xendbg.Xen.Hypervisor.{cpu_context, Hypervisor}
use xendbg.Xen.Domain.{
  Domain, DomainResult, pause, unpause, unpause_vcpu, pause_all_vcpus, set_debugging,
}
use xendbg.Xen.DomainPv.{change_cpu_context, set_singlestep}
use xendbg.Debugger.Base.{has_breakpoint}
use xendbg.Debugger.Target
use xendbg.Debugger.Target.{
  Target, TargetFault, TargetResult, StopReason, stop_breakpoint, sigtrap, on_domain, did_stop,
  step_over, put_back,
}

pub record DebuggerPv : Type 0 where
  pub target : Target
  pub timer_is_running : Bool
  pub is_in_pre_continue_singlestep : Bool
  pub is_continuing : Bool
  pub last_single_step_vcpu_id : ℕ
  pub last_single_step_breakpoint_addr : Option ℕ

abbrev pub PvResult : Type 0
PvResult = Result (TargetFault × DebuggerPv) DebuggerPv

abbrev pub of_target : DebuggerPv → TargetResult → PvResult
of_target p (ok t) = ok (record p { target = t })
of_target p (err (f, t)) = err (f, record p { target = t })

abbrev pub on_target : (Target → TargetResult) → DebuggerPv → PvResult
on_target f p = of_target p (f p.target)

-- The instruction pointer less 1, wrapped at its width by the assignment.
unfoldable pub step_back : RegistersAny → RegistersAny
unfolding get set_register
step_back (x86_64 regs) =
    x86_64 (set_register (codes "rip") (get (codes "rip") regs + 2 ^ 64 - 1) regs)
step_back (x86_32 regs) =
    x86_32 (set_register (codes "eip") (get (codes "eip") regs + 2 ^ 64 - 1) regs)

abbrev remember : Option ℕ → DebuggerPv → DebuggerPv
remember none p = p
remember (some address) p = record p { last_single_step_breakpoint_addr = some address }

module _ (x : Hypervisor) where
  unfoldable pub attach : DebuggerPv → PvResult
  unfolding Target.attach set_debugging
  attach p = do
    p1 ← on_target (Target.attach x) p
    on_target (on_domain (set_debugging x true 0)) p1

  unfoldable pub detach : DebuggerPv → PvResult
  unfolding Target.detach set_debugging
  detach p = do
    p1 ← on_target (on_domain (set_debugging x false 0)) (record p { timer_is_running = false })
    on_target (Target.detach x) p1

  -- The last lines of the timer's callback, where the guest is not to continue.
  unfoldable pub stopped_at : ℕ → DebuggerPv → PvResult
  unfolding change_cpu_context step_back did_stop
  stopped_at vcpu p = do
    p1 ←
        if p.is_continuing
        then on_target (on_domain (change_cpu_context x step_back vcpu))
            (record p { is_continuing = false })
        else ok p
    ok (record p1 { target = did_stop (stop_breakpoint sigtrap vcpu) p1.target })

  -- The timer's callback for a paused domain.
  unfoldable pub on_paused : ℕ → DebuggerPv → PvResult
  unfolding put_back set_singlestep unpause stopped_at
  on_paused vcpu p = do
    p1 ←
        on_target (put_back p.last_single_step_breakpoint_addr)
          (record p { timer_is_running = false })
    p2 ←
        on_target (on_domain (set_singlestep x false vcpu))
          (record p1 { last_single_step_breakpoint_addr = none })
    if p2.is_in_pre_continue_singlestep
        then on_target (on_domain (unpause x))
            (record p2 { is_in_pre_continue_singlestep = false; timer_is_running = true })
        else stopped_at vcpu p2

  -- The callback: `status_vcpu` is (size_t)-1 where no virtual CPU is named.
  unfoldable pub on_timer : Bool → ℕ → DebuggerPv → PvResult
  unfolding on_paused
  on_timer false status_vcpu p = ok p
  on_timer true status_vcpu p =
      on_paused (if status_vcpu == 2 ^ 64 - 1 then p.last_single_step_vcpu_id else status_vcpu) p

  -- The calls of `single_step` on the domain, up to the last one.
  unfoldable pub prepare_one : ℕ → Domain → DomainResult
  unfolding pause pause_all_vcpus set_singlestep unpause_vcpu
  prepare_one vcpu d = do
    d1 ← pause x d
    d2 ← pause_all_vcpus x d1
    d3 ← set_singlestep x true vcpu d2
    unpause_vcpu x vcpu d3

  -- The rest of `single_step`, once the breakpoint is lifted.
  abbrev pub resumed : ℕ → DebuggerPv → Result (TargetFault × Target) (Option ℕ × Target) → PvResult
  resumed instr_ptr p (ok (lifted, t)) = do
    p1 ←
        on_target (on_domain (prepare_one t.vcpu_id))
          (remember lifted (record p { target = t; last_single_step_vcpu_id = t.vcpu_id }))
    on_target (on_domain (unpause x)) (record p1 { timer_is_running = true })
  resumed instr_ptr p (err (f, t)) =
      err (f, record p { target = t; last_single_step_breakpoint_addr = some instr_ptr })

  unfoldable pub single_step_at : ℕ → DebuggerPv → PvResult
  unfolding step_over has_breakpoint prepare_one unpause
  single_step_at instr_ptr p =
      resumed instr_ptr p
        (step_over instr_ptr (has_breakpoint instr_ptr p.target.debugger.breakpoints) p.target)

  unfoldable pub single_step_with : DebuggerPv → Option RegistersAny → PvResult
  unfolding single_step_at read_register
  single_step_with p none = err (Target.no_context, p)
  single_step_with p (some regs) = single_step_at (read_register (codes "eip") (codes "rip") regs) p

  unfoldable pub single_step : DebuggerPv → PvResult
  unfolding single_step_with
  single_step p = single_step_with p (cpu_context x p.target.domain.issued p.target.vcpu_id)

  unfoldable pub continue_ : DebuggerPv → PvResult
  unfolding single_step
  continue_ p =
      single_step (record p { is_continuing = true; is_in_pre_continue_singlestep = true })
