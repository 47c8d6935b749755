-- ===== src/Debugger/Hvm.antt =====
-- `DebuggerHVM` (include/Debugger/DebuggerHVM.hpp, src/Debugger/DebuggerHVM.cpp). The monitor's events
-- are the arguments of `on_event`.
pub mod Calls
pub mod Order
pub mod Stepping
use xendbg.Prelude.{
  ℕ, ◌+◌, ◌*◌, ◌%◌, ◌^◌, Bool, true, false, Option, none, some, ltb, if◌then◌else◌, Result, ok, err,
  ◌>>=◌,
}
use xendbg.Text.{codes}
use xendbg.Registers.{RegistersAny, read_register}
use xendbg.Xen.Hypervisor.{
  cpu_context, Hypervisor, debug_control, MemAccess, access_n, access_wx, access_rx, access_rwx,
}
use xendbg.Xen.Domain.{
  Domain, DomainResult, call_failed, perform, pause, unpause, pause_vcpu, unpause_vcpu,
  pause_all_vcpus, set_access,
}
use xendbg.Xen.DomainHvm.{set_singlestep}
use xendbg.Debugger.Base.{has_breakpoint}
use xendbg.Debugger.Target
use xendbg.Debugger.Target.{
  Target, TargetFault, TargetResult, WatchpointType, access_watchpoint, read_watchpoint,
  write_watchpoint, StopReason, stop_breakpoint, stop_watchpoint, sigtrap, on_domain, did_stop,
  step_over, put_back,
}

pub record DebuggerHvm : Type 0 where
  pub target : Target
  pub last_single_step_breakpoint_addr : Option ℕ
  pub is_continuing : Bool
  pub non_stop_mode : Bool
  pub monitoring : Bool  -- `_monitor` has been started

abbrev pub HvmResult : Type 0
HvmResult = Result (TargetFault × DebuggerHvm) DebuggerHvm

-- `vm_event_st`, for the reasons that are told apart.
pub data Event : Type 0 where
  singlestep : ℕ → Event
  software_breakpoint : ℕ → Event
  mem_access : ℕ → ℕ → ℕ → Bool → Bool → Event  -- vcpu, gfn, offset, MEM_ACCESS_R, MEM_ACCESS_W
  other_event : ℕ → Event

abbrev pub of_target : DebuggerHvm → TargetResult → HvmResult
of_target h (ok t) = ok (record h { target = t })
of_target h (err (f, t)) = err (f, record h { target = t })

abbrev pub on_target : (Target → TargetResult) → DebuggerHvm → HvmResult
on_target f h = of_target h (f h.target)

unfoldable pub watchpoint_type : Bool → Bool → WatchpointType
watchpoint_type true written = read_watchpoint
watchpoint_type false true = write_watchpoint
watchpoint_type false false = access_watchpoint

-- `_last_single_step_breakpoint_addr` is set only where there is a breakpoint.
abbrev pub remember : Option ℕ → DebuggerHvm → DebuggerHvm
remember none h = h
remember (some address) h = record h { last_single_step_breakpoint_addr = some address }

unfoldable pub access_of : WatchpointType → MemAccess
access_of access_watchpoint = access_n
access_of read_watchpoint = access_wx
access_of write_watchpoint = access_rx

module _ (x : Hypervisor) where
  -- The lambda `pause_domain` of `on_event`.
  unfoldable pub pause_domain : Bool → ℕ → Domain → DomainResult
  unfolding pause unpause pause_vcpu pause_all_vcpus
  pause_domain non_stop vcpu_id d = do
    d1 ← pause x d
    d2 ← if non_stop then pause_vcpu x vcpu_id d1 else pause_all_vcpus x d1
    unpause x d2

  -- A stop: the domain is paused, and the reason is passed on.
  unfoldable pub stop_at : Bool → ℕ → StopReason → Target → TargetResult
  unfolding pause_domain did_stop
  stop_at non_stop vcpu_id reason t = do
    t' ← on_domain (pause_domain non_stop vcpu_id) t
    ok (did_stop reason t')

  -- What `on_event` does for each reason, after the breakpoint is put back.
  unfoldable pub handle_event : Event → Bool → Bool → Target → TargetResult
  unfolding stop_at set_singlestep watchpoint_type
  handle_event (singlestep vcpu) was_continuing non_stop t = do
    t' ← if was_continuing then ok t else stop_at non_stop vcpu (stop_breakpoint sigtrap vcpu) t
    on_domain (set_singlestep x false t'.vcpu_id) t'
  handle_event (software_breakpoint vcpu) was_continuing non_stop t =
      stop_at non_stop vcpu (stop_breakpoint sigtrap vcpu) t
  handle_event (mem_access vcpu gfn offset read written) was_continuing non_stop t =
      stop_at non_stop vcpu
        (stop_watchpoint sigtrap vcpu ((gfn * 4096 + offset) % 2 ^ 64)
          (watchpoint_type read written))
        t
  handle_event (other_event vcpu) was_continuing non_stop t = ok t

  unfoldable pub on_event : Event → DebuggerHvm → HvmResult
  unfolding put_back handle_event
  on_event event h = do
    h1 ← on_target (put_back h.last_single_step_breakpoint_addr) h
    on_target (handle_event event h.is_continuing h.non_stop_mode)
        (record h1 { last_single_step_breakpoint_addr = none; is_continuing = false })

  unfoldable pub attach : DebuggerHvm → HvmResult
  unfolding Target.attach
  attach h = do h1 ← on_target (Target.attach x) h; ok (record h1 { monitoring = true })

  unfoldable pub detach : DebuggerHvm → HvmResult
  unfolding Target.detach
  detach h = on_target (Target.detach x) (record h { monitoring = false })

  -- The calls of `single_step` on the domain.
  unfoldable pub resume_one : Bool → ℕ → Domain → DomainResult
  unfolding pause unpause unpause_vcpu pause_all_vcpus set_singlestep
  resume_one non_stop vcpu d = do
    d1 ← pause x d
    d2 ← if non_stop then ok d1 else pause_all_vcpus x d1
    d3 ← set_singlestep x true vcpu d2
    d4 ← if non_stop then ok d3 else unpause_vcpu x vcpu d3
    unpause x d4

  -- The rest of `single_step`, once the breakpoint is lifted.
  abbrev pub resumed :
      ℕ → DebuggerHvm → Result (TargetFault × Target) (Option ℕ × Target) → HvmResult
  resumed instr_ptr h (ok (lifted, t)) =
      on_target (on_domain (resume_one h.non_stop_mode t.vcpu_id))
        (remember lifted (record h { target = t }))
  resumed instr_ptr h (err (f, t)) =
      err (f, record h { target = t; last_single_step_breakpoint_addr = some instr_ptr })

  unfoldable pub single_step_at : ℕ → DebuggerHvm → HvmResult
  unfolding step_over has_breakpoint resume_one
  single_step_at instr_ptr h =
      resumed instr_ptr h
        (step_over instr_ptr (has_breakpoint instr_ptr h.target.debugger.breakpoints) h.target)

  unfoldable pub single_step_with : DebuggerHvm → Option RegistersAny → HvmResult
  unfolding single_step_at read_register
  single_step_with h none = err (Target.no_context, h)
  single_step_with h (some regs) = single_step_at (read_register (codes "eip") (codes "rip") regs) h

  unfoldable pub single_step : DebuggerHvm → HvmResult
  unfolding single_step_with
  single_step h = single_step_with h (cpu_context x h.target.domain.issued h.target.vcpu_id)

  unfoldable pub continue_ : DebuggerHvm → HvmResult
  unfolding single_step
  continue_ h = single_step (record h { is_continuing = true })

  unfoldable pub insert_watchpoint : ℕ → ℕ → WatchpointType → DebuggerHvm → HvmResult
  unfolding access_of set_access
  insert_watchpoint address bytes type h =
      on_target (on_domain (set_access x (access_of type) address bytes)) h

  unfoldable pub remove_watchpoint : ℕ → ℕ → WatchpointType → DebuggerHvm → HvmResult
  unfolding set_access
  remove_watchpoint address bytes type h =
      on_target (on_domain (set_access x access_rwx address bytes)) h
