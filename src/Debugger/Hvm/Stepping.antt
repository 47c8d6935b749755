-- ===== src/Debugger/Hvm/Stepping.antt =====
-- A step of the HVM debugger over a breakpoint, up to the event that ends it.
use mathlib.Core.Path.{subst}
use xendbg.Prelude.{
  ℕ, ◌≡◌, refl, sym, Bool, false, Option, none, some, Bool-cases, inl, inr, ok, err, if◌then◌else◌,
}
use xendbg.Text.{codes}
use xendbg.Registers.{RegistersAny, read_register}
use xendbg.Xen.Hypervisor.{cpu_context, Hypervisor}
use xendbg.Xen.Domain.{Domain, DomainResult}
use xendbg.Xen.DomainHvm.{set_singlestep}
use xendbg.Debugger.Base.{Debugger, has_breakpoint}
use xendbg.Debugger.Restore.{IsPatched}
use xendbg.Debugger.Relift.{SameBreakpoints}
use xendbg.Debugger.Stepping.{
  Returns, PutsBack, step_over-PutsBack, of_domain-debugger, >>=-Returns,
}
use xendbg.Debugger.Target.{
  Target, TargetResult, StopReason, stop_breakpoint, sigtrap, of_domain, on_domain, did_stop,
}
use xendbg.Debugger.Hvm.{
  DebuggerHvm, Event, singlestep, software_breakpoint, mem_access, other_event, of_target,
  on_target, pause_domain, stop_at, handle_event, on_event, resume_one, remember, single_step_at,
  single_step_with, single_step,
}

abbrev SameDebugger : Debugger → Target → Type 0
SameDebugger d t = t.debugger ≡ d

-- The breakpoints and the memory are `d`, and this breakpoint is remembered.
abbrev After : Debugger → Option ℕ → DebuggerHvm → Type 0
After d lifted h = (h.target.debugger ≡ d) × (h.last_single_step_breakpoint_addr ≡ lifted)

on_domain-After :
    (d : Debugger) (lifted : Option ℕ) (f : Domain → DomainResult) (h : DebuggerHvm)
    → After d lifted h
    → Returns (After d lifted) (on_target (on_domain f) h)
on_domain-After d lifted f h (same, last) = go (f h.target.domain)
  where
    go : (r : DomainResult) → Returns (After d lifted) (of_target h (of_domain h.target r))
    go (ok d') = (same, last)
    go (err (f', d')) = tt

module _ (x : Hypervisor) where
  stop_at-debugger :
      (non_stop : Bool) (v : ℕ) (reason : StopReason) (t : Target)
      → Returns (SameDebugger t.debugger) (stop_at x non_stop v reason t)
  unfolding stop_at did_stop
  stop_at-debugger non_stop v reason t =
      >>=-Returns (SameDebugger t.debugger) (SameDebugger t.debugger)
        (on_domain (pause_domain x non_stop v) t) (λ t'. ok (did_stop reason t'))
        (of_domain-debugger t (pause_domain x non_stop v t.domain)) (λ t' e. e)

  handle_event-debugger :
      (event : Event) (was non_stop : Bool) (t : Target)
      → Returns (SameDebugger t.debugger) (handle_event x event was non_stop t)
  unfolding handle_event
  handle_event-debugger (singlestep v) was non_stop t =
      let stopped = stop_at x non_stop v (stop_breakpoint sigtrap v) t in
      >>=-Returns (SameDebugger t.debugger) (SameDebugger t.debugger)
        (if was then ok t else stopped) (λ t'. on_domain (set_singlestep x false t'.vcpu_id) t')
        (elim (Bool-cases was) [
          | inl e ↦ rw e refl
          | inr e ↦ rw e (stop_at-debugger non_stop v (stop_breakpoint sigtrap v) t)
        ])
        (λ t' e.
          subst (λ d. Returns (SameDebugger d) (on_domain (set_singlestep x false t'.vcpu_id) t')) e
            (of_domain-debugger t' (set_singlestep x false t'.vcpu_id t'.domain)))
  handle_event-debugger (software_breakpoint v) was non_stop t = stop_at-debugger non_stop v _ t
  handle_event-debugger (mem_access v gfn offset r w) was non_stop t =
      stop_at-debugger non_stop v _ t
  handle_event-debugger (other_event v) was non_stop t = refl

  remember-After :
      (lifted : Option ℕ) (h : DebuggerHvm)
      → h.last_single_step_breakpoint_addr ≡ none
      → After h.target.debugger lifted (remember lifted h)
  remember-After none h e = (refl, e)
  remember-After (some a) h e = (refl, refl)

  -- The event that ends the step puts the breakpoint back.
  on_event-After :
      (m : ℕ → ℕ) (event : Event) (d d1 : Debugger) (lifted : Option ℕ) (h : DebuggerHvm)
      → After d1 lifted h
      → PutsBack m d lifted d1
      → Returns
          (λ h2.
            IsPatched m h2.target.debugger
            × SameBreakpoints d h2.target.debugger
            × (h2.last_single_step_breakpoint_addr ≡ none))
          (on_event x event h)
  unfolding on_event
  on_event-After m event d d1 lifted h (same, last) back =
      let (d2, put, h2, there) = back h.target same in
      rw (last, put)
        (ended
          (handle_event x event h.is_continuing h.non_stop_mode (record h.target { debugger = d2 }))
          d2
          (record h {
            target = record h.target { debugger = d2 };
            last_single_step_breakpoint_addr = none;
            is_continuing = false;
          })
          refl h2 there
          (handle_event-debugger event h.is_continuing h.non_stop_mode
            (record h.target { debugger = d2 })))
    where
      ended :
          (r : TargetResult) (d2 : Debugger) (h' : DebuggerHvm)
          → h'.last_single_step_breakpoint_addr ≡ none
          → IsPatched m d2
          → SameBreakpoints d d2
          → Returns (SameDebugger d2) r
          → Returns
              (λ h2.
                IsPatched m h2.target.debugger
                × SameBreakpoints d h2.target.debugger
                × (h2.last_single_step_breakpoint_addr ≡ none))
              (of_target h' r)
      ended (ok t) d2 h' e p there k =
          (subst (IsPatched m) (sym k) p, subst (SameBreakpoints d) (sym k) there, e)
      ended (err (f, t)) d2 h' e p there k = tt

  -- The step itself, from a context that can be read.
  single_step-After :
      (m : ℕ → ℕ) (h : DebuggerHvm) (regs : RegistersAny)
      → IsPatched m h.target.debugger
      → h.last_single_step_breakpoint_addr ≡ none
      → cpu_context x h.target.domain.issued h.target.vcpu_id ≡ some regs
      → (lifted : Option ℕ) × ((d1 : Debugger) × IsPatched m d1
          × (has_breakpoint (read_register (codes "eip") (codes "rip") regs) d1.breakpoints ≡ false)
          × PutsBack m h.target.debugger lifted d1
          × Returns (After d1 lifted) (single_step x h))
  unfolding single_step single_step_with single_step_at
  single_step-After m h regs p e context =
      let a = read_register (codes "eip") (codes "rip") regs in
      let (lifted, (d1, over, p1, absent, back)) = step_over-PutsBack m a h.target p in
      let h1 = remember lifted (record h { target = record h.target { debugger = d1 } }) in
      let after =
        remember-After lifted (record h { target = record h.target { debugger = d1 } }) e in
      (
        lifted,
        (
          d1,
          p1,
          absent,
          back,
          rw (context, over)
              (on_domain-After d1 lifted (resume_one x h.non_stop_mode h.target.vcpu_id) h1 after),
        ),
      )

  -- While an HVM debugger steps from a patched guest, no breakpoint lies at the instruction that is
  -- stepped; when the step and then any event of the monitor have returned normally, the guest is
  -- patched again, with the same breakpoints as before, and none is left to put back.
  pub on_event-single_step :
      (m : ℕ → ℕ) (event : Event) (h : DebuggerHvm) (regs : RegistersAny) {h1 h2 : DebuggerHvm}
      → IsPatched m h.target.debugger
      → h.last_single_step_breakpoint_addr ≡ none
      → cpu_context x h.target.domain.issued h.target.vcpu_id ≡ some regs
      → single_step x h ≡ ok h1
      → on_event x event h1 ≡ ok h2
      → (has_breakpoint
            (read_register (codes "eip") (codes "rip") regs)
            h1.target.debugger.breakpoints
          ≡ false)
        × IsPatched m h2.target.debugger
        × SameBreakpoints h.target.debugger h2.target.debugger
        × (h2.last_single_step_breakpoint_addr ≡ none)
  on_event-single_step m event h regs {h1} {h2} p e context stepped ended =
      let a = read_register (codes "eip") (codes "rip") regs in
      let (lifted, (d1, p1, absent, back, step)) = single_step-After m h regs p e context in
      let now = subst (Returns (After d1 lifted)) stepped step in
      let done =
        subst
          (Returns (λ h3.
            IsPatched m h3.target.debugger
            × SameBreakpoints h.target.debugger h3.target.debugger
            × (h3.last_single_step_breakpoint_addr ≡ none)))
          ended (on_event-After m event h.target.debugger d1 lifted h1 now back) in
      (
        subst (λ d. has_breakpoint a d.breakpoints ≡ false) (sym now.0) absent,
        done.0,
        done.1,
        done.2,
      )
