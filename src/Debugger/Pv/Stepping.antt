-- ===== src/Debugger/Pv/Stepping.antt =====
-- A step of the PV debugger over a breakpoint, up to the timer's event that ends it, and what
-- `continue_` makes of it.
use mathlib.Core.Path.{subst}
use xendbg.Prelude.{
  ap, ◌∷◌, ℕ, ◌^◌, ◌-◌, ◌≡◌, refl, sym, ◌∙◌, Bool, true, false, Option, none, some, ok, err,
  if◌then◌else◌, ◌==◌,
}
use xendbg.Text.{codes}
use xendbg.Registers.{RegistersAny, read_register}
use xendbg.Xen.Hypervisor.{cpu_context, Hypervisor}
use xendbg.Xen.Domain.{Domain, DomainResult, unpause}
use xendbg.Xen.DomainPv.{set_singlestep, change_cpu_context}
use xendbg.Debugger.Base.{Debugger, has_breakpoint}
use xendbg.Debugger.Restore.{IsPatched}
use xendbg.Debugger.Relift.{SameBreakpoints}
use xendbg.Debugger.Stepping.{Returns, PutsBack, step_over-PutsBack, >>=-Returns}
use xendbg.Debugger.Target.{
  Target, stop_breakpoint, sigtrap, of_domain, on_domain, did_stop, put_back,
}
use xendbg.Debugger.Pv.{
  DebuggerPv, PvResult, of_target, on_target, step_back, remember, stopped_at, on_paused, on_timer,
  prepare_one, single_step_at, single_step_with, single_step, continue_,
}

on_domain-Stable :
    (P : DebuggerPv → Type 0) (f : Domain → DomainResult) (p : DebuggerPv)
    → ((d : Domain)
        → f p.target.domain ≡ ok d
        → P (record p { target = record p.target { domain = d } }))
    → Returns P (on_target (on_domain f) p)
on_domain-Stable P f p h = go (f p.target.domain) refl
  where
    go : (r : DomainResult) → f p.target.domain ≡ r → Returns P (of_target p (of_domain p.target r))
    go (ok d) e = h d e
    go (err (e, d)) e' = tt

otherwise :
    (P : DebuggerPv → Type 0) (c : Bool)
    → c ≡ false
    → (r r' : PvResult) → Returns P r'
    → Returns P (if c then r else r')
otherwise P true e r r' h = cc
otherwise P false e r r' h = h

-- The breakpoints and the memory are `d`, this breakpoint is remembered, and the flags of `p` stand.
abbrev After : Debugger → Option ℕ → DebuggerPv → DebuggerPv → Type 0
After d lifted p p' =
    (p'.target.debugger ≡ d)
    × (p'.last_single_step_breakpoint_addr ≡ lifted)
    × (p'.is_in_pre_continue_singlestep ≡ p.is_in_pre_continue_singlestep)
    × (p'.is_continuing ≡ p.is_continuing)

remember-After :
    (lifted : Option ℕ) (p : DebuggerPv)
    → p.last_single_step_breakpoint_addr ≡ none
    → After p.target.debugger lifted p (remember lifted p)
remember-After none p e = (refl, e, refl, refl)
remember-After (some a) p e = (refl, refl, refl, refl)

-- The state behind the event that ends the step before the guest goes on: the step bit is off, the
-- domain is unpaused, and no stop is reported.
abbrev pub GoesOn : Hypervisor → (ℕ → ℕ) → Debugger → ℕ → Target → DebuggerPv → Type 0
GoesOn x m d vcpu before p =
    IsPatched m p.target.debugger
    × SameBreakpoints d p.target.debugger
    × (p.last_single_step_breakpoint_addr ≡ none)
    × (p.timer_is_running ≡ true)
    × (p.is_in_pre_continue_singlestep ≡ false)
    × (p.is_continuing ≡ true)
    × (p.target.stopped ≡ before.stopped)
    × ((d1 : Domain) × (set_singlestep x false vcpu before.domain ≡ ok d1)
        × (unpause x d1 ≡ ok p.target.domain))

-- The state behind the event that reports a stop: the step bit is off, the instruction pointer is
-- set back, the domain is not unpaused, and `_on_stop` is called once more.
abbrev pub HasStopped : Hypervisor → ℕ → Target → DebuggerPv → Type 0
HasStopped x vcpu before p =
    (p.target.debugger ≡ before.debugger)
    × (p.timer_is_running ≡ false)
    × (p.is_continuing ≡ false)
    × (p.target.last_stop_reason ≡ stop_breakpoint sigtrap vcpu)
    × (p.target.stopped ≡ stop_breakpoint sigtrap vcpu ∷ before.stopped)
    × ((d1 : Domain) × (set_singlestep x false vcpu before.domain ≡ ok d1)
        × (change_cpu_context x step_back vcpu d1 ≡ ok p.target.domain))

module _ (x : Hypervisor) where
  single_step-After :
      (m : ℕ → ℕ) (p : DebuggerPv) (regs : RegistersAny)
      → IsPatched m p.target.debugger
      → p.last_single_step_breakpoint_addr ≡ none
      → cpu_context x p.target.domain.issued p.target.vcpu_id ≡ some regs
      → (lifted : Option ℕ) × ((d1 : Debugger) × IsPatched m d1
          × (has_breakpoint (read_register (codes "eip") (codes "rip") regs) d1.breakpoints ≡ false)
          × PutsBack m p.target.debugger lifted d1
          × Returns (After d1 lifted p) (single_step x p))
  unfolding single_step single_step_with single_step_at
  single_step-After m p regs patched e context =
      let a = read_register (codes "eip") (codes "rip") regs in
      let (lifted, (d1, over, p1, absent, back)) = step_over-PutsBack m a p.target patched in
      let t = record p.target { debugger = d1 } in
      let start = record p { target = t; last_single_step_vcpu_id = t.vcpu_id } in
      let after = remember-After lifted start e in
      (
        lifted,
        (
          d1,
          p1,
          absent,
          back,
          rw (context, over)
              (>>=-Returns (After d1 lifted p) (After d1 lifted p)
                (on_target (on_domain (prepare_one x t.vcpu_id)) (remember lifted start))
                (λ p'. on_target (on_domain (unpause x)) (record p' { timer_is_running = true }))
                (on_domain-Stable (After d1 lifted p) (prepare_one x t.vcpu_id)
                  (remember lifted start) (λ d e'. after))
                (λ p' h.
                  on_domain-Stable (After d1 lifted p) (unpause x)
                    (record p' { timer_is_running = true }) (λ d e'. h))),
        ),
      )

  -- The event behind the step of `continue_`.
  on_paused-GoesOn :
      (m : ℕ → ℕ) (vcpu : ℕ) (d d1 : Debugger) (lifted : Option ℕ) (p0 p : DebuggerPv)
      → p0.is_in_pre_continue_singlestep ≡ true
      → p0.is_continuing ≡ true
      → After d1 lifted p0 p
      → PutsBack m d lifted d1
      → Returns (GoesOn x m d vcpu p.target) (on_paused x vcpu p)
  unfolding on_paused
  on_paused-GoesOn m vcpu d d1 lifted p0 p pre cont (same, last, pre', cont') back =
      let (d2, put, h2, there) = back p.target same in
      let p1 = record p {
        target = record p.target { debugger = d2 };
        timer_is_running = false;
        last_single_step_breakpoint_addr = none;
      } in
      let Ready = λ (p2 : DebuggerPv).
        IsPatched m p2.target.debugger
        × SameBreakpoints d p2.target.debugger
        × (p2.last_single_step_breakpoint_addr ≡ none)
        × (p2.is_in_pre_continue_singlestep ≡ true)
        × (p2.is_continuing ≡ true)
        × (p2.target.stopped ≡ p.target.stopped)
        × (set_singlestep x false vcpu p.target.domain ≡ ok p2.target.domain) in
      rw (last, put)
        (>>=-Returns Ready (GoesOn x m d vcpu p.target)
          (on_target (on_domain (set_singlestep x false vcpu)) p1)
          (λ p2.
            if p2.is_in_pre_continue_singlestep
            then on_target (on_domain (unpause x))
                (record p2 { is_in_pre_continue_singlestep = false; timer_is_running = true })
            else stopped_at x vcpu p2)
          (on_domain-Stable Ready (set_singlestep x false vcpu) p1
            (λ d' e. (h2, there, refl, pre' ∙ pre, cont' ∙ cont, refl, e)))
          (λ p2 h. rw h.3 (
            on_domain-Stable (GoesOn x m d vcpu p.target) (unpause x)
              (record p2 { is_in_pre_continue_singlestep = false; timer_is_running = true })
              (λ d' e. (h.0, h.1, h.2, refl, refl, h.4, h.5, (p2.target.domain, h.6, e))))))

  stopped_at-HasStopped :
      (vcpu : ℕ) (before : Target) (p : DebuggerPv)
      → p.target.debugger ≡ before.debugger
      → p.timer_is_running ≡ false
      → p.is_continuing ≡ true
      → p.target.stopped ≡ before.stopped
      → set_singlestep x false vcpu before.domain ≡ ok p.target.domain
      → Returns (HasStopped x vcpu before) (stopped_at x vcpu p)
  unfolding stopped_at did_stop
  stopped_at-HasStopped vcpu before p same timer cont told off =
      let Back = λ (p1 : DebuggerPv).
        (p1.target.debugger ≡ before.debugger)
        × (p1.timer_is_running ≡ false)
        × (p1.is_continuing ≡ false)
        × (p1.target.stopped ≡ before.stopped)
        × (change_cpu_context x step_back vcpu p.target.domain ≡ ok p1.target.domain) in
      let back =
        on_target (on_domain (change_cpu_context x step_back vcpu))
          (record p { is_continuing = false }) in
      rw cont (
        >>=-Returns Back (HasStopped x vcpu before) back
          (λ p1. ok (record p1 { target = did_stop (stop_breakpoint sigtrap vcpu) p1.target }))
          (on_domain-Stable Back (change_cpu_context x step_back vcpu)
            (record p { is_continuing = false }) (λ d' e. (same, timer, refl, told, e)))
          (λ p1 h. (
            h.0,
            h.1,
            h.2,
            refl,
            ap (λ reasons. stop_breakpoint sigtrap vcpu ∷ reasons) h.3,
            (p.target.domain, off, h.4),
          )))

  -- The event behind a stop.
  on_paused-HasStopped :
      (vcpu : ℕ) (p : DebuggerPv)
      → p.last_single_step_breakpoint_addr ≡ none
      → p.is_in_pre_continue_singlestep ≡ false
      → p.is_continuing ≡ true
      → Returns (HasStopped x vcpu p.target) (on_paused x vcpu p)
  unfolding on_paused put_back
  on_paused-HasStopped vcpu p last pre cont =
      let p1 = record p { timer_is_running = false; last_single_step_breakpoint_addr = none } in
      let Ready = λ (p2 : DebuggerPv).
        (p2.target.debugger ≡ p.target.debugger)
        × (p2.timer_is_running ≡ false)
        × (p2.is_in_pre_continue_singlestep ≡ false)
        × (p2.is_continuing ≡ true)
        × (p2.target.stopped ≡ p.target.stopped)
        × (set_singlestep x false vcpu p.target.domain ≡ ok p2.target.domain) in
      rw last (
        >>=-Returns Ready (HasStopped x vcpu p.target)
          (on_target (on_domain (set_singlestep x false vcpu)) p1)
          (λ p2.
            if p2.is_in_pre_continue_singlestep
            then on_target (on_domain (unpause x))
                (record p2 { is_in_pre_continue_singlestep = false; timer_is_running = true })
            else stopped_at x vcpu p2)
          (on_domain-Stable Ready (set_singlestep x false vcpu) p1
            (λ d' e. (refl, refl, pre, cont, refl, e)))
          (λ p2 h.
            otherwise (HasStopped x vcpu p.target) p2.is_in_pre_continue_singlestep h.2
              (on_target (on_domain (unpause x))
                (record p2 { is_in_pre_continue_singlestep = false; timer_is_running = true }))
              (stopped_at x vcpu p2) (stopped_at-HasStopped vcpu p.target p2 h.0 h.1 h.3 h.4 h.5)))

  -- The virtual CPU that an event of the timer is about.
  abbrev pub vcpu_of_event : ℕ → DebuggerPv → ℕ
  vcpu_of_event status_vcpu p =
      if status_vcpu == 2 ^ 64 - 1 then p.last_single_step_vcpu_id else status_vcpu

  -- When a PV debugger continues from a patched guest, and the timer then twice finds the domain
  -- paused, where all three return normally: no breakpoint lies at the first instruction while it is
  -- stepped; the first event puts the same breakpoints back, turns the step bit off, unpauses the
  -- domain, keeps the timer running and reports nothing; the second one turns the step bit off, sets
  -- the instruction pointer back by one, stops the timer and reports the stop, once, with the
  -- breakpoints as they were.
  pub on_timer-continue_ :
      (m : ℕ → ℕ) (p : DebuggerPv) (regs : RegistersAny) (v v' : ℕ) {p1 p2 p3 : DebuggerPv}
      → IsPatched m p.target.debugger
      → p.last_single_step_breakpoint_addr ≡ none
      → cpu_context x p.target.domain.issued p.target.vcpu_id ≡ some regs
      → continue_ x p ≡ ok p1
      → on_timer x true v p1 ≡ ok p2
      → on_timer x true v' p2 ≡ ok p3
      → (has_breakpoint
            (read_register (codes "eip") (codes "rip") regs)
            p1.target.debugger.breakpoints
          ≡ false)
        × GoesOn x m p.target.debugger (vcpu_of_event v p1) p1.target p2
        × HasStopped x (vcpu_of_event v' p2) p2.target p3
  unfolding continue_ on_timer
  on_timer-continue_ m p regs v v' {p1} {p2} {p3} patched e context continued first second =
      let p0 = record p { is_continuing = true; is_in_pre_continue_singlestep = true } in
      let (lifted, (d1, h1, absent, back, step)) = single_step-After m p0 regs patched e context in
      let after = subst (Returns (After d1 lifted p0)) continued step in
      let on = subst (Returns (GoesOn x m p.target.debugger (vcpu_of_event v p1) p1.target)) first (
        on_paused-GoesOn m (vcpu_of_event v p1) p.target.debugger d1 lifted p0 p1 refl refl after
          back) in
      let off =
        subst (Returns (HasStopped x (vcpu_of_event v' p2) p2.target)) second
          (on_paused-HasStopped (vcpu_of_event v' p2) p2 on.2 on.4 on.5) in
      let a = read_register (codes "eip") (codes "rip") regs in
      (subst (λ d. has_breakpoint a d.breakpoints ≡ false) (sym after.0) absent, on, off)
