-- ===== src/Debugger/Hvm/Calls.antt =====
-- Virtual CPUs are paused and unpaused only while the domain is paused: the calls that
-- `DebuggerHVM` makes of the domain.
use xendbg.Prelude.{
  ℕ, refl, Bool, true, false, Option, none, some, inl, inr, ok, err, ◌>>=◌, if◌then◌else◌, ltb,
  Bool-cases,
}
use xendbg.Xen.Hypervisor.{Hypervisor, debug_control}
use xendbg.Xen.Domain.{
  Domain, DomainResult, call_failed, perform, pause, unpause, pause_vcpu, unpause_vcpu,
  pause_all_vcpus,
}
use xendbg.Xen.Domain.Order.{
  IsLawful, IsOrdered, Ordered, Ready, Leaves, >>=-Leaves, StaysReady, with_dominfo-Leaves,
  perform-Ready, perform-Ordered, pause-Ready, unpause-Ordered, vcpu-Ready, all-Ready,
}
use xendbg.Xen.DomainHvm.{set_singlestep}
use xendbg.Debugger.Base.{Outcome, insert_breakpoint}
use xendbg.Debugger.Target.{
  Target, TargetResult, StopReason, stop_breakpoint, sigtrap, of_outcome, of_domain, on_domain,
  did_stop, put_back,
}
use xendbg.Debugger.Hvm.{
  DebuggerHvm, Event, singlestep, software_breakpoint, mem_access, other_event, of_target,
  pause_domain, stop_at, handle_event, resume_one,
}

abbrev pub OrderedTarget : Hypervisor → Target → Type 0
OrderedTarget x t = IsOrdered x t.domain.issued

abbrev pub ReadyTarget : Hypervisor → Target → Type 0
ReadyTarget x t = Ready x t.domain

abbrev pub OrderedHvm : Hypervisor → DebuggerHvm → Type 0
OrderedHvm x h = IsOrdered x h.target.domain.issued

-- What an operation of the domain leaves, it leaves as one of the target.
pub of_domain-Leaves :
    (P Q : Domain → Type 0) (t : Target) (r : DomainResult)
    → Leaves P Q r
    → Leaves (λ t'. P t'.domain) (λ t'. Q t'.domain) (of_domain t r)
of_domain-Leaves P Q t (ok d) h = h
of_domain-Leaves P Q t (err (f, d)) h = h

-- An operation on the breakpoints calls nothing that is recorded.
pub of_outcome-Leaves :
    (P Q : Domain → Type 0) (t : Target) (r : Outcome)
    → P t.domain
    → Q t.domain
    → Leaves (λ t'. P t'.domain) (λ t'. Q t'.domain) (of_outcome t r)
of_outcome-Leaves P Q t (ok d) h k = h
of_outcome-Leaves P Q t (err (f, d)) h k = k

pub of_target-Leaves :
    (x : Hypervisor) (h : DebuggerHvm) (r : TargetResult)
    → Leaves (OrderedTarget x) (OrderedTarget x) r
    → Leaves (OrderedHvm x) (OrderedHvm x) (of_target h r)
of_target-Leaves x h (ok t) k = k
of_target-Leaves x h (err (f, t)) k = k

if-StaysReady :
    (x : Hypervisor) (b : Bool) (r s : DomainResult)
    → StaysReady x r
    → StaysReady x s
    → StaysReady x (if b then r else s)
if-StaysReady x true r s h k = h
if-StaysReady x false r s h k = k

pub put_back-Ordered :
    (x : Hypervisor) (lifted : Option ℕ) (t : Target)
    → OrderedTarget x t
    → Leaves (OrderedTarget x) (OrderedTarget x) (put_back lifted t)
unfolding put_back
put_back-Ordered x none t h = h
put_back-Ordered x (some a) t h =
    of_outcome-Leaves (Ordered x) (Ordered x) t (insert_breakpoint a t.debugger) h h

module _ (x : Hypervisor) (l : IsLawful x) where
  set_singlestep-Ready :
      (enable : Bool) (v : ℕ) (d : Domain) → Ready x d → StaysReady x (set_singlestep x enable v d)
  unfolding set_singlestep
  set_singlestep-Ready enable v d h =
      with_dominfo-Leaves x (Ready x) (Ordered x) d
        (if ltb (x.max_vcpu_id d.issued) v
          then err (call_failed, d)
          else perform x (debug_control enable v) d)
        h.0
        (elim (Bool-cases (ltb (x.max_vcpu_id d.issued) v)) [
          | inl e ↦ rw e h.0
          | inr e ↦ rw e (perform-Ready x l (debug_control enable v) d refl h)
        ])

  set_singlestep-Ordered :
      (enable : Bool) (v : ℕ) (d : Domain)
      → Ordered x d
      → Leaves (Ordered x) (Ordered x) (set_singlestep x enable v d)
  unfolding set_singlestep
  set_singlestep-Ordered enable v d h =
      with_dominfo-Leaves x (Ordered x) (Ordered x) d
        (if ltb (x.max_vcpu_id d.issued) v
          then err (call_failed, d)
          else perform x (debug_control enable v) d)
        h
        (elim (Bool-cases (ltb (x.max_vcpu_id d.issued) v)) [
          | inl e ↦ rw e h
          | inr e ↦ rw e (perform-Ordered x l (debug_control enable v) d refl h)
        ])

  pause_domain-Ordered :
      (non_stop : Bool) (v : ℕ) (d : Domain)
      → Ordered x d
      → Leaves (Ordered x) (Ordered x) (pause_domain x non_stop v d)
  unfolding pause_domain pause_vcpu pause_all_vcpus
  pause_domain-Ordered non_stop v d h =
      >>=-Leaves (Ready x) (Ordered x) (Ordered x) (pause x d)
        (λ d1. (if non_stop then pause_vcpu x v d1 else pause_all_vcpus x d1) >>= unpause x)
        (pause-Ready x l d h)
        (λ d1 h1.
          >>=-Leaves (Ready x) (Ordered x) (Ordered x)
            (if non_stop then pause_vcpu x v d1 else pause_all_vcpus x d1) (unpause x)
            (if-StaysReady x non_stop (pause_vcpu x v d1) (pause_all_vcpus x d1)
              (vcpu-Ready x l true v d1 h1) (all-Ready x l true d1 h1))
            (unpause-Ordered x l))

  -- The call order of `single_step`.
  pub resume_one-Ordered :
      (non_stop : Bool) (v : ℕ) (d : Domain)
      → Ordered x d
      → Leaves (Ordered x) (Ordered x) (resume_one x non_stop v d)
  unfolding resume_one unpause_vcpu pause_all_vcpus
  resume_one-Ordered non_stop v d h =
      let released =
        λ (d3 : Domain). (if non_stop then ok d3 else unpause_vcpu x v d3) >>= unpause x in
      >>=-Leaves (Ready x) (Ordered x) (Ordered x) (pause x d)
        (λ d1.
          (if non_stop then ok d1 else pause_all_vcpus x d1)
          >>= (λ d2. set_singlestep x true v d2 >>= released))
        (pause-Ready x l d h)
        (λ d1 h1.
          >>=-Leaves (Ready x) (Ordered x) (Ordered x)
            (if non_stop then ok d1 else pause_all_vcpus x d1)
            (λ d2. set_singlestep x true v d2 >>= released)
            (if-StaysReady x non_stop (ok d1) (pause_all_vcpus x d1) h1 (all-Ready x l true d1 h1))
            (λ d2 h2.
              >>=-Leaves (Ready x) (Ordered x) (Ordered x) (set_singlestep x true v d2) released
                (set_singlestep-Ready true v d2 h2)
                (λ d3 h3.
                  >>=-Leaves (Ready x) (Ordered x) (Ordered x)
                    (if non_stop then ok d3 else unpause_vcpu x v d3) (unpause x)
                    (if-StaysReady x non_stop (ok d3) (unpause_vcpu x v d3) h3
                      (vcpu-Ready x l false v d3 h3))
                    (unpause-Ordered x l))))

  stop_at-Ordered :
      (non_stop : Bool) (v : ℕ) (reason : StopReason) (t : Target)
      → OrderedTarget x t
      → Leaves (OrderedTarget x) (OrderedTarget x) (stop_at x non_stop v reason t)
  unfolding stop_at did_stop
  stop_at-Ordered non_stop v reason t h =
      >>=-Leaves (OrderedTarget x) (OrderedTarget x) (OrderedTarget x)
        (on_domain (pause_domain x non_stop v) t) (λ t'. ok (did_stop reason t'))
        (of_domain-Leaves (Ordered x) (Ordered x) t (pause_domain x non_stop v t.domain)
          (pause_domain-Ordered non_stop v t.domain h))
        (λ t' h'. h')

  pub handle_event-Ordered :
      (event : Event) (was_continuing non_stop : Bool) (t : Target)
      → OrderedTarget x t
      → Leaves (OrderedTarget x) (OrderedTarget x) (handle_event x event was_continuing non_stop t)
  unfolding handle_event
  handle_event-Ordered (singlestep v) was non_stop t h =
      let stopped = stop_at x non_stop v (stop_breakpoint sigtrap v) t in
      >>=-Leaves (OrderedTarget x) (OrderedTarget x) (OrderedTarget x)
        (if was then ok t else stopped) (λ t'. on_domain (set_singlestep x false t'.vcpu_id) t')
        (elim (Bool-cases was) [
          | inl e ↦ rw e h
          | inr e ↦ rw e (stop_at-Ordered non_stop v (stop_breakpoint sigtrap v) t h)
        ])
        (λ t' h'.
          of_domain-Leaves (Ordered x) (Ordered x) t' (set_singlestep x false t'.vcpu_id t'.domain)
            (set_singlestep-Ordered false t'.vcpu_id t'.domain h'))
  handle_event-Ordered (software_breakpoint v) was non_stop t h = stop_at-Ordered non_stop v _ t h
  handle_event-Ordered (mem_access v gfn offset r w) was non_stop t h =
      stop_at-Ordered non_stop v _ t h
  handle_event-Ordered (other_event v) was non_stop t h = h
