-- ===== src/Debugger/Hvm/Order.antt =====
-- Virtual CPUs are paused and unpaused only while the domain is paused: the operations of
-- `DebuggerHVM`.
use xendbg.Prelude.{
  ℕ, refl, Bool, true, false, none, some, Option-cases, inl, inr, List, [], ◌∷◌, ok, err, ◌>>=◌,
  Bool-cases,
}
use xendbg.Text.{codes}
use xendbg.Registers.{read_register}
use xendbg.Xen.Hypervisor.{cpu_context, Hypervisor, set_mem_access, MemAccess, access_rwx}
use xendbg.Xen.Domain.{DomainResult, perform, pause, unpause, unpause_all_vcpus, set_access}
use xendbg.Xen.Domain.Order.{
  IsLawful, IsOrdered, Ordered, Ready, Leaves, >>=-Leaves, StaysReady, perform-Ordered, pause-Ready,
  unpause-Ordered, all-Ready,
}
use xendbg.Debugger.Base.{Outcome, cleanup, remove_breakpoint, has_breakpoint}
use xendbg.Debugger.Target
use xendbg.Debugger.Target.{
  Target, TargetResult, WatchpointType, StopReason, stop_breakpoint, sigtrap, of_outcome, of_domain,
  on_debugger, on_domain, did_stop, step_over, put_back,
}
use xendbg.Debugger.Hvm.{
  DebuggerHvm, HvmResult, Event, of_target, handle_event, on_event, attach, detach, resume_one,
  on_target, resumed, single_step_at, single_step_with, single_step, continue_, access_of,
  insert_watchpoint, remove_watchpoint,
}
use xendbg.Debugger.Hvm.Calls.{
  OrderedTarget, ReadyTarget, OrderedHvm, of_domain-Leaves, of_outcome-Leaves, of_target-Leaves,
  put_back-Ordered, resume_one-Ordered, handle_event-Ordered,
}

module _ (x : Hypervisor) (l : IsLawful x) where
  target_attach-Ordered :
      (t : Target)
      → OrderedTarget x t
      → Leaves (OrderedTarget x) (OrderedTarget x) (Target.attach x t)
  unfolding Target.attach
  target_attach-Ordered t h = ready (pause x t.domain) (pause-Ready x l t.domain h)
    where
      ready :
          (r : DomainResult)
          → StaysReady x r
          → Leaves
              (OrderedTarget x)
              (OrderedTarget x)
              (of_domain (record t { is_attached = true }) r)
      ready (ok d) k = k.0
      ready (err (f, d)) k = k

  target_detach-Ordered :
      (t : Target)
      → OrderedTarget x t
      → Leaves (OrderedTarget x) (OrderedTarget x) (Target.detach x t)
  unfolding Target.detach unpause_all_vcpus
  target_detach-Ordered t h =
      let last = λ (t4 : Target). ok (record t4 { is_attached = false }) in
      let freed = λ (t3 : Target). on_domain (unpause x) t3 >>= last in
      let cleaned = λ (t2 : Target). on_domain (unpause_all_vcpus x) t2 >>= freed in
      >>=-Leaves (ReadyTarget x) (OrderedTarget x) (OrderedTarget x) (on_domain (pause x) t)
        (λ t1. on_debugger cleanup t1 >>= cleaned)
        (of_domain-Leaves (Ready x) (Ordered x) t (pause x t.domain) (pause-Ready x l t.domain h))
        (λ t1 h1.
          >>=-Leaves (ReadyTarget x) (OrderedTarget x) (OrderedTarget x) (on_debugger cleanup t1)
            cleaned (of_outcome-Leaves (Ready x) (Ordered x) t1 (cleanup t1.debugger) h1 h1.0)
            (λ t2 h2.
              >>=-Leaves (ReadyTarget x) (OrderedTarget x) (OrderedTarget x)
                (on_domain (unpause_all_vcpus x) t2) freed
                (of_domain-Leaves (Ready x) (Ordered x) t2 (unpause_all_vcpus x t2.domain)
                  (all-Ready x l false t2.domain h2))
                (λ t3 h3.
                  >>=-Leaves (OrderedTarget x) (OrderedTarget x) (OrderedTarget x)
                    (on_domain (unpause x) t3) last
                    (of_domain-Leaves (Ordered x) (Ordered x) t3 (unpause x t3.domain)
                      (unpause-Ordered x l t3.domain h3))
                    (λ t4 h4. h4))))

  on_event-Ordered :
      (event : Event) (h : DebuggerHvm)
      → OrderedHvm x h
      → Leaves (OrderedHvm x) (OrderedHvm x) (on_event x event h)
  unfolding on_event
  on_event-Ordered event h o =
      let handled = λ (h1 : DebuggerHvm).
        of_target (record h1 { last_single_step_breakpoint_addr = none; is_continuing = false })
          (handle_event x event h.is_continuing h.non_stop_mode h1.target) in
      >>=-Leaves (OrderedHvm x) (OrderedHvm x) (OrderedHvm x)
        (of_target h (put_back h.last_single_step_breakpoint_addr h.target)) handled
        (of_target-Leaves x h (put_back h.last_single_step_breakpoint_addr h.target)
          (put_back-Ordered x h.last_single_step_breakpoint_addr h.target o))
        (λ h1 o1.
          of_target-Leaves x
            (record h1 { last_single_step_breakpoint_addr = none; is_continuing = false })
            (handle_event x event h.is_continuing h.non_stop_mode h1.target)
            (handle_event-Ordered x l event h.is_continuing h.non_stop_mode h1.target o1))

  attach-Ordered :
      (h : DebuggerHvm) → OrderedHvm x h → Leaves (OrderedHvm x) (OrderedHvm x) (attach x h)
  unfolding attach
  attach-Ordered h o =
      >>=-Leaves (OrderedHvm x) (OrderedHvm x) (OrderedHvm x)
        (of_target h (Target.attach x h.target)) (λ h1. ok (record h1 { monitoring = true }))
        (of_target-Leaves x h (Target.attach x h.target) (target_attach-Ordered h.target o))
        (λ h1 o1. o1)

  detach-Ordered :
      (h : DebuggerHvm) → OrderedHvm x h → Leaves (OrderedHvm x) (OrderedHvm x) (detach x h)
  unfolding detach
  detach-Ordered h o =
      of_target-Leaves x (record h { monitoring = false }) (Target.detach x h.target)
        (target_detach-Ordered h.target o)

  resumed-Ordered :
      (h : DebuggerHvm) (non_stop : Bool) (v : ℕ) (t : Target)
      → OrderedTarget x t
      → Leaves (OrderedHvm x) (OrderedHvm x) (of_target h (on_domain (resume_one x non_stop v) t))
  resumed-Ordered h non_stop v t o = of_target-Leaves x h (on_domain (resume_one x non_stop v) t) (
      of_domain-Leaves (Ordered x) (Ordered x) t (resume_one x non_stop v t.domain)
        (resume_one-Ordered x l non_stop v t.domain o))

  single_step_at-Ordered :
      (a : ℕ) (h : DebuggerHvm)
      → OrderedHvm x h
      → Leaves (OrderedHvm x) (OrderedHvm x) (single_step_at x a h)
  unfolding single_step_at step_over
  single_step_at-Ordered a h o =
      elim (Bool-cases (has_breakpoint a h.target.debugger.breakpoints)) [
        | inl e ↦ rw e (after (remove_breakpoint a h.target.debugger))
        | inr e ↦ rw e (resumed-Ordered h h.non_stop_mode h.target.vcpu_id h.target o)
      ]
    where
      after :
          (r : Outcome)
          → Leaves
              (OrderedHvm x)
              (OrderedHvm x)
              (resumed x a h (of_outcome h.target r >>= (λ t'. ok (some a, t'))))
      after (ok d) =
          resumed-Ordered (record h { last_single_step_breakpoint_addr = some a }) h.non_stop_mode
            h.target.vcpu_id (record h.target { debugger = d }) o
      after (err (f, d)) = o

  single_step-Ordered :
      (h : DebuggerHvm) → OrderedHvm x h → Leaves (OrderedHvm x) (OrderedHvm x) (single_step x h)
  unfolding single_step single_step_with
  single_step-Ordered h o =
      elim (Option-cases (cpu_context x h.target.domain.issued h.target.vcpu_id)) [
        | inl e ↦ rw e o
        | inr (regs, e) ↦
            rw e (single_step_at-Ordered (read_register (codes "eip") (codes "rip") regs) h o)
      ]

  watch-Ordered :
      (access : MemAccess) (a bytes : ℕ) (h : DebuggerHvm)
      → OrderedHvm x h
      → Leaves (OrderedHvm x) (OrderedHvm x) (on_target (on_domain (set_access x access a bytes)) h)
  unfolding set_access
  watch-Ordered access a bytes h o =
      of_target-Leaves x h (on_domain (perform x (set_mem_access access a bytes)) h.target) (
        of_domain-Leaves (Ordered x) (Ordered x) h.target
          (perform x (set_mem_access access a bytes) h.target.domain)
          (perform-Ordered x l (set_mem_access access a bytes) h.target.domain refl o))

-- What happens to a debugger: calls of a client, and events of the monitor.
pub data Action : Type 0 where
  attaching detaching continuing stepping : Action
  event_of : Event → Action
  watching unwatching : ℕ → ℕ → WatchpointType → Action

unfoldable pub act : Hypervisor → Action → DebuggerHvm → HvmResult
unfolding attach detach continue_ single_step on_event insert_watchpoint remove_watchpoint
act x attaching h = attach x h
act x detaching h = detach x h
act x continuing h = continue_ x h
act x stepping h = single_step x h
act x (event_of event) h = on_event x event h
act x (watching a bytes type) h = insert_watchpoint x a bytes type h
act x (unwatching a bytes type) h = remove_watchpoint x a bytes type h

-- The state that an operation leaves, whether it throws or not.
abbrev pub left_by : HvmResult → DebuggerHvm
left_by (ok h) = h
left_by (err (f, h)) = h

-- One action after the other; the client goes on after an exception.
unfoldable pub act_all : Hypervisor → List Action → DebuggerHvm → DebuggerHvm
unfolding act
act_all x [] h = h
act_all x (a ∷ actions) h = act_all x actions (left_by (act x a h))

pub act-Ordered :
    (x : Hypervisor) (l : IsLawful x) (a : Action) (h : DebuggerHvm)
    → OrderedHvm x h
    → Leaves (OrderedHvm x) (OrderedHvm x) (act x a h)
unfolding act continue_ insert_watchpoint remove_watchpoint
act-Ordered x l attaching h o = attach-Ordered x l h o
act-Ordered x l detaching h o = detach-Ordered x l h o
act-Ordered x l continuing h o = single_step-Ordered x l (record h { is_continuing = true }) o
act-Ordered x l stepping h o = single_step-Ordered x l h o
act-Ordered x l (event_of event) h o = on_event-Ordered x l event h o
act-Ordered x l (watching a bytes type) h o = watch-Ordered x l (access_of type) a bytes h o
act-Ordered x l (unwatching a bytes type) h o = watch-Ordered x l access_rwx a bytes h o

left_by-Leaves : (P : DebuggerHvm → Type 0) (r : HvmResult) → Leaves P P r → P (left_by r)
left_by-Leaves P (ok h) k = k
left_by-Leaves P (err (f, h)) k = k

-- For a hypervisor that leaves a paused domain paused until it is unpaused: whatever a client and
-- the monitor do with an HVM debugger, and whichever calls fail, every pause or unpause of a virtual
-- CPU is issued while the domain is paused, if this held of the calls issued before.
pub act_all-IsOrdered :
    (x : Hypervisor) (l : IsLawful x) (actions : List Action) (h : DebuggerHvm)
    → IsOrdered x h.target.domain.issued
    → IsOrdered x (act_all x actions h).target.domain.issued
unfolding act_all
act_all-IsOrdered x l [] h o = o
act_all-IsOrdered x l (a ∷ actions) h o =
    act_all-IsOrdered x l actions (left_by (act x a h))
      (left_by-Leaves (OrderedHvm x) (act x a h) (act-Ordered x l a h o))
