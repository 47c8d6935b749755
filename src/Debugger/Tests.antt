-- ===== src/Debugger/Tests.antt =====
-- Runs of the debugger's breakpoints and memory at concrete inputs.
use xendbg.Prelude.{ℕ, ◌/◌, ◌≡◌, refl, inr, true, false, none, List, [], ◌∷◌, ok, err, set, arith}
use xendbg.Text.{codes}
use xendbg.Registers.{x86_64, read_register, set_register, cleared}
use xendbg.Xen.Hypervisor.{cpu_context}
use xendbg.Xen.Sample.{accepting, accepting_pv, accepting-IsLawful, at_100}
use xendbg.Xen.Domain.Order.{IsOrdered}
use xendbg.Debugger.Relift.{SameBreakpoints}
use xendbg.Debugger.Target.{Target, stop_breakpoint, sigstop}
use xendbg.Debugger.Hvm
use xendbg.Debugger.Hvm.{DebuggerHvm, singlestep, software_breakpoint, on_event}
use xendbg.Debugger.Hvm.Order.{
  Action, attaching, continuing, event_of, detaching, left_by, act_all, act_all-IsOrdered,
}
use xendbg.Debugger.Hvm.Stepping.{on_event-single_step}
use xendbg.Debugger.Pv
use xendbg.Debugger.Pv.{DebuggerPv, PvResult, on_timer}
use xendbg.Debugger.Pv.Stepping.{GoesOn, HasStopped, on_timer-continue_}
use xendbg.Debugger.Guest.{AddressSpace, Window, machine, peek_bytes, poke_bytes, map_memory, poke}
use xendbg.Debugger.Base.{
  Debugger, has_breakpoint, insert_breakpoint, remove_breakpoint, cleanup,
  read_memory_masking_breakpoints, write_memory_retaining_breakpoints,
}
use xendbg.Debugger.Restore.{IsPatched, overlay}
use xendbg.Debugger.Breakpoints.{
  insert_breakpoint-IsPatched, cleanup-IsPatched, remove_breakpoint-insert_breakpoint,
}
use xendbg.Debugger.Masking.{read_memory-NoneIn, read_memory-OnlyIn}
use xendbg.Debugger.Writing.{write_memory-NoneIn}

-- Frames in the order of the pages, all of them mappable, and the byte 7 everywhere.
abbrev space : AddressSpace
space = record { translate = λ a. a / 4096; mappable = λ f. true }

abbrev sevens : ℕ → ℕ
sevens a = 7

abbrev clean : Debugger
clean = record { breakpoints = []; guest = record { space = space; memory = sevens } }

-- A breakpoint at 100.
abbrev armed : Debugger
armed = record {
  breakpoints = (100, 7) ∷ [];
  guest = record { space = space; memory = overlay space ((100, 7) ∷ []) sevens };
}

clean-IsPatched : IsPatched sevens clean
unfolding overlay
clean-IsPatched = record { patched = refl; saved = tt }

armed-IsPatched : IsPatched sevens armed
armed-IsPatched = record { patched = refl; saved = (refl, refl, tt, tt) }

insert_breakpoint-IsPatched_example :
    (d' : Debugger) × (insert_breakpoint 200 armed ≡ ok d')
    × (has_breakpoint 200 d'.breakpoints ≡ true)
    × IsPatched sevens d'
insert_breakpoint-IsPatched_example =
    insert_breakpoint-IsPatched sevens 200 armed armed-IsPatched refl
      (λ absent. unfold machine in (omega arith, tt))

cleanup-IsPatched_example :
    cleanup armed ≡ ok (record { breakpoints = []; guest = record armed.guest { memory = sevens } })
cleanup-IsPatched_example = cleanup-IsPatched sevens armed armed-IsPatched

abbrev inserted : Debugger
inserted = record { breakpoints = (200, 7) ∷ []; guest = poke clean.guest 200 0xCC }

remove_breakpoint-insert_breakpoint_example : remove_breakpoint 200 inserted ≡ ok clean
unfolding insert_breakpoint has_breakpoint
remove_breakpoint-insert_breakpoint_example =
    remove_breakpoint-insert_breakpoint 200 clean {d' = inserted} refl refl

abbrev at_50 : Window
at_50 = record { base = 50; extent = 4046 }

read_memory-NoneIn_example :
    read_memory_masking_breakpoints 50 4 armed ≡ ok (peek_bytes armed.guest (machine space 50) 4)
unfolding map_memory
read_memory-NoneIn_example = read_memory-NoneIn 50 4 armed at_50 refl (omega arith) (refl, tt)

read_memory-OnlyIn_example :
    read_memory_masking_breakpoints 98 6 armed
    ≡ ok (set (set (peek_bytes armed.guest (machine space 98) 6) 2 7) 3 0)
unfolding map_memory
read_memory-OnlyIn_example =
    read_memory-OnlyIn 98 6 100 7 armed (record { base = 98; extent = 3998 }) refl (omega arith)
      (omega arith) (omega arith) (omega arith) (omega arith) (inr (refl, refl, refl, tt))

write_memory-NoneIn_example :
    write_memory_retaining_breakpoints 50 (1 ∷ 2 ∷ []) armed
    ≡ ok (record armed { guest = poke_bytes armed.guest (machine space 50) (1 ∷ 2 ∷ []) })
unfolding map_memory has_breakpoint
write_memory-NoneIn_example =
    write_memory-NoneIn 50 (1 ∷ 2 ∷ []) armed at_50 (omega arith) (omega arith) (omega arith) refl
      (refl, tt) refl (omega arith)

-- A domain of two virtual CPUs, stopped at the breakpoint.
abbrev stopped : Target
stopped = record {
  debugger = armed;
  domain = record { vcpu_pause_state = false ∷ false ∷ []; issued = [] };
  vcpu_id = 0;
  is_attached = true;
  last_stop_reason = stop_breakpoint sigstop 0;
  stopped = [];
}

abbrev hvm_at_100 : DebuggerHvm
hvm_at_100 = record {
  target = stopped;
  last_single_step_breakpoint_addr = none;
  is_continuing = false;
  non_stop_mode = false;
  monitoring = true;
}

abbrev actions : List Action
actions = attaching ∷ continuing ∷ event_of (software_breakpoint 0) ∷ detaching ∷ []

act_all-IsOrdered_example :
    IsOrdered accepting (act_all accepting actions hvm_at_100).target.domain.issued
act_all-IsOrdered_example = act_all-IsOrdered accepting accepting-IsLawful actions hvm_at_100 tt

abbrev hvm_stepped : DebuggerHvm
hvm_stepped = left_by (Hvm.single_step accepting hvm_at_100)

abbrev hvm_ended : DebuggerHvm
hvm_ended = left_by (on_event accepting (singlestep 0) hvm_stepped)

on_event-single_step_example :
    (has_breakpoint
        (read_register (codes "eip") (codes "rip") (x86_64 at_100))
        hvm_stepped.target.debugger.breakpoints
      ≡ false)
    × IsPatched sevens hvm_ended.target.debugger
    × SameBreakpoints armed hvm_ended.target.debugger
    × (hvm_ended.last_single_step_breakpoint_addr ≡ none)
unfolding cpu_context Hvm.single_step on_event set_register cleared poke
on_event-single_step_example =
    on_event-single_step accepting sevens (singlestep 0) hvm_at_100 (x86_64 at_100)
      {h1 = hvm_stepped} {h2 = hvm_ended} armed-IsPatched refl refl refl refl

abbrev pv_at_100 : DebuggerPv
pv_at_100 = record {
  target = stopped;
  timer_is_running = false;
  is_in_pre_continue_singlestep = false;
  is_continuing = false;
  last_single_step_vcpu_id = 0;
  last_single_step_breakpoint_addr = none;
}

abbrev pv_left_by : PvResult → DebuggerPv
pv_left_by (ok p) = p
pv_left_by (err (f, p)) = p

abbrev pv_stepped : DebuggerPv
pv_stepped = pv_left_by (Pv.continue_ accepting_pv pv_at_100)

abbrev pv_goes_on : DebuggerPv
pv_goes_on = pv_left_by (on_timer accepting_pv true 0 pv_stepped)

abbrev pv_stopped : DebuggerPv
pv_stopped = pv_left_by (on_timer accepting_pv true 1 pv_goes_on)

on_timer-continue__example :
    (has_breakpoint
        (read_register (codes "eip") (codes "rip") (x86_64 at_100))
        pv_stepped.target.debugger.breakpoints
      ≡ false)
    × GoesOn accepting_pv sevens armed 0 pv_stepped.target pv_goes_on
    × HasStopped accepting_pv 1 pv_goes_on.target pv_stopped
unfolding cpu_context Pv.continue_ on_timer cleared poke
on_timer-continue__example =
    on_timer-continue_ accepting_pv sevens pv_at_100 (x86_64 at_100) 0 1 {p1 = pv_stepped}
      {p2 = pv_goes_on} {p3 = pv_stopped} armed-IsPatched refl refl refl refl refl
