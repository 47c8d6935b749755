-- ===== src/Server/Handler/Base.antt =====
-- What the operators of `GDBRequestHandler` share: the virtual functions that they call, their
-- exceptions, and the parts of their replies.
use xendbg.Prelude.{
  ℕ, zero, suc, ◌+◌, ◌-◌, ◌*◌, ◌%◌, ◌^◌, Option, none, some, ◌==◌, if◌then◌else◌, List, [], ◌∷◌,
  Result,
}
use xendbg.Text.{codes, print_number}
use xendbg.Registers.{RegistersAny, Context, Metadata, assign_by_id}
use xendbg.Xen.Domain.{Domain, DomainResult}
use xendbg.Debugger.Target.{
  Target, TargetFault, WatchpointType, access_watchpoint, read_watchpoint, write_watchpoint,
  StopReason, stop_breakpoint, stop_watchpoint,
}
use xendbg.Gdb.Request.{no_thread}
use xendbg.Gdb.Response.{Response, stop_reason_signal, query_register_info_response}
use xendbg.Gdb.Connection.{Session}

-- The virtual functions of `Debugger`, and `set_cpu_context` of its `Domain`.
pub record Backend (D : Type 0) : Type 0 where
  pub target : D → Target
  pub with_target : D → Target → D
  pub continue_ : D → Result (TargetFault × D) D
  pub single_step : D → Result (TargetFault × D) D
  pub detach : D → Result (TargetFault × D) D
  pub insert_watchpoint : ℕ → ℕ → WatchpointType → D → Result (TargetFault × D) D
  pub remove_watchpoint : ℕ → ℕ → WatchpointType → D → Result (TargetFault × D) D
  pub set_cpu_context : RegistersAny → ℕ → Domain → DomainResult

-- What the operators throw; `uninitialised` is a read of a member that no constructor set.
pub data HandlerFault : Type 0 where
  target_fault : TargetFault → HandlerFault
  word_size_exception packet_size_exception uninitialised : HandlerFault

-- An operator that throws leaves the state that it had reached.
abbrev pub Handled : Type 0 → Type 0
Handled D = Result (HandlerFault × Session D) (Session D)

abbrev pub sigkill : ℕ
sigkill = 9

-- `get_thread_ids`, from an id on.
unfoldable pub ids_from : ℕ → ℕ → List ℕ
ids_from vcpu_id zero = []
ids_from vcpu_id (suc count) = (vcpu_id + 1) ∷ ids_from (vcpu_id + 1) count

-- The virtual CPU of a request: a VCPU_ID has 32 bits.
unfoldable pub vcpu_of : ℕ → ℕ
vcpu_of thread_id = if thread_id == no_thread then 0 else (thread_id + 2 ^ 64 - 1) % 2 ^ 64 % 2 ^ 32

-- The types of breakpoints that are watchpoints; hardware breakpoints and others are not supported.
unfoldable pub watchpoint_of : ℕ → Option WatchpointType
watchpoint_of type =
    if type == 2
    then some write_watchpoint
    else if type == 3
    then some read_watchpoint
    else if type == 4
    then some access_watchpoint
    else none

-- `send_stop_reply`; each case of the switch over the type falls through to the last one.
unfoldable pub stop_reply : List ℕ → StopReason → Response
unfolding print_number
stop_reply ids (stop_breakpoint signal vcpu_id) = stop_reason_signal signal vcpu_id ids [] []
stop_reply ids (stop_watchpoint signal vcpu_id address type) =
    stop_reason_signal signal vcpu_id ids (codes "watch") (print_number 16 address)

abbrev pub register_info : Metadata → Response
register_info md = query_register_info_response md.name (8 * md.width) md.offset md.gcc_id

-- The widths and the values of a context.
abbrev pub values_of : Context → List (ℕ × ℕ)
values_of [] = []
values_of (r ∷ rs) = (r.type.width, r.value) ∷ values_of rs

-- The loop over the values of a batch write, which takes the last one first. `none` is the
-- exception for a register that the context lacks.
unfoldable pub assign_all : List (ℕ × ℕ) → Context → Option Context
unfolding assign_by_id
assign_all [] regs = some regs
assign_all ((id, value) ∷ values) regs = elim (assign_all values regs) [
  | none ↦ none
  | some regs' ↦ assign_by_id id value regs'
]
