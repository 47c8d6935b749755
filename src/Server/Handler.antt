-- ===== src/Server/Handler.antt =====
-- `GDBRequestHandler` (include/GDBServer/GDBRequestHandler.hpp, src/GDBServer/GDBRequestHandler.cpp):
-- the operator for each request, over the virtual functions of a debugger.
mod Base
unfoldable pub use Base.{ids_from, vcpu_of, watchpoint_of, stop_reply, assign_all}
pub use Base.{
  Backend, HandlerFault, target_fault, word_size_exception, packet_size_exception, uninitialised,
  Handled, sigkill, register_info, values_of,
}
use xendbg.Prelude.{
  ℕ, zero, suc, ◌+◌, ◌-◌, ◌*◌, ◌%◌, ◌^◌, true, false, ◌||◌, Option, none, some, ltb, ◌==◌,
  if◌then◌else◌, List, [], ◌∷◌, ◌++◌, Bytes, length, take, Result, ok, err, ◌>>=◌,
}
use xendbg.Text.{codes, print_number}
use xendbg.Registers.{
  RegistersAny, Context, Metadata, context_of, with_context, find_by_id, assign_by_id,
  find_metadata_by_id,
}
use xendbg.Registers.Layouts.{registers_32, registers_64}
use xendbg.Xen.Hypervisor.{cpu_context, Hypervisor}
use xendbg.Xen.Domain.{call_failed, Domain, DomainResult, pause, destroy}
use xendbg.Debugger.Base.{
  Debugger, Fault, undefined_behaviour, insert_breakpoint, remove_breakpoint,
  read_memory_masking_breakpoints, write_memory_retaining_breakpoints,
}
use xendbg.Debugger.Target.{
  domain_fault, Target, TargetFault, memory_fault, no_context, TargetResult, WatchpointType,
  access_watchpoint, read_watchpoint, write_watchpoint, StopReason, stop_breakpoint,
  stop_watchpoint, sigstop, on_debugger, on_domain,
}
use xendbg.Gdb.Request.{Request, no_thread}
use xendbg.Gdb.Response.{
  Response, ok_response, not_supported, stop_reason_signal, terminated, memory_read_response,
  register_read_response, general_registers_batch_read_response,
  query_watchpoint_support_info_response, query_supported_response,
  query_current_thread_id_response, query_thread_info_response, query_thread_info_end_response,
  query_host_info_response, query_process_info_response, query_register_info_response,
}
use xendbg.Gdb.Connection.{Session, send, send_error}

module _ {D : Type 0} (x : Hypervisor) (b : Backend D) where
  unfoldable pub get_thread_ids : D → List ℕ
  unfolding ids_from
  get_thread_ids d = ids_from 0 (x.max_vcpu_id (b.target d).domain.issued + 1)

  -- A call of the debugger that may throw.
  abbrev pub of_call : Session D → Result (TargetFault × D) D → Handled D
  of_call s (ok d) = ok (record s { handler = d })
  of_call s (err (f, d)) = err (target_fault f, record s { handler = d })

  abbrev pub call : (D → Result (TargetFault × D) D) → Session D → Handled D
  call f s = of_call s (f s.handler)

  abbrev pub of_target : D → TargetResult → Result (TargetFault × D) D
  of_target d (ok t) = ok (b.with_target d t)
  of_target d (err (f, t)) = err (f, b.with_target d t)

  abbrev pub on_target : (Target → TargetResult) → D → Result (TargetFault × D) D
  on_target f d = of_target d (f (b.target d))

  abbrev pub reply : Response → Session D → Handled D
  reply response s = ok (send response s)

  -- What is done with the ids that `get_thread_ids` returns; `get_dominfo` in it may throw.
  abbrev pub with_thread_ids : (List ℕ → Session D → Handled D) → Session D → Handled D
  with_thread_ids next s =
      if x.has_dominfo (b.target s.handler).domain.issued
      then next (get_thread_ids s.handler) s
      else err (target_fault (domain_fault call_failed), s)

  unfoldable pub send_stop_reply : StopReason → Session D → Handled D
  unfolding send stop_reply get_thread_ids
  send_stop_reply reason s = with_thread_ids (λ ids. reply (stop_reply ids reason)) s

  -- `get_cpu_context`, with what is done with the context.
  abbrev pub given_context :
      Session D → (RegistersAny → Handled D) → Option RegistersAny → Handled D
  given_context s next none = err (target_fault no_context, s)
  given_context s next (some regs) = next regs

  abbrev pub with_context_at : ℕ → Session D → (RegistersAny → Handled D) → Handled D
  with_context_at vcpu s next =
      given_context s next (cpu_context x (b.target s.handler).domain.issued vcpu)

  abbrev pub write_context : RegistersAny → ℕ → Session D → Handled D
  write_context regs vcpu = call (on_target (on_domain (b.set_cpu_context regs vcpu)))

  abbrev pub described : Session D → Option Metadata → Handled D
  described s none = ok (send_error 0x45 [] s)
  described s (some md) = reply (register_info md) s

  unfoldable pub on_register_info : ℕ → Session D → Handled D
  unfolding send send_error find_metadata_by_id
  on_register_info id s =
      let word_size = x.word_size (b.target s.handler).domain.issued in
      if word_size == 8
      then described s (find_metadata_by_id id registers_64)
      else if word_size == 4
      then described s (find_metadata_by_id id registers_32)
      else err (word_size_exception, s)

  abbrev pub no_register : ℕ → Bytes
  no_register id = codes "No register with ID " ++ print_number 10 id

  abbrev pub found : ℕ → Session D → Option (Metadata × ℕ) → Handled D
  found id s none = ok (send_error 0x45 (no_register id) s)
  found id s (some (md, value)) = reply (register_read_response value) s

  unfoldable pub on_register_read : ℕ → ℕ → Session D → Handled D
  unfolding send send_error find_by_id vcpu_of print_number
  on_register_read id thread_id s =
      with_context_at (vcpu_of thread_id) s (λ regs. found id s (find_by_id id (context_of regs)))

  -- Where the register is missing, an error is sent, and then the reply of a write that succeeded.
  abbrev pub assigned : ℕ → ℕ → Session D → RegistersAny → Option Context → Handled D
  assigned id vcpu s regs none =
      write_context regs vcpu (send_error 0x45 (no_register id) s) >>= reply ok_response
  assigned id vcpu s regs (some changed) =
      write_context (with_context regs changed) vcpu s >>= reply ok_response

  unfoldable pub on_register_write : ℕ → ℕ → Option ℕ → Session D → Handled D
  unfolding send send_error assign_by_id vcpu_of print_number
  on_register_write id value none s = err (uninitialised, s)
  on_register_write id value (some thread_id) s =
      with_context_at (vcpu_of thread_id) s
        (λ regs. assigned id (vcpu_of thread_id) s regs (assign_by_id id value (context_of regs)))

  unfoldable pub on_registers_read : ℕ → Session D → Handled D
  unfolding send vcpu_of
  on_registers_read thread_id s =
      with_context_at (vcpu_of thread_id) s
        (λ regs. reply (general_registers_batch_read_response (values_of (context_of regs))) s)

  abbrev pub all_assigned : ℕ → Session D → RegistersAny → Option Context → Handled D
  all_assigned vcpu s regs none = err (packet_size_exception, s)
  all_assigned vcpu s regs (some changed) =
      write_context (with_context regs changed) vcpu s >>= reply ok_response

  unfoldable pub on_registers_write : List (ℕ × ℕ) → Session D → Handled D
  unfolding send assign_all
  on_registers_write values s =
      let vcpu = (b.target s.handler).vcpu_id in
      with_context_at vcpu s
        (λ regs. all_assigned vcpu s regs (assign_all values (context_of regs)))

  abbrev pub memory_reply : Session D → Result Fault Bytes → Handled D
  memory_reply s (ok bytes) = reply (memory_read_response bytes) s
  memory_reply s (err f) = err (target_fault (memory_fault f), s)

  unfoldable pub on_memory_read : ℕ → ℕ → Session D → Handled D
  unfolding send read_memory_masking_breakpoints
  on_memory_read address size s =
      memory_reply s (read_memory_masking_breakpoints address size (b.target s.handler).debugger)

  -- The parser of the request reads as many bytes as its length says.
  unfoldable pub on_memory_write : ℕ → ℕ → Bytes → Session D → Handled D
  unfolding send write_memory_retaining_breakpoints
  on_memory_write address size bytes s =
      if ltb (length bytes) size
      then err (target_fault (memory_fault undefined_behaviour), s)
      else call
          (on_target (on_debugger (write_memory_retaining_breakpoints address (take size bytes)))) s
        >>= reply ok_response

  abbrev pub on_watchpoint :
      (ℕ → ℕ → WatchpointType → D → Result (TargetFault × D) D)
      → Option WatchpointType
      → ℕ
      → ℕ
      → Session D
      → Handled D
  on_watchpoint watch none address kind s = reply not_supported s
  on_watchpoint watch (some type) address kind s =
      call (watch address kind type) s >>= reply ok_response

  -- BreakpointInsertRequest and BreakpointRemoveRequest.
  unfoldable pub on_breakpoint :
      (ℕ → Debugger → Result (Fault × Debugger) Debugger)
      → (ℕ → ℕ → WatchpointType → D → Result (TargetFault × D) D)
      → ℕ
      → ℕ
      → ℕ
      → Session D
      → Handled D
  unfolding send watchpoint_of
  on_breakpoint software watch type address kind s =
      if type == 0
      then call (on_target (on_debugger (software address))) s >>= reply ok_response
      else on_watchpoint watch (watchpoint_of type) address kind s

  unfoldable pub on_interrupt : Session D → Handled D
  unfolding send get_thread_ids pause
  on_interrupt s = do
    s' ← call (on_target (on_domain (pause x))) s
    with_thread_ids (λ ids. reply (stop_reason_signal sigstop 1 ids [] [])) s'

  -- -1 and 0 stand for all and for any thread.
  unfoldable pub on_set_thread : ℕ → Session D → Handled D
  unfolding send
  on_set_thread thread_id s =
      if thread_id == no_thread || thread_id == 0
      then reply ok_response s
      else reply ok_response (record s {
        handler =
            b.with_target s.handler (record (b.target s.handler) { vcpu_id = thread_id % 2 ^ 32 });
      })

  -- `get_thread_ids` never returns an empty list, for which the response would throw.
  abbrev pub thread_info : List ℕ → Session D → Handled D
  thread_info [] s = reply query_thread_info_end_response s
  thread_info (id ∷ ids) s = reply (query_thread_info_response id ids) s

  -- The operators. (The name of the domain, which the reply to qHostInfo does not use, is left out.)
  unfoldable pub handle : Request → Session D → Handled D
  unfolding send get_thread_ids on_interrupt on_register_info send_stop_reply destroy on_set_thread
      on_register_read on_register_write on_registers_read on_registers_write on_memory_read
      on_memory_write on_breakpoint insert_breakpoint remove_breakpoint
  handle Request.start_no_ack_mode s = reply ok_response (record s { ack_mode = false })
  handle Request.interrupt s = on_interrupt s
  handle Request.query_watchpoint_support_info s =
      reply (query_watchpoint_support_info_response (2 ^ 32 - 1)) s
  handle (Request.query_supported features) s =
      reply
        (query_supported_response (
          codes "PacketSize=20000"
          ∷ codes "QStartNoAckMode+"
          ∷ codes "QThreadSuffixSupported+"
          ∷ codes "QListThreadsInStopReplySupported+"
          ∷ []))
        s
  handle Request.query_enable_error_strings s = reply ok_response s
  handle Request.query_thread_suffix_supported s = reply ok_response s
  handle Request.query_list_threads_in_stop_reply_supported s = reply ok_response s
  handle Request.query_current_thread_id s =
      reply (query_current_thread_id_response (b.target s.handler).vcpu_id) s
  handle Request.query_thread_info_start s = with_thread_ids thread_info s
  handle Request.query_thread_info_continuing s = reply query_thread_info_end_response s
  handle Request.query_host_info s =
      reply (query_host_info_response (x.word_size (b.target s.handler).domain.issued)) s
  handle Request.query_process_info s = reply (query_process_info_response 1) s
  handle (Request.query_register_info id) s = on_register_info id s
  handle (Request.query_memory_region_info address) s = reply not_supported s
  handle Request.stop_reason s = send_stop_reply (b.target s.handler).last_stop_reason s
  handle Request.kill s = call (on_target (on_domain (destroy x))) s >>= reply (terminated sigkill)
  handle (Request.set_thread op thread_id) s = on_set_thread thread_id s
  handle (Request.register_read id thread_id) s = on_register_read id thread_id s
  handle (Request.register_write id value thread_id) s = on_register_write id value thread_id s
  handle (Request.general_registers_batch_read thread_id) s = on_registers_read thread_id s
  handle (Request.general_registers_batch_write values) s = on_registers_write values s
  handle (Request.memory_read address size) s = on_memory_read address size s
  handle (Request.memory_write address size bytes) s = on_memory_write address size bytes s
  handle Request.continue_ s = call b.continue_ s >>= reply ok_response
  handle (Request.continue_signal signal) s = reply not_supported s
  handle Request.step s = call b.single_step s
  handle (Request.step_signal signal) s = reply not_supported s
  handle (Request.breakpoint_insert type address kind) s =
      on_breakpoint insert_breakpoint b.insert_watchpoint type address kind s
  handle (Request.breakpoint_remove type address kind) s =
      on_breakpoint remove_breakpoint b.remove_watchpoint type address kind s
  handle Request.restart s = reply not_supported s
  handle (Request.detach pid) s = do
    s' ← call b.detach s
    reply ok_response (record s' { closed = true })
