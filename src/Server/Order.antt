-- ===== src/Server/Order.antt =====
-- The order of the calls, over all requests and all data.
pub mod Operators
use mathlib.Core.Path.{subst}
use xendbg.Prelude.{
  ℕ, ◌^◌, ◌%◌, ◌≡◌, refl, Bool, true, false, ◌||◌, ◌==◌, Option, none, some, Bool-cases,
  Option-cases, inl, inr, List, [], ◌∷◌, ◌++◌, Bytes, Result, ok, err, ◌>>=◌, if◌then◌else◌, ltb,
  length, take,
}
use xendbg.Text.{codes, print_number}
use xendbg.Registers.{
  RegistersAny, x86_32, x86_64, Context, Metadata, context_of, with_context, find_by_id,
  assign_by_id, find_metadata_by_id,
}
use xendbg.Registers.Layouts.{registers_32, registers_64}
use xendbg.Xen.Hypervisor.{Hypervisor, domain_shutdown, domain_destroy, set_context}
use xendbg.Xen.Domain.{Domain, DomainResult, pause, shutdown, destroy, perform}
use xendbg.Xen.DomainHvm.{set_cpu_context}
use xendbg.Xen.Domain.Order.{
  IsLawful, IsOrdered, Ordered, Ready, Leaves, >>=-Leaves, StaysReady, perform-Ordered, pause-Ready,
}
use xendbg.Debugger.Base.{
  Debugger, Fault, Outcome, xen_exception, undefined_behaviour, insert_breakpoint,
  remove_breakpoint, read_memory_masking_breakpoints, write_memory_retaining_breakpoints,
}
use xendbg.Debugger.Target.{
  Target, TargetFault, TargetResult, memory_fault, domain_fault, no_context, feature_not_supported,
  WatchpointType, of_outcome, of_domain, on_debugger, on_domain, sigstop,
}
use xendbg.Xen.Domain.{call_failed, out_of_range, wrong_variant, context_not_set}
use xendbg.Debugger.Hvm
use xendbg.Debugger.Hvm.{DebuggerHvm, HvmResult}
use xendbg.Debugger.Hvm.Calls.{OrderedHvm, of_domain-Leaves, of_outcome-Leaves}
use xendbg.Debugger.Hvm.Order.{
  Action, continuing, stepping, detaching, watching, unwatching, act, act-Ordered,
}
use xendbg.Gdb.Request
use xendbg.Gdb.Request.{Request, no_thread}
use xendbg.Gdb.Response.{Response, ok_response, stop_reason_signal, terminated}
use xendbg.Gdb.Connection.{Session, Connection, Uncaught, write, send, send_error, on_data}
use xendbg.Gdb.Connection.Invariants.{KeptBy, ConnectionKept, on_data-Kept}
use xendbg.Server.Handler
use xendbg.Server.Handler.{
  Backend, HandlerFault, target_fault, word_size_exception, packet_size_exception, uninitialised,
  Handled, call, of_call, on_target, vcpu_of, watchpoint_of, assign_all, handle, on_interrupt,
  on_set_thread, on_register_info, on_register_read, on_register_write, on_registers_read,
  on_registers_write, on_memory_read, on_memory_write, on_breakpoint, on_watchpoint, get_thread_ids,
  thread_info, described, found, no_register, assigned, all_assigned, memory_reply, given_context,
  with_context_at, write_context, send_stop_reply, with_thread_ids, stop_reply,
}
use xendbg.Server.Session.{catches, catch_fault, on_request}
use xendbg.Server.Backends.{hvm}
use xendbg.Server.Order.Operators.{
  OrderedSession, Keeps, send_error-Ordered, replied, domain-Ordered, debugger-Ordered, act-Keeps,
  pause-Ordered, destroy-Ordered, if-Keeps, on_register_info-Keeps, on_register_read-Keeps,
  on_register_write-Keeps, on_registers_read-Keeps, on_registers_write-Keeps, memory_reply-Keeps,
  on_memory_write-Keeps,
}

module _ (x : Hypervisor) (l : IsLawful x) where
  on_watchpoint-Keeps :
      (f : ℕ → ℕ → WatchpointType → Action) (type : Option WatchpointType) (a kind : ℕ)
      (s : Session DebuggerHvm)
      → OrderedSession x s
      → Keeps x (on_watchpoint x (hvm x) (λ a' k t. act x (f a' k t)) type a kind s)
  unfolding send write
  on_watchpoint-Keeps f none a kind s h = h
  on_watchpoint-Keeps f (some type) a kind s h =
      replied x (call x (hvm x) (act x (f a kind type)) s) (λ s'. ok_response)
        (act-Keeps x l (f a kind type) s h)

  on_breakpoint-Keeps :
      (software : ℕ → Debugger → Outcome) (f : ℕ → ℕ → WatchpointType → Action) (type a kind : ℕ)
      (s : Session DebuggerHvm)
      → OrderedSession x s
      → Keeps x (on_breakpoint x (hvm x) software (λ a' k t. act x (f a' k t)) type a kind s)
  unfolding on_breakpoint
  on_breakpoint-Keeps software f type a kind s h =
      let changed = call x (hvm x) (on_target x (hvm x) (on_debugger (software a))) s in
      if-Keeps x l (type == 0) (changed >>= Handler.reply x (hvm x) ok_response)
        (on_watchpoint x (hvm x) (λ a' k t. act x (f a' k t)) (watchpoint_of type) a kind s)
        (replied x changed (λ s'. ok_response) (debugger-Ordered x l (software a) s h))
        (on_watchpoint-Keeps f (watchpoint_of type) a kind s h)

  with_thread_ids-Keeps :
      (next : List ℕ → Session DebuggerHvm → Handled DebuggerHvm) (s : Session DebuggerHvm)
      → OrderedSession x s
      → ((ids : List ℕ) → Keeps x (next ids s))
      → Keeps x (with_thread_ids x (hvm x) next s)
  with_thread_ids-Keeps next s h k =
      elim (Bool-cases (x.has_dominfo s.handler.target.domain.issued)) [
        | inl e ↦ rw e (k (get_thread_ids x (hvm x) s.handler))
        | inr e ↦ rw e h
      ]

  on_interrupt-Keeps :
      (s : Session DebuggerHvm) → OrderedSession x s → Keeps x (on_interrupt x (hvm x) s)
  unfolding on_interrupt send write
  on_interrupt-Keeps s h =
      go (call x (hvm x) (on_target x (hvm x) (on_domain (pause x))) s)
        (domain-Ordered x l (pause x) s (pause-Ordered x l s.handler.target.domain h))
    where
      go :
          (r : Handled DebuggerHvm)
          → Keeps x r
          → Keeps x (
              r
              >>= with_thread_ids x
                  (hvm x)
                  (λ ids. Handler.reply x (hvm x) (stop_reason_signal sigstop 1 ids [] [])))
      go (ok s') k =
          with_thread_ids-Keeps
            (λ ids. Handler.reply x (hvm x) (stop_reason_signal sigstop 1 ids [] [])) s' k
            (λ ids. k)
      go (err (f, s')) k = k

  on_set_thread-Keeps :
      (thread : ℕ) (s : Session DebuggerHvm)
      → OrderedSession x s
      → Keeps x (on_set_thread x (hvm x) thread s)
  unfolding on_set_thread send write
  on_set_thread-Keeps thread s h = elim (Bool-cases (thread == no_thread || thread == 0)) [
    | inl e ↦ rw e h
    | inr e ↦ rw e h
  ]

  thread_info-Keeps :
      (ids : List ℕ) (s : Session DebuggerHvm)
      → OrderedSession x s
      → Keeps x (thread_info x (hvm x) ids s)
  unfolding send write
  thread_info-Keeps [] s h = h
  thread_info-Keeps (id ∷ ids) s h = h

  detached-Keeps :
      (s : Session DebuggerHvm)
      → OrderedSession x s
      → Keeps x (handle x (hvm x) (Request.detach 0) s)
  unfolding handle act send write
  detached-Keeps s h = go (Hvm.detach x s.handler) (act-Ordered x l detaching s.handler h)
    where
      go :
          (r : HvmResult)
          → Leaves (OrderedHvm x) (OrderedHvm x) r
          → Keeps x (
              of_call x (hvm x) s r
              >>= (λ s'. Handler.reply x (hvm x) ok_response (record s' { closed = true })))
      go (ok d) k = k
      go (err (f, d)) k = k

  handle-Keeps :
      (r : Request) (s : Session DebuggerHvm) → OrderedSession x s → Keeps x (handle x (hvm x) r s)
  unfolding handle send write send_stop_reply act on_memory_read
  handle-Keeps Request.start_no_ack_mode s h = h
  handle-Keeps Request.interrupt s h = on_interrupt-Keeps s h
  handle-Keeps Request.query_watchpoint_support_info s h = h
  handle-Keeps (Request.query_supported features) s h = h
  handle-Keeps Request.query_enable_error_strings s h = h
  handle-Keeps Request.query_thread_suffix_supported s h = h
  handle-Keeps Request.query_list_threads_in_stop_reply_supported s h = h
  handle-Keeps Request.query_current_thread_id s h = h
  handle-Keeps Request.query_thread_info_start s h =
      with_thread_ids-Keeps (thread_info x (hvm x)) s h (λ ids. thread_info-Keeps ids s h)
  handle-Keeps Request.query_thread_info_continuing s h = h
  handle-Keeps Request.query_host_info s h = h
  handle-Keeps Request.query_process_info s h = h
  handle-Keeps (Request.query_register_info id) s h = on_register_info-Keeps x l id s h
  handle-Keeps (Request.query_memory_region_info a) s h = h
  handle-Keeps Request.stop_reason s h =
      with_thread_ids-Keeps
        (λ ids. Handler.reply x (hvm x) (stop_reply ids s.handler.target.last_stop_reason)) s h
        (λ ids. h)
  handle-Keeps Request.kill s h =
      replied x (call x (hvm x) (on_target x (hvm x) (on_domain (destroy x))) s)
        (λ s'. terminated 9)
        (domain-Ordered x l (destroy x) s (destroy-Ordered x l s.handler.target.domain h))
  handle-Keeps (Request.set_thread op thread) s h = on_set_thread-Keeps thread s h
  handle-Keeps (Request.register_read id thread) s h = on_register_read-Keeps x l id thread s h
  handle-Keeps (Request.register_write id value thread) s h =
      on_register_write-Keeps x l id value thread s h
  handle-Keeps (Request.general_registers_batch_read thread) s h =
      on_registers_read-Keeps x l thread s h
  handle-Keeps (Request.general_registers_batch_write values) s h =
      on_registers_write-Keeps x l values s h
  handle-Keeps (Request.memory_read a n) s h =
      memory_reply-Keeps x l s (read_memory_masking_breakpoints a n s.handler.target.debugger) h
  handle-Keeps (Request.memory_write a n bytes) s h = on_memory_write-Keeps x l a n bytes s h
  handle-Keeps Request.continue_ s h =
      replied x (call x (hvm x) (act x continuing) s) (λ s'. ok_response)
        (act-Keeps x l continuing s h)
  handle-Keeps (Request.continue_signal signal) s h = h
  handle-Keeps Request.step s h = act-Keeps x l stepping s h
  handle-Keeps (Request.step_signal signal) s h = h
  handle-Keeps (Request.breakpoint_insert type a kind) s h =
      on_breakpoint-Keeps insert_breakpoint watching type a kind s h
  handle-Keeps (Request.breakpoint_remove type a kind) s h =
      on_breakpoint-Keeps remove_breakpoint unwatching type a kind s h
  handle-Keeps Request.restart s h = h
  handle-Keeps (Request.detach pid) s h = detached-Keeps s h

  module _ (error_of : TargetFault → ℕ × Bytes) where
    caught-Kept :
        (f : TargetFault) (s : Session DebuggerHvm)
        → OrderedSession x s
        → KeptBy (OrderedHvm x) (catch_fault x (hvm x) error_of f s)
    unfolding catch_fault send write
    caught-Kept (memory_fault xen_exception) s h = send_error-Ordered x _ _ s h
    caught-Kept (memory_fault undefined_behaviour) s h = tt
    caught-Kept (domain_fault call_failed) s h = send_error-Ordered x _ _ s h
    caught-Kept (domain_fault out_of_range) s h = tt
    caught-Kept (domain_fault wrong_variant) s h = tt
    caught-Kept (domain_fault context_not_set) s h = tt
    caught-Kept no_context s h = send_error-Ordered x _ _ s h
    caught-Kept feature_not_supported s h = h

    catches-Kept :
        (r : Handled DebuggerHvm) → Keeps x r → KeptBy (OrderedHvm x) (catches x (hvm x) error_of r)
    unfolding catches
    catches-Kept (ok s) h = h
    catches-Kept (err (target_fault f, s)) h = caught-Kept f s h
    catches-Kept (err (word_size_exception, s)) h = tt
    catches-Kept (err (packet_size_exception, s)) h = tt
    catches-Kept (err (uninitialised, s)) h = tt

    -- For a hypervisor that leaves a paused domain paused until it is unpaused: whatever bytes come
    -- in from a client of an HVM debugger, and whichever calls fail, if no exception leaves the data
    -- event, then every pause or unpause of a virtual CPU was issued while the domain was paused, if
    -- this held of the calls before.
    pub on_data-IsOrdered :
        (bytes : Bytes) (c : Connection DebuggerHvm) {c' : Connection DebuggerHvm}
        → on_data (on_request x (hvm x) error_of) bytes c ≡ ok c'
        → IsOrdered x c.session.handler.target.domain.issued
        → IsOrdered x c'.session.handler.target.domain.issued
    unfolding on_request
    on_data-IsOrdered bytes c e h = subst (ConnectionKept (OrderedHvm x)) e (
        on_data-Kept (on_request x (hvm x) error_of) (OrderedHvm x)
          (λ r s k. catches-Kept (handle x (hvm x) r s) (handle-Keeps r s k)) bytes c h)
