-- ===== src/Server/Order/Operators.antt =====
-- The operators for registers and memory keep the order of the calls that pause virtual CPUs.
use xendbg.Prelude.{
  ℕ, refl, Bool, true, false, ◌==◌, Option, none, some, Bool-cases, Option-cases, inl, inr, List,
  [], Bytes, Result, ok, err, ◌>>=◌, if◌then◌else◌, ltb, length, take,
}
use xendbg.Registers.{
  RegistersAny, x86_32, x86_64, Context, Metadata, context_of, with_context, find_by_id,
  assign_by_id, find_metadata_by_id,
}
use xendbg.Registers.Layouts.{registers_32, registers_64}
use xendbg.Xen.Hypervisor.{cpu_context, Hypervisor, domain_shutdown, domain_destroy, set_context}
use xendbg.Xen.Domain.{Domain, DomainResult, pause, shutdown, destroy, perform}
use xendbg.Xen.DomainHvm.{set_cpu_context, runtime_error}
use xendbg.Xen.Conversion.{fields, convert_regs_to_hvm}
use xendbg.Xen.Domain.Order.{
  IsLawful, Ordered, Leaves, >>=-Leaves, StaysReady, perform-Ordered, pause-Ready,
}
use xendbg.Debugger.Base.{
  Debugger, Fault, Outcome, undefined_behaviour, write_memory_retaining_breakpoints,
}
use xendbg.Debugger.Target.{memory_fault, of_outcome, of_domain, on_debugger, on_domain}
use xendbg.Debugger.Hvm.{DebuggerHvm, HvmResult}
use xendbg.Debugger.Hvm.Calls.{OrderedHvm}
use xendbg.Debugger.Hvm.Order.{Action, act, act-Ordered}
use xendbg.Gdb.Response.{Response, ok_response}
use xendbg.Gdb.Connection.{Session, write, send, send_error}
use xendbg.Server.Handler
use xendbg.Server.Handler.{
  Backend, HandlerFault, target_fault, word_size_exception, packet_size_exception, uninitialised,
  Handled, call, of_call, on_target, vcpu_of, watchpoint_of, assign_all, handle, on_interrupt,
  on_set_thread, on_register_info, on_register_read, on_register_write, on_registers_read,
  on_registers_write, on_memory_read, on_memory_write, on_breakpoint, on_watchpoint, described,
  found, no_register, assigned, all_assigned, memory_reply, given_context, with_context_at,
  write_context, send_stop_reply,
}
use xendbg.Server.Backends.{hvm}

-- The state of the debugger in a session.
abbrev pub OrderedSession : Hypervisor → Session DebuggerHvm → Type 0
OrderedSession x s = OrderedHvm x s.handler

abbrev pub Keeps : Hypervisor → Handled DebuggerHvm → Type 0
Keeps x r = Leaves (OrderedSession x) (OrderedSession x) r

pub send_error-Ordered :
    (x : Hypervisor) (code : ℕ) (message : Bytes) (s : Session DebuggerHvm)
    → OrderedSession x s
    → OrderedSession x (send_error code message s)
unfolding send_error send write
send_error-Ordered x code message s h = elim (Bool-cases s.error_strings) [
  | inl e ↦ rw e h
  | inr e ↦ rw e h
]

pub of_call-Ordered :
    (x : Hypervisor) (s : Session DebuggerHvm) (r : HvmResult)
    → Leaves (OrderedHvm x) (OrderedHvm x) r
    → Keeps x (of_call x (hvm x) s r)
of_call-Ordered x s (ok h) k = k
of_call-Ordered x s (err (f, h)) k = k

pub replied :
    (x : Hypervisor) (r : Handled DebuggerHvm) (response : Session DebuggerHvm → Response)
    → Keeps x r
    → Keeps x (r >>= (λ s. ok (send (response s) s)))
unfolding send write
replied x (ok s) response h = h
replied x (err e) response h = h

module _ (x : Hypervisor) (l : IsLawful x) where
  pub domain-Ordered :
      (f : Domain → DomainResult) (s : Session DebuggerHvm)
      → Leaves (Ordered x) (Ordered x) (f s.handler.target.domain)
      → Keeps x (call x (hvm x) (on_target x (hvm x) (on_domain f)) s)
  domain-Ordered f s k = go (f s.handler.target.domain) k
    where
      go :
          (r : DomainResult)
          → Leaves (Ordered x) (Ordered x) r
          → Keeps x (
              of_call x
                (hvm x)
                s
                (Handler.of_target x (hvm x) s.handler (of_domain s.handler.target r)))
      go (ok d) h = h
      go (err (f, d)) h = h

  pub debugger-Ordered :
      (f : Debugger → Outcome) (s : Session DebuggerHvm)
      → OrderedSession x s
      → Keeps x (call x (hvm x) (on_target x (hvm x) (on_debugger f)) s)
  debugger-Ordered f s h = go (f s.handler.target.debugger)
    where
      go :
          (r : Outcome)
          → Keeps x (
              of_call x
                (hvm x)
                s
                (Handler.of_target x (hvm x) s.handler (of_outcome s.handler.target r)))
      go (ok d) = h
      go (err (f, d)) = h

  pub act-Keeps :
      (a : Action) (s : Session DebuggerHvm)
      → OrderedSession x s
      → Keeps x (call x (hvm x) (act x a) s)
  act-Keeps a s h = of_call-Ordered x s (act x a s.handler) (act-Ordered x l a s.handler h)

  pub pause-Ordered : (d : Domain) → Ordered x d → Leaves (Ordered x) (Ordered x) (pause x d)
  pause-Ordered d h = go (pause x d) (pause-Ready x l d h)
    where
      go : (r : DomainResult) → StaysReady x r → Leaves (Ordered x) (Ordered x) r
      go (ok d) k = k.0
      go (err (f, d)) k = k

  pub destroy-Ordered : (d : Domain) → Ordered x d → Leaves (Ordered x) (Ordered x) (destroy x d)
  unfolding destroy shutdown
  destroy-Ordered d h =
      >>=-Leaves (Ordered x) (Ordered x) (Ordered x) (perform x domain_shutdown d)
        (perform x domain_destroy) (perform-Ordered x l domain_shutdown d refl h)
        (λ d' h'. perform-Ordered x l domain_destroy d' refl h')

  runtime_error-Ordered :
      (r : DomainResult)
      → Leaves (Ordered x) (Ordered x) r
      → Leaves (Ordered x) (Ordered x) (runtime_error x r)
  runtime_error-Ordered (ok d) h = h
  runtime_error-Ordered (err (f, d)) h = h

  set_cpu_context-Ordered :
      (regs : RegistersAny) (v : ℕ) (d : Domain)
      → Ordered x d
      → Leaves (Ordered x) (Ordered x) (set_cpu_context x regs v d)
  unfolding set_cpu_context
  set_cpu_context-Ordered (x86_32 regs) v d h = h
  set_cpu_context-Ordered (x86_64 regs) v d h = elim (Option-cases (x.raw_context d.issued v)) [
    | inl e ↦ rw e h
    | inr (old, e) ↦
        let call = set_context v (convert_regs_to_hvm (fields x.field_width) regs old) in
        rw e (runtime_error-Ordered (perform x call d) (perform-Ordered x l call d refl h))
  ]

  written-Ordered :
      (regs : RegistersAny) (v : ℕ) (s : Session DebuggerHvm)
      → OrderedSession x s
      → Keeps x (write_context x (hvm x) regs v s)
  written-Ordered regs v s h =
      domain-Ordered (set_cpu_context x regs v) s
        (set_cpu_context-Ordered regs v s.handler.target.domain h)

  with_context-Ordered :
      (v : ℕ) (s : Session DebuggerHvm) (next : RegistersAny → Handled DebuggerHvm)
      → OrderedSession x s
      → ((regs : RegistersAny) → Keeps x (next regs))
      → Keeps x (with_context_at x (hvm x) v s next)
  with_context-Ordered v s next h k = go (cpu_context x s.handler.target.domain.issued v)
    where
      go : (r : Option RegistersAny) → Keeps x (given_context x (hvm x) s next r)
      go none = h
      go (some regs) = k regs

  pub if-Keeps :
      (c : Bool) (r r' : Handled DebuggerHvm)
      → Keeps x r
      → Keeps x r'
      → Keeps x (if c then r else r')
  if-Keeps true r r' h k = h
  if-Keeps false r r' h k = k

  described-Keeps :
      (s : Session DebuggerHvm) (r : Option Metadata)
      → OrderedSession x s
      → Keeps x (described x (hvm x) s r)
  unfolding send write
  described-Keeps s none h = send_error-Ordered x 0x45 [] s h
  described-Keeps s (some md) h = h

  pub on_register_info-Keeps :
      (id : ℕ) (s : Session DebuggerHvm)
      → OrderedSession x s
      → Keeps x (on_register_info x (hvm x) id s)
  unfolding on_register_info
  on_register_info-Keeps id s h =
      let word_size = x.word_size s.handler.target.domain.issued in
      let narrow = described x (hvm x) s (find_metadata_by_id id registers_32) in
      if-Keeps (word_size == 8) (described x (hvm x) s (find_metadata_by_id id registers_64))
        (if word_size == 4 then narrow else err (word_size_exception, s))
        (described-Keeps s (find_metadata_by_id id registers_64) h)
        (if-Keeps (word_size == 4) narrow (err (word_size_exception, s))
          (described-Keeps s (find_metadata_by_id id registers_32) h) h)

  found-Keeps :
      (id : ℕ) (s : Session DebuggerHvm) (r : Option (Metadata × ℕ))
      → OrderedSession x s
      → Keeps x (found x (hvm x) id s r)
  unfolding send write
  found-Keeps id s none h = send_error-Ordered x 0x45 (no_register x (hvm x) id) s h
  found-Keeps id s (some (md, value)) h = h

  pub on_register_read-Keeps :
      (id thread : ℕ) (s : Session DebuggerHvm)
      → OrderedSession x s
      → Keeps x (on_register_read x (hvm x) id thread s)
  unfolding on_register_read
  on_register_read-Keeps id thread s h =
      with_context-Ordered (vcpu_of thread) s
        (λ regs. found x (hvm x) id s (find_by_id id (context_of regs))) h
        (λ regs. found-Keeps id s (find_by_id id (context_of regs)) h)

  written-Keeps :
      (regs : RegistersAny) (v : ℕ) (s : Session DebuggerHvm)
      → OrderedSession x s
      → Keeps x (write_context x (hvm x) regs v s >>= Handler.reply x (hvm x) ok_response)
  written-Keeps regs v s h =
      replied x (write_context x (hvm x) regs v s) (λ s'. ok_response) (written-Ordered regs v s h)

  assigned-Keeps :
      (id v : ℕ) (s : Session DebuggerHvm) (regs : RegistersAny) (r : Option Context)
      → OrderedSession x s
      → Keeps x (assigned x (hvm x) id v s regs r)
  assigned-Keeps id v s regs none h =
      let message = no_register x (hvm x) id in
      written-Keeps regs v (send_error 0x45 message s) (send_error-Ordered x 0x45 message s h)
  assigned-Keeps id v s regs (some changed) h = written-Keeps (with_context regs changed) v s h

  pub on_register_write-Keeps :
      (id value : ℕ) (thread : Option ℕ) (s : Session DebuggerHvm)
      → OrderedSession x s
      → Keeps x (on_register_write x (hvm x) id value thread s)
  unfolding on_register_write
  on_register_write-Keeps id value none s h = h
  on_register_write-Keeps id value (some thread) s h =
      with_context-Ordered (vcpu_of thread) s
        (λ regs.
          assigned x (hvm x) id (vcpu_of thread) s regs (assign_by_id id value (context_of regs)))
        h
        (λ regs.
          assigned-Keeps id (vcpu_of thread) s regs (assign_by_id id value (context_of regs)) h)

  pub on_registers_read-Keeps :
      (thread : ℕ) (s : Session DebuggerHvm)
      → OrderedSession x s
      → Keeps x (on_registers_read x (hvm x) thread s)
  unfolding on_registers_read send write
  on_registers_read-Keeps thread s h = with_context-Ordered (vcpu_of thread) s _ h (λ regs. h)

  all_assigned-Keeps :
      (v : ℕ) (s : Session DebuggerHvm) (regs : RegistersAny) (r : Option Context)
      → OrderedSession x s
      → Keeps x (all_assigned x (hvm x) v s regs r)
  all_assigned-Keeps v s regs none h = h
  all_assigned-Keeps v s regs (some changed) h = written-Keeps (with_context regs changed) v s h

  pub on_registers_write-Keeps :
      (values : List (ℕ × ℕ)) (s : Session DebuggerHvm)
      → OrderedSession x s
      → Keeps x (on_registers_write x (hvm x) values s)
  unfolding on_registers_write
  on_registers_write-Keeps values s h =
      let v = s.handler.target.vcpu_id in
      with_context-Ordered v s
        (λ regs. all_assigned x (hvm x) v s regs (assign_all values (context_of regs))) h
        (λ regs. all_assigned-Keeps v s regs (assign_all values (context_of regs)) h)

  pub memory_reply-Keeps :
      (s : Session DebuggerHvm) (r : Result Fault Bytes)
      → OrderedSession x s
      → Keeps x (memory_reply x (hvm x) s r)
  unfolding send write
  memory_reply-Keeps s (ok bytes) h = h
  memory_reply-Keeps s (err f) h = h

  pub on_memory_write-Keeps :
      (a n : ℕ) (bytes : Bytes) (s : Session DebuggerHvm)
      → OrderedSession x s
      → Keeps x (on_memory_write x (hvm x) a n bytes s)
  unfolding on_memory_write
  on_memory_write-Keeps a n bytes s h =
      let f = write_memory_retaining_breakpoints a (take n bytes) in
      let written = call x (hvm x) (on_target x (hvm x) (on_debugger f)) s in
      if-Keeps (ltb (length bytes) n) (err (target_fault (memory_fault undefined_behaviour), s))
        (written >>= Handler.reply x (hvm x) ok_response) h
        (replied x written (λ s'. ok_response) (debugger-Ordered f s h))
