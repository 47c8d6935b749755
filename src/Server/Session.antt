-- ===== src/Server/Session.antt =====
-- `DebugSession` (src/DebugSession.cpp): the callback that hands requests to the request handler and
-- answers for the exceptions that it knows, and the stop notices of the debugger.
use xendbg.Prelude.{ℕ, Option, none, some, List, [], ◌∷◌, Bytes, ok, err, ◌>>=◌}
use xendbg.Xen.Hypervisor.{Hypervisor}
use xendbg.Xen.Domain.{call_failed, out_of_range, wrong_variant, context_not_set}
use xendbg.Debugger.Base.{xen_exception, undefined_behaviour}
use xendbg.Debugger.Target.{
  TargetFault, memory_fault, domain_fault, no_context, feature_not_supported, StopReason,
}
use xendbg.Gdb.Request.{Request}
use xendbg.Gdb.Response.{not_supported}
use xendbg.Gdb.Connection.{Session, send, send_error}
use xendbg.Server.Handler.{
  Backend, target_fault, word_size_exception, packet_size_exception, uninitialised, Handled, handle,
  send_stop_reply,
}

module _ {D : Type 0} (x : Hypervisor) (b : Backend D) (error_of : TargetFault → ℕ × Bytes) where
  -- `error_of` is the number and the text of a XenException.
  abbrev pub xen_error : TargetFault → Session D → Session D
  xen_error f s = send_error (error_of f).0 (error_of f).1 s

  -- The two `catch` clauses; `none` is an exception that is not caught.
  unfoldable pub catch_fault : TargetFault → Session D → Option (Session D)
  unfolding send send_error
  catch_fault (memory_fault xen_exception) s = some (xen_error (memory_fault xen_exception) s)
  catch_fault (memory_fault undefined_behaviour) s = none
  catch_fault (domain_fault call_failed) s = some (xen_error (domain_fault call_failed) s)
  catch_fault (domain_fault out_of_range) s = none
  catch_fault (domain_fault wrong_variant) s = none
  catch_fault (domain_fault context_not_set) s = none
  catch_fault no_context s = some (xen_error no_context s)
  catch_fault feature_not_supported s = some (send not_supported s)

  unfoldable pub catches : Handled D → Option (Session D)
  unfolding catch_fault
  catches (ok s) = some s
  catches (err (target_fault f, s)) = catch_fault f s
  catches (err (word_size_exception, s)) = none
  catches (err (packet_size_exception, s)) = none
  catches (err (uninitialised, s)) = none

  -- The callback of `read`.
  unfoldable pub on_request : Request → Session D → Option (Session D)
  unfolding catches handle
  on_request request s = catches (handle x b request s)

  -- The callback of `on_stop`, for the reasons since the last call, the last one in front.
  unfoldable pub notify : List StopReason → Session D → Handled D
  unfolding send_stop_reply
  notify [] s = ok s
  notify (reason ∷ reasons) s = notify reasons s >>= send_stop_reply x b reason
