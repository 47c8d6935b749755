-- ===== src/Gdb/Connection.antt =====
-- src/GDBServer/GDBConnection.cpp: the packets that come in are acknowledged, parsed and handed to
-- the request handler. The handler is a parameter, a function: `none` is an exception that leaves it.
pub mod Delivery
pub mod Total
pub mod Commands
pub mod Invariants
use xendbg.Prelude.{
  ℕ, zero, suc, Bool, true, false, ◌&&◌, Option, none, some, List, [], ◌∷◌, ◌++◌, ◌==◌,
  if◌then◌else◌, Bytes, length, Result, ok, err,
}
use xendbg.Text.{codes, StoulError}
use xendbg.Gdb.Packet.{GdbPacket, make_packet, to_string, is_checksum_valid, starts_with}
use xendbg.Gdb.Queue.{GdbPacketQueue, append, pop}
use xendbg.Gdb.Reader.{RequestError, parse_error, number_error, length_error, Reader}
use xendbg.Gdb.Request.{
  Request, start_no_ack_mode, interrupt, query_enable_error_strings, query_thread_suffix_supported,
  query_list_threads_in_stop_reply_supported, query_current_thread_id, query_thread_info_start,
  query_thread_info_continuing, query_host_info, query_process_info, stop_reason, kill, continue_,
  continue_signal, step, step_signal, breakpoint_insert, breakpoint_remove, simple_request,
  query_watchpoint_support_info_request, query_supported_request, query_register_info_request,
  query_memory_region_info_request, set_thread_request, register_read_request,
  register_write_request, general_registers_batch_read_request,
  general_registers_batch_write_request, memory_read_request, memory_write_request, signal_request,
  breakpoint_request, restart_request, detach_request,
}
use xendbg.Gdb.Response.{Response, not_supported, error_response, response_text}

-- The table of `parse_packet`: the first prefix that fits decides.
unfoldable pub request_parsers : List (Bytes × Reader Request)
unfolding simple_request query_watchpoint_support_info_request query_supported_request
    query_register_info_request query_memory_region_info_request set_thread_request
    register_read_request register_write_request general_registers_batch_read_request
    general_registers_batch_write_request memory_read_request memory_write_request signal_request
    breakpoint_request restart_request detach_request
request_parsers =
    (codes "qfThreadInfo", simple_request (codes "qfThreadInfo") query_thread_info_start)
    ∷ (codes "qsThreadInfo", simple_request (codes "qsThreadInfo") query_thread_info_continuing)
    ∷ (codes "qC", simple_request (codes "qC") query_current_thread_id)
    ∷ (codes "qWatchpointSupportInfo", query_watchpoint_support_info_request)
    ∷ (codes "qSupported", query_supported_request)
    ∷ (codes "qHostInfo", simple_request (codes "qHostInfo") query_host_info)
    ∷ (codes "qProcessInfo", simple_request (codes "qProcessInfo") query_process_info)
    ∷ (codes "qRegisterInfo", query_register_info_request)
    ∷ (codes "qMemoryRegionInfo", query_memory_region_info_request)
    ∷ (codes "QStartNoAckMode", simple_request (codes "QStartNoAckMode") start_no_ack_mode)
    ∷ (
      codes "QThreadSuffixSupported",
      simple_request (codes "QThreadSuffixSupported") query_thread_suffix_supported,
    )
    ∷ (
      codes "QListThreadsInStopReply",
      simple_request (codes "QListThreadsInStopReply") query_list_threads_in_stop_reply_supported,
    )
    ∷ (
      codes "QEnableErrorStrings",
      simple_request (codes "QEnableErrorStrings") query_enable_error_strings,
    )
    ∷ (3 ∷ [], simple_request (3 ∷ []) interrupt)
    ∷ (codes "?", simple_request (codes "?") stop_reason)
    ∷ (codes "k", simple_request (codes "k") kill)
    ∷ (codes "H", set_thread_request)
    ∷ (codes "p", register_read_request)
    ∷ (codes "P", register_write_request)
    ∷ (codes "g", general_registers_batch_read_request)
    ∷ (codes "G", general_registers_batch_write_request)
    ∷ (codes "m", memory_read_request)
    ∷ (codes "M", memory_write_request)
    ∷ (codes "c", simple_request (codes "c") continue_)
    ∷ (codes "C", signal_request b'C' continue_signal)
    ∷ (codes "s", simple_request (codes "s") step)
    ∷ (codes "S", signal_request b'S' step_signal)
    ∷ (codes "z", breakpoint_request b'z' breakpoint_remove)
    ∷ (codes "Z", breakpoint_request b'Z' breakpoint_insert)
    ∷ (codes "R", restart_request)
    ∷ (codes "D", detach_request)
    ∷ []

pub data ParseFailure : Type 0 where
  unknown_packet_type : ParseFailure
  request_failure : RequestError → ParseFailure

unfoldable pub parsed : Result RequestError (Request × Bytes) → Result ParseFailure Request
parsed (ok (request, rest)) = ok request
parsed (err e) = err (request_failure e)

unfoldable pub parse_with : List (Bytes × Reader Request) → Bytes → Result ParseFailure Request
unfolding starts_with parsed
parse_with [] contents = err unknown_packet_type
parse_with ((prefix, parser) ∷ parsers) contents = elim (starts_with prefix contents) [
  | true ↦ parsed (parser contents)
  | false ↦ parse_with parsers contents
]

unfoldable pub parse_packet : GdbPacket → Result ParseFailure Request
unfolding parse_with request_parsers
parse_packet packet = parse_with request_parsers packet.contents

-- What the request handler reaches of the connection. `H` is the state of the handler; `written`
-- holds what was sent, in order.
pub record Session (H : Type 0) : Type 0 where
  pub ack_mode : Bool
  pub error_strings : Bool
  pub closed : Bool  -- `stop` was called; what uvw does with text written after that is left out
  pub written : List Bytes
  pub handler : H

pub record Connection (H : Type 0) : Type 0 where
  pub is_initializing : Bool
  pub input_queue : GdbPacketQueue
  pub session : Session H

-- What leaves the data event: an exception of the standard library. `out_of_fuel` stands for a
-- loop that does not end.
pub data Uncaught : Type 0 where
  from_stoul : StoulError → Uncaught
  from_reserve : Uncaught
  from_handler : Uncaught
  out_of_fuel : Uncaught

module _ {H : Type 0} where
  unfoldable pub write : Bytes → Session H → Session H
  write bytes s = record s { written = s.written ++ (bytes ∷ []) }

  unfoldable pub send : Response → Session H → Session H
  unfolding write response_text make_packet to_string
  send response s = write (to_string (make_packet (response_text response))) s

  unfoldable pub send_error : ℕ → Bytes → Session H → Session H
  unfolding send
  send_error code message s =
      if s.error_strings
      then send (error_response code message) s
      else send (error_response code []) s

  unfoldable pub ack : Bool → Session H → Session H
  unfolding write
  ack valid s = if s.ack_mode then write (if valid then codes "+" else codes "-") s else s

  abbrev pub returned : Option (Session H) → Result Uncaught (Session H)
  returned none = err from_handler
  returned (some s) = ok s

  -- The `try` block: `on_receive`, or the handlers of the two exceptions.
  unfoldable pub deliver :
      (Request → Session H → Option (Session H))
      → Result ParseFailure Request
      → Session H
      → Result Uncaught (Session H)
  unfolding send
  deliver on_receive (ok request) s = returned (on_receive request s)
  deliver on_receive (err unknown_packet_type) s = ok (send not_supported s)
  deliver on_receive (err (request_failure parse_error)) s = ok (send not_supported s)
  deliver on_receive (err (request_failure (number_error e))) s = err (from_stoul e)
  deliver on_receive (err (request_failure length_error)) s = err from_reserve

  -- The body of the loop over the packets.
  unfoldable pub handle_packet :
      (Request → Session H → Option (Session H))
      → GdbPacket
      → Session H
      → Result Uncaught (Session H)
  unfolding is_checksum_valid ack deliver parse_packet
  handle_packet on_receive packet s =
      let valid = is_checksum_valid packet in
      if valid then deliver on_receive (parse_packet packet) (ack valid s) else ok (ack valid s)

  -- `while (!_input_queue.empty())`: a packet for each unit of fuel.
  unfoldable pub handle_packets :
      ℕ → (Request → Session H → Option (Session H)) → Connection H → Result Uncaught (Connection H)
  unfolding pop handle_packet
  handle_packets zero on_receive c = err out_of_fuel
  handle_packets (suc fuel) on_receive c = elim (pop c.input_queue) [
    | none ↦ ok c
    | some (packet, queue) ↦ elim (handle_packet on_receive packet c.session) [
      | ok s ↦ handle_packets fuel on_receive (record c { input_queue = queue; session = s })
      | err e ↦ err e
    ]
  ]

  unfoldable pub with_appended :
      (Request → Session H → Option (Session H))
      → Connection H
      → Option (Result (StoulError × GdbPacketQueue) GdbPacketQueue)
      → Result Uncaught (Connection H)
  unfolding handle_packets
  with_appended on_receive c none = err out_of_fuel
  with_appended on_receive c (some (err (e, _))) = err (from_stoul e)
  with_appended on_receive c (some (ok queue)) =
      handle_packets (suc (length queue.packets)) on_receive (record c { input_queue = queue })

  unfoldable pub is_initial_ack : Bytes → Connection H → Bool
  is_initial_ack (ch ∷ []) c = c.is_initializing && ch == b'+'
  is_initial_ack _ c = false

  -- The callback of uvw::DataEvent.
  unfoldable pub on_data :
      (Request → Session H → Option (Session H))
      → Bytes
      → Connection H
      → Result Uncaught (Connection H)
  unfolding is_initial_ack write with_appended append
  on_data on_receive bytes c =
      if is_initial_ack bytes c
      then ok (record c { is_initializing = false; session = write (codes "+") c.session })
      else with_appended on_receive c (append bytes c.input_queue)
