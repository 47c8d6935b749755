-- ===== src/Lib.antt =====
-- Verification of xendbg, a debugger for Xen guests: the server for GDB clients with its request
-- handler, the debuggers for HVM and PV guests with their breakpoints and the masked access to guest
-- memory, the pausing of domains, the register contexts and their conversions, and the REPL with its
-- commands and expressions.
--
-- A GDB or LLDB client sends bytes over TCP. `GDBPacketQueue` cuts them into packets, and
-- `GDBConnection` acknowledges each packet, parses it as a request, and calls the request handler,
-- which sends responses back and asks a `Debugger` to set breakpoints, to step, and to read and write
-- the guest's memory and registers. The debugger drives a `Domain`, which calls the hypervisor; the
-- monitor of an HVM guest, or the timer of a PV guest, tells the debugger when the guest stopped, and
-- the session passes that on to the client. The REPL, the other front end, matches each line with its
-- commands, whose actions drive the debugger through a wrapper with numbered breakpoints, and parses
-- expressions over registers, variables and labels.
--
-- Which file models which part (paths from the root of the repository):
--
-- - Text: what the source takes from the C++ standard library (std::stoul, std::isspace, the output
--   of numbers), written out for ASCII text and 64-bit numbers.
-- - Gdb/Packet: include/GDBServer/GDBPacket.hpp and src/GDBServer/GDBPacket.cpp. `to_string`,
--   `calculate_checksum` and `starts_with` have the names of the methods. A `char` is its byte.
-- - Gdb/Queue: src/GDBServer/GDBPacketQueue.cpp. The state is the buffer and the queue; `drain` is
--   the loop of `append`, and an iterator is the rest of the buffer. Gdb/Queue/Frames has the lemmas
--   on one round, Stream those on a whole stream, Chunks those on its division into calls, and Total
--   those on the end of the loop.
-- - Gdb/Reader: `GDBRequestBase` in include/GDBServer/GDBRequest/GDBRequestBase.hpp. A function that
--   may throw is a step on the text that is left.
-- - Gdb/Request: the constructors of the request classes in include/GDBServer/GDBRequest and
--   src/GDBServer/GDBRequest. Gdb/Request/Digits and Gdb/Request/Client print requests the way a
--   client does.
-- - Gdb/Response: the responses in include/GDBServer/GDBResponse and src/GDBServer/GDBResponse, with
--   the text of each.
-- - Gdb/Connection: src/GDBServer/GDBConnection.cpp. `on_data` is the callback of uvw::DataEvent;
--   `Session` is what the request handler reaches of the connection. The handler is a parameter,
--   which may throw. Gdb/Connection/Delivery, Commands, Total and Invariants have the lemmas on the
--   event as a whole.
-- - Registers: include/Registers. A context is the list of its registers, and what the templates
--   count at compile time is counted along the list; Registers/Layouts has the lists of both word
--   sizes, and Registers/Lookup the lemmas.
-- - Xen/Hypervisor: the calls of Xen that the debugger makes, and what Xen answers after which calls,
--   a parameter, with the reading of a register context over the raw structure that Xen answers
--   (`get_cpu_context` of DomainHVM.cpp and DomainPV.cpp). Xen/Sample is one such answer, for runs at concrete inputs.
-- - Xen/Domain: pausing, shutdown and debugging of src/Xen/Domain.cpp. The state has
--   `_vcpu_pause_state`, and the calls that took effect. Xen/Domain/Balance, Pausing and Order have
--   the lemmas. Xen/DomainPv and Xen/DomainHvm: writing a register context and single stepping of
--   src/Xen/DomainPV.cpp and src/Xen/DomainHVM.cpp.
-- - Debugger/Guest: `map_by_mfn_raw` of src/Xen/XenForeignMemory.cpp and `map_memory` of
--   include/Xen/Domain.hpp. The translation of addresses and the mapping of frames are hypervisor
--   calls, and so parameters.
-- - Debugger/Base: src/Debugger/Debugger.cpp. Undefined behaviour of the C++ code is a result of its
--   own. Debugger/Restore, Breakpoints, Relift, Masking and Writing have the lemmas.
-- - Debugger/Target: a `Debugger` with its domain: attaching, detaching and the reasons for a stop.
-- - Debugger/Hvm and Debugger/Pv: src/Debugger/DebuggerHVM.cpp and DebuggerPV.cpp. The events of the
--   monitor and of the timer are functions of the state. Debugger/Hvm/Calls and Order have the lemmas
--   on the order of the calls; Debugger/Stepping, Hvm/Stepping and Pv/Stepping those on a step.
-- - Server/Handler: src/GDBServer/GDBRequestHandler.cpp, over the virtual functions of a debugger,
--   which Server/Backends fills in for both. Server/Session: the callbacks of src/DebugSession.cpp,
--   which catch what the handler throws. Server/Order, Memory and Watchpoints have the lemmas on whole sessions.
-- - Expr/Syntax, Expr/Tokenizer and Expr/Parser: src/REPL/Parser. Expr/Tokenizer/Numbers and Total
--   have the lemmas on the tokenizer. The parser's state has the tokens, their positions and the two
--   stacks; Expr/Parser/Print, Chains, Ends and Total have the lemmas.
-- - Xen/PageTable: src/Xen/PageTableEntry.cpp, and `get_page_table_entry` of src/Xen/Domain.cpp for
--   HVM guests.
-- - Repl/Wrapper: src/REPL/DebuggerWrapper.cpp, over the virtual functions of a debugger as in
--   Server/Handler. Repl/Assignment has the lemmas on `set`.
-- - Repl/Scan: include/Util/string.hpp and src/REPL/Command/MatchHelper.hpp. An iterator is the rest
--   of the line. Repl/Command, with Match and Verb: the other files of src/REPL/Command; what the
--   closure `_make_action` returns is a value of a parameter type. Repl/Command/Words, Flags,
--   CommandLine and Total have the lemmas.
-- - Repl/Lines: src/REPL/REPL.cpp. Repl/Actions: the commands of `setup_repl` in
--   src/REPL/DebuggerREPL.cpp, where each closure is a constructor of `Action`; Repl/Perform has what
--   the closures do, over the state and the output of Repl/Shell, and Repl/Session the loop over the
--   lines with the handlers of `DebuggerREPL::run`. Repl/Quoting, Unattached and Numbering have the
--   lemmas.
-- - Xen/Guests: src/Xen/Xen.cpp. Xen/Conversion: the conversions between register contexts and the
--   structures of Xen in src/Xen/DomainPV.cpp and DomainHVM.cpp; Xen/Conversion/WriteBack has the
--   lemmas.
-- - Prelude: what the other files share. The modules called Tests run the definitions on concrete
--   inputs.
--
-- Fuel: the loop of `append` has one unit for each byte of the buffer and one more, since each round
-- but the last passes at least four bytes; the loop over the packets has one for each packet and one
-- more. The parser has three units for each token and two more, since a call of parse_unit, of
-- parse_expression or of the loop in it comes with at most two others before a token is passed. The
-- tokenizer has one for each character, and the loop over the flags of a line one more than that.
-- Running out is a result of its own in each of them. The loop over the features of a qSupported
-- packet has no fuel: it recurs on the proof that each round leaves a shorter text.
--
-- Not modelled: the text that the REPL prints, its prompt and its help; readline, Capstone, ELFIO
-- and the event loop, which are parameters or lines given; the translation of addresses by Xen,
-- the parameter `translate`; the monitor's ring of events; and the wrappers of Xen's libraries,
-- which are calls of code that is not in the repository. The question for the word size of a
-- domain is taken not to fail. Failing allocations and log output are left out throughout, and so
-- is what a guest does between two calls, but for what the hypervisor answers.
pub mod Prelude
pub mod Text
pub mod Gdb
pub mod Registers
pub mod Xen
pub mod Debugger
pub mod Server
pub mod Expr
pub mod Repl
