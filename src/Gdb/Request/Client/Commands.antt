-- ===== src/Gdb/Request/Client/Commands.antt =====
-- The requests with arguments as one type of commands, and their text.
use xendbg.Prelude.{ℕ, ◌^◌, ◌<◌, ◌≡◌, ap, some, ◌∷◌, ◌++◌, Bytes, All, length, ok}
use xendbg.Text.{codes}
use xendbg.Gdb.Packet.{make_packet}
use xendbg.Gdb.Request.{
  Request, memory_read, memory_write, breakpoint_insert, breakpoint_remove, register_write,
}
use xendbg.Gdb.Request.Client.{
  Number, text, value, memory_read_request-text, memory_write_request-text, breakpoint_request-text,
  register_write_request-text,
}
use xendbg.Gdb.Connection.{parse_packet, parse_with, request_parsers, parsed}
use xendbg.Gdb.Response.{hexify, write_bytes}

pub data Command : Type 0 where
  read_memory : Number 64 → Number 64 → Command
  write_memory : Number 64 → Number 64 → Bytes → Command
  insert_at : Number 8 → Number 64 → Number 8 → Command
  remove_at : Number 8 → Number 64 → Number 8 → Command
  set_register : Number 16 → ℕ → Number 64 → Command  -- with a thread

abbrev pub command_text : Command → Bytes
command_text (read_memory a n) = b'm' ∷ (text a ++ (b',' ∷ text n))
command_text (write_memory a n bytes) =
    b'M' ∷ (text a ++ (b',' ∷ (text n ++ (b':' ∷ hexify bytes))))
command_text (insert_at type a kind) = b'Z' ∷ (text type ++ (b',' ∷ (text a ++ (b',' ∷ text kind))))
command_text (remove_at type a kind) = b'z' ∷ (text type ++ (b',' ∷ (text a ++ (b',' ∷ text kind))))
command_text (set_register id v thread) =
    b'P'
    ∷ (text id ++ (b'=' ∷ (write_bytes 8 v ++ (codes ";thread:" ++ (text thread ++ codes ";")))))

abbrev pub command_request : Command → Request
command_request (read_memory a n) = memory_read (value a) (value n)
command_request (write_memory a n bytes) = memory_write (value a) (value n) bytes
command_request (insert_at type a kind) = breakpoint_insert (value type) (value a) (value kind)
command_request (remove_at type a kind) = breakpoint_remove (value type) (value a) (value kind)
command_request (set_register id v thread) = register_write (value id) v (some (value thread))

-- The data of a write are bytes, as many as its length says; a register's value has 64 bits.
abbrev pub IsCommand : Command → Type 0
IsCommand (write_memory a n bytes) =
    All (λ b. b < 256) bytes × (value n ≡ length bytes) × (value n < 2 ^ 63)
IsCommand (set_register id v thread) = v < 2 ^ 64
IsCommand _ = Unit

-- Whatever a client writes as a memory read, a memory write, the insertion or removal of a
-- breakpoint, or a register write with a thread, its numbers in hexadecimal with any leading
-- zeros, is parsed as the request with the same arguments.
pub parse_packet-command_text :
    (c : Command)
    → IsCommand c
    → parse_packet (make_packet (command_text c)) ≡ ok (command_request c)
unfolding parse_packet parse_with request_parsers make_packet
parse_packet-command_text (read_memory a n) h = ap parsed (memory_read_request-text a n)
parse_packet-command_text (write_memory a n bytes) h =
    ap parsed (memory_write_request-text a n bytes h.0 h.1 h.2)
parse_packet-command_text (insert_at type a kind) h =
    ap parsed (breakpoint_request-text b'Z' breakpoint_insert type a kind)
parse_packet-command_text (remove_at type a kind) h =
    ap parsed (breakpoint_request-text b'z' breakpoint_remove type a kind)
parse_packet-command_text (set_register id v thread) h =
    ap parsed (register_write_request-text id v thread h)
