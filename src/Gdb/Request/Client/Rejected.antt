-- ===== src/Gdb/Request/Client/Rejected.antt =====
-- Requests that a client may send and the connection does not understand.
use xendbg.Prelude.{◌≡◌, refl, ap, ◌∷◌, Bytes, err, arith}
use xendbg.Gdb.Packet.{make_packet}
use xendbg.Gdb.Reader.{>>=-ok, parse_error, expect_char, check_char, peek, read_hex_number}
use xendbg.Gdb.Request.{register_read_request, general_registers_batch_write_request}
use xendbg.Gdb.Request.Client.{Number, text, last_number}
use xendbg.Gdb.Connection.{parse_packet, parse_with, request_parsers, parsed, request_failure}

-- Every packet that starts with `G`, a write of all registers, is rejected.
pub parse_packet-register_batch_write :
    (rest : Bytes) → parse_packet (make_packet (b'G' ∷ rest)) ≡ err (request_failure parse_error)
unfolding parse_packet parse_with request_parsers make_packet parsed
    general_registers_batch_write_request expect_char
parse_packet-register_batch_write rest = refl

register_read_request-text :
    (id : Number 16) → register_read_request (b'p' ∷ text id) ≡ err parse_error
unfolding register_read_request expect_char check_char peek
register_read_request-text id =
    >>=-ok (read_hex_number 16) _ (text id) (last_number id (omega (arith, id.fits)))

-- Every packet that reads one register and names no thread is rejected.
pub parse_packet-register_read :
    (id : Number 16)
    → parse_packet (make_packet (b'p' ∷ text id)) ≡ err (request_failure parse_error)
unfolding parse_packet parse_with request_parsers make_packet parsed
parse_packet-register_read id = ap parsed (register_read_request-text id)
