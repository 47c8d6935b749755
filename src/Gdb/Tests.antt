-- ===== src/Gdb/Tests.antt =====
-- Runs of the GDB remote protocol layer at concrete inputs.
use xendbg.Prelude.{
  ◌≡◌, ◌≢◌, refl, true, false, List, [], ◌∷◌, ◌++◌, Option, some, Bytes, ok, err, arith,
}
use xendbg.Text.{codes}
use xendbg.Gdb.Packet.{make_packet, to_string}
use xendbg.Gdb.Queue.{GdbPacketQueue, append, next_frame}
use xendbg.Gdb.Queue.Frames.{interrupts_of}
use xendbg.Gdb.Queue.Stream.{Item, IsSendable, wire, received, append-wire}
use xendbg.Gdb.Queue.Chunks.{append_all, append_all-stream}
use xendbg.Gdb.Request.{Request}
use xendbg.Gdb.Request.Client.Rejected.{parse_packet-register_batch_write}
use xendbg.Gdb.Reader.{parse_error}
use xendbg.Gdb.Connection.{request_failure}
use xendbg.Gdb.Request.Client.{Number}
use xendbg.Gdb.Request.Client.Commands.{
  Command, read_memory, write_memory, command_text, command_request, parse_packet-command_text,
}
use xendbg.Gdb.Connection.{Session, Connection, out_of_fuel, is_initial_ack, on_data, parse_packet}
use xendbg.Gdb.Connection.Delivery.{handle_all, at_rest, on_data-wire}
use xendbg.Gdb.Connection.Commands.{items, answered, on_data-commands}
use xendbg.Gdb.Connection.Total.{on_data-ne-out_of_fuel}

abbrev empty_queue : GdbPacketQueue
empty_queue = record { buffer = []; packets = [] }

-- `k`, with a raw 0x03 in front of it.
abbrev kill_item : Item
kill_item = record { junk = 3 ∷ []; packet = make_packet (codes "k") }

kill_item-IsSendable : IsSendable kill_item
unfolding make_packet
kill_item-IsSendable = record {
  outside = (omega arith, tt);
  no_mark = (omega arith, tt);
  is_byte = omega arith;
}

-- `k` behind an interrupt, then an interrupt and the beginning of another packet.
abbrev input : Bytes
input = wire (kill_item ∷ []) ++ ((3 ∷ []) ++ codes "$m1")

append-wire_example :
    append input empty_queue
    ≡ some (
        ok (record {
          buffer = codes "$m1";
          packets =
              (([] ++ received (kill_item ∷ [])) ++ interrupts_of (3 ∷ []))
              ++ interrupts_of (3 ∷ []);
        }))
unfolding next_frame
append-wire_example =
    append-wire input empty_queue (kill_item ∷ []) (3 ∷ []) (codes "$m1") refl
      (kill_item-IsSendable, tt) (omega arith, tt) (refl, refl)

-- `k` with a checksum that is wrong, and the bytes of its packet in two pieces.
abbrev two_pieces : List Bytes
two_pieces = codes "$k#0" ∷ codes "1$k#6b" ∷ []

append_all-stream_example :
    append_all two_pieces empty_queue
    ≡ some (
        ok (record {
          buffer = [];
          packets =
              [] ++ (record { contents = codes "k"; checksum = 1 } ∷ make_packet (codes "k") ∷ []);
        }))
unfolding to_string make_packet
append_all-stream_example =
    append_all-stream two_pieces empty_queue
      (record { contents = codes "k"; checksum = 1 } ∷ make_packet (codes "k") ∷ [])
      (
        record { outside = tt; no_mark = (omega arith, tt); is_byte = omega arith },
        (record { outside = tt; no_mark = (omega arith, tt); is_byte = omega arith }, tt),
      )
      tt refl

-- `1f`, and `02`.
abbrev address : Number 64
address = record {
  first = 1;
  others = 15 ∷ [];
  are_digits = (omega arith, (omega arith, tt));
  fits = omega arith;
}

abbrev two : Number 64
two = record {
  first = 0;
  others = 2 ∷ [];
  are_digits = (omega arith, (omega arith, tt));
  fits = omega arith;
}

abbrev write_two : Command
write_two = write_memory address two (0xAB ∷ 7 ∷ [])

parse_packet-command_text_example :
    parse_packet (make_packet (command_text write_two)) ≡ ok (command_request write_two)
parse_packet-command_text_example =
    parse_packet-command_text write_two ((omega arith, (omega arith, tt)), refl, omega arith)

-- A handler that keeps the requests, the last one in front.
abbrev keep : Request → Session (List Request) → Option (Session (List Request))
keep request s = some (record s { handler = request ∷ s.handler })

abbrev fresh : Connection (List Request)
fresh = record {
  is_initializing = true;
  input_queue = empty_queue;
  session = record {
    ack_mode = true;
    error_strings = false;
    closed = false;
    written = [];
    handler = [];
  };
}

abbrev commands : List Command
commands = read_memory address two ∷ write_two ∷ []

on_data-commands_example :
    on_data keep (wire (items commands)) fresh
    ≡ at_rest keep true [] (answered keep commands fresh.session)
on_data-commands_example =
    on_data-commands keep commands fresh refl
      (tt, (((omega arith, (omega arith, tt)), refl, omega arith), tt))

on_data-wire_example :
    on_data keep input fresh
    ≡ at_rest keep true (codes "$m1") (
        handle_all keep
          ((([] ++ received (kill_item ∷ [])) ++ interrupts_of (3 ∷ [])) ++ interrupts_of (3 ∷ []))
          fresh.session)
unfolding next_frame is_initial_ack to_string
on_data-wire_example =
    on_data-wire keep input fresh (kill_item ∷ []) (3 ∷ []) (codes "$m1") refl refl
      (kill_item-IsSendable, tt) (omega arith, tt) (refl, refl)

on_data-ne-out_of_fuel_example : on_data keep (codes "$k#6b") fresh ≢ err out_of_fuel
on_data-ne-out_of_fuel_example = on_data-ne-out_of_fuel keep (codes "$k#6b") fresh

parse_packet-register_batch_write_example :
    parse_packet (make_packet (b'G' ∷ codes "00112233")) ≡ err (request_failure parse_error)
parse_packet-register_batch_write_example = parse_packet-register_batch_write (codes "00112233")
