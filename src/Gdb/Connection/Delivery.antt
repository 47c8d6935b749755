-- ===== src/Gdb/Connection/Delivery.antt =====
-- The data event as a whole: which packets a stream of bytes holds, and what the connection does
-- with each of them.
use xendbg.Prelude.{
  suc, ◌≡◌, refl, Bool, false, Option, List, [], ◌∷◌, ◌++◌, Bytes, All, length, Result, ok, err,
}
use xendbg.Gdb.Packet.{GdbPacket}
use xendbg.Gdb.Queue.{pop, pop_front}
use xendbg.Gdb.Queue.Frames.{IsJunk, interrupts_of, IsPartial}
use xendbg.Gdb.Queue.Stream.{Item, IsSendable, wire, received, append-wire}
use xendbg.Gdb.Request.{Request}
use xendbg.Gdb.Connection.{
  Session, Connection, Uncaught, handle_packet, handle_packets, with_appended, is_initial_ack,
  on_data,
}

module _ {H : Type 0} (on_receive : Request → Session H → Option (Session H)) where
  -- One packet after the other, up to the first exception that is not caught.
  abbrev pub handle_all : List GdbPacket → Session H → Result Uncaught (Session H)
  handle_all [] s = ok s
  handle_all (p ∷ ps) s = elim (handle_packet on_receive p s) [
    | ok s' ↦ handle_all ps s'
    | err e ↦ err e
  ]

  -- The connection behind the loop: the queue is empty but for the bytes of the next packet.
  abbrev pub at_rest : Bool → Bytes → Result Uncaught (Session H) → Result Uncaught (Connection H)
  at_rest initializing buffer (ok s) = ok (record {
    is_initializing = initializing;
    input_queue = record { buffer = buffer; packets = [] };
    session = s;
  })
  at_rest initializing buffer (err e) = err e

  pub handle_packets_lem :
      (ps : List GdbPacket) (buffer : Bytes) (initializing : Bool) (s : Session H)
      → handle_packets (suc (length ps)) on_receive (record {
        is_initializing = initializing;
        input_queue = record { buffer = buffer; packets = ps };
        session = s;
      })
        ≡ at_rest initializing buffer (handle_all ps s)
  unfolding handle_packets pop pop_front
  handle_packets_lem [] buffer initializing s = refl
  handle_packets_lem (p ∷ ps) buffer initializing s =
      go (λ s'. handle_packets_lem ps buffer initializing s') (handle_packet on_receive p s)
    where
      go :
          ((s' : Session H)
            → handle_packets (suc (length ps)) on_receive (record {
              is_initializing = initializing;
              input_queue = record { buffer = buffer; packets = ps };
              session = s';
            })
              ≡ at_rest initializing buffer (handle_all ps s'))
          → (r : Result Uncaught (Session H))
          → elim r [
            | ok s' ↦ handle_packets (suc (length ps)) on_receive (record {
              is_initializing = initializing;
              input_queue = record { buffer = buffer; packets = ps };
              session = s';
            })
            | err e ↦ err e
          ]
            ≡ at_rest initializing buffer (elim r [ ok s' ↦ handle_all ps s' | err e ↦ err e ])
      go rest (ok s') = rest s'
      go rest (err e) = refl

  -- For data that is not the initial `+`: where the buffered and the new bytes make up a stream of
  -- packets that the format can carry, with bytes other than `$` between them and the beginning of
  -- one more at the end, the data event handles the packets that were queued, then those of the
  -- stream in order, with an interrupt for each raw 0x03 before a packet and two for each behind
  -- the last one; it stops at the first exception that is not caught, and otherwise leaves the
  -- queue without packets, and with the beginning of the next one in the buffer.
  pub on_data-wire :
      (bytes : Bytes) (c : Connection H) (is : List Item) (junk rest : Bytes)
      → is_initial_ack bytes c ≡ false
      → c.input_queue.buffer ++ bytes ≡ wire is ++ (junk ++ rest)
      → All IsSendable is
      → IsJunk junk
      → IsPartial rest
      → on_data on_receive bytes c
        ≡ at_rest c.is_initializing rest (
            handle_all
              (((c.input_queue.packets ++ received is) ++ interrupts_of junk) ++ interrupts_of junk)
              c.session)
  unfolding on_data with_appended
  on_data-wire bytes c is junk rest first e a j p =
      rw (first, append-wire bytes c.input_queue is junk rest e a j p)
        (handle_packets_lem
          (((c.input_queue.packets ++ received is) ++ interrupts_of junk) ++ interrupts_of junk)
          rest c.is_initializing c.session)
