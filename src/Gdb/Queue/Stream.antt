-- ===== src/Gdb/Queue/Stream.antt =====
-- What `append` makes of the bytes that a client sends: packets with other bytes between them, and
-- at the end bytes outside packets and the beginning of one more packet.
use xendbg.Prelude.{
  ℕ, zero, suc, ◌≤◌, ◌<◌, ◌≡◌, ◌∙◌, List, [], ◌∷◌, ◌++◌, some, Bytes, All, length, length-append,
  ok, arith, append_assoc, append-nil,
}
use xendbg.Gdb.Packet.{GdbPacket, to_string}
use xendbg.Gdb.Queue.{GdbPacketQueue, drained, drain, finish_append, append}
use xendbg.Gdb.Queue.Frames.{
  IsJunk, HasNoMark, interrupts_of, IsPartial, IsPartial-StartsPacket, find_checking_interrupts_lem,
  drain-to_string, drain-IsPartial,
}

-- Some bytes outside packets, and a packet behind them.
pub record Item : Type 0 where
  pub junk : Bytes
  pub packet : GdbPacket

-- A packet that the wire format can carry.
pub record IsSendable (i : Item) : Type 0 where
  pub outside : IsJunk i.junk
  pub no_mark : HasNoMark i.packet.contents
  pub is_byte : i.packet.checksum < 256

abbrev pub wire : List Item → Bytes
wire [] = []
wire (i ∷ is) = i.junk ++ (to_string i.packet ++ wire is)

abbrev pub received : List Item → List GdbPacket
received [] = []
received (i ∷ is) = interrupts_of i.junk ++ (i.packet ∷ received is)

drain-wire :
    (is : List Item) (fuel : ℕ) (packets : List GdbPacket) (junk s : Bytes)
    → All IsSendable is
    → IsJunk junk
    → IsPartial s
    → length is < fuel
    → drain fuel packets (wire is ++ (junk ++ s))
      ≡ drained ((packets ++ received is) ++ interrupts_of junk) (junk ++ s)
drain-wire is zero packets junk s a j p h = absurd (omega arith)
drain-wire [] (suc fuel) packets junk s a j p h =
    rw append-nil (drain-IsPartial fuel packets junk s j p)
drain-wire (i ∷ is) (suc fuel) packets junk s a j p h = simp append_assoc (
    drain-to_string fuel packets i.junk i.packet (wire is ++ (junk ++ s)) a.0.outside a.0.no_mark
      a.0.is_byte
    ∙ drain-wire is fuel ((packets ++ interrupts_of i.junk) ++ (i.packet ∷ [])) junk s a.1 j p
        (omega arith)
    ∙ simp append_assoc)

length-wire : (is : List Item) → length is ≤ length (wire is)
unfolding to_string
length-wire [] = omega arith
length-wire (i ∷ is) = omega (
  arith,
  length-wire is,
  length-append i.junk (to_string i.packet ++ wire is),
  length-append (to_string i.packet) (wire is),
)

finish_append-drained :
    (buffer junk s : Bytes) (packets : List GdbPacket)
    → IsJunk junk
    → IsPartial s
    → finish_append buffer (drained packets (junk ++ s))
      ≡ some (ok (record { buffer = s; packets = packets ++ interrupts_of junk }))
unfolding finish_append
finish_append-drained buffer junk s packets j p =
    rw (find_checking_interrupts_lem junk s packets j (IsPartial-StartsPacket s p))

-- Whenever what is buffered and what arrives make up a stream of packets that the format can
-- carry, with bytes other than `$` before each and after the last, and at the end the beginning of
-- a packet, `append` returns normally: it queues the packets in order, before each one an
-- interrupt for every raw 0x03 in front of it, and at the end two interrupts for every raw 0x03
-- behind the last packet; it keeps the beginning of the next packet.
pub append-wire :
    (bytes : Bytes) (q : GdbPacketQueue) (is : List Item) (junk s : Bytes)
    → q.buffer ++ bytes ≡ wire is ++ (junk ++ s)
    → All IsSendable is
    → IsJunk junk
    → IsPartial s
    → append bytes q
      ≡ some (
          ok (record {
            buffer = s;
            packets = ((q.packets ++ received is) ++ interrupts_of junk) ++ interrupts_of junk;
          }))
append-wire bytes q is junk s e a j p =
    unfold append in
    rw e (
      rw
        (drain-wire is (suc (length (wire is ++ (junk ++ s)))) q.packets junk s a j p
          (omega (arith, length-wire is, length-append (wire is) (junk ++ s))))
        (finish_append-drained (wire is ++ (junk ++ s)) junk s
          ((q.packets ++ received is) ++ interrupts_of junk) j p))
