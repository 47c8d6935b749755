-- ===== src/Gdb/Queue.antt =====
-- include/GDBServer/GDBPacketQueue.hpp and src/GDBServer/GDBPacketQueue.cpp. An iterator into
-- `_buffer` is the rest of the buffer behind it.
pub mod Frames
pub mod Stream
pub mod Chunks
pub mod Total
use xendbg.Prelude.{
  ℕ, zero, suc, ◌%◌, List, [], ◌∷◌, ◌++◌, Option, none, some, ◌==◌, if◌then◌else◌, Bytes, length,
  Result, ok, err,
}
use xendbg.Text.{stoul, StoulError}
use xendbg.Gdb.Packet.{GdbPacket}

pub record GdbPacketQueue : Type 0 where
  pub buffer : Bytes
  pub packets : List GdbPacket

-- `GDBPacket{"\x03", 0x03}`.
abbrev pub interrupt : GdbPacket
interrupt = record { contents = 3 ∷ []; checksum = 3 }

-- The lambda of `append`: walks to `target`, and queues an interrupt for each raw 0x03 passed.
unfoldable pub find_checking_interrupts : List GdbPacket → Bytes → ℕ → List GdbPacket × Bytes
find_checking_interrupts packets [] target = (packets, [])
find_checking_interrupts packets (c ∷ it) target =
    let rest =
      find_checking_interrupts (if c == 3 then packets ++ (interrupt ∷ []) else packets) it
        target in
    if c == target then (packets, c ∷ it) else rest

-- `std::find` for the mark: the text before it and the text behind it.
unfoldable pub split_at : ℕ → Bytes → Option (Bytes × Bytes)
split_at mark [] = none
split_at mark (c ∷ cs) =
    let rest = split_at mark cs in
    if c == mark
    then some ([], cs)
    else elim rest [ none ↦ none | some (before, after) ↦ some (c ∷ before, after) ]

-- What one round of the loop of `append` finds at `packet_start`.
pub data Frame : Type 0 where
  incomplete : Frame
  frame : Bytes → ℕ → ℕ → Bytes → Frame

-- Contents, the two checksum characters, and the text behind them.
unfoldable pub frame_after : Bytes → Bytes → Frame
frame_after contents (h ∷ l ∷ rest) = frame contents h l rest
frame_after contents _ = incomplete

unfoldable pub frame_of : Option (Bytes × Bytes) → Frame
unfolding frame_after
frame_of none = incomplete
frame_of (some (contents, after)) = frame_after contents after

unfoldable pub next_frame : Bytes → Frame
unfolding split_at frame_of
next_frame [] = incomplete
next_frame (start ∷ body) = frame_of (split_at b'#' body)

-- How the loop of `append` ends: at `end`, or by the exception of `std::stoul`.
pub data Drained : Type 0 where
  drained : List GdbPacket → Bytes → Drained
  thrown : StoulError → List GdbPacket → Drained
  out_of_fuel : Drained

-- The rest of a round, with the next round as an argument: the packet is queued, unless
-- `std::stoul` throws.
unfoldable pub drain_packet :
    (List GdbPacket → Bytes → Drained)
    → List GdbPacket
    → Bytes
    → Bytes
    → Result StoulError (ℕ × Bytes)
    → Drained
drain_packet next packets contents end (ok (value, _)) =
    next (packets ++ (record { contents = contents; checksum = value % 256 } ∷ [])) end
drain_packet next packets contents end (err e) = thrown e packets

-- On the `break` the iterator `end` has not moved.
unfoldable pub drain_frame :
    (List GdbPacket → Bytes → Drained) → List GdbPacket → Bytes → Frame → Drained
unfolding drain_packet stoul
drain_frame next packets end incomplete = drained packets end
drain_frame next packets end (frame contents h l rest) =
    drain_packet next packets contents rest (stoul 16 (h ∷ l ∷ []))

-- `while (end != _buffer.end())`.
unfoldable pub drain : ℕ → List GdbPacket → Bytes → Drained
drain zero packets end = out_of_fuel
drain (suc fuel) packets [] = drained packets []
drain (suc fuel) packets (c ∷ cs) =
    let (packets', packet_start) = find_checking_interrupts packets (c ∷ cs) b'$' in
    drain_frame (drain fuel) packets' (c ∷ cs) (next_frame packet_start)

-- What a call of `append` ends in: the new state, or an exception and the state that it leaves.
abbrev pub Appended : Type 0
Appended = Option (Result (StoulError × GdbPacketQueue) GdbPacketQueue)

-- After the loop: scan on to the next `$`, and erase what was passed. An exception leaves the
-- buffer as it is.
unfoldable pub finish_append : Bytes → Drained → Appended
unfolding find_checking_interrupts
finish_append buffer (drained packets end) =
    let (packets', kept) = find_checking_interrupts packets end b'$' in
    some (ok (record { buffer = kept; packets = packets' }))
finish_append buffer (thrown e packets) =
    some (err (e, record { buffer = buffer; packets = packets }))
finish_append buffer out_of_fuel = none

-- `none` would mean that the fuel ran out; each round but the last eats four bytes or more.
unfoldable pub append : Bytes → GdbPacketQueue → Appended
unfolding drain finish_append find_checking_interrupts next_frame drain_frame
append bytes q =
    let buffer = q.buffer ++ bytes in
    finish_append buffer (drain (suc (length buffer)) q.packets buffer)

unfoldable pub pop_front : List GdbPacket → GdbPacketQueue → Option (GdbPacket × GdbPacketQueue)
pop_front [] q = none
pop_front (p ∷ ps) q = some (p, record q { packets = ps })

-- `pop`, with `none` for NoPacketException.
unfoldable pub pop : GdbPacketQueue → Option (GdbPacket × GdbPacketQueue)
unfolding pop_front
pop q = pop_front q.packets q
