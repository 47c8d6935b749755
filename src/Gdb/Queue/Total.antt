-- ===== src/Gdb/Queue/Total.antt =====
-- The loop of `append` ends: each round leaves less of the buffer.
use xendbg.Prelude.{
  ℕ, zero, suc, ◌≤◌, ◌<◌, ◌≢◌, List, [], ◌∷◌, ◌++◌, Option, none, some, Bytes, length, Result, ok,
  err, arith,
}
use xendbg.Text.{StoulError, stoul}
use xendbg.Gdb.Packet.{GdbPacket}
use xendbg.Gdb.Queue.{
  GdbPacketQueue, interrupt, find_checking_interrupts, split_at, Frame, frame_of, drain_frame,
  drain_packet, incomplete, frame, frame_after, next_frame, Drained, drained, thrown, out_of_fuel,
  drain, finish_append, append,
}

length-find_checking_interrupts :
    (packets : List GdbPacket) (it : Bytes) (target : ℕ)
    → length (find_checking_interrupts packets it target).1 ≤ length it
unfolding find_checking_interrupts
length-find_checking_interrupts packets [] target = omega arith
length-find_checking_interrupts packets (c ∷ it) target = ground (
  arith,
  length-find_checking_interrupts packets it target,
  length-find_checking_interrupts (packets ++ (interrupt ∷ [])) it target,
)

AfterMark : Bytes → Option (Bytes × Bytes) → Type 0
AfterMark cs none = Unit
AfterMark cs (some (before, after)) = length after < length cs

split_at-AfterMark : (mark : ℕ) (cs : Bytes) → AfterMark cs (split_at mark cs)
unfolding AfterMark split_at
split_at-AfterMark mark [] = tt
split_at-AfterMark mark (c ∷ cs) = ground (arith, split_at-AfterMark mark cs)

Shorter : Bytes → Frame → Type 0
Shorter start incomplete = Unit
Shorter start (frame contents h l rest) = length rest < length start

frame_after-Shorter :
    (start contents after : Bytes)
    → length after < length start
    → Shorter start (frame_after contents after)
unfolding Shorter frame_after
frame_after-Shorter start contents [] h = tt
frame_after-Shorter start contents (x ∷ []) h = tt
frame_after-Shorter start contents (x ∷ y ∷ rest) h = omega arith

frame_of-Shorter :
    (c : ℕ) (body : Bytes) (o : Option (Bytes × Bytes))
    → AfterMark body o
    → Shorter (c ∷ body) (frame_of o)
unfolding frame_of AfterMark
frame_of-Shorter c body none h = unfold Shorter in tt
frame_of-Shorter c body (some (contents, after)) h =
    frame_after-Shorter (c ∷ body) contents after (omega arith)

next_frame-Shorter : (start : Bytes) → Shorter start (next_frame start)
unfolding next_frame
next_frame-Shorter [] = unfold Shorter in tt
next_frame-Shorter (c ∷ body) =
    frame_of-Shorter c body (split_at b'#' body) (split_at-AfterMark b'#' body)

Ends : Drained → Type 0
Ends (drained packets end) = Unit
Ends (thrown e packets) = Unit
Ends out_of_fuel = ⊥

drain_packet-Ends :
    (next : List GdbPacket → Bytes → Drained) (packets : List GdbPacket) (contents end : Bytes)
    (r : Result StoulError (ℕ × Bytes))
    → ((ps : List GdbPacket) → Ends (next ps end))
    → Ends (drain_packet next packets contents end r)
unfolding drain_packet
drain_packet-Ends next packets contents end (ok (value, _)) h = h _
drain_packet-Ends next packets contents end (err e) h = unfold Ends in tt

drain_frame-Ends :
    (next : List GdbPacket → Bytes → Drained) (packets : List GdbPacket) (end start : Bytes)
    (f : Frame)
    → Shorter start f
    → ((ps : List GdbPacket) (rest : Bytes) → length rest < length start → Ends (next ps rest))
    → Ends (drain_frame next packets end f)
unfolding drain_frame Shorter
drain_frame-Ends next packets end start incomplete s h = unfold Ends in tt
drain_frame-Ends next packets end start (frame contents c l rest) s h =
    drain_packet-Ends next packets contents rest (stoul 16 (c ∷ l ∷ [])) (λ ps. h ps rest s)

drain-Ends :
    (fuel : ℕ) (packets : List GdbPacket) (end : Bytes)
    → length end < fuel
    → Ends (drain fuel packets end)
unfolding drain
drain-Ends zero packets end h = absurd (omega arith)
drain-Ends (suc fuel) packets [] h = unfold Ends in tt
drain-Ends (suc fuel) packets (c ∷ cs) h =
    let found = find_checking_interrupts packets (c ∷ cs) b'$' in
    let bound = length-find_checking_interrupts packets (c ∷ cs) b'$' in
    drain_frame-Ends (drain fuel) found.0 (c ∷ cs) found.1 (next_frame found.1)
      (next_frame-Shorter found.1) (λ ps rest short. drain-Ends fuel ps rest (omega arith))

finish_append-ne-none : (buffer : Bytes) (d : Drained) → Ends d → finish_append buffer d ≢ none
unfolding finish_append Ends
finish_append-ne-none buffer (drained packets end) h = λ e. cc
finish_append-ne-none buffer (thrown e packets) h = λ e. cc
finish_append-ne-none buffer out_of_fuel h = absurd h

-- Whatever is buffered and whatever arrives, the loop of `append` ends within the fuel given: one
-- round for each byte of the buffer and one more.
pub append-ne-none : (bytes : Bytes) (q : GdbPacketQueue) → append bytes q ≢ none
append-ne-none bytes q =
    let buffer = q.buffer ++ bytes in
    unfold append in
    finish_append-ne-none buffer (drain (suc (length buffer)) q.packets buffer)
      (drain-Ends (suc (length buffer)) q.packets buffer (omega arith))
