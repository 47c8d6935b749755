-- ===== src/Gdb/Queue/Frames.antt =====
-- What one round of the loop of `append` does to a packet, to the bytes between packets, and to
-- a packet that has not arrived in full.
use native.Mathlib.Nat.{mod-eq_of_lt}
use xendbg.Prelude.{
  ℕ, zero, suc, ◌+◌, ◌/◌, ◌%◌, ◌<◌, ◌≡◌, ◌≢◌, refl, ◌∙◌, Bool, true, false, List, [], ◌∷◌, ◌++◌,
  Option, none, some, ◌==◌, ==_iff, if◌then◌else◌, Bytes, All, length, length-append, take, Result,
  ok, err, arith, holds_below, holds_below-at, append_assoc, append-nil,
}
use xendbg.Text.{stoul, StoulError, hex_digit}
use xendbg.Gdb.Packet.{GdbPacket, to_string, hex_byte}
use xendbg.Gdb.Queue.{
  interrupt, find_checking_interrupts, split_at, incomplete, frame, frame_of, next_frame, drained,
  drain, drain_frame, drain_packet,
}

reads_back : ℕ → Result StoulError (ℕ × Bytes) → Bool
reads_back n (ok (v, [])) = v == n
reads_back n (ok (v, _ ∷ _)) = false
reads_back n (err _) = false

reads_back-eq : (n : ℕ) (r : Result StoulError (ℕ × Bytes)) → reads_back n r ≡ true → r ≡ ok (n, [])
unfolding reads_back
reads_back-eq n (ok (v, [])) h = rw ((==_iff v n).0 h)
reads_back-eq n (ok (v, _ ∷ _)) h = cc
reads_back-eq n (err _) h = cc

checksum_table : holds_below (λ n. reads_back n (stoul 16 (hex_byte n))) 256 ≡ true
unfolding holds_below reads_back stoul hex_byte
checksum_table = refl

-- The two digits of a checksum are read back as its value.
pub stoul-hex_byte : (n : ℕ) → n < 256 → stoul 16 (hex_byte n) ≡ ok (n, [])
stoul-hex_byte n h =
    reads_back-eq n (stoul 16 (hex_byte n))
      (holds_below-at (λ m. reads_back m (stoul 16 (hex_byte m))) 256 n h checksum_table)

-- Bytes that stand between packets, and bytes that a packet's contents may hold.
abbrev pub IsJunk : Bytes → Type 0
IsJunk = All (λ c. c ≢ b'$')

abbrev pub HasNoMark : Bytes → Type 0
HasNoMark = All (λ c. c ≢ b'#')

-- One interrupt for each raw 0x03.
unfoldable pub interrupts_of : Bytes → List GdbPacket
interrupts_of [] = []
interrupts_of (c ∷ cs) = if c == 3 then interrupt ∷ interrupts_of cs else interrupts_of cs

-- What may be left at the end: nothing, or the beginning of a packet.
abbrev pub IsPartial : Bytes → Type 0
IsPartial [] = Unit
IsPartial (c ∷ body) = (c ≡ b'$') × (next_frame (c ∷ body) ≡ incomplete)

abbrev pub StartsPacket : Bytes → Type 0
StartsPacket [] = Unit
StartsPacket (c ∷ body) = c ≡ b'$'

pub IsPartial-StartsPacket : (s : Bytes) → IsPartial s → StartsPacket s
IsPartial-StartsPacket [] h = tt
IsPartial-StartsPacket (c ∷ body) h = h.0

pub next_frame-IsPartial : (s : Bytes) → IsPartial s → next_frame s ≡ incomplete
unfolding next_frame
next_frame-IsPartial [] h = refl
next_frame-IsPartial (c ∷ body) h = h.1

pub find_checking_interrupts_lem :
    (junk s : Bytes) (packets : List GdbPacket)
    → IsJunk junk
    → StartsPacket s
    → find_checking_interrupts packets (junk ++ s) b'$' ≡ (packets ++ interrupts_of junk, s)
unfolding find_checking_interrupts interrupts_of
find_checking_interrupts_lem [] [] packets j h = rw append-nil
find_checking_interrupts_lem [] (c ∷ s) packets j h = rw (append-nil, h)
find_checking_interrupts_lem (c ∷ junk) s packets j h = ground (
  arith,
  append_assoc packets (interrupt ∷ []) (interrupts_of junk),
  find_checking_interrupts_lem junk s packets,
  find_checking_interrupts_lem junk s (packets ++ (interrupt ∷ [])),
)

pub split_at-append :
    (contents after : Bytes)
    → HasNoMark contents
    → split_at b'#' (contents ++ (b'#' ∷ after)) ≡ some (contents, after)
unfolding split_at
split_at-append [] after h = refl
split_at-append (c ∷ contents) after h = ground (arith, split_at-append contents after)

pub next_frame-to_string :
    (p : GdbPacket) (rest : Bytes)
    → HasNoMark p.contents
    → next_frame (to_string p ++ rest)
      ≡ frame p.contents (hex_digit (p.checksum / 16)) (hex_digit (p.checksum % 16)) rest
unfolding next_frame to_string
next_frame-to_string p rest h =
    rw (append_assoc p.contents (b'#' ∷ hex_byte p.checksum) rest)
      (rw (split_at-append p.contents (hex_byte p.checksum ++ rest) h, next_frame))

drain-frame :
    (fuel : ℕ) (packets packets' : List GdbPacket) (buffer start contents rest : Bytes)
    (h l value : ℕ) (unread : Bytes)
    → find_checking_interrupts packets buffer b'$' ≡ (packets', start)
    → next_frame start ≡ frame contents h l rest
    → stoul 16 (h ∷ l ∷ []) ≡ ok (value, unread)
    → drain (suc fuel) packets buffer
      ≡ drain fuel (packets' ++ (record { contents = contents; checksum = value % 256 } ∷ [])) rest
unfolding drain
drain-frame fuel packets packets' [] start contents rest h l value unread found framed read =
    absurd (unfold find_checking_interrupts next_frame in cc)
drain-frame fuel packets packets' (c ∷ cs) start contents rest h l value unread found framed read =
    rw found (rw framed (unfold drain_frame drain_packet in rw read))

-- One round takes the bytes before a packet and the packet.
pub drain-to_string :
    (fuel : ℕ) (packets : List GdbPacket) (junk : Bytes) (p : GdbPacket) (rest : Bytes)
    → IsJunk junk
    → HasNoMark p.contents
    → p.checksum < 256
    → drain (suc fuel) packets (junk ++ (to_string p ++ rest))
      ≡ drain fuel ((packets ++ interrupts_of junk) ++ (p ∷ [])) rest
drain-to_string fuel packets junk p rest j m h =
    drain-frame fuel packets (packets ++ interrupts_of junk) (junk ++ (to_string p ++ rest))
      (to_string p ++ rest) p.contents rest _ _ p.checksum []
      (find_checking_interrupts_lem junk (to_string p ++ rest) packets j (unfold to_string in refl))
      (next_frame-to_string p rest m) (unfold hex_byte in stoul-hex_byte p.checksum h)
    ∙ rw (mod-eq_of_lt h)

drain-incomplete :
    (fuel : ℕ) (packets packets' : List GdbPacket) (buffer start : Bytes)
    → find_checking_interrupts packets buffer b'$' ≡ (packets', start)
    → next_frame start ≡ incomplete
    → drain (suc fuel) packets buffer ≡ drained packets' buffer
unfolding drain
drain-incomplete fuel packets packets' [] start found none_left =
    unfold find_checking_interrupts in cc
drain-incomplete fuel packets packets' (c ∷ cs) start found none_left =
    rw found (rw none_left (unfold drain_frame in refl))

-- The loop stops before a packet that is not complete; the iterator stays where it was.
pub drain-IsPartial :
    (fuel : ℕ) (packets : List GdbPacket) (junk s : Bytes)
    → IsJunk junk
    → IsPartial s
    → drain (suc fuel) packets (junk ++ s) ≡ drained (packets ++ interrupts_of junk) (junk ++ s)
drain-IsPartial fuel packets junk s j h =
    drain-incomplete fuel packets (packets ++ interrupts_of junk) (junk ++ s) s
      (find_checking_interrupts_lem junk s packets j (IsPartial-StartsPacket s h))
      (next_frame-IsPartial s h)

-- Fewer than two characters behind the mark, or no mark.
IsShort : Option (Bytes × Bytes) → Type 0
IsShort none = Unit
IsShort (some (before, after)) = length after < 2

IsShort-split_at :
    (n : ℕ) (contents : Bytes) (h l : ℕ) (rest : Bytes)
    → HasNoMark contents
    → n < length contents + 3
    → IsShort (split_at b'#' (take n (contents ++ (b'#' ∷ h ∷ l ∷ rest))))
unfolding IsShort split_at
IsShort-split_at zero contents h l rest m b = tt
IsShort-split_at (suc zero) [] h l rest m b = omega arith
IsShort-split_at (suc (suc zero)) [] h l rest m b = omega arith
IsShort-split_at (suc (suc (suc n))) [] h l rest m b = absurd (omega arith)
IsShort-split_at (suc n) (c ∷ contents) h l rest m b =
    let ih = IsShort-split_at n contents h l rest m.1 (omega arith) in ground (arith, ih)

frame_of-IsShort : (o : Option (Bytes × Bytes)) → IsShort o → frame_of o ≡ incomplete
unfolding frame_of IsShort
frame_of-IsShort none h = refl
frame_of-IsShort (some (before, [])) h = refl
frame_of-IsShort (some (before, x ∷ [])) h = refl
frame_of-IsShort (some (before, x ∷ y ∷ r)) h = absurd (omega arith)

pub length-to_string : (p : GdbPacket) → length (to_string p) ≡ length p.contents + 4
unfolding to_string
length-to_string p = omega (arith, length-append p.contents (b'#' ∷ hex_byte p.checksum))

-- What has arrived of a packet before its last byte is the beginning of a packet.
pub take-IsPartial :
    (n : ℕ) (p : GdbPacket) (rest : Bytes)
    → HasNoMark p.contents
    → n < length (to_string p)
    → IsPartial (take n (to_string p ++ rest))
take-IsPartial zero p rest m h = tt
take-IsPartial (suc n) p rest m h =
    unfold to_string hex_byte next_frame in
    rw append_assoc (
      refl,
      frame_of-IsShort _
          (IsShort-split_at n p.contents _ _ rest m (omega (arith, length-to_string p))),
    )
