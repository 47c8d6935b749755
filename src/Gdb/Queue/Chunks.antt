-- ===== src/Gdb/Queue/Chunks.antt =====
-- The pieces in which a stream of packets arrives make no difference.
use native.Mathlib.Decide.{dec_lt}
use native.Mathlib.Nat.{zero-add, suc-add}
use xendbg.Prelude.{
  ℕ, zero, suc, ◌+◌, ◌-◌, ◌<◌, ◌≡◌, refl, sym, ap, ◌∙◌, List, [], ◌∷◌, ◌++◌, map, none, some, Bytes,
  All, length, take, drop, take-append-drop, ok, err, arith, append_assoc, append-nil,
}
use xendbg.Gdb.Packet.{GdbPacket, to_string}
use xendbg.Gdb.Queue.{Appended, GdbPacketQueue, append}
use xendbg.Gdb.Queue.Frames.{
  IsPartial, interrupts_of, next_frame-to_string, take-IsPartial, next_frame-IsPartial,
}
use xendbg.Gdb.Queue.Stream.{Item, IsSendable, wire, received, append-wire}

take_past {ℓ} :
    {A : Type ℓ} (xs ys : List A) (k : ℕ) → take (length xs + k) (xs ++ ys) ≡ xs ++ take k ys
take_past [] ys k = rw zero-add
take_past (x ∷ xs) ys k = rw suc-add (ap (◌∷◌ x) (take_past xs ys k))

drop_past {ℓ} : {A : Type ℓ} (xs ys : List A) (k : ℕ) → drop (length xs + k) (xs ++ ys) ≡ drop k ys
drop_past [] ys k = rw zero-add
drop_past (x ∷ xs) ys k = rw suc-add (drop_past xs ys k)

-- A packet with nothing in front of it.
abbrev pub bare : GdbPacket → Item
bare p = record { junk = []; packet = p }

abbrev pub stream : List GdbPacket → Bytes
stream ps = wire (map bare ps)

abbrev pub AllSendable : List GdbPacket → Type 0
AllSendable ps = All IsSendable (map bare ps)

received-bare : (ps : List GdbPacket) → received (map bare ps) ≡ ps
unfolding interrupts_of
received-bare [] = refl
received-bare (p ∷ ps) = ap (◌∷◌ p) (received-bare ps)

-- The stream cut after `n` bytes: packets that are complete, and the beginning of the next.
record Cut (ps : List GdbPacket) (n : ℕ) : Type 0 where
  complete : List GdbPacket
  later : List GdbPacket
  begun : Bytes
  complete_sendable : AllSendable complete
  later_sendable : AllSendable later
  partial : IsPartial begun
  splits : complete ++ later ≡ ps
  front : take n (stream ps) ≡ stream complete ++ begun
  back : begun ++ drop n (stream ps) ≡ stream later

take-nil {ℓ} : {A : Type ℓ} (n : ℕ) → take {A = A} n [] ≡ []
take-nil zero = refl
take-nil (suc n) = refl

drop-nil {ℓ} : {A : Type ℓ} (n : ℕ) → drop {A = A} n [] ≡ []
drop-nil zero = refl
drop-nil (suc n) = refl

within_first :
    (p : GdbPacket) (ps : List GdbPacket) (n : ℕ)
    → AllSendable (p ∷ ps)
    → n < length (to_string p)
    → Cut (p ∷ ps) n
within_first p ps n a h = record {
  complete = [];
  later = p ∷ ps;
  begun = take n (to_string p ++ stream ps);
  complete_sendable = tt;
  later_sendable = a;
  partial = take-IsPartial n p (stream ps) a.0.no_mark h;
  splits = refl;
  front = refl;
  back = take-append-drop n (to_string p ++ stream ps);
}

past_first :
    (p : GdbPacket) (ps : List GdbPacket) (k n : ℕ)
    → IsSendable (bare p)
    → n ≡ length (to_string p) + k
    → Cut ps k
    → Cut (p ∷ ps) n
past_first p ps k n a e c = record {
  complete = p ∷ c.complete;
  later = c.later;
  begun = c.begun;
  complete_sendable = (a, c.complete_sendable);
  later_sendable = c.later_sendable;
  partial = c.partial;
  splits = ap (◌∷◌ p) c.splits;
  front = rw e (
      take_past (to_string p) (stream ps) k
      ∙ ap (◌++◌ (to_string p)) c.front
      ∙ sym (append_assoc (to_string p) (stream c.complete) c.begun));
  back = rw (e, drop_past) c.back;
}

cut : (ps : List GdbPacket) (n : ℕ) → AllSendable ps → Cut ps n
cut [] n a = record {
  complete = [];
  later = [];
  begun = [];
  complete_sendable = tt;
  later_sendable = tt;
  partial = tt;
  splits = refl;
  front = take-nil n;
  back = drop-nil n;
}
cut (p ∷ ps) n a = elim (dec_lt n (length (to_string p))) [
  | yes h ↦ within_first p ps n a h
  | no h ↦ let k = n - length (to_string p) in past_first p ps k n a.0 (omega arith) (cut ps k a.1)
]

-- One call of `append` for each piece that arrives.
unfoldable pub append_all : List Bytes → GdbPacketQueue → Appended
append_all [] q = some (ok q)
append_all (c ∷ cs) q = elim (append c q) [
  | none ↦ none
  | some (ok q') ↦ append_all cs q'
  | some (err e) ↦ some (err e)
]

abbrev pub joined : List Bytes → Bytes
joined [] = []
joined (c ∷ cs) = c ++ joined cs

-- Only the end of the stream leaves nothing to come.
stream-IsPartial : (ps : List GdbPacket) → AllSendable ps → IsPartial (stream ps) → ps ≡ []
stream-IsPartial [] a h = refl
stream-IsPartial (p ∷ ps) a h =
    absurd (
      cc (next_frame-to_string p (stream ps) a.0.no_mark, next_frame-IsPartial (stream (p ∷ ps)) h))

take_front {ℓ} : {A : Type ℓ} (xs ys : List A) → take (length xs) (xs ++ ys) ≡ xs
take_front [] ys = refl
take_front (x ∷ xs) ys = ap (◌∷◌ x) (take_front xs ys)

drop_front {ℓ} : {A : Type ℓ} (xs ys : List A) → drop (length xs) (xs ++ ys) ≡ ys
drop_front [] ys = refl
drop_front (x ∷ xs) ys = drop_front xs ys

append_all-idle :
    (q : GdbPacketQueue) (ps : List GdbPacket)
    → AllSendable ps
    → IsPartial q.buffer
    → q.buffer ≡ stream ps
    → ◌≡◌ {A = Appended}
        (some (ok q))
        (some (ok (record { buffer = []; packets = q.packets ++ ps })))
append_all-idle q ps a h e =
    let done : ps ≡ [] = stream-IsPartial ps a (rw e at h) in
    ground (arith, done, e, append-nil q.packets)

append-piece :
    (c rest : Bytes) (q : GdbPacketQueue) (ps : List GdbPacket)
    → q.buffer ++ (c ++ rest) ≡ stream ps
    → (k : Cut ps (length (q.buffer ++ c)))
    → (append c q ≡ some (ok (record { buffer = k.begun; packets = q.packets ++ k.complete })))
      × (k.begun ++ rest ≡ stream k.later)
append-piece c rest q ps e k =
    let e' : (q.buffer ++ c) ++ rest ≡ stream ps = append_assoc q.buffer c rest ∙ e in
    let arrived : q.buffer ++ c ≡ stream k.complete ++ k.begun =
      sym (take_front (q.buffer ++ c) rest) ∙ ap (take (length (q.buffer ++ c))) e' ∙ k.front in
    let left : rest ≡ drop (length (q.buffer ++ c)) (stream ps) =
      sym (drop_front (q.buffer ++ c) rest) ∙ ap (drop (length (q.buffer ++ c))) e' in
    (
      append-wire c q (map bare k.complete) [] k.begun arrived k.complete_sendable tt k.partial
          ∙ unfold interrupts_of in simp (received-bare, append-nil),
      ap (◌++◌ k.begun) left ∙ k.back,
    )

-- However the bytes of a stream of packets are divided between calls of `append`, the calls
-- return normally, and in the end exactly these packets have been queued, in order, and the
-- buffer is empty; the buffer may hold the beginning of the stream before.
pub append_all-stream :
    (cs : List Bytes) (q : GdbPacketQueue) (ps : List GdbPacket)
    → AllSendable ps
    → IsPartial q.buffer
    → q.buffer ++ joined cs ≡ stream ps
    → append_all cs q ≡ some (ok (record { buffer = []; packets = q.packets ++ ps }))
unfolding append_all
append_all-stream [] q ps a h e = append_all-idle q ps a h (sym (append-nil q.buffer) ∙ e)
append_all-stream (c ∷ cs) q ps a h e =
    let k = cut ps (length (q.buffer ++ c)) a in
    let (taken, left) = append-piece c (joined cs) q ps e k in
    rw (taken, append_all)
      (append_all-stream cs (record { buffer = k.begun; packets = q.packets ++ k.complete }) k.later
          k.later_sendable k.partial left
        ∙ rw (append_assoc, k.splits))
