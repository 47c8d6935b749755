-- ===== src/Gdb/Connection/Invariants.antt =====
-- What the handler of the requests keeps, the data event keeps.
use xendbg.Prelude.{
  ℕ, zero, suc, Bool, true, false, Option, none, some, Bool-cases, inl, inr, length, Bytes, Result,
  ok, err,
}
use xendbg.Gdb.Packet.{GdbPacket, is_checksum_valid}
use xendbg.Gdb.Queue.{Appended, GdbPacketQueue, append, pop}
use xendbg.Gdb.Reader.{parse_error, number_error, length_error}
use xendbg.Gdb.Request.{Request}
use xendbg.Gdb.Connection
use xendbg.Gdb.Connection.{
  Session, Connection, Uncaught, ParseFailure, unknown_packet_type, request_failure, parse_packet,
  write, send, ack, deliver, handle_packet, handle_packets, with_appended, is_initial_ack, on_data,
}

-- What is left satisfies `P`, if no exception leaves.
abbrev pub KeptBy : {H : Type 0} → (H → Type 0) → Option (Session H) → Type 0
KeptBy P none = Unit
KeptBy P (some s) = P s.handler

abbrev SessionKept : {H : Type 0} → (H → Type 0) → Result Uncaught (Session H) → Type 0
SessionKept P (ok s) = P s.handler
SessionKept P (err e) = Unit

abbrev pub ConnectionKept : {H : Type 0} → (H → Type 0) → Result Uncaught (Connection H) → Type 0
ConnectionKept P (ok c) = P c.session.handler
ConnectionKept P (err e) = Unit

module _ {H : Type 0} (on_receive : Request → Session H → Option (Session H)) (P : H → Type 0)
    (keeps : (r : Request) (s : Session H) → P s.handler → KeptBy P (on_receive r s)) where
  ack-Kept : (valid : Bool) (s : Session H) → P s.handler → P (ack valid s).handler
  unfolding ack write
  ack-Kept valid s h = elim (Bool-cases s.ack_mode) [ inl e ↦ rw e h | inr e ↦ rw e h ]

  returned-Kept : (r : Option (Session H)) → KeptBy P r → SessionKept P (Connection.returned r)
  returned-Kept none h = tt
  returned-Kept (some s) h = h

  deliver-Kept :
      (r : Result ParseFailure Request) (s : Session H)
      → P s.handler
      → SessionKept P (deliver on_receive r s)
  unfolding deliver send write
  deliver-Kept (ok r) s h = returned-Kept (on_receive r s) (keeps r s h)
  deliver-Kept (err unknown_packet_type) s h = h
  deliver-Kept (err (request_failure parse_error)) s h = h
  deliver-Kept (err (request_failure (number_error e))) s h = tt
  deliver-Kept (err (request_failure length_error)) s h = tt

  handle_packet-Kept :
      (p : GdbPacket) (s : Session H) → P s.handler → SessionKept P (handle_packet on_receive p s)
  unfolding handle_packet
  handle_packet-Kept p s h = elim (Bool-cases (is_checksum_valid p)) [
    | inl e ↦ rw e (deliver-Kept (parse_packet p) (ack true s) (ack-Kept true s h))
    | inr e ↦ rw e (ack-Kept false s h)
  ]

  handle_packets-Kept :
      (fuel : ℕ) (c : Connection H)
      → P c.session.handler
      → ConnectionKept P (handle_packets fuel on_receive c)
  unfolding handle_packets
  handle_packets-Kept zero c h = tt
  handle_packets-Kept (suc fuel) c h =
      next (pop c.input_queue) (handle_packets-Kept fuel) (λ p. handle_packet-Kept p c.session h)
    where
      Rest : Type 0
      Rest =
          (c' : Connection H)
          → P c'.session.handler
          → ConnectionKept P (handle_packets fuel on_receive c')

      handled :
          (queue : GdbPacketQueue) (r : Result Uncaught (Session H))
          → Rest
          → SessionKept P r
          → ConnectionKept P (elim r [
            | ok s ↦ handle_packets fuel on_receive (record c { input_queue = queue; session = s })
            | err e ↦ err e
          ])
      handled queue (ok s) rest k = rest (record c { input_queue = queue; session = s }) k
      handled queue (err e) rest k = tt

      next :
          (r : Option (GdbPacket × GdbPacketQueue))
          → Rest
          → ((p : GdbPacket) → SessionKept P (handle_packet on_receive p c.session))
          → ConnectionKept P (elim r [
            | none ↦ ok c
            | some (packet, queue) ↦ elim (handle_packet on_receive packet c.session) [
              | ok s ↦
                  handle_packets fuel on_receive (record c { input_queue = queue; session = s })
              | err e ↦ err e
            ]
          ])
      next none rest k = h
      next (some (p, queue)) rest k =
          handled queue (handle_packet on_receive p c.session) rest (k p)

  with_appended-Kept :
      (c : Connection H) (a : Appended)
      → P c.session.handler
      → ConnectionKept P (with_appended on_receive c a)
  unfolding with_appended
  with_appended-Kept c none h = tt
  with_appended-Kept c (some (err e)) h = tt
  with_appended-Kept c (some (ok queue)) h =
      handle_packets-Kept (suc (length queue.packets)) (record c { input_queue = queue }) h

  -- A property of the handler's state that each request keeps is kept by the data event, whatever
  -- the data are.
  pub on_data-Kept :
      (bytes : Bytes) (c : Connection H)
      → P c.session.handler
      → ConnectionKept P (on_data on_receive bytes c)
  unfolding on_data write
  on_data-Kept bytes c h = elim (Bool-cases (is_initial_ack bytes c)) [
    | inl e ↦ rw e h
    | inr e ↦ rw e (with_appended-Kept c (append bytes c.input_queue) h)
  ]
