-- ===== src/Gdb/Connection/Total.antt =====
-- The loops of the data event end.
use xendbg.Prelude.{
  ◌≢◌, true, Option, none, some, List, [], ◌∷◌, Bytes, Result, ok, err, Bool-cases, inl, inr, refl,
}
use xendbg.Gdb.Packet.{GdbPacket, is_checksum_valid}
use xendbg.Gdb.Queue.{Appended, append}
use xendbg.Gdb.Queue.Total.{append-ne-none}
use xendbg.Gdb.Reader.{parse_error, number_error, length_error}
use xendbg.Gdb.Request.{Request}
use xendbg.Gdb.Connection
use xendbg.Gdb.Connection.{
  Session, Connection, Uncaught, out_of_fuel, ParseFailure, unknown_packet_type, request_failure,
  ack, deliver, handle_packet, with_appended, is_initial_ack, on_data, parse_packet,
}
use xendbg.Gdb.Connection.Delivery.{handle_all, at_rest, handle_packets_lem}

module _ {H : Type 0} (on_receive : Request → Session H → Option (Session H)) where
  returned-ne : (r : Option (Session H)) → Connection.returned r ≢ err out_of_fuel
  returned-ne none = λ h. cc
  returned-ne (some s) = λ h. cc

  deliver-ne :
      (r : Result ParseFailure Request) (s : Session H) → deliver on_receive r s ≢ err out_of_fuel
  unfolding deliver
  deliver-ne (ok request) s = returned-ne (on_receive request s)
  deliver-ne (err unknown_packet_type) s = λ h. cc
  deliver-ne (err (request_failure parse_error)) s = λ h. cc
  deliver-ne (err (request_failure (number_error e))) s = λ h. cc
  deliver-ne (err (request_failure length_error)) s = λ h. cc

  handle_packet-ne :
      (p : GdbPacket) (s : Session H) → handle_packet on_receive p s ≢ err out_of_fuel
  unfolding handle_packet
  handle_packet-ne p s = elim (Bool-cases (is_checksum_valid p)) [
    | inl e ↦ rw e (deliver-ne (parse_packet p) (ack true s))
    | inr e ↦ rw e (λ h. cc)
  ]

  handle_all-ne :
      (ps : List GdbPacket) (s : Session H) → handle_all on_receive ps s ≢ err out_of_fuel
  handle_all-ne [] s = λ h. cc
  handle_all-ne (p ∷ ps) s =
      go (handle_packet on_receive p s) (handle_packet-ne p s) (λ s'. handle_all-ne ps s')
    where
      go :
          (r : Result Uncaught (Session H))
          → r ≢ err out_of_fuel
          → ((s' : Session H) → handle_all on_receive ps s' ≢ err out_of_fuel)
          → elim r [ ok s' ↦ handle_all on_receive ps s' | err e ↦ err e ] ≢ err out_of_fuel
      go (ok s') n rest = rest s'
      go (err e) n rest = n

  at_rest-ne :
      (c : Connection H) (buffer : Bytes) (r : Result Uncaught (Session H))
      → r ≢ err out_of_fuel
      → at_rest on_receive c.is_initializing buffer r ≢ err out_of_fuel
  at_rest-ne c buffer (ok s) n = λ h. cc
  at_rest-ne c buffer (err e) n = λ h. n cc

  with_appended-ne :
      (c : Connection H) (a : Appended) → a ≢ none → with_appended on_receive c a ≢ err out_of_fuel
  unfolding with_appended
  with_appended-ne c none n = absurd (n refl)
  with_appended-ne c (some (err (e, q))) n = λ h. cc
  with_appended-ne c (some (ok q)) n =
      rw (handle_packets_lem on_receive q.packets q.buffer c.is_initializing c.session) (
        at_rest-ne c q.buffer (handle_all on_receive q.packets c.session)
          (handle_all-ne q.packets c.session))

  -- On any data, in any state of the connection and with any handler, the data event comes to an
  -- end: neither the loop of `append` nor the loop over the packets runs for ever.
  pub on_data-ne-out_of_fuel :
      (bytes : Bytes) (c : Connection H) → on_data on_receive bytes c ≢ err out_of_fuel
  unfolding on_data
  on_data-ne-out_of_fuel bytes c = elim (Bool-cases (is_initial_ack bytes c)) [
    | inl e ↦ rw e (λ h. cc)
    | inr e ↦
        rw e (with_appended-ne c (append bytes c.input_queue) (append-ne-none bytes c.input_queue))
  ]
