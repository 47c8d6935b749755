-- ===== src/Gdb/Connection/Commands.antt =====
-- From the bytes of a client's commands to the calls of the request handler.
use xendbg.Prelude.{
  ℕ, zero, suc, ◌+◌, ◌/◌, ◌%◌, ◌<◌, ◌≡◌, ◌≢◌, refl, ◌∙◌, ap, true, false, Option, none, some, List,
  [], ◌∷◌, ◌++◌, Bytes, All, Result, ok, err, arith, ==_refl, append-nil, append_assoc,
}
use xendbg.Text.{hex_digit, codes}
use xendbg.Gdb.Packet.{
  make_packet, to_string, is_checksum_valid, calculate_checksum, sum_from, hex_byte,
}
use xendbg.Gdb.Queue.Frames.{HasNoMark, interrupts_of}
use xendbg.Gdb.Queue.Stream.{Item, IsSendable, wire, received}
use xendbg.Gdb.Request.{Request}
use xendbg.Gdb.Request.Digits.{digits_text}
use xendbg.Gdb.Request.Client.{Number, text}
use xendbg.Gdb.Request.Client.Commands.{
  Command, read_memory, write_memory, insert_at, remove_at, set_register, command_text,
  command_request, IsCommand, parse_packet-command_text,
}
use xendbg.Gdb.Response.{hexify, write_bytes}
use xendbg.Gdb.Connection
use xendbg.Gdb.Connection.{
  Session, Connection, Uncaught, from_handler, handle_packet, ack, deliver, is_initial_ack, on_data,
}
use xendbg.Gdb.Connection.Delivery.{handle_all, at_rest, on_data-wire}

HasNoMark-append : (s t : Bytes) → HasNoMark s → HasNoMark t → HasNoMark (s ++ t)
HasNoMark-append [] t h k = k
HasNoMark-append (c ∷ s) t h k = (h.0, HasNoMark-append s t h.1 k)

hex_digit-mark : (d : ℕ) → hex_digit d ≢ b'#'
unfolding hex_digit
hex_digit-mark d = ground arith

digits_text-HasNoMark : (ds : List ℕ) → HasNoMark (digits_text ds)
digits_text-HasNoMark [] = tt
digits_text-HasNoMark (d ∷ ds) = (hex_digit-mark d, digits_text-HasNoMark ds)

text-HasNoMark : {bits : ℕ} (n : Number bits) → HasNoMark (text n)
text-HasNoMark n = digits_text-HasNoMark (n.first ∷ n.others)

hexify-HasNoMark : (bytes : Bytes) → HasNoMark (hexify bytes)
unfolding hexify hex_byte
hexify-HasNoMark [] = tt
hexify-HasNoMark (b ∷ bytes) =
    (hex_digit-mark (b / 16), (hex_digit-mark (b % 16), hexify-HasNoMark bytes))

write_bytes-HasNoMark : (n v : ℕ) → HasNoMark (write_bytes n v)
unfolding write_bytes hex_byte
write_bytes-HasNoMark zero v = tt
write_bytes-HasNoMark (suc n) v = (
  hex_digit-mark (v % 256 / 16),
  (hex_digit-mark (v % 256 % 16), write_bytes-HasNoMark n (v / 256)),
)

-- A character that is not the mark, between two pieces of text.
joined-HasNoMark :
    (s t : Bytes) (c : ℕ) → c ≢ b'#' → HasNoMark s → HasNoMark t → HasNoMark (s ++ (c ∷ t))
joined-HasNoMark s t c n h k = HasNoMark-append s (c ∷ t) h (n, k)

breakpoint-HasNoMark :
    {i j k : ℕ} (type : Number i) (a : Number j) (kind : Number k)
    → HasNoMark (text type ++ (b',' ∷ (text a ++ (b',' ∷ text kind))))
breakpoint-HasNoMark type a kind =
    joined-HasNoMark (text type) (text a ++ (b',' ∷ text kind)) b',' (omega arith)
      (text-HasNoMark type)
      (joined-HasNoMark (text a) (text kind) b',' (omega arith) (text-HasNoMark a)
        (text-HasNoMark kind))

command_text-HasNoMark : (c : Command) → HasNoMark (command_text c)
command_text-HasNoMark (read_memory a n) = (
  omega arith,
  joined-HasNoMark (text a) (text n) b',' (omega arith) (text-HasNoMark a) (text-HasNoMark n),
)
command_text-HasNoMark (write_memory a n bytes) = (
  omega arith,
  joined-HasNoMark (text a) (text n ++ (b':' ∷ hexify bytes)) b',' (omega arith) (text-HasNoMark a)
      (joined-HasNoMark (text n) (hexify bytes) b':' (omega arith) (text-HasNoMark n)
        (hexify-HasNoMark bytes)),
)
command_text-HasNoMark (insert_at type a kind) = (omega arith, breakpoint-HasNoMark type a kind)
command_text-HasNoMark (remove_at type a kind) = (omega arith, breakpoint-HasNoMark type a kind)
command_text-HasNoMark (set_register id v thread) = (
  omega arith,
  joined-HasNoMark (text id) (write_bytes 8 v ++ (codes ";thread:" ++ (text thread ++ codes ";")))
      b'=' (omega arith) (text-HasNoMark id)
      (HasNoMark-append (write_bytes 8 v) (codes ";thread:" ++ (text thread ++ codes ";"))
        (write_bytes-HasNoMark 8 v)
        (HasNoMark-append (codes ";thread:") (text thread ++ codes ";")
          (
            omega arith,
            (
              omega arith,
              (
                omega arith,
                (omega arith, (omega arith, (omega arith, (omega arith, (omega arith, tt))))),
              ),
            ),
          )
          (HasNoMark-append (text thread) (codes ";") (text-HasNoMark thread) (omega arith, tt)))),
)

sum_from-lt : (s : Bytes) (acc : ℕ) → acc < 256 → sum_from acc s < 256
unfolding sum_from
sum_from-lt [] acc h = h
sum_from-lt (c ∷ s) acc h = sum_from-lt s ((acc + c) % 256) (omega arith)

abbrev pub item : Command → Item
item c = record { junk = []; packet = make_packet (command_text c) }

item-IsSendable : (c : Command) → IsSendable (item c)
unfolding make_packet calculate_checksum
item-IsSendable c = record {
  outside = tt;
  no_mark = command_text-HasNoMark c;
  is_byte = sum_from-lt (command_text c) 0 (omega arith);
}

abbrev pub items : List Command → List Item
items [] = []
items (c ∷ cs) = item c ∷ items cs

items-IsSendable : (cs : List Command) → All IsSendable (items cs)
items-IsSendable [] = tt
items-IsSendable (c ∷ cs) = (item-IsSendable c, items-IsSendable cs)

module _ {H : Type 0} (on_receive : Request → Session H → Option (Session H)) where
  -- Each command is acknowledged, and then handed to the handler, up to the first exception.
  abbrev pub answered : List Command → Session H → Result Uncaught (Session H)
  answered [] s = ok s
  answered (c ∷ cs) s = elim (on_receive (command_request c) (ack true s)) [
    | some s' ↦ answered cs s'
    | none ↦ err from_handler
  ]

  pub answered-some :
      (c : Command) (cs : List Command) (s : Session H) {s' : Session H}
      → on_receive (command_request c) (ack true s) ≡ some s'
      → answered (c ∷ cs) s ≡ answered cs s'
  answered-some c cs s e =
      ap {B = Result Uncaught (Session H)}
        (λ r. elim r [ some s'' ↦ answered cs s'' | none ↦ err from_handler ]) e

  handle_packet-command :
      (c : Command) (s : Session H)
      → IsCommand c
      → handle_packet on_receive (make_packet (command_text c)) s
        ≡ Connection.returned (on_receive (command_request c) (ack true s))
  unfolding handle_packet is_checksum_valid make_packet deliver
  handle_packet-command c s h =
      rw (==_refl (calculate_checksum (command_text c)), parse_packet-command_text c h) refl

  handle_all-commands :
      (cs : List Command) (s : Session H)
      → All IsCommand cs
      → handle_all on_receive (received (items cs)) s ≡ answered cs s
  unfolding interrupts_of
  handle_all-commands [] s h = refl
  handle_all-commands (c ∷ cs) s h =
      rw (handle_packet-command c s h.0, handle_all)
        (go (on_receive (command_request c) (ack true s)) (λ s'. handle_all-commands cs s' h.1))
    where
      go :
          (r : Option (Session H))
          → ((s' : Session H) → handle_all on_receive (received (items cs)) s' ≡ answered cs s')
          → ◌≡◌ {A = Result Uncaught (Session H)}
              (elim (Connection.returned r) [
                | ok s' ↦ handle_all on_receive (received (items cs)) s'
                | err e ↦ err e
              ])
              (elim r [ some s' ↦ answered cs s' | none ↦ err from_handler ])
      go none rest = refl
      go (some s') rest = rest s'

  is_initial_ack-longer :
      (x y : ℕ) (s t : Bytes) (c : Connection H) → is_initial_ack (x ∷ (s ++ (y ∷ t))) c ≡ false
  unfolding is_initial_ack
  is_initial_ack-longer x y [] t c = refl
  is_initial_ack-longer x y (_ ∷ s) t c = refl

  is_initial_ack-items :
      (cs : List Command) (c : Connection H) → is_initial_ack (wire (items cs)) c ≡ false
  unfolding to_string is_initial_ack
  is_initial_ack-items [] c = refl
  is_initial_ack-items (cmd ∷ cs) c =
      let packet = make_packet (command_text cmd) in
      rw (append_assoc packet.contents (b'#' ∷ hex_byte packet.checksum) (wire (items cs))) (
        is_initial_ack-longer b'$' b'#' packet.contents
          (hex_byte packet.checksum ++ wire (items cs)) c)

  -- A client that sends memory reads and writes, insertions and removals of breakpoints and writes
  -- of registers with a thread, to a connection with nothing queued or buffered, has each of them
  -- acknowledged and handed to the handler with its arguments, in order, up to the first exception
  -- that leaves the handler; without one, nothing is left over.
  pub on_data-commands :
      (cs : List Command) (c : Connection H)
      → c.input_queue ≡ record { buffer = []; packets = [] }
      → All IsCommand cs
      → on_data on_receive (wire (items cs)) c
        ≡ at_rest on_receive c.is_initializing [] (answered cs c.session)
  unfolding interrupts_of
  on_data-commands cs c e h =
      on_data-wire on_receive (wire (items cs)) c (items cs) [] [] (is_initial_ack-items cs c)
        (rw (e, append-nil (wire (items cs))) refl) (items-IsSendable cs) tt tt
      ∙ ap (at_rest on_receive c.is_initializing []) {y = answered cs c.session} (
          rw (e, append-nil (received (items cs)), append-nil (received (items cs)))
            (handle_all-commands cs c.session h))
