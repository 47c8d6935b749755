-- ===== src/Server/Memory.antt =====
-- Memory as a client sees it: a write and a read, from the packets to the replies.
use mathlib.Core.Path.{subst}
use xendbg.Prelude.{
  ℕ, ◌+◌, ◌-◌, ◌<◌, ◌≡◌, refl, sym, ◌∙◌, ap, Bool, true, false, Bool-cases, inl, inr, some, [], ◌∷◌,
  Bytes, length, take, ltb, ==_refl, ok, ◌>>=◌, arith,
}
use native.Mathlib.Nat.{mod-eq_of_lt}
use xendbg.Xen.Hypervisor.{Hypervisor}
use xendbg.Debugger.Guest.{Guest, Window, map_memory, machine, poke, peek_bytes, poke_bytes}
use xendbg.Debugger.Base.{Debugger, u64_mod, has_breakpoint, read_memory_masking_breakpoints}
use xendbg.Debugger.Masking.{NoneIn, Covers, read_memory-NoneIn}
use xendbg.Debugger.Writing.{write_memory-NoneIn}
use xendbg.Debugger.Target.{Target, TargetFault, of_outcome}
use xendbg.Gdb.Queue.Stream.{wire}
use xendbg.Gdb.Request.{Request}
use xendbg.Gdb.Request.Client.{Number, value}
use xendbg.Gdb.Request.Client.Commands.{read_memory, write_memory, IsCommand}
use xendbg.Gdb.Response.{ok_response, memory_read_response}
use xendbg.Gdb.Connection.{Session, Connection, send, write, ack, on_data}
use xendbg.Gdb.Connection.Delivery.{at_rest}
use xendbg.Gdb.Connection.Commands.{items, answered, answered-some, on_data-commands}
use xendbg.Server.Handler
use xendbg.Server.Handler.{
  Backend, on_target, call, of_call, memory_reply, handle, on_memory_read, on_memory_write,
}
use xendbg.Server.Session.{catches, on_request}

-- A range of memory that can be written and read: it can be mapped, its mapping covers it, and no
-- breakpoint lies in it or just before it.
pub record IsWritable (a : ℕ) (n : ℕ) (d : Debugger) : Type 0 where
  pub address_positive : 0 < a
  pub size_positive : 0 < n
  pub fits : a + n < u64_mod
  pub before : has_breakpoint (a - 1) d.breakpoints ≡ false
  pub clear : NoneIn a (a + n) d.breakpoints
  pub window : Window
  pub mapped : map_memory d.guest.space a n ≡ some window
  pub covers : Covers a n

poke_bytes-space : (g : Guest) (at : ℕ) (bytes : Bytes) → (poke_bytes g at bytes).space ≡ g.space
unfolding poke_bytes poke
poke_bytes-space g at [] = refl
poke_bytes-space g at (b ∷ bytes) = poke_bytes-space (poke g at b) (at + 1) bytes

poke_bytes_below :
    (g : Guest) (at i : ℕ) (bytes : Bytes) → i < at → (poke_bytes g at bytes).memory i ≡ g.memory i
unfolding poke_bytes poke
poke_bytes_below g at i [] h = refl
poke_bytes_below g at i (b ∷ bytes) h =
    poke_bytes_below (poke g at b) (at + 1) i bytes (omega (arith, h)) ∙ ground arith

peek_bytes-poke_bytes :
    (g : Guest) (at : ℕ) (bytes : Bytes)
    → peek_bytes (poke_bytes g at bytes) at (length bytes) ≡ bytes
unfolding peek_bytes poke_bytes poke
peek_bytes-poke_bytes g at [] = refl
peek_bytes-poke_bytes g at (b ∷ bytes) =
    rw
      (
        poke_bytes_below (poke g at b) (at + 1) at bytes (omega arith),
        peek_bytes-poke_bytes (poke g at b) (at + 1) bytes,
      )
      (rw ==_refl refl)

not_less : (n : ℕ) → ltb n n ≡ false
not_less n = ground arith

take_all : (bytes : Bytes) → take (length bytes) bytes ≡ bytes
take_all [] = refl
take_all (b ∷ bytes) = rw (take_all bytes) refl

-- The debugger after a write.
abbrev pub stored : ℕ → Bytes → Debugger → Debugger
stored a bytes d = record d { guest = poke_bytes d.guest (machine d.guest.space a) bytes }

pub read-stored :
    (a : ℕ) (bytes : Bytes) (d : Debugger)
    → IsWritable a (length bytes) d
    → read_memory_masking_breakpoints a (length bytes) (stored a bytes d) ≡ ok bytes
read-stored a bytes d h =
    let g = d.guest in
    let at = machine g.space a in
    let same = poke_bytes-space g at bytes in
    read_memory-NoneIn a (length bytes) (stored a bytes d) h.window (rw same h.mapped) h.covers
      (rw (mod-eq_of_lt h.fits) h.clear)
    ∙ ap ok (
        ap (λ y. peek_bytes (poke_bytes g at bytes) (machine y a) (length bytes)) same
        ∙ peek_bytes-poke_bytes g at bytes)

module _ {D : Type 0} (x : Hypervisor) (b : Backend D)
    (lens : (d : D) (t : Target) → b.target (b.with_target d t) ≡ t) where
  -- The debugger with these bytes in the guest's memory.
  abbrev pub written : ℕ → Bytes → D → D
  written a bytes d =
      b.with_target d (record (b.target d) { debugger = stored a bytes (b.target d).debugger })

  -- The reply to a write, and that to a read of what was written.
  handle-memory_write :
      (a : ℕ) (bytes : Bytes) (s : Session D)
      → IsWritable a (length bytes) (b.target s.handler).debugger
      → handle x b (Request.memory_write a (length bytes) bytes) s
        ≡ ok (send ok_response (record s { handler = written a bytes s.handler }))
  unfolding handle on_memory_write
  handle-memory_write a bytes s h =
      let d = (b.target s.handler).debugger in
      let done =
        write_memory-NoneIn a bytes d h.window h.address_positive h.size_positive h.fits h.before
          h.clear h.mapped h.covers in
      rw (not_less (length bytes), take_all bytes)
        (ap
          (λ r.
            of_call x b s (Handler.of_target x b s.handler (of_outcome (b.target s.handler) r))
            >>= Handler.reply x b ok_response)
          done)

  handle-memory_read :
      (a : ℕ) (bytes : Bytes) (d : D) (s : Session D)
      → IsWritable a (length bytes) (b.target d).debugger
      → s.handler ≡ written a bytes d
      → handle x b (Request.memory_read a (length bytes)) s
        ≡ ok (send (memory_read_response bytes) s)
  unfolding handle on_memory_read
  handle-memory_read a bytes d s h e =
      let dbg = (b.target d).debugger in
      let now : (b.target s.handler).debugger ≡ stored a bytes dbg =
        ap (λ d'. (b.target d').debugger) e
        ∙ ap (λ (t : Target). t.debugger)
            (lens d (record (b.target d) { debugger = stored a bytes dbg })) in
      ap (memory_reply x b s)
        (ap (read_memory_masking_breakpoints a (length bytes)) now ∙ read-stored a bytes dbg h)

  module _ (error_of : TargetFault → ℕ × Bytes) where
    ack-handler : (valid : Bool) (s : Session D) → (ack valid s).handler ≡ s.handler
    unfolding ack write
    ack-handler valid s = elim (Bool-cases s.ack_mode) [ inl e ↦ rw e refl | inr e ↦ rw e refl ]

    -- The session behind the two replies.
    abbrev pub replied_to : ℕ → Bytes → Session D → Session D
    replied_to a bytes s =
        send (memory_read_response bytes) (
          ack true (send ok_response (record (ack true s) { handler = written a bytes s.handler })))

    on_request-memory_write :
        (a n : ℕ) (bytes : Bytes) (s : Session D)
        → n ≡ length bytes
        → IsWritable a (length bytes) (b.target s.handler).debugger
        → on_request x b error_of (Request.memory_write a n bytes) (ack true s)
          ≡ some (send ok_response (record (ack true s) { handler = written a bytes s.handler }))
    unfolding on_request catches
    on_request-memory_write a n bytes s e h =
        let same = ack-handler true s in
        ap (λ k. catches x b error_of (handle x b (Request.memory_write a k bytes) (ack true s))) e
        ∙ ap (catches x b error_of) (
            handle-memory_write a bytes (ack true s)
              (subst (λ d. IsWritable a (length bytes) (b.target d).debugger) (sym same) h))
        ∙ ap (λ d. some (send ok_response (record (ack true s) { handler = written a bytes d })))
            same

    on_request-memory_read :
        (a n : ℕ) (bytes : Bytes) (d : D) (s : Session D)
        → n ≡ length bytes
        → IsWritable a (length bytes) (b.target d).debugger
        → s.handler ≡ written a bytes d
        → on_request x b error_of (Request.memory_read a n) (ack true s)
          ≡ some (send (memory_read_response bytes) (ack true s))
    unfolding on_request catches
    on_request-memory_read a n bytes d s e h same =
        ap (λ k. catches x b error_of (handle x b (Request.memory_read a k) (ack true s))) e
        ∙ ap (catches x b error_of)
            (handle-memory_read a bytes d (ack true s) h (ack-handler true s ∙ same))

    answered-write_read :
        (a n : Number 64) (bytes : Bytes) (s : Session D)
        → value n ≡ length bytes
        → IsWritable (value a) (length bytes) (b.target s.handler).debugger
        → answered (on_request x b error_of) (write_memory a n bytes ∷ read_memory a n ∷ []) s
          ≡ ok (replied_to (value a) bytes s)
    unfolding send write
    answered-write_read a n bytes s e h =
        let after =
          send ok_response (record (ack true s) { handler = written (value a) bytes s.handler }) in
        let receive = on_request x b error_of in
        answered-some receive (write_memory a n bytes) (read_memory a n ∷ []) s
          (on_request-memory_write (value a) (value n) bytes s e h)
        ∙ answered-some receive (read_memory a n) [] after
            (on_request-memory_read (value a) (value n) bytes s.handler after e h refl)

    -- A client that writes bytes to a range of memory which can be written, and then reads as many
    -- bytes from there, gets an acknowledgement and `OK`, and an acknowledgement and just these
    -- bytes; the bytes are stored in the guest's memory, and nothing else changes.
    pub on_data-write_read :
        (a n : Number 64) (bytes : Bytes) (c : Connection D)
        → c.input_queue ≡ record { buffer = []; packets = [] }
        → IsCommand (write_memory a n bytes)
        → IsWritable (value a) (length bytes) (b.target c.session.handler).debugger
        → on_data
            (on_request x b error_of)
            (wire (items (write_memory a n bytes ∷ read_memory a n ∷ [])))
            c
          ≡ at_rest
              (on_request x b error_of)
              c.is_initializing
              []
              (ok (replied_to (value a) bytes c.session))
    on_data-write_read a n bytes c e h k =
        on_data-commands (on_request x b error_of) (write_memory a n bytes ∷ read_memory a n ∷ []) c
          e (h, (tt, tt))
        ∙ ap (at_rest (on_request x b error_of) c.is_initializing [])
            (answered-write_read a n bytes c.session h.1 k)
