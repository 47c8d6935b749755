-- ===== src/Repl/Numbering/Steps.antt =====
-- What the shell prints and passes on leaves the numbers of breakpoints and watchpoints in order.
use xendbg.Prelude.{ℕ, Option, none, some, List, [], ◌∷◌, Result, ok, err, ◌>>=◌}
use xendbg.Registers.{Context}
use xendbg.Xen.Guests.{DomainAny, Answers, GuestsFault}
use xendbg.Expr.Parser.{ParseError}
use xendbg.Repl.Wrapper.{WrapperFault, Wrapped, Names}
use xendbg.Repl.Shell.{
  Shell, Shelled, on_wrapper, with_wrapped, with_parsed, with_guests, with_guest, with_pointer,
  print_guests, print_symbols, print_variables, print_registers,
}
use xendbg.Repl.Numbering.Tables.{IsNumbered, LeavesNumbered}

-- Of the state that an action leaves, also where it throws.
abbrev pub KeepsNumbers : {D : Type 0} → ℕ → Shelled D → Type 0
KeepsNumbers bound (ok s) = IsNumbered bound s.wrapper
KeepsNumbers bound (err (f, s)) = IsNumbered bound s.wrapper

pub on_wrapper-KeepsNumbers :
    {D : Type 0} (bound : ℕ) (s : Shell D) (r : Wrapped D)
    → LeavesNumbered bound r
    → KeepsNumbers bound (on_wrapper s r)
on_wrapper-KeepsNumbers bound s (ok w) h = h
on_wrapper-KeepsNumbers bound s (err (f, w)) h = h

-- The shell with a wrapper, where its numbers are in order.
module _ {D : Type 0} {bound : ℕ} (s : Shell D) where
  pub on_wrapper_then :
      (r : Wrapped D) (next : Shell D → Shelled D)
      → LeavesNumbered bound r
      → ((s' : Shell D) → IsNumbered bound s'.wrapper → KeepsNumbers bound (next s'))
      → KeepsNumbers bound (on_wrapper s r >>= next)
  on_wrapper_then (ok w) next h n = n (record s { wrapper = w }) h
  on_wrapper_then (err (f, w)) next h n = h

module _ {D : Type 0} {bound : ℕ} (s : Shell D) (h : IsNumbered bound s.wrapper) where
  pub with_wrapped-KeepsNumbers :
      {V : Type 0} (r : Result WrapperFault V) (next : V → Shelled D)
      → ((v : V) → KeepsNumbers bound (next v))
      → KeepsNumbers bound (with_wrapped s r next)
  with_wrapped-KeepsNumbers (ok v) next n = n v
  with_wrapped-KeepsNumbers (err f) next n = h

  pub with_parsed-KeepsNumbers :
      {V : Type 0} (r : Result ParseError V) (next : V → Shelled D)
      → ((v : V) → KeepsNumbers bound (next v))
      → KeepsNumbers bound (with_parsed s r next)
  with_parsed-KeepsNumbers (ok v) next n = n v
  with_parsed-KeepsNumbers (err f) next n = h

  pub with_guests-KeepsNumbers :
      {V : Type 0} (r : Result GuestsFault V) (next : V → Shelled D)
      → ((v : V) → KeepsNumbers bound (next v))
      → KeepsNumbers bound (with_guests s r next)
  with_guests-KeepsNumbers (ok v) next n = n v
  with_guests-KeepsNumbers (err f) next n = h

  pub with_guest-KeepsNumbers :
      (o : Option D) (next : D → Shelled D)
      → ((d : D) → KeepsNumbers bound (next d))
      → KeepsNumbers bound (with_guest s o next)
  with_guest-KeepsNumbers none next n = h
  with_guest-KeepsNumbers (some d) next n = n d

  pub with_pointer-KeepsNumbers :
      (o : Option D) (next : D → Shelled D)
      → ((d : D) → KeepsNumbers bound (next d))
      → KeepsNumbers bound (with_pointer s o next)
  with_pointer-KeepsNumbers none next n = h
  with_pointer-KeepsNumbers (some d) next n = n d

-- Printing.
module _ {D : Type 0} {bound : ℕ} where
  pub print_symbols-IsNumbered :
      (names : Names) (s : Shell D)
      → IsNumbered bound s.wrapper
      → IsNumbered bound (print_symbols names s).wrapper
  unfolding print_symbols
  print_symbols-IsNumbered [] s h = h
  print_symbols-IsNumbered ((n, v) ∷ names) s h = print_symbols-IsNumbered names _ h

  pub print_variables-IsNumbered :
      (names : Names) (s : Shell D)
      → IsNumbered bound s.wrapper
      → IsNumbered bound (print_variables names s).wrapper
  unfolding print_variables
  print_variables-IsNumbered [] s h = h
  print_variables-IsNumbered ((n, v) ∷ names) s h = print_variables-IsNumbered names _ h

  pub print_registers-IsNumbered :
      (regs : Context) (s : Shell D)
      → IsNumbered bound s.wrapper
      → IsNumbered bound (print_registers regs s).wrapper
  unfolding print_registers
  print_registers-IsNumbered [] s h = h
  print_registers-IsNumbered (r ∷ regs) s h = print_registers-IsNumbered regs _ h

  pub print_guests-IsNumbered :
      (a : Answers) (domains : List DomainAny) (s : Shell D)
      → IsNumbered bound s.wrapper
      → IsNumbered bound (print_guests a domains s).wrapper
  unfolding print_guests
  print_guests-IsNumbered a [] s h = h
  print_guests-IsNumbered a (d ∷ domains) s h = print_guests-IsNumbered a domains _ h
