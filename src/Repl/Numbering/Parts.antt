-- ===== src/Repl/Numbering/Parts.antt =====
-- The parts of the actions leave the numbers of breakpoints and watchpoints in order.
use xendbg.Prelude.{
  ◌<◌, ◌+◌, ℕ, zero, suc, ◌==◌, ltb, Option, none, some, Bool-cases, inl, inr, [], ◌∷◌, Bytes,
  Result, ok, err, ◌>>=◌, ◌^◌, ◌%◌,
}
use xendbg.Text.{StoulError, stoul, invalid_argument, out_of_range}
use xendbg.Registers.{RegistersAny}
use xendbg.Xen.Hypervisor.{Hypervisor}
use xendbg.Xen.Guests.{DomainAny}
use xendbg.Debugger.Target.{Target, TargetFault, TargetResult, WatchpointType}
use xendbg.Expr.Syntax.{Expression, variable}
use xendbg.Expr.Parser.{parse}
use xendbg.Server.Handler
use xendbg.Server.Handler.{Backend}
use xendbg.Repl.Wrapper.{
  examine, Names, Table, Watchpoint, evaluate_expression, watch_numbered, detach,
}
use xendbg.Repl.Shell.{Shell, Shelled, World, on_wrapper, with_wrapped, with_parsed}
use xendbg.Repl.Perform.{
  disassemble, examine_words, set_cpu, on_guest, attach_guest, attach_named, detach_guest,
  unset_parsed, attached_wrapper, after_attach, with_info, attach_found, guest_by, is_current,
  with_word_size, print_breakpoints, print_watchpoints, found_context, switched, cpu_printed,
  loaded, watched, on_hvm, no_domid,
}
use xendbg.Repl.Numbering.Tables.{
  IsNumbered-suc, IsNumbered, kept-IsNumbered, watch_numbered-IsNumbered, delete_var-IsNumbered,
  detach-IsNumbered,
}
use xendbg.Repl.Numbering.Steps.{
  KeepsNumbers, on_wrapper-KeepsNumbers, on_wrapper_then, with_wrapped-KeepsNumbers,
  with_parsed-KeepsNumbers, with_guests-KeepsNumbers, with_guest-KeepsNumbers,
  with_pointer-KeepsNumbers,
}

module _ {D : Type 0} {bound : ℕ} (x : Hypervisor) (b : Backend D) (world : World D) where
  pub print_breakpoints-IsNumbered :
      (table : Table ℕ) (s : Shell D)
      → IsNumbered bound s.wrapper
      → IsNumbered bound (print_breakpoints x b world table s).wrapper
  unfolding print_breakpoints
  print_breakpoints-IsNumbered [] s h = h
  print_breakpoints-IsNumbered ((n, v) ∷ table) s h = print_breakpoints-IsNumbered table _ h

  pub print_watchpoints-IsNumbered :
      (table : Table Watchpoint) (s : Shell D)
      → IsNumbered bound s.wrapper
      → IsNumbered bound (print_watchpoints x b world table s).wrapper
  unfolding print_watchpoints
  print_watchpoints-IsNumbered [] s h = h
  print_watchpoints-IsNumbered ((n, v) ∷ table) s h = print_watchpoints-IsNumbered table _ h

module _ {D : Type 0} {bound : ℕ} (x : Hypervisor) (b : Backend D) (world : World D) (s : Shell D)
    (h : IsNumbered bound s.wrapper) where
  pub value-KeepsNumbers :
      (text : Bytes) (next : ℕ → Shelled D)
      → ((v : ℕ) → KeepsNumbers bound (next v))
      → KeepsNumbers bound (
          with_parsed s
            (parse [] text)
            (λ e. with_wrapped s (evaluate_expression x b e s.wrapper) next))
  value-KeepsNumbers text next n =
      with_parsed-KeepsNumbers s h (parse [] text) _ (λ e. with_wrapped-KeepsNumbers s h _ next n)

  pub disassemble-KeepsNumbers : (a n m : ℕ) → KeepsNumbers bound (disassemble x b world a n m s)
  unfolding disassemble
  disassemble-KeepsNumbers a n m =
      with_wrapped-KeepsNumbers s h (examine x b a 1 n s.wrapper) _ (λ v. h)

  pub examine_words-KeepsNumbers :
      (a n m : ℕ) → KeepsNumbers bound (examine_words x b world a n m s)
  unfolding examine_words
  examine_words-KeepsNumbers a n m =
      with_wrapped-KeepsNumbers s h (examine x b a n m s.wrapper) _ (λ v. h)

  pub found_context-KeepsNumbers :
      (found : Option RegistersAny) (next : RegistersAny → Shelled D)
      → ((regs : RegistersAny) → KeepsNumbers bound (next regs))
      → KeepsNumbers bound (found_context x b world s found next)
  found_context-KeepsNumbers none next n = h
  found_context-KeepsNumbers (some regs) next n = n regs

  pub switched-KeepsNumbers :
      (id : ℕ) (d : D) (max : Option ℕ) → KeepsNumbers bound (switched x b world id s d max)
  switched-KeepsNumbers id d none = h
  switched-KeepsNumbers id d (some max) = elim (Bool-cases (ltb max id)) [
    | inl e ↦ rw e h
    | inr e ↦ rw e h
  ]

  pub set_cpu-KeepsNumbers : (id : ℕ) → KeepsNumbers bound (set_cpu x b world id s)
  unfolding set_cpu
  set_cpu-KeepsNumbers id =
      with_guest-KeepsNumbers s h s.wrapper.debugger _
        (λ d. switched-KeepsNumbers id d s.max_vcpu_id)

  pub cpu_printed-KeepsNumbers : (max : Option ℕ) → KeepsNumbers bound (cpu_printed x b world s max)
  cpu_printed-KeepsNumbers none = h
  cpu_printed-KeepsNumbers (some max) = h

  pub loaded-KeepsNumbers : (found : Option Names) → KeepsNumbers bound (loaded x b world s found)
  loaded-KeepsNumbers none = h
  loaded-KeepsNumbers (some names) = h

  pub on_hvm-KeepsNumbers :
      (next : Shelled D) → KeepsNumbers bound next → KeepsNumbers bound (on_hvm x b world s next)
  on_hvm-KeepsNumbers next n =
      with_pointer-KeepsNumbers s h s.wrapper.debugger _
        (λ d. elim (Bool-cases (world.is_hvm d)) [ inl e ↦ rw e n | inr e ↦ rw e h ])

  pub word_size-KeepsNumbers :
      (size : ℕ) (next : ℕ → Shelled D)
      → ((n : ℕ) → KeepsNumbers bound (next n))
      → KeepsNumbers bound (with_word_size x b world s size next)
  word_size-KeepsNumbers zero next n = with_guest-KeepsNumbers s h s.wrapper.debugger _ (λ d. n _)
  word_size-KeepsNumbers (suc k) next n = n (suc k)

  pub unset_parsed-KeepsNumbers : (e : Expression) → KeepsNumbers bound (unset_parsed x b world s e)
  unset_parsed-KeepsNumbers (variable name) =
      on_wrapper-KeepsNumbers bound s _ (delete_var-IsNumbered x b s.wrapper h name)
  unset_parsed-KeepsNumbers e = h

  pub detach_guest-KeepsNumbers : KeepsNumbers bound (detach_guest x b world s)
  unfolding detach_guest
  detach_guest-KeepsNumbers = with_guest-KeepsNumbers s h s.wrapper.debugger _ (λ d.
      on_wrapper_then s (detach x b s.wrapper) _ (detach-IsNumbered x b s.wrapper h) (λ s' h'. h'))

  pub on_guest-KeepsNumbers :
      (f : Target → TargetResult) → KeepsNumbers bound (on_guest x b world f s)
  on_guest-KeepsNumbers f = with_guest-KeepsNumbers s h s.wrapper.debugger _ (λ d.
      on_wrapper-KeepsNumbers bound s _
        (kept-IsNumbered x b s.wrapper (Handler.on_target x b f d) h))

  pub with_info-KeepsNumbers :
      (d : D) (next : Shelled D)
      → KeepsNumbers bound next
      → KeepsNumbers bound (with_info x b world s d next)
  with_info-KeepsNumbers d next n = elim (Bool-cases (x.has_dominfo (b.target d).domain.issued)) [
    | inl e ↦ rw e n
    | inr e ↦ rw e h
  ]

  pub attach_found-KeepsNumbers :
      (found : Option DomainAny)
      → KeepsNumbers bound (attach_found x b world (attach_guest x b world) s found)
  unfolding attach_guest
  attach_found-KeepsNumbers none = h
  attach_found-KeepsNumbers (some domain) =
      elim (Bool-cases (is_current x b world domain.domid s.wrapper.debugger)) [
        | inl e ↦ rw e h
        | inr e ↦ rw e (attached-KeepsNumbers domain.domid (world.attach_to domain))
      ]
    where
      attached-KeepsNumbers :
          (domid : ℕ) (r : Result (TargetFault × D) D)
          → KeepsNumbers bound (
              on_wrapper s (attached_wrapper x b world s.wrapper r)
              >>= after_attach x b world domid)
      attached-KeepsNumbers domid (ok d) =
          elim (Bool-cases (x.has_dominfo (b.target d).domain.issued)) [
            | inl e ↦ rw e h
            | inr e ↦ rw e h
          ]
      attached-KeepsNumbers domid (err (f, d)) = h

  pub guest_by-KeepsNumbers :
      (text : Bytes) (r : Result StoulError (ℕ × Bytes))
      → KeepsNumbers bound
          (guest_by x b world s text r (attach_found x b world (attach_guest x b world) s))
  guest_by-KeepsNumbers text (err out_of_range) = h
  guest_by-KeepsNumbers text (err invalid_argument) =
      with_guests-KeepsNumbers s h _ _ attach_found-KeepsNumbers
  guest_by-KeepsNumbers text (ok (n, rest)) = elim (Bool-cases (n % 2 ^ 16 == no_domid)) [
    | inl e ↦ rw e (with_guests-KeepsNumbers s h _ _ attach_found-KeepsNumbers)
    | inr e ↦ rw e (with_guests-KeepsNumbers s h _ _ attach_found-KeepsNumbers)
  ]

  pub attach_named-KeepsNumbers :
      (text : Bytes) → KeepsNumbers bound (attach_named x b world text s)
  unfolding attach_named
  attach_named-KeepsNumbers text = guest_by-KeepsNumbers text (stoul 10 text)

module _ {D : Type 0} {bound : ℕ} (x : Hypervisor) (b : Backend D) (world : World D) (s : Shell D)
    (small : bound + 1 < 2 ^ 64) (h : IsNumbered bound s.wrapper) where
  pub watched-KeepsNumbers :
      (a n : ℕ) (type : Option WatchpointType)
      → KeepsNumbers (bound + 1) (watched x b world a n s type)
  watched-KeepsNumbers a n none = IsNumbered-suc s.wrapper h
  watched-KeepsNumbers a n (some type) =
      on_wrapper_then s (watch_numbered x b a n type s.wrapper) _
        (watch_numbered-IsNumbered x b s.wrapper h a n type small) (λ s' h'. h')
