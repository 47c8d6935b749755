-- ===== src/Repl/Unattached.antt =====
-- Commands while no guest is attached: which of them follow the null pointer.
pub mod Parts
use xendbg.Prelude.{
  ℕ, zero, suc, Bool, true, false, ◌≡◌, refl, ◌==◌, ltb, if◌then◌else◌, Option, none, some,
  Option-cases, Bool-cases, inl, inr, List, [], ◌∷◌, Bytes, Result, ok, err, ◌>>=◌, ◌^◌, ◌%◌, ◌-◌,
  arith,
}
use xendbg.Text.{StoulError, stoul, invalid_argument, out_of_range}
use xendbg.Xen.Hypervisor.{Hypervisor}
use xendbg.Debugger.Target.{TargetFault}
use xendbg.Xen.Guests.{DomainAny, get_domains, get_domain_from_domid, get_domain_from_name}
use xendbg.Expr.Syntax
use xendbg.Expr.Syntax.{Expression, variable, unex, binex}
use xendbg.Expr.Parser.{parse}
use xendbg.Server.Handler.{Backend}
use xendbg.Repl.Wrapper.{
  Names, evaluate_expression, evaluate_set_expression, insert_numbered, remove_numbered, delete_var,
  examine,
}
use xendbg.Repl.Actions.{
  Action, cpu_get, print_help, quit, symbol_list, symbol_clear, guest_list, guest_detach,
  guest_pause, guest_unpause, info_guest, info_registers, info_variables, info_xen, breakpoint_list,
  continue_, step, watchpoint_list, cpu_set, breakpoint_delete, watchpoint_delete, symbol_load,
  guest_attach, unset, breakpoint_create, print_value, set_value, disassemble_at, examine_at,
  watchpoint_create,
}
use xendbg.Repl.Shell.{
  Shell, Shelled, World, Output, print, on_wrapper, with_parsed, with_wrapped, with_guest,
  created_breakpoint, deleted_breakpoint, print_guests,
}
use xendbg.Repl.Perform.{
  perform, disassemble, examine_words, set_cpu, attach_guest, attach_named, detach_guest,
  continue_guest, step_guest, create_watchpoint, unset_variable, unset_parsed, load_symbols, loaded,
  attached_wrapper, after_attach, attach_found, guest_by, no_domid, is_current, with_word_size,
}
use xendbg.Repl.Unattached.Parts.{
  dereferences, follows_null, with_parsed-null, with_guests-null, with_wrapped-null,
  on_wrapper-null, on_wrapper-print, evaluate_expression-null, evaluate_set_expression-null,
  insert_numbered-null, remove_numbered-null, delete_var-null, examine-null,
}

module _ {D : Type 0} (x : Hypervisor) (b : Backend D) (world : World D) (s : Shell D)
    (here : s.wrapper.debugger ≡ none) where
  value-null :
      (text : Bytes) (next : ℕ → Shelled D)
      → ((v : ℕ) → follows_null (next v) ≡ false)
      → follows_null (
          with_parsed s
            (parse [] text)
            (λ e. with_wrapped s (evaluate_expression x b e s.wrapper) next))
        ≡ false
  value-null text next h =
      with_parsed-null s (parse [] text) _
        (λ e. with_wrapped-null s _ next (evaluate_expression-null x b e s.wrapper) h)

  guest-null : (next : D → Shelled D) → follows_null (with_guest s s.wrapper.debugger next) ≡ false
  guest-null next = rw here

  disassemble-null : (a n m : ℕ) → follows_null (disassemble x b world a n m s) ≡ false
  unfolding disassemble
  disassemble-null a n m =
      with_wrapped-null s _ _ (examine-null x b s.wrapper here a 1 n) (λ v. refl)

  examine_words-null : (a n m : ℕ) → follows_null (examine_words x b world a n m s) ≡ false
  unfolding examine_words
  examine_words-null a n m =
      with_wrapped-null s _ _ (examine-null x b s.wrapper here a n m) (λ v. refl)

  set_cpu-null : (id : ℕ) → follows_null (set_cpu x b world id s) ≡ false
  unfolding set_cpu
  set_cpu-null id = guest-null _

  detach_guest-null : follows_null (detach_guest x b world s) ≡ false
  unfolding detach_guest
  detach_guest-null = guest-null _

  continue_guest-null : follows_null (continue_guest x b world s) ≡ false
  unfolding continue_guest
  continue_guest-null = guest-null _

  step_guest-null : follows_null (step_guest x b world s) ≡ true
  unfolding step_guest
  step_guest-null = rw here

  create_watchpoint-null :
      (a l t : Bytes) → follows_null (create_watchpoint x b world a l t s) ≡ true
  unfolding create_watchpoint
  create_watchpoint-null a l t = rw here

  loaded-null : (found : Option Names) → follows_null (loaded x b world s found) ≡ false
  loaded-null none = refl
  loaded-null (some names) = refl

  load_symbols-null : (name : Bytes) → follows_null (load_symbols x b world name s) ≡ false
  unfolding load_symbols
  load_symbols-null name = loaded-null _

  unset_parsed-null : (e : Expression) → follows_null (unset_parsed x b world s e) ≡ false
  unset_parsed-null (variable name) = on_wrapper-null s _ (delete_var-null x b s.wrapper here name)
  unset_parsed-null e = refl

  unset_variable-null : (text : Bytes) → follows_null (unset_variable x b world text s) ≡ false
  unfolding unset_variable
  unset_variable-null text = with_parsed-null s (parse [] text) _ unset_parsed-null

  attached-null :
      (domid : ℕ) (r : Result (TargetFault × D) D)
      → follows_null
          (on_wrapper s (attached_wrapper x b world s.wrapper r) >>= after_attach x b world domid)
        ≡ false
  attached-null domid (ok d) = elim (Bool-cases (x.has_dominfo (b.target d).domain.issued)) [
    | inl e ↦ rw e refl
    | inr e ↦ rw e refl
  ]
  attached-null domid (err (f, d)) = refl

  attach_found-null :
      (found : Option DomainAny)
      → follows_null (attach_found x b world (attach_guest x b world) s found) ≡ false
  unfolding attach_guest
  attach_found-null none = refl
  attach_found-null (some domain) =
      elim (Bool-cases (is_current x b world domain.domid s.wrapper.debugger)) [
        | inl e ↦ rw e
        | inr e ↦ rw e (attached-null domain.domid (world.attach_to domain))
      ]

  guest_by-null :
      (text : Bytes) (r : Result StoulError (ℕ × Bytes))
      → follows_null
          (guest_by x b world s text r (attach_found x b world (attach_guest x b world) s))
        ≡ false
  guest_by-null text (err out_of_range) = refl
  guest_by-null text (err invalid_argument) = with_guests-null s _ _ attach_found-null
  guest_by-null text (ok (n, rest)) = elim (Bool-cases (n % 2 ^ 16 == no_domid)) [
    | inl e ↦ rw e (with_guests-null s _ _ attach_found-null)
    | inr e ↦ rw e (with_guests-null s _ _ attach_found-null)
  ]

  attach_named-null : (text : Bytes) → follows_null (attach_named x b world text s) ≡ false
  unfolding attach_named
  attach_named-null text = guest_by-null text (stoul 10 text)

  word_size-null :
      (size : ℕ) (next : ℕ → Shelled D)
      → ((n : ℕ) → follows_null (next n) ≡ false)
      → follows_null (with_word_size x b world s size next) ≡ false
  word_size-null zero next h = guest-null _
  word_size-null (suc n) next h = h (suc n)

  -- While no guest is attached, the null pointer to the debugger is followed by `step` and the
  -- commands on watchpoints, and by no other command.
  pub perform-follows_null :
      (action : Action) → follows_null (perform x b world action s) ≡ dereferences action
  unfolding perform
  perform-follows_null print_help = refl
  perform-follows_null quit = refl
  perform-follows_null symbol_list = refl
  perform-follows_null symbol_clear = refl
  perform-follows_null guest_list =
      with_guests-null s (get_domains world.answers)
        (λ domains. ok (print_guests world.answers domains s)) (λ v. refl)
  perform-follows_null guest_pause = guest-null _
  perform-follows_null guest_unpause = guest-null _
  perform-follows_null guest_detach = detach_guest-null
  perform-follows_null info_guest = guest-null _
  perform-follows_null info_registers = guest-null _
  perform-follows_null info_variables = refl
  perform-follows_null info_xen = refl
  perform-follows_null breakpoint_list = refl
  perform-follows_null cpu_get = guest-null _
  perform-follows_null (cpu_set id) = set_cpu-null id
  perform-follows_null continue_ = continue_guest-null
  perform-follows_null step = step_guest-null
  perform-follows_null watchpoint_list = rw here
  perform-follows_null (watchpoint_delete id) = rw here
  perform-follows_null (watchpoint_create a l t) = create_watchpoint-null a l t
  perform-follows_null (symbol_load name) = load_symbols-null name
  perform-follows_null (guest_attach name) = attach_named-null name
  perform-follows_null (unset text) = unset_variable-null text
  perform-follows_null (print_value format text) = value-null text _ (λ v. refl)
  perform-follows_null (set_value text size) = with_parsed-null s (parse [] text) _ (λ e.
      word_size-null size _
        (λ n. on_wrapper-null s _ (evaluate_set_expression-null x b s.wrapper here e n)))
  perform-follows_null (disassemble_at a l) =
      value-null a _ (λ address. value-null l _ (λ len. disassemble-null address len 0))
  perform-follows_null (examine_at text size num) =
      value-null text _ (λ a. word_size-null size _ (λ n. examine_words-null a n num))
  perform-follows_null (breakpoint_create text) = value-null text _ (λ a.
      on_wrapper-print s _ (λ s'. created_breakpoint s'.wrapper.breakpoint_id)
        (insert_numbered-null x b s.wrapper here a))
  perform-follows_null (breakpoint_delete id) =
      on_wrapper-print s _ (λ s'. deleted_breakpoint id)
        (remove_numbered-null x b s.wrapper here id)
