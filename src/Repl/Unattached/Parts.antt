-- ===== src/Repl/Unattached/Parts.antt =====
-- What the wrapper and the shell compute while no guest is attached follows no null pointer.
use xendbg.Prelude.{
  ℕ, Bool, true, false, ◌≡◌, refl, Option, none, some, Option-cases, Bytes, inl, inr, Result, ok,
  err, ◌>>=◌, arith,
}
use xendbg.Registers.{RegistersAny, Metadata}
use xendbg.Xen.Hypervisor.{Hypervisor}
use xendbg.Xen.Guests.{GuestsFault}
use xendbg.Debugger.Base.{Fault}
use xendbg.Expr.Syntax
use xendbg.Expr.Syntax.{
  Expression, variable, unex, binex, UnaryOperator, dereference, negate, BinaryOperator, add,
  equals, divide, multiply, subtract,
}
use xendbg.Expr.Parser.{ParseError}
use xendbg.Server.Handler.{Backend}
use xendbg.Repl.Wrapper
use xendbg.Repl.Wrapper.{
  Wrapper, WrapperFault, null_debugger, debugger_fault, evaluate_expression, evaluate_unary,
  evaluate_binary, evaluate_variable, lookup_symbol, get_var, arithmetic, get_entry, found_or,
  attached, word_of, named, in_context, no_such_variable, no_such_symbol, Wrapped, with_debugger,
  evaluate_set_expression, set_variable, insert_numbered, remove_numbered, delete_var, examine,
  get_number,
}
use xendbg.Repl.Actions.{Action, step, watchpoint_list, watchpoint_delete, watchpoint_create}
use xendbg.Repl.Shell.{
  Shell, ShellFault, wrapper_fault, Shelled, with_parsed, with_guests, with_wrapped, Output, print,
  on_wrapper,
}

-- The actions that call a member function through `get_debugger()`.
abbrev pub dereferences : Action → Bool
dereferences step = true
dereferences watchpoint_list = true
dereferences (watchpoint_delete id) = true
dereferences (watchpoint_create address len type) = true
dereferences _ = false

abbrev pub is_null_fault : WrapperFault → Bool
is_null_fault null_debugger = true
is_null_fault _ = false

abbrev pub is_null_error : {V : Type 0} → Result WrapperFault V → Bool
is_null_error (ok v) = false
is_null_error (err f) = is_null_fault f

abbrev pub is_null_shell : ShellFault → Bool
is_null_shell (wrapper_fault f) = is_null_fault f
is_null_shell _ = false

abbrev pub follows_null : {D : Type 0} → Shelled D → Bool
follows_null (ok s) = false
follows_null (err (f, s)) = is_null_shell f

found_or-null :
    {V : Type 0} (f : WrapperFault) (o : Option V)
    → is_null_fault f ≡ false
    → is_null_error (found_or f o) ≡ false
found_or-null f none h = h
found_or-null f (some v) h = refl

attached-null :
    {V D : Type 0} (o : Option D) (next : D → Result WrapperFault V)
    → ((d : D) → is_null_error (next d) ≡ false)
    → is_null_error (attached o next) ≡ false
attached-null none next h = refl
attached-null (some d) next h = h d

module _ {D : Type 0} (x : Hypervisor) (b : Backend D) where
  word_of-null : (r : Result Fault Bytes) → is_null_error (word_of x b r) ≡ false
  word_of-null (ok bytes) = refl
  word_of-null (err f) = refl

  named-null :
      (name : Bytes) (w : Wrapper D) (found : Option (Metadata × ℕ))
      → is_null_error (named x b name w found) ≡ false
  unfolding get_var
  named-null name w none = found_or-null no_such_variable (get_entry name w.variables) refl
  named-null name w (some (md, v)) = refl

  in_context-null :
      (name : Bytes) (w : Wrapper D) (found : Option RegistersAny)
      → is_null_error (in_context x b name w found) ≡ false
  in_context-null name w none = refl
  in_context-null name w (some regs) = named-null name w _

  evaluate_binary-null :
      (op : BinaryOperator) (r r' : Result WrapperFault ℕ)
      → is_null_error r ≡ false
      → is_null_error r' ≡ false
      → is_null_error (evaluate_binary op r r') ≡ false
  unfolding evaluate_binary
  evaluate_binary-null equals r r' h h' = refl
  evaluate_binary-null op (err f) r' h h' = h
  evaluate_binary-null op (ok v) (err f) h h' = h'
  evaluate_binary-null add (ok v) (ok v') h h' = refl
  evaluate_binary-null subtract (ok v) (ok v') h h' = refl
  evaluate_binary-null multiply (ok v) (ok v') h h' = refl
  evaluate_binary-null divide (ok v) (ok v') h h' = ground arith

  evaluate_unary-null :
      (op : UnaryOperator) (w : Wrapper D) (r : Result WrapperFault ℕ)
      → is_null_error r ≡ false
      → is_null_error (r >>= evaluate_unary x b op w) ≡ false
  unfolding evaluate_unary
  evaluate_unary-null op w (err f) h = h
  evaluate_unary-null negate w (ok v) h = refl
  evaluate_unary-null dereference w (ok v) h = attached-null w.debugger _ (λ d. word_of-null _)

  pub evaluate_expression-null :
      (e : Expression) (w : Wrapper D) → is_null_error (evaluate_expression x b e w) ≡ false
  unfolding evaluate_expression evaluate_variable lookup_symbol
  evaluate_expression-null (Syntax.constant value) w = refl
  evaluate_expression-null (Syntax.label name) w =
      found_or-null no_such_symbol (get_entry name w.symbols) refl
  evaluate_expression-null (variable name) w =
      attached-null w.debugger _ (λ d. in_context-null name w _)
  evaluate_expression-null (unex op e) w =
      evaluate_unary-null op w (evaluate_expression x b e w) (evaluate_expression-null e w)
  evaluate_expression-null (binex op e e') w =
      evaluate_binary-null op (evaluate_expression x b e w) (evaluate_expression x b e' w)
        (evaluate_expression-null e w) (evaluate_expression-null e' w)

-- A computation that goes on with a value follows no null pointer, where it does not with any value.
module _ {D V : Type 0} (s : Shell D) where
  pub with_parsed-null :
      (r : Result ParseError V) (next : V → Shelled D)
      → ((v : V) → follows_null (next v) ≡ false)
      → follows_null (with_parsed s r next) ≡ false
  with_parsed-null (ok v) next h = h v
  with_parsed-null (err e) next h = refl

  pub with_guests-null :
      (r : Result GuestsFault V) (next : V → Shelled D)
      → ((v : V) → follows_null (next v) ≡ false)
      → follows_null (with_guests s r next) ≡ false
  with_guests-null (ok v) next h = h v
  with_guests-null (err e) next h = refl

  pub with_wrapped-null :
      (r : Result WrapperFault V) (next : V → Shelled D)
      → is_null_error r ≡ false
      → ((v : V) → follows_null (next v) ≡ false)
      → follows_null (with_wrapped s r next) ≡ false
  with_wrapped-null (ok v) next e h = h v
  with_wrapped-null (err f) next e h = e

abbrev pub null_wrapped : {D : Type 0} → Wrapped D → Bool
null_wrapped (ok w) = false
null_wrapped (err (f, w)) = is_null_fault f

module _ {D : Type 0} (s : Shell D) where
  pub on_wrapper-null :
      (r : Wrapped D) → null_wrapped r ≡ false → follows_null (on_wrapper s r) ≡ false
  on_wrapper-null (ok w) h = refl
  on_wrapper-null (err (f, w)) h = h

  pub on_wrapper-print :
      (r : Wrapped D) (out : Shell D → Output)
      → null_wrapped r ≡ false
      → follows_null (on_wrapper s r >>= (λ s'. ok (print (out s') s'))) ≡ false
  on_wrapper-print (ok w) out h = refl
  on_wrapper-print (err (f, w)) out h = h

-- The wrapper with no debugger.
module _ {D : Type 0} (x : Hypervisor) (b : Backend D) (w : Wrapper D)
    (none_here : w.debugger ≡ none) where
  with_debugger-null :
      (next : D → Wrapped D) → null_wrapped (with_debugger x b w w.debugger next) ≡ false
  with_debugger-null next = rw none_here

  with_value-null :
      (r : Result WrapperFault ℕ) (next : ℕ → Wrapped D)
      → is_null_error r ≡ false
      → ((v : ℕ) → null_wrapped (next v) ≡ false)
      → null_wrapped (Wrapper.with_value x b w r next) ≡ false
  with_value-null (ok v) next e h = h v
  with_value-null (err f) next e h = e

  pub evaluate_set_expression-null :
      (e : Expression) (size : ℕ) → null_wrapped (evaluate_set_expression x b e size w) ≡ false
  unfolding evaluate_set_expression set_variable
  evaluate_set_expression-null (binex equals (variable name) e) size =
      with_value-null _ _ (evaluate_expression-null x b e w) (λ v. with_debugger-null _)
  evaluate_set_expression-null (binex equals (unex op e) e') size = with_debugger-null _
  evaluate_set_expression-null e size = refl

  pub insert_numbered-null : (address : ℕ) → null_wrapped (insert_numbered x b address w) ≡ false
  unfolding insert_numbered
  insert_numbered-null address = with_debugger-null _

  pub remove_numbered-null : (id : ℕ) → null_wrapped (remove_numbered x b id w) ≡ false
  unfolding remove_numbered
  remove_numbered-null id = elim (Option-cases (get_number id w.breakpoints)) [
    | inl e ↦ rw e
    | inr (address, e) ↦ rw e (with_debugger-null _)
  ]

  pub delete_var-null : (name : Bytes) → null_wrapped (delete_var x b name w) ≡ false
  unfolding delete_var
  delete_var-null name = elim (Option-cases (get_entry name w.variables)) [
    | inl e ↦ rw e
    | inr (v, e) ↦ rw e
  ]

  pub examine-null : (address size num : ℕ) → is_null_error (examine x b address size num w) ≡ false
  unfolding examine
  examine-null address size num = rw none_here
