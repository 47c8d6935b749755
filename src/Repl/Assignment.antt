-- ===== src/Repl/Assignment.antt =====
-- What `set` stores is what an expression finds.
use xendbg.Prelude.{
  ℕ, ◌^◌, ◌<◌, ◌≡◌, refl, ◌∙◌, ap, Bool-cases, inl, inr, none, some, [], ◌∷◌, Bytes, ok, arith,
}
use xendbg.Registers.{same_text_refl, RegistersAny, Metadata, context_of, find, has_name, same_text}
use xendbg.Xen.Hypervisor.{cpu_context, Hypervisor}
use xendbg.Debugger.Base.{read_memory_masking_breakpoints}
use xendbg.Debugger.Target.{Target, of_outcome, on_domain}
use xendbg.Debugger.Writing.{write_memory-NoneIn}
use xendbg.Expr.Syntax
use xendbg.Expr.Syntax.{Expression, variable, unex, binex, UnaryOperator, dereference, equals}
use xendbg.Server.Handler
use xendbg.Server.Handler.{Backend}
use xendbg.Server.Memory.{IsWritable, stored, read-stored}
use xendbg.Repl.Wrapper.{
  Wrapper, Names, get_entry, set_entry, le_bytes, le_value, get_var, set_var, word_of, kept,
  evaluate_variable, evaluate_unary, evaluate_expression, set_variable, set_memory,
  evaluate_set_expression,
}

get_entry-set_entry :
    (name : Bytes) (v : ℕ) (names : Names) → get_entry name (set_entry name v names) ≡ some v
unfolding get_entry set_entry
get_entry-set_entry name v [] = rw (same_text_refl name) refl
get_entry-set_entry name v ((n, u) ∷ names) = elim (Bool-cases (same_text n name)) [
  | inl e ↦ rw (e, e) refl
  | inr e ↦ rw (e, e) (get_entry-set_entry name v names)
]

le_value-le_bytes : (v : ℕ) → v < 2 ^ 64 → le_value (le_bytes 8 v) ≡ v
unfolding le_value le_bytes
le_value-le_bytes v h = omega (arith, h)

module _ {D : Type 0} (x : Hypervisor) (b : Backend D) where
  -- The state behind a write of memory.
  abbrev pub memory_set : ℕ → ℕ → D → Wrapper D → Wrapper D
  memory_set a v d w = record w {
    debugger = some (
        b.with_target d
          (record (b.target d) { debugger = stored a (le_bytes 8 v) (b.target d).debugger }));
  }

  -- With a guest attached, setting what an expression points at to the value of another one with a
  -- word size of 8, in memory that can be written and read, stores its 8 bytes and changes nothing
  -- else; what the address points at then has this value, since `*` reads 8 bytes of any guest.
  pub evaluate_set_expression-dereference :
      (lens : (d : D) (t : Target) → b.target (b.with_target d t) ≡ t) (e e' : Expression)
      (w : Wrapper D) (d : D) {a v : ℕ}
      → w.debugger ≡ some d
      → evaluate_expression x b e w ≡ ok a
      → evaluate_expression x b e' w ≡ ok v
      → v < 2 ^ 64
      → IsWritable a 8 (b.target d).debugger
      → (evaluate_set_expression x b (binex equals (unex dereference e) e') 8 w
          ≡ ok (memory_set a v d w))
        × (evaluate_expression x b (unex dereference (Syntax.constant a)) (memory_set a v d w)
            ≡ ok v)
  unfolding evaluate_set_expression set_memory evaluate_expression evaluate_unary le_bytes
  evaluate_set_expression-dereference lens e e' w d {a} {v} here he he' small h =
      let bytes = le_bytes 8 v in
      let dbg = (b.target d).debugger in
      let done =
        write_memory-NoneIn a bytes dbg h.window h.address_positive h.size_positive h.fits h.before
          h.clear h.mapped h.covers in
      (
        simp (here, he, he')
            (ap (λ r. kept x b w (Handler.of_target x b d (of_outcome (b.target d) r))) done),
        ap (λ (t : Target). word_of x b (read_memory_masking_breakpoints a 8 t.debugger))
              (lens d (record (b.target d) { debugger = stored a bytes dbg }))
            ∙ ap (word_of x b) (read-stored a bytes dbg h)
            ∙ ap ok (le_value-le_bytes v small),
      )

  -- With a guest attached whose registers can be read and written back, and a debugger that then
  -- reads the same registers: setting a name which no register has stores the value of the expression
  -- under it, and the name then has this value.
  pub evaluate_set_expression-variable :
      (name : Bytes) (e : Expression) (word_size : ℕ) (w : Wrapper D) (d d' : D)
      (regs : RegistersAny) {v : ℕ}
      → w.debugger ≡ some d
      → evaluate_expression x b e w ≡ ok v
      → cpu_context x (b.target d).domain.issued w.vcpu_id ≡ some regs
      → find (has_name name) 0 0 (context_of regs) ≡ none
      → Handler.on_target x b (on_domain (b.set_cpu_context regs w.vcpu_id)) d ≡ ok d'
      → cpu_context x (b.target d').domain.issued w.vcpu_id ≡ some regs
      → (evaluate_set_expression x b (binex equals (variable name) e) word_size w
          ≡ ok (record w { debugger = some d'; variables = set_entry name v w.variables }))
        × (evaluate_expression x b
              (variable name)
              (record w { debugger = some d'; variables = set_entry name v w.variables })
            ≡ ok v)
  unfolding evaluate_set_expression set_variable set_var evaluate_expression evaluate_variable
      get_var
  evaluate_set_expression-variable name e word_size w d d' regs {v} here he context absent written
        again =
      (
        simp (he, here, context, absent, written) refl,
        simp (again, absent, get_entry-set_entry name v w.variables) refl,
      )

  -- With a guest attached whose registers can be read: setting a name which a register has comes to
  -- the same wrapper, the same calls and the same exception whatever value is set, so that the value
  -- is stored nowhere.
  pub evaluate_set_expression-register :
      (name : Bytes) (e e' : Expression) (word_size : ℕ) (w : Wrapper D) (d : D)
      (regs : RegistersAny) {v v' old : ℕ} {md : Metadata}
      → w.debugger ≡ some d
      → evaluate_expression x b e w ≡ ok v
      → evaluate_expression x b e' w ≡ ok v'
      → cpu_context x (b.target d).domain.issued w.vcpu_id ≡ some regs
      → find (has_name name) 0 0 (context_of regs) ≡ some (md, old)
      → evaluate_set_expression x b (binex equals (variable name) e) word_size w
        ≡ evaluate_set_expression x b (binex equals (variable name) e') word_size w
  unfolding evaluate_set_expression set_variable
  evaluate_set_expression-register name e e' word_size w d regs here he he' context present =
      simp (here, he, he', context, present) refl
