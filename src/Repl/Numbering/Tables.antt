-- ===== src/Repl/Numbering/Tables.antt =====
-- The numbers of breakpoints and watchpoints in `DebuggerWrapper`: each operation keeps them apart.
mod Lists
pub use Lists.{
  IsBelow, IsDistinct, assign_number-IsBelow, erase_number-IsBelow, get_number-erase_number,
  erase_number-IsDistinct,
}
use xendbg.Prelude.{
  ℕ, ◌+◌, ◌%◌, ◌^◌, ◌≤◌, ◌<◌, ◌≡◌, refl, Option, none, some, Option-cases, Bool-cases, ◌==◌, inl,
  inr, [], ◌∷◌, Bytes, All, Result, ok, err, ◌>>=◌, arith,
}
use xendbg.Registers.{RegistersAny, Metadata, context_of, find, has_name}
use xendbg.Debugger.Base.{insert_breakpoint, remove_breakpoint}
use xendbg.Xen.Hypervisor.{Hypervisor}
use xendbg.Debugger.Target.{TargetFault, WatchpointType, on_debugger}
use xendbg.Expr.Syntax.{Expression, variable, unex, binex, equals}
use xendbg.Server.Handler
use xendbg.Server.Handler.{Backend}
use xendbg.Repl.Wrapper
use xendbg.Repl.Wrapper.{
  Wrapper, WrapperFault, Wrapped, Table, Watchpoint, get_number, erase_number, assign_number, kept,
  with_debugger, set_var, set_variable, assigned_in, assigned_name, set_memory,
  evaluate_set_expression, insert_numbered, remove_numbered, watch_numbered, unwatch_numbered,
  detach, delete_var, get_entry,
}

-- The last numbers given are within the bound, and no entry has a number above them.
pub record AreNumbered (bound : ℕ) (b_id : ℕ) (bps : Table ℕ) (w_id : ℕ) (wps : Table Watchpoint)
    : Type 0 where
  pub breakpoints_within : b_id ≤ bound
  pub watchpoints_within : w_id ≤ bound
  pub breakpoints_below : IsBelow b_id bps
  pub breakpoints_distinct : IsDistinct bps
  pub watchpoints_below : IsBelow w_id wps
  pub watchpoints_distinct : IsDistinct wps

abbrev pub IsNumbered : {D : Type 0} → ℕ → Wrapper D → Type 0
IsNumbered bound w = AreNumbered bound w.breakpoint_id w.breakpoints w.watchpoint_id w.watchpoints

-- Of the state that a call leaves, also where it throws.
abbrev pub LeavesNumbered : {D : Type 0} → ℕ → Wrapped D → Type 0
LeavesNumbered bound (ok w) = IsNumbered bound w
LeavesNumbered bound (err (f, w)) = IsNumbered bound w

pub IsNumbered-le :
    {D : Type 0} {bound : ℕ} (limit : ℕ) (w : Wrapper D)
    → bound ≤ limit
    → IsNumbered bound w
    → IsNumbered limit w
IsNumbered-le limit w le h = record {
  breakpoints_within = omega (arith, le, h.breakpoints_within);
  watchpoints_within = omega (arith, le, h.watchpoints_within);
  breakpoints_below = h.breakpoints_below;
  breakpoints_distinct = h.breakpoints_distinct;
  watchpoints_below = h.watchpoints_below;
  watchpoints_distinct = h.watchpoints_distinct;
}

pub IsNumbered-suc :
    {D : Type 0} {bound : ℕ} (w : Wrapper D) → IsNumbered bound w → IsNumbered (bound + 1) w
IsNumbered-suc {bound = bound} w h = IsNumbered-le (bound + 1) w (omega arith) h

-- The changes of the wrapper behind a call of the debugger.
module _ {D : Type 0} where
  abbrev new_breakpoint : ℕ → Wrapper D → Wrapper D
  new_breakpoint address w = record w {
    breakpoint_id = (w.breakpoint_id + 1) % 2 ^ 64;
    breakpoints = assign_number ((w.breakpoint_id + 1) % 2 ^ 64) address w.breakpoints;
  }

  abbrev without_breakpoint : ℕ → Wrapper D → Wrapper D
  without_breakpoint id w = record w { breakpoints = erase_number id w.breakpoints }

  abbrev new_watchpoint : Watchpoint → Wrapper D → Wrapper D
  new_watchpoint wp w = record w {
    watchpoint_id = (w.watchpoint_id + 1) % 2 ^ 64;
    watchpoints = assign_number ((w.watchpoint_id + 1) % 2 ^ 64) wp w.watchpoints;
  }

  abbrev without_watchpoint : ℕ → Wrapper D → Wrapper D
  without_watchpoint id w = record w { watchpoints = erase_number id w.watchpoints }

  abbrev forgotten : Wrapper D → Wrapper D
  forgotten w = record w { debugger = none; variables = []; symbols = [] }

module _ {D : Type 0} {bound : ℕ} where
  new_breakpoint-IsNumbered :
      (address : ℕ) (w : Wrapper D)
      → bound + 1 < 2 ^ 64
      → IsNumbered bound w
      → IsNumbered (bound + 1) (new_breakpoint address w)
  new_breakpoint-IsNumbered address w small h =
      let (below, distinct) =
        assign_number-IsBelow w.breakpoint_id ((w.breakpoint_id + 1) % 2 ^ 64) address w.breakpoints
          (omega (arith, h.breakpoints_within)) h.breakpoints_below h.breakpoints_distinct in
      record {
        breakpoints_within = omega (arith, h.breakpoints_within);
        watchpoints_within = omega (arith, h.watchpoints_within);
        breakpoints_below = below;
        breakpoints_distinct = distinct;
        watchpoints_below = h.watchpoints_below;
        watchpoints_distinct = h.watchpoints_distinct;
      }

  without_breakpoint-IsNumbered :
      (id : ℕ) (w : Wrapper D) → IsNumbered bound w → IsNumbered bound (without_breakpoint id w)
  without_breakpoint-IsNumbered id w h = record {
    breakpoints_within = h.breakpoints_within;
    watchpoints_within = h.watchpoints_within;
    breakpoints_below = erase_number-IsBelow w.breakpoint_id id w.breakpoints h.breakpoints_below;
    breakpoints_distinct = erase_number-IsDistinct id w.breakpoints h.breakpoints_distinct;
    watchpoints_below = h.watchpoints_below;
    watchpoints_distinct = h.watchpoints_distinct;
  }

  new_watchpoint-IsNumbered :
      (wp : Watchpoint) (w : Wrapper D)
      → bound + 1 < 2 ^ 64
      → IsNumbered bound w
      → IsNumbered (bound + 1) (new_watchpoint wp w)
  new_watchpoint-IsNumbered wp w small h =
      let (below, distinct) =
        assign_number-IsBelow w.watchpoint_id ((w.watchpoint_id + 1) % 2 ^ 64) wp w.watchpoints
          (omega (arith, h.watchpoints_within)) h.watchpoints_below h.watchpoints_distinct in
      record {
        breakpoints_within = omega (arith, h.breakpoints_within);
        watchpoints_within = omega (arith, h.watchpoints_within);
        breakpoints_below = h.breakpoints_below;
        breakpoints_distinct = h.breakpoints_distinct;
        watchpoints_below = below;
        watchpoints_distinct = distinct;
      }

  without_watchpoint-IsNumbered :
      (id : ℕ) (w : Wrapper D) → IsNumbered bound w → IsNumbered bound (without_watchpoint id w)
  without_watchpoint-IsNumbered id w h = record {
    breakpoints_within = h.breakpoints_within;
    watchpoints_within = h.watchpoints_within;
    breakpoints_below = h.breakpoints_below;
    breakpoints_distinct = h.breakpoints_distinct;
    watchpoints_below = erase_number-IsBelow w.watchpoint_id id w.watchpoints h.watchpoints_below;
    watchpoints_distinct = erase_number-IsDistinct id w.watchpoints h.watchpoints_distinct;
  }

module _ {D : Type 0} {bound : ℕ} (x : Hypervisor) (b : Backend D) where
  pub kept-IsNumbered :
      (w : Wrapper D) (r : Result (TargetFault × D) D)
      → IsNumbered bound w
      → LeavesNumbered bound (kept x b w r)
  kept-IsNumbered w (ok d) h = h
  kept-IsNumbered w (err (f, d)) h = h

  kept_then :
      (w : Wrapper D) (r : Result (TargetFault × D) D) (change : Wrapper D → Wrapper D)
      → IsNumbered bound w
      → ((w' : Wrapper D) → IsNumbered bound w' → IsNumbered bound (change w'))
      → LeavesNumbered bound (kept x b w r >>= (λ w'. ok (change w')))
  kept_then w (ok d) change h keeps = keeps (record w { debugger = some d }) h
  kept_then w (err (f, d)) change h keeps = h

  kept_then_next :
      (w : Wrapper D) (r : Result (TargetFault × D) D) (change : Wrapper D → Wrapper D)
      → IsNumbered bound w
      → ((w' : Wrapper D) → IsNumbered bound w' → IsNumbered (bound + 1) (change w'))
      → LeavesNumbered (bound + 1) (kept x b w r >>= (λ w'. ok (change w')))
  kept_then_next w (ok d) change h keeps = keeps (record w { debugger = some d }) h
  kept_then_next w (err (f, d)) change h keeps = IsNumbered-suc (record w { debugger = some d }) h

  assigned_name-IsNumbered :
      (name : Bytes) (v : ℕ) (w : Wrapper D) (found : Option (Metadata × ℕ))
      → IsNumbered bound w
      → IsNumbered bound (assigned_name x b name v w found)
  unfolding set_var
  assigned_name-IsNumbered name v w none h = h
  assigned_name-IsNumbered name v w (some found) h = h

module _ {D : Type 0} {bound : ℕ} (x : Hypervisor) (b : Backend D) (w : Wrapper D)
    (h : IsNumbered bound w) where
  with_debugger-IsNumbered :
      (o : Option D) (next : D → Wrapped D)
      → ((d : D) → LeavesNumbered bound (next d))
      → LeavesNumbered bound (with_debugger x b w o next)
  with_debugger-IsNumbered none next n = h
  with_debugger-IsNumbered (some d) next n = n d

  with_value-IsNumbered :
      (r : Result WrapperFault ℕ) (next : ℕ → Wrapped D)
      → ((v : ℕ) → LeavesNumbered bound (next v))
      → LeavesNumbered bound (Wrapper.with_value x b w r next)
  with_value-IsNumbered (ok v) next n = n v
  with_value-IsNumbered (err f) next n = h

  set_memory-IsNumbered : (a v n : ℕ) → LeavesNumbered bound (set_memory x b a v n w)
  unfolding set_memory
  set_memory-IsNumbered a v n =
      with_debugger-IsNumbered w.debugger _ (λ d. kept-IsNumbered x b w _ h)

  assigned_in-IsNumbered :
      (name : Bytes) (v : ℕ) (d : D) (found : Option RegistersAny)
      → LeavesNumbered bound (assigned_in x b name v w d found)
  assigned_in-IsNumbered name v d none = h
  assigned_in-IsNumbered name v d (some regs) =
      kept-IsNumbered x b (assigned_name x b name v w (find (has_name name) 0 0 (context_of regs)))
        _ (assigned_name-IsNumbered x b name v w _ h)

  set_variable-IsNumbered :
      (name : Bytes) (v : ℕ) → LeavesNumbered bound (set_variable x b name v w)
  unfolding set_variable
  set_variable-IsNumbered name v =
      with_debugger-IsNumbered w.debugger _ (λ d. assigned_in-IsNumbered name v d _)

  set_memory_at-IsNumbered :
      (r r' : Result WrapperFault ℕ) (size : ℕ)
      → LeavesNumbered bound (
          Wrapper.with_value x b w r
            (λ a. Wrapper.with_value x b w r' (λ v. set_memory x b a v size w)))
  set_memory_at-IsNumbered (ok a) (ok v) size = set_memory-IsNumbered a v size
  set_memory_at-IsNumbered (ok a) (err f) size = h
  set_memory_at-IsNumbered (err f) r' size = h

  pub evaluate_set_expression-IsNumbered :
      (e : Expression) (size : ℕ) → LeavesNumbered bound (evaluate_set_expression x b e size w)
  unfolding evaluate_set_expression
  evaluate_set_expression-IsNumbered (binex equals (variable name) e) size =
      with_value-IsNumbered _ _ (λ v. set_variable-IsNumbered name v)
  evaluate_set_expression-IsNumbered (binex equals (unex op e) e') size =
      with_debugger-IsNumbered w.debugger _ (λ d. set_memory_at-IsNumbered _ _ size)
  evaluate_set_expression-IsNumbered e size = h

  pub remove_numbered-IsNumbered : (id : ℕ) → LeavesNumbered bound (remove_numbered x b id w)
  unfolding remove_numbered
  remove_numbered-IsNumbered id = elim (Option-cases (get_number id w.breakpoints)) [
    | inl e ↦ rw e h
    | inr (address, e) ↦ rw e (
        with_debugger-IsNumbered w.debugger _ (λ d.
          kept_then x b w (Handler.on_target x b (on_debugger (remove_breakpoint address)) d)
            (without_breakpoint id) h (without_breakpoint-IsNumbered id)))
  ]

  pub unwatch_numbered-IsNumbered : (id : ℕ) → LeavesNumbered bound (unwatch_numbered x b id w)
  unfolding unwatch_numbered
  unwatch_numbered-IsNumbered id = elim (Option-cases (get_number id w.watchpoints)) [
    | inl e ↦ rw e h
    | inr (wp, e) ↦ rw e (
        with_debugger-IsNumbered w.debugger _ (λ d.
          kept_then x b w (b.remove_watchpoint wp.address (wp.length % 2 ^ 32) wp.type d)
            (without_watchpoint id) h (without_watchpoint-IsNumbered id)))
  ]

  pub delete_var-IsNumbered : (name : Bytes) → LeavesNumbered bound (delete_var x b name w)
  unfolding delete_var
  delete_var-IsNumbered name = elim (Option-cases (get_entry name w.variables)) [
    | inl e ↦ rw e h
    | inr (v, e) ↦ rw e h
  ]

  -- `detach` forgets variables and symbols only.
  detached-IsNumbered : (o : Option D) → LeavesNumbered bound (Wrapper.detached x b w o)
  detached-IsNumbered none = h
  detached-IsNumbered (some d) = kept_then x b w (b.detach d) forgotten h (λ w' h'. h')

  pub detach-IsNumbered : LeavesNumbered bound (detach x b w)
  unfolding detach
  detach-IsNumbered = detached-IsNumbered w.debugger

module _ {D : Type 0} {bound : ℕ} (x : Hypervisor) (b : Backend D) (w : Wrapper D)
    (h : IsNumbered bound w) where
  pub insert_numbered-IsNumbered :
      (address : ℕ)
      → bound + 1 < 2 ^ 64
      → LeavesNumbered (bound + 1) (insert_numbered x b address w)
  unfolding insert_numbered
  insert_numbered-IsNumbered address small =
      with_debugger-IsNumbered {bound = bound + 1} x b w (IsNumbered-suc w h) w.debugger _ (λ d.
        kept_then_next x b w (Handler.on_target x b (on_debugger (insert_breakpoint address)) d)
          (new_breakpoint address) h (λ w' h'. new_breakpoint-IsNumbered address w' small h'))

  pub watch_numbered-IsNumbered :
      (a n : ℕ) (type : WatchpointType)
      → bound + 1 < 2 ^ 64
      → LeavesNumbered (bound + 1) (watch_numbered x b a n type w)
  unfolding watch_numbered
  watch_numbered-IsNumbered a n type small =
      let wp : Watchpoint = record { address = a; length = n; type = type } in
      with_debugger-IsNumbered {bound = bound + 1} x b w (IsNumbered-suc w h) w.debugger _ (λ d.
        kept_then_next x b w (b.insert_watchpoint a (n % 2 ^ 32) type d) (new_watchpoint wp) h
          (λ w' h'. new_watchpoint-IsNumbered wp w' small h'))
