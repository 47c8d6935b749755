-- ===== src/Debugger/Stepping.antt =====
-- What both functions `single_step` do to the breakpoints, and what both event handlers undo.
use xendbg.Prelude.{
  ℕ, ◌≡◌, refl, ◌∙◌, ap, false, Option, none, some, Bool-cases, inl, inr, Result, ok, err, ◌>>=◌,
}
use xendbg.Xen.Domain.{DomainResult}
use xendbg.Xen.Domain.Order.{Leaves}
use xendbg.Debugger.Base.{Debugger, has_breakpoint, insert_breakpoint}
use xendbg.Debugger.Restore.{IsPatched}
use xendbg.Debugger.Relift.{SameBreakpoints, insert-remove}
use xendbg.Debugger.Target.{Target, of_outcome, of_domain, step_over, put_back}

-- What a call that returns leaves.
abbrev pub Returns : {E S : Type 0} → (S → Type 0) → Result (E × S) S → Type 0
Returns P r = Leaves P (λ s. Unit) r

-- What `put_back` makes of any target with these breakpoints.
abbrev pub PutsBack : (ℕ → ℕ) → Debugger → Option ℕ → Debugger → Type 0
PutsBack m d lifted d1 =
    (t : Target)
    → t.debugger ≡ d1
    → (d2 : Debugger) × (put_back lifted t ≡ ok (record t { debugger = d2 }))
      × IsPatched m d2
      × SameBreakpoints d d2

put_back-some :
    (a : ℕ) (t : Target) (d1 d2 : Debugger)
    → insert_breakpoint a d1 ≡ ok d2
    → t.debugger ≡ d1
    → put_back (some a) t ≡ ok (record t { debugger = d2 })
unfolding put_back
put_back-some a t d1 d2 i e = ap (of_outcome t) (ap (insert_breakpoint a) e ∙ i)

-- A step from a patched guest lifts the breakpoint at the instruction, if there is one; it leaves
-- the guest patched, with no breakpoint there, and what it lifted can be put back.
pub step_over-PutsBack :
    (m : ℕ → ℕ) (a : ℕ) (t : Target)
    → IsPatched m t.debugger
    → (lifted : Option ℕ) × ((d1 : Debugger) × (step_over a
            (has_breakpoint a t.debugger.breakpoints)
            t
          ≡ ok (lifted, record t { debugger = d1 }))
        × IsPatched m d1
        × (has_breakpoint a d1.breakpoints ≡ false)
        × PutsBack m t.debugger lifted d1)
unfolding step_over put_back
step_over-PutsBack m a t h = elim (Bool-cases (has_breakpoint a t.debugger.breakpoints)) [
  | inl e ↦
      let (d1, removed, h1, absent, (d2, inserted, h2, same)) = insert-remove m a t.debugger h e in
      (
        some a,
        (
          d1,
          rw (e, removed) refl,
          h1,
          absent,
          λ t' e'. (d2, put_back-some a t' d1 d2 inserted e', h2, same),
        ),
      )
  | inr e ↦ (
    none,
    (
      t.debugger,
      rw e refl,
      h,
      e,
      λ t' e'. (t.debugger, λ i. ok (record t' { debugger = e' i }), h, λ i. refl),
    ),
  )
]

-- An operation of the domain leaves the breakpoints and the memory alone.
pub of_domain-debugger :
    (t : Target) (r : DomainResult) → Returns (λ t'. t'.debugger ≡ t.debugger) (of_domain t r)
of_domain-debugger t (ok d) = refl
of_domain-debugger t (err (f, d)) = tt

pub >>=-Returns :
    {E S : Type 0} (P Q : S → Type 0) (m : Result (E × S) S) (f : S → Result (E × S) S)
    → Returns P m
    → ((s : S) → P s → Returns Q (f s))
    → Returns Q (m >>= f)
>>=-Returns P Q (ok s) f h next = next s h
>>=-Returns P Q (err (e, s)) f h next = tt
