-- ===== src/Debugger/Relift.antt =====
-- A breakpoint that is lifted for a single step can be put back, and is there again.
use mathlib.Core.Path.{subst}
use xendbg.Prelude.{
  ℕ, ◌≡◌, ◌≢◌, refl, sym, ◌∙◌, true, false, none, ◌==◌, ==_iff, ne_of_false, Bool-cases,
  Option-cases, inl, inr, [], ◌∷◌, ok,
}
use xendbg.Debugger.Guest.{AddressSpace, machine, poke}
use xendbg.Debugger.Base.{
  BreakpointMap, Debugger, find_breakpoint, erase_breakpoint, has_breakpoint, insert_breakpoint,
  remove_breakpoint,
}
use xendbg.Debugger.Restore.{
  NotAt, Saved, IsPatched, NotAt-has, find_breakpoint-Saved, without, without-IsPatched,
}
use xendbg.Debugger.Breakpoints.{planted, insert_breakpoint-planted, insert_breakpoint-IsPatched}

-- Both have breakpoints at the same addresses.
abbrev pub SameBreakpoints : Debugger → Debugger → Type 0
SameBreakpoints d d' = (i : ℕ) → has_breakpoint i d'.breakpoints ≡ has_breakpoint i d.breakpoints

has-find :
    (a : ℕ) (bps : BreakpointMap) → find_breakpoint a bps ≡ none → has_breakpoint a bps ≡ false
unfolding has_breakpoint find_breakpoint
has-find a [] h = refl
has-find a ((a', b) ∷ bps) h = elim (Bool-cases (a' == a)) [
  | inl e ↦ cc (rw e at h)
  | inr e ↦ rw e (has-find a bps (rw e at h))
]

NotAt-erased :
    (g : AddressSpace) (m : ℕ → ℕ) (a : ℕ) (bps : BreakpointMap)
    → Saved g m bps
    → has_breakpoint a bps ≡ true
    → NotAt g (machine g a) (erase_breakpoint a bps)
unfolding has_breakpoint erase_breakpoint
NotAt-erased g m a [] s h = cc
NotAt-erased g m a ((a', b) ∷ bps) s h = elim (Bool-cases (a' == a)) [
  | inl e ↦ rw e (rw (← (==_iff a' a).0 e) s.2)
  | inr e ↦ rw e (
    (λ same. NotAt-has g a (machine g a') bps s.2 (rw e at h) (sym same)),
    NotAt-erased g m a bps s.3 (rw e at h),
  )
]

has-NotAt :
    (g : AddressSpace) (a : ℕ) (bps : BreakpointMap)
    → NotAt g (machine g a) bps
    → has_breakpoint a bps ≡ false
has-NotAt g a bps n = elim (Bool-cases (has_breakpoint a bps)) [
  | inl e ↦ absurd (NotAt-has g a (machine g a) bps n e refl)
  | inr e ↦ e
]

has-erase :
    (a i : ℕ) (bps : BreakpointMap)
    → a ≢ i
    → has_breakpoint i (erase_breakpoint a bps) ≡ has_breakpoint i bps
unfolding has_breakpoint erase_breakpoint
has-erase a i [] n = refl
has-erase a i ((a', b) ∷ bps) n = elim (Bool-cases (a' == a)) [
  | inl e ↦ rw e (elim (Bool-cases (a' == i)) [
    | inl f ↦ absurd (n (sym ((==_iff a' a).0 e) ∙ (==_iff a' i).0 f))
    | inr f ↦ rw f refl
  ])
  | inr e ↦ rw e (rw (has-erase a i bps n) refl)
]

there_as_before :
    (a b : ℕ) (d : Debugger)
    → has_breakpoint a d.breakpoints ≡ true
    → SameBreakpoints d (planted a (without a b d))
unfolding has_breakpoint
there_as_before a b d present i = elim (Bool-cases (a == i)) [
  | inl e ↦
      rw e (sym (subst (λ j. has_breakpoint j d.breakpoints ≡ true) ((==_iff a i).0 e) present))
  | inr e ↦ rw e (has-erase a i d.breakpoints (ne_of_false a i e))
]

-- Lifting a breakpoint of a patched guest works, and so does putting it back; then the same
-- breakpoints are there.
pub insert-remove :
    (m : ℕ → ℕ) (a : ℕ) (d : Debugger)
    → IsPatched m d
    → has_breakpoint a d.breakpoints ≡ true
    → (d1 : Debugger) × (remove_breakpoint a d ≡ ok d1)
      × IsPatched m d1
      × (has_breakpoint a d1.breakpoints ≡ false)
      × ((d2 : Debugger) × (insert_breakpoint a d1 ≡ ok d2) × IsPatched m d2 × SameBreakpoints d d2)
unfolding poke
insert-remove m a d h present = elim (Option-cases (find_breakpoint a d.breakpoints)) [
  | inl e ↦ cc (has-find a d.breakpoints e)
  | inr (b, e) ↦
      let g = d.guest.space in
      let d1 = without a b d in
      let (removed, h1) = without-IsPatched m a b d h e in
      let page = (find_breakpoint-Saved g m a d.breakpoints h.saved e).1 in
      let apart = NotAt-erased g m a d.breakpoints h.saved present in
      let absent = has-NotAt g a (erase_breakpoint a d.breakpoints) apart in
      let inserted = insert_breakpoint-planted a d1 absent page in
      let (d2, again, there, h2) = insert_breakpoint-IsPatched m a d1 h1 page (λ _. apart) in
      let same : planted a d1 ≡ d2 = cc (inserted, again) in
      (
        d1,
        removed,
        h1,
        absent,
        (planted a d1, inserted, subst (IsPatched m) (sym same) h2, there_as_before a b d present),
      )
]
