-- ===== src/Debugger/Breakpoints.antt =====
-- What the operations on breakpoints promise about the guest's memory.
use mathlib.Core.Path.{fun_ext, subst}
use xendbg.Prelude.{
  ℕ, ◌≡◌, refl, ap, ◌∙◌, true, false, inl, inr, none, some, Option-cases, ◌==◌, if◌then◌else◌,
  Bool-cases, [], ◌∷◌, ok, err, arith, ==_refl,
}
use xendbg.Debugger.Guest.{Guest, map_memory, machine, poke}
use xendbg.Debugger.Base.{
  BreakpointMap, Debugger, xen_exception, x86_int3, find_breakpoint, erase_breakpoint,
  has_breakpoint, plant, insert_breakpoint, remove_breakpoint, cleanup_from, cleanup,
}
use xendbg.Debugger.Restore.{
  overlay, NotAt, IsPatched, map_memory_mappable, map_memory-some, without-IsPatched, overlay-NotAt,
  remove_breakpoint-some,
}

abbrev pub planted : ℕ → Debugger → Debugger
planted a d = record {
  breakpoints = (a, d.guest.memory (machine d.guest.space a)) ∷ d.breakpoints;
  guest = poke d.guest (machine d.guest.space a) x86_int3;
}

pub insert_breakpoint-planted :
    (a : ℕ) (d : Debugger)
    → has_breakpoint a d.breakpoints ≡ false
    → d.guest.space.mappable (d.guest.space.translate a) ≡ true
    → insert_breakpoint a d ≡ ok (planted a d)
unfolding insert_breakpoint
insert_breakpoint-planted a d absent page =
    rw absent (rw (map_memory_mappable d.guest.space a page, plant) refl)

-- Setting a breakpoint keeps the invariant, if the page can be mapped and, where the address has
-- no breakpoint yet, no breakpoint lies at its machine address.
pub insert_breakpoint-IsPatched :
    (m : ℕ → ℕ) (a : ℕ) (d : Debugger)
    → IsPatched m d
    → d.guest.space.mappable (d.guest.space.translate a) ≡ true
    → (has_breakpoint a d.breakpoints ≡ false
        → NotAt d.guest.space (machine d.guest.space a) d.breakpoints)
    → (d' : Debugger) × (insert_breakpoint a d ≡ ok d')
      × (has_breakpoint a d'.breakpoints ≡ true)
      × IsPatched m d'
insert_breakpoint-IsPatched m a d h page apart =
    elim (Bool-cases (has_breakpoint a d.breakpoints)) [
      | inl present ↦ (d, unfold insert_breakpoint in rw present, present, h)
      | inr absent ↦
          let g = d.guest.space in
          let clear = overlay-NotAt g m (machine g a) d.breakpoints (apart absent) in
          (
            planted a d,
            insert_breakpoint-planted a d absent page,
            (unfold has_breakpoint in rw ==_refl refl),
            record {
              patched =
                  unfold poke overlay in
                  fun_ext λ at. ground (arith, ap (λ (f : ℕ → ℕ). f at) h.patched);
              saved =
                  unfold poke in
                  (
                    ap (λ (f : ℕ → ℕ). f (machine g a)) h.patched ∙ clear,
                    page,
                    apart absent,
                    h.saved,
                  );
            },
          )
    ]

found_first : (a b : ℕ) (bps : BreakpointMap) → find_breakpoint a ((a, b) ∷ bps) ≡ some b
unfolding find_breakpoint
found_first a b bps = rw ==_refl

erased_first : (a b : ℕ) (bps : BreakpointMap) → erase_breakpoint a ((a, b) ∷ bps) ≡ bps
unfolding erase_breakpoint
erased_first a b bps = rw ==_refl

cleanup_from-IsPatched :
    (m : ℕ → ℕ) (bps : BreakpointMap) (g : Guest)
    → IsPatched m (record { breakpoints = bps; guest = g })
    → cleanup_from bps (record { breakpoints = bps; guest = g })
      ≡ ok (record { breakpoints = []; guest = record g { memory = m } })
unfolding cleanup_from poke
cleanup_from-IsPatched m [] g h =
    unfold overlay in
    λ i. ok (record { breakpoints = []; guest = record { space = g.space; memory = h.patched i } })
cleanup_from-IsPatched m ((a, b) ∷ bps) g h =
    let (removed, h') =
      without-IsPatched m a b (record { breakpoints = (a, b) ∷ bps; guest = g }) h
        (found_first a b bps) in
    rw removed (
      rw erased_first
        (cleanup_from-IsPatched m bps (poke g (machine g.space a) b) (rw erased_first at h')))

-- From a state whose memory is `m` with breakpoints in it, `cleanup` returns normally with no
-- breakpoint left and the memory `m`.
pub cleanup-IsPatched :
    (m : ℕ → ℕ) (d : Debugger)
    → IsPatched m d
    → cleanup d ≡ ok (record { breakpoints = []; guest = record d.guest { memory = m } })
unfolding cleanup
cleanup-IsPatched m d h = cleanup_from-IsPatched m d.breakpoints d.guest h

insert_breakpoint_throws :
    (a : ℕ) (d : Debugger)
    → has_breakpoint a d.breakpoints ≡ false
    → map_memory d.guest.space a 1 ≡ none
    → insert_breakpoint a d ≡ err (xen_exception, d)
unfolding insert_breakpoint
insert_breakpoint_throws a d absent e = rw absent (rw (e, plant) refl)

poke_back : (g : Guest) (at v : ℕ) → poke (poke g at v) at (g.memory at) ≡ g
unfolding poke
poke_back g at v = λ i. record {
  space = g.space;
  memory =
      fun_ext {f = λ x. if at == x then g.memory at else (if at == x then v else g.memory x)}
        {g = g.memory} (λ x. ground arith) i;
}

remove_breakpoint-planted :
    (a : ℕ) (d : Debugger)
    → d.guest.space.mappable (d.guest.space.translate a) ≡ true
    → remove_breakpoint a (planted a d) ≡ ok d
remove_breakpoint-planted a d page =
    let b = d.guest.memory (machine d.guest.space a) in
    remove_breakpoint-some a b (planted a d) (found_first a b d.breakpoints) (unfold poke in page)
    ∙ unfold poke in
      λ i. ok (record {
        breakpoints = erased_first a b d.breakpoints i;
        guest = poke_back d.guest (machine d.guest.space a) x86_int3 i;
      })

-- A breakpoint set where there was none and removed again leaves the state exactly as it was.
pub remove_breakpoint-insert_breakpoint :
    (a : ℕ) (d : Debugger) {d' : Debugger}
    → has_breakpoint a d.breakpoints ≡ false
    → insert_breakpoint a d ≡ ok d'
    → remove_breakpoint a d' ≡ ok d
remove_breakpoint-insert_breakpoint a d {d'} absent inserted =
    elim (Option-cases (map_memory d.guest.space a 1)) [
      | inl e ↦ cc (insert_breakpoint_throws a d absent e)
      | inr (w, e) ↦
          let page = (map_memory-some d.guest.space a e).0 in
          let same : planted a d ≡ d' = cc (insert_breakpoint-planted a d absent page) in
          subst (λ x. remove_breakpoint a x ≡ ok d) same (remove_breakpoint-planted a d page)
    ]
