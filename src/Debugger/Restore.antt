-- ===== src/Debugger/Restore.antt =====
-- Breakpoints leave the guest's memory as they found it.
use mathlib.Core.Path.{fun_ext}
use xendbg.Prelude.{
  ℕ, ◌-◌, ◌%◌, ◌≡◌, ◌≢◌, refl, ap, true, inl, inr, none, some, ◌==◌, ==_iff, if◌then◌else◌,
  Bool-cases, [], ◌∷◌, ok, arith,
}
use xendbg.Debugger.Guest.{AddressSpace, Window, page_size, map_memory, machine, poke}
use xendbg.Debugger.Base.{
  BreakpointMap, Debugger, x86_int3, find_breakpoint, erase_breakpoint, has_breakpoint,
  lift_breakpoint, remove_breakpoint,
}

-- The memory that shows where breakpoints are set in `m`.
unfoldable pub overlay : AddressSpace → BreakpointMap → (ℕ → ℕ) → ℕ → ℕ
overlay g [] m at = m at
overlay g ((a, b) ∷ bps) m at = if machine g a == at then x86_int3 else overlay g bps m at

-- No breakpoint of the map lies at this machine address.
abbrev pub NotAt : AddressSpace → ℕ → BreakpointMap → Type 0
NotAt g at [] = Unit
NotAt g at ((a, b) ∷ bps) = (machine g a ≢ at) × NotAt g at bps

-- Each entry holds the byte of `m` at its address, its page can be mapped, and no two entries lie
-- at one machine address.
abbrev pub Saved : AddressSpace → (ℕ → ℕ) → BreakpointMap → Type 0
Saved g m [] = Unit
Saved g m ((a, b) ∷ bps) =
    (b ≡ m (machine g a))
    × (g.mappable (g.translate a) ≡ true)
    × NotAt g (machine g a) bps
    × Saved g m bps

-- The guest's memory is `m` with the breakpoints of the map in it.
pub record IsPatched (m : ℕ → ℕ) (d : Debugger) : Type 0 where
  pub patched : d.guest.memory ≡ overlay d.guest.space d.breakpoints m
  pub saved : Saved d.guest.space m d.breakpoints

abbrev pub byte_window : AddressSpace → ℕ → Window
byte_window g a = record { base = machine g a; extent = page_size - a % page_size }

pub map_memory_mappable :
    (g : AddressSpace) (a : ℕ)
    → g.mappable (g.translate a) ≡ true
    → map_memory g a 1 ≡ some (byte_window g a)
unfolding map_memory machine
map_memory_mappable g a h = ground arith

pub map_memory-some :
    (g : AddressSpace) (a : ℕ) {w : Window}
    → map_memory g a 1 ≡ some w
    → (g.mappable (g.translate a) ≡ true) × (w.base ≡ machine g a)
unfolding map_memory machine
map_memory-some g a h = ground arith

pub overlay-NotAt :
    (g : AddressSpace) (m : ℕ → ℕ) (at : ℕ) (bps : BreakpointMap)
    → NotAt g at bps
    → overlay g bps m at ≡ m at
unfolding overlay
overlay-NotAt g m at [] h = refl
overlay-NotAt g m at ((a, b) ∷ bps) h = ground (arith, overlay-NotAt g m at bps)

overlay_at :
    (g : AddressSpace) (m : ℕ → ℕ) (a at : ℕ) (bps : BreakpointMap)
    → NotAt g (machine g a) bps
    → machine g a ≡ at
    → overlay g bps m at ≡ m at
overlay_at g m a at bps n e = overlay-NotAt g m at bps (rw e at n)

pub NotAt-has :
    (g : AddressSpace) (a at : ℕ) (bps : BreakpointMap)
    → NotAt g at bps
    → has_breakpoint a bps ≡ true
    → machine g a ≢ at
unfolding has_breakpoint
NotAt-has g a at [] n h = cc
NotAt-has g a at ((a', b) ∷ bps) n h = elim (Bool-cases (a' == a)) [
  | inl e ↦ rw (← (==_iff a' a).0 e) n.0
  | inr e ↦ NotAt-has g a at bps n.1 (rw e at h)
]

NotAt-erase :
    (g : AddressSpace) (a at : ℕ) (bps : BreakpointMap)
    → NotAt g at bps
    → NotAt g at (erase_breakpoint a bps)
unfolding erase_breakpoint
NotAt-erase g a at [] n = tt
NotAt-erase g a at ((a', b) ∷ bps) n = elim (Bool-cases (a' == a)) [
  | inl e ↦ rw e n.1
  | inr e ↦ rw e (n.0, NotAt-erase g a at bps n.1)
]

overlay-erase :
    (g : AddressSpace) (m : ℕ → ℕ) (a at : ℕ) (bps : BreakpointMap)
    → Saved g m bps
    → has_breakpoint a bps ≡ true
    → overlay g (erase_breakpoint a bps) m at
      ≡ (if machine g a == at then m at else overlay g bps m at)
unfolding overlay erase_breakpoint has_breakpoint
overlay-erase g m a at [] s h = cc
overlay-erase g m a at ((a', b) ∷ bps) s h = elim (Bool-cases (a' == a)) [
  | inl e ↦ ground (arith, overlay_at g m a' at bps s.2)
  | inr e ↦ ground (arith, overlay-erase g m a at bps s.3, NotAt-has g a (machine g a') bps s.2)
]

Saved-erase :
    (g : AddressSpace) (m : ℕ → ℕ) (a : ℕ) (bps : BreakpointMap)
    → Saved g m bps
    → Saved g m (erase_breakpoint a bps)
unfolding erase_breakpoint
Saved-erase g m a [] s = tt
Saved-erase g m a ((a', b) ∷ bps) s = elim (Bool-cases (a' == a)) [
  | inl e ↦ rw e s.3
  | inr e ↦ rw e (s.0, s.1, NotAt-erase g a (machine g a') bps s.2, Saved-erase g m a bps s.3)
]

pub find_breakpoint-Saved :
    (g : AddressSpace) (m : ℕ → ℕ) (a : ℕ) (bps : BreakpointMap) {b : ℕ}
    → Saved g m bps
    → find_breakpoint a bps ≡ some b
    → (b ≡ m (machine g a)) × (g.mappable (g.translate a) ≡ true) × (has_breakpoint a bps ≡ true)
unfolding find_breakpoint has_breakpoint
find_breakpoint-Saved g m a [] s h = cc
find_breakpoint-Saved g m a ((a', b') ∷ bps) {b} s h =
    ground (arith, find_breakpoint-Saved g m a bps {b = b} s.3)

abbrev pub without : ℕ → ℕ → Debugger → Debugger
without a b d = record {
  breakpoints = erase_breakpoint a d.breakpoints;
  guest = poke d.guest (machine d.guest.space a) b;
}

-- What a removal that finds an entry does.
pub remove_breakpoint-some :
    (a b : ℕ) (d : Debugger)
    → find_breakpoint a d.breakpoints ≡ some b
    → d.guest.space.mappable (d.guest.space.translate a) ≡ true
    → remove_breakpoint a d ≡ ok (without a b d)
unfolding remove_breakpoint
remove_breakpoint-some a b d found page =
    rw found (rw (map_memory_mappable d.guest.space a page, lift_breakpoint) refl)

pub without-IsPatched :
    (m : ℕ → ℕ) (a b : ℕ) (d : Debugger)
    → IsPatched m d
    → find_breakpoint a d.breakpoints ≡ some b
    → (remove_breakpoint a d ≡ ok (without a b d)) × IsPatched m (without a b d)
without-IsPatched m a b d h found =
    let g = d.guest.space in
    let (byte, page, present) = find_breakpoint-Saved g m a d.breakpoints h.saved found in
    (
      remove_breakpoint-some a b d found page,
      record {
        patched =
            unfold poke in
            fun_ext λ at. ground (
              arith,
              overlay-erase g m a at d.breakpoints h.saved present,
              ap (λ (f : ℕ → ℕ). f at) h.patched,
              byte,
            );
        saved = unfold poke in Saved-erase g m a d.breakpoints h.saved;
      },
    )

pub remove_breakpoint-none :
    (a : ℕ) (d : Debugger) → find_breakpoint a d.breakpoints ≡ none → remove_breakpoint a d ≡ ok d
unfolding remove_breakpoint
remove_breakpoint-none a d h = rw h
