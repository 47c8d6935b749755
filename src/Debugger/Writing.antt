-- ===== src/Debugger/Writing.antt =====
-- What `write_memory_retaining_breakpoints` does, by where the breakpoints lie.
use native.Mathlib.Nat.{mod-eq_of_lt, add-zero, zero-add}
use xendbg.Prelude.{
  ℕ, ◌+◌, ◌-◌, ◌%◌, ◌≡◌, ◌≤◌, ◌<◌, refl, false, none, some, [], ◌∷◌, Bytes, length, ok, arith,
}
use xendbg.Debugger.Guest.{Window, map_memory, machine, poke_bytes}
use xendbg.Debugger.Base.{
  BreakpointMap, Debugger, u64_mod, has_breakpoint, first_in_range, write_window, write_from,
  write_widened, write_memory_retaining_breakpoints,
}
use xendbg.Debugger.Masking.{NoneIn, Covers, window_covers}

first_in_range-NoneIn :
    (lo hi : ℕ) (bps : BreakpointMap) → NoneIn lo hi bps → first_in_range lo hi bps ≡ none
unfolding first_in_range
first_in_range-NoneIn lo hi [] h = refl
first_in_range-NoneIn lo hi ((a, b) ∷ bps) h = ground (arith, first_in_range-NoneIn lo hi bps h.1)

has-NoneIn :
    (lo hi a : ℕ) (bps : BreakpointMap)
    → NoneIn lo hi bps
    → lo ≤ a
    → a < hi
    → has_breakpoint a bps ≡ false
unfolding has_breakpoint
has-NoneIn lo hi a [] h l u = refl
has-NoneIn lo hi a ((a', b) ∷ bps) h l u = ground (arith, has-NoneIn lo hi a bps h.1 l u)

write_window-exact :
    (bytes : Bytes) (d : Debugger) (w : Window) (at : ℕ)
    → w.base ≡ at
    → length bytes ≤ w.extent
    → write_window (length bytes) bytes d (some w)
      ≡ ok (record d { guest = poke_bytes d.guest at bytes })
unfolding write_window
write_window-exact bytes d w at base fits =
    let skip : length bytes - length bytes ≡ 0 = omega arith in
    rw skip (rw (add-zero, zero-add, base) (ground arith))

write_from-NoneIn :
    (address : ℕ) (bytes : Bytes) (d : Debugger) (w : Window)
    → 0 < length bytes
    → address + length bytes < u64_mod
    → NoneIn address (address + length bytes) d.breakpoints
    → map_memory d.guest.space address (length bytes) ≡ some w
    → Covers address (length bytes)
    → write_from address (length bytes) bytes d
      ≡ ok (record d { guest = poke_bytes d.guest (machine d.guest.space address) bytes })
write_from-NoneIn address bytes d w some_bytes small clear mapped covers =
    let end : (address + length bytes) % u64_mod ≡ address + length bytes = mod-eq_of_lt small in
    let (base, extent) = window_covers d.guest.space address (length bytes) mapped in
    let keep : first_in_range address ((address + length bytes) % u64_mod) d.breakpoints ≡ none =
      rw end (first_in_range-NoneIn address (address + length bytes) d.breakpoints clear) in
    unfold write_from in
    rw (keep, write_from)
      (rw mapped (write_window-exact bytes d w (machine d.guest.space address) base (omega arith)))

-- A write of at least one byte with no breakpoint among the bytes written and none just before
-- them, to a range that can be mapped and that its mapping covers, returns normally; it stores the
-- bytes at the address and changes neither anything else in memory nor the breakpoints.
pub write_memory-NoneIn :
    (address : ℕ) (bytes : Bytes) (d : Debugger) (w : Window)
    → 0 < address
    → 0 < length bytes
    → address + length bytes < u64_mod
    → has_breakpoint (address - 1) d.breakpoints ≡ false
    → NoneIn address (address + length bytes) d.breakpoints
    → map_memory d.guest.space address (length bytes) ≡ some w
    → Covers address (length bytes)
    → write_memory_retaining_breakpoints address bytes d
      ≡ ok (record d { guest = poke_bytes d.guest (machine d.guest.space address) bytes })
unfolding write_memory_retaining_breakpoints
write_memory-NoneIn address bytes d w pos some_bytes small before clear mapped covers =
    let start : (address + u64_mod - 1) % u64_mod ≡ address - 1 = omega arith in
    let last : (address + length bytes + u64_mod - 1) % u64_mod ≡ address + length bytes - 1 =
      omega arith in
    let after =
      has-NoneIn address (address + length bytes) (address + length bytes - 1) d.breakpoints clear
        (omega arith) (omega arith) in
    rw start (
      rw last (
        rw before (
          rw after (
            unfold write_widened in
            rw add-zero (
              rw add-zero
                (write_from-NoneIn address bytes d w some_bytes small clear mapped covers))))))
