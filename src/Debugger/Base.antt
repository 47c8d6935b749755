-- ===== src/Debugger/Base.antt =====
-- `Debugger` (include/Debugger/Debugger.hpp, src/Debugger/Debugger.cpp): breakpoints and memory.
-- The unordered map of breakpoints is the list of its entries in the order of its iteration, which
-- no theorem fixes.
use xendbg.Prelude.{
  ℕ, ◌+◌, ◌-◌, ◌/◌, ◌%◌, ◌^◌, Bool, false, ◌&&◌, ◌||◌, Option, none, some, leb, ltb, ◌==◌,
  if◌then◌else◌, List, [], ◌∷◌, Bytes, length, set, Result, ok, err, ◌>>=◌,
}
use xendbg.Debugger.Guest.{Guest, Window, map_memory, poke, peek_bytes, poke_bytes}

abbrev pub x86_int3 : ℕ
x86_int3 = 0xCC

abbrev pub u64_mod : ℕ
u64_mod = 2 ^ 64

-- Addresses and the bytes that the breakpoints there replace.
abbrev pub BreakpointMap : Type 0
BreakpointMap = List (ℕ × ℕ)

pub record Debugger : Type 0 where
  pub breakpoints : BreakpointMap
  pub guest : Guest

-- How a call fails: by an exception, or by undefined behaviour.
pub data Fault : Type 0 where
  xen_exception undefined_behaviour : Fault

-- A call that fails leaves the state that it had reached.
abbrev pub Outcome : Type 0
Outcome = Result (Fault × Debugger) Debugger

unfoldable pub find_breakpoint : ℕ → BreakpointMap → Option ℕ
find_breakpoint address [] = none
find_breakpoint address ((a, b) ∷ bps) =
    if a == address then some b else find_breakpoint address bps

unfoldable pub erase_breakpoint : ℕ → BreakpointMap → BreakpointMap
erase_breakpoint address [] = []
erase_breakpoint address ((a, b) ∷ bps) =
    if a == address then bps else (a, b) ∷ erase_breakpoint address bps

-- `_breakpoints.count(address)`.
unfoldable pub has_breakpoint : ℕ → BreakpointMap → Bool
has_breakpoint address [] = false
has_breakpoint address ((a, b) ∷ bps) = a == address || has_breakpoint address bps

-- The write of `insert_breakpoint` through its mapping.
unfoldable pub plant : ℕ → Debugger → Option Window → Outcome
plant address d none = err (xen_exception, d)
plant address d (some w) = ok (record {
  breakpoints = (address, d.guest.memory w.base) ∷ d.breakpoints;
  guest = poke d.guest w.base x86_int3;
})

unfoldable pub insert_breakpoint : ℕ → Debugger → Outcome
unfolding plant has_breakpoint map_memory
insert_breakpoint address d =
    if has_breakpoint address d.breakpoints
    then ok d
    else plant address d (map_memory d.guest.space address 1)

-- The write of `remove_breakpoint` through its mapping, and the erasure.
unfoldable pub lift_breakpoint : ℕ → ℕ → Debugger → Option Window → Outcome
unfolding erase_breakpoint
lift_breakpoint address orig_bytes d none = err (xen_exception, d)
lift_breakpoint address orig_bytes d (some w) = ok (record {
  breakpoints = erase_breakpoint address d.breakpoints;
  guest = poke d.guest w.base orig_bytes;
})

unfoldable pub remove_found : ℕ → Debugger → Option ℕ → Outcome
unfolding lift_breakpoint map_memory
remove_found address d none = ok d
remove_found address d (some orig_bytes) =
    lift_breakpoint address orig_bytes d (map_memory d.guest.space address 1)

unfoldable pub remove_breakpoint : ℕ → Debugger → Outcome
unfolding remove_found find_breakpoint
remove_breakpoint address d = remove_found address d (find_breakpoint address d.breakpoints)

-- `cleanup`: the iterator that `erase` returns is at the next entry.
unfoldable pub cleanup_from : BreakpointMap → Debugger → Outcome
unfolding remove_breakpoint
cleanup_from [] d = ok d
cleanup_from ((address, _) ∷ bps) d = do d' ← remove_breakpoint address d; cleanup_from bps d'

unfoldable pub cleanup : Debugger → Outcome
unfolding cleanup_from
cleanup d = cleanup_from d.breakpoints d

-- `bp_address >= address && bp_address < address_end`.
abbrev pub in_range : ℕ → ℕ → ℕ → Bool
in_range address address_end bp = leb address bp && ltb bp address_end

-- `*((uint16_t*)(mem_masked + dist)) = bp_orig_bytes`: two bytes, the second one 0. `none` is a
-- write behind the end of the buffer.
unfoldable pub store_u16 : Bytes → ℕ → ℕ → Option Bytes
store_u16 mem dist value =
    if ltb (dist + 1) (length mem)
    then some (set (set mem dist (value % 256)) (dist + 1) (value / 256))
    else none

-- The loop of `read_memory_masking_breakpoints`: one entry, and all.
unfoldable pub mask_one : ℕ → ℕ → ℕ → ℕ → Bytes → Option Bytes
unfolding store_u16
mask_one address address_end bp orig mem =
    if in_range address address_end bp then store_u16 mem (bp - address) orig else some mem

unfoldable pub mask_breakpoints : ℕ → ℕ → BreakpointMap → Bytes → Option Bytes
mask_breakpoints address address_end [] mem = some mem
mask_breakpoints address address_end ((bp, orig) ∷ bps) mem =
    elim (mask_one address address_end bp orig mem) [
      | none ↦ none
      | some mem' ↦ mask_breakpoints address address_end bps mem'
    ]

unfoldable pub read_window : ℕ → ℕ → Debugger → Option Window → Result Fault Bytes
unfolding mask_breakpoints mask_one peek_bytes
read_window address size d none = err xen_exception
read_window address size d (some w) =
    if ltb w.extent size
    then err undefined_behaviour
    else elim (mask_breakpoints address ((address + size) % u64_mod) d.breakpoints
        (peek_bytes d.guest w.base size)) [ none ↦ err undefined_behaviour | some mem ↦ ok mem ]

unfoldable pub read_memory_masking_breakpoints : ℕ → ℕ → Debugger → Result Fault Bytes
unfolding read_window map_memory
read_memory_masking_breakpoints address size d =
    read_window address size d (map_memory d.guest.space address size)

-- The first entry that the loop of `write_memory_retaining_breakpoints` finds in the range.
unfoldable pub first_in_range : ℕ → ℕ → BreakpointMap → Option ℕ
first_in_range address address_end [] = none
first_in_range address address_end ((bp, _) ∷ bps) =
    if in_range address address_end bp then some bp else first_in_range address address_end bps

-- `memcpy` to the end of the mapping less `length_orig`.
unfoldable pub write_window : ℕ → Bytes → Debugger → Option Window → Outcome
unfolding poke_bytes
write_window size bytes d none = err (xen_exception, d)
write_window size bytes d (some w) =
    let skip = size - length bytes in
    if ltb w.extent (skip + length bytes)
    then err (undefined_behaviour, d)
    else ok (record d { guest = poke_bytes d.guest (w.base + skip) bytes })

-- `remove_breakpoint` for the first entry in the range. It erases the entry that the loop is at:
-- the next step of its iterator reads a freed node.
unfoldable pub erase_while_walking : ℕ → Debugger → Outcome
unfolding remove_breakpoint
erase_while_walking bp d = do d' ← remove_breakpoint bp d; err (undefined_behaviour, d')

-- The walk over the map and the write, once the range of the mapping is chosen.
unfoldable pub write_from : ℕ → ℕ → Bytes → Debugger → Outcome
unfolding write_window erase_while_walking first_in_range map_memory
write_from from size bytes d =
    elim (first_in_range from ((from + length bytes) % u64_mod) d.breakpoints) [
      | none ↦ write_window size bytes d (map_memory d.guest.space from size)
      | some bp ↦ erase_while_walking bp d
    ]

-- The flags are the two tests for a breakpoint at an end of the range.
unfoldable pub write_widened : Bool → Bool → ℕ → Bytes → Debugger → Outcome
unfolding write_from
write_widened half_overlap_start half_overlap_end address bytes d =
    write_from (if half_overlap_start then (address + u64_mod - 1) % u64_mod else address)
      (length bytes + (if half_overlap_start then 1 else 0) + (if half_overlap_end then 1 else 0))
      bytes d

unfoldable pub write_memory_retaining_breakpoints : ℕ → Bytes → Debugger → Outcome
unfolding write_widened has_breakpoint
write_memory_retaining_breakpoints address bytes d =
    write_widened (has_breakpoint ((address + u64_mod - 1) % u64_mod) d.breakpoints)
      (has_breakpoint ((address + length bytes + u64_mod - 1) % u64_mod) d.breakpoints) address
      bytes d
