-- ===== src/Debugger/Masking.antt =====
-- What `read_memory_masking_breakpoints` and `write_memory_retaining_breakpoints` do in each case.
use native.Mathlib.Nat.{mod-eq_of_lt}
use xendbg.Prelude.{
  ℕ, zero, suc, ◌+◌, ◌-◌, ◌*◌, ◌/◌, ◌%◌, ◌≡◌, ◌≤◌, ◌<◌, refl, ap, true, false, inl, inr, ◌⊎◌,
  Option, none, some, [], ◌∷◌, Bytes, length, set, Result, ok, err, arith,
}
use xendbg.Debugger.Guest.{
  AddressSpace, Guest, Window, page_size, num_pages, map_memory, machine, peek_bytes,
}
use xendbg.Debugger.Base.{
  BreakpointMap, Debugger, Fault, undefined_behaviour, u64_mod, in_range, store_u16, mask_one,
  mask_breakpoints, read_window, read_memory_masking_breakpoints,
}

-- No breakpoint of the map lies in a range of addresses.
abbrev pub NoneIn : ℕ → ℕ → BreakpointMap → Type 0
NoneIn lo hi [] = Unit
NoneIn lo hi ((a, b) ∷ bps) = (in_range lo hi a ≡ false) × NoneIn lo hi bps

mask_one_out :
    (lo hi a b : ℕ) (mem : Bytes) → in_range lo hi a ≡ false → mask_one lo hi a b mem ≡ some mem
unfolding mask_one
mask_one_out lo hi a b mem h = ground arith

mask_one_in :
    (lo hi a b : ℕ) (mem : Bytes)
    → in_range lo hi a ≡ true
    → mask_one lo hi a b mem ≡ store_u16 mem (a - lo) b
mask_one_in lo hi a b mem h = unfold mask_one in ground arith

mask_breakpoints-NoneIn :
    (lo hi : ℕ) (bps : BreakpointMap) (mem : Bytes)
    → NoneIn lo hi bps
    → mask_breakpoints lo hi bps mem ≡ some mem
unfolding mask_breakpoints
mask_breakpoints-NoneIn lo hi [] mem h = refl
mask_breakpoints-NoneIn lo hi ((a, b) ∷ bps) mem h =
    rw (mask_one_out lo hi a b mem h.0, mask_breakpoints)
      (mask_breakpoints-NoneIn lo hi bps mem h.1)

-- A byte of the mapped range, at a given distance.
length-peek_bytes : (g : Guest) (at n : ℕ) → length (peek_bytes g at n) ≡ n
unfolding peek_bytes
length-peek_bytes g at zero = refl
length-peek_bytes g at (suc n) = ap suc (length-peek_bytes g (at + 1) n)

-- Where the mapping reaches the last byte, that is, where the pages counted from the size alone
-- cover the offset in the first page too.
abbrev pub Covers : ℕ → ℕ → Type 0
Covers address size = address % page_size + size ≤ num_pages size * page_size

pub window_covers :
    (s : AddressSpace) (address size : ℕ) {w : Window}
    → map_memory s address size ≡ some w
    → (w.base ≡ machine s address) × (w.extent ≡ num_pages size * page_size - address % page_size)
unfolding map_memory machine
window_covers s address size h = ground arith

-- The part of `read_memory_masking_breakpoints` behind the mapping, once it reaches far enough.
read_window-covers :
    (address size : ℕ) (d : Debugger) (w : Window) (r : Option Bytes)
    → size ≤ w.extent
    → mask_breakpoints address
        ((address + size) % u64_mod)
        d.breakpoints
        (peek_bytes d.guest w.base size)
      ≡ r
    → read_window address size d (some w)
      ≡ (elim r [ none ↦ err undefined_behaviour | some mem ↦ ok mem ])
unfolding read_window
read_window-covers address size d w none fits e = ground (arith, e)
read_window-covers address size d w (some mem) fits e = ground (arith, e)

-- A read of a mappable range that its mapping covers, with no breakpoint in it, returns the
-- guest's bytes.
pub read_memory-NoneIn :
    (address size : ℕ) (d : Debugger) (w : Window)
    → map_memory d.guest.space address size ≡ some w
    → Covers address size
    → NoneIn address ((address + size) % u64_mod) d.breakpoints
    → read_memory_masking_breakpoints address size d
      ≡ ok (peek_bytes d.guest (machine d.guest.space address) size)
read_memory-NoneIn address size d w mapped covers clear =
    let (base, extent) = window_covers d.guest.space address size mapped in
    unfold read_memory_masking_breakpoints in
    rw mapped (
      rw (← base) (
        read_window-covers address size d w (some (peek_bytes d.guest w.base size)) (omega arith)
          (mask_breakpoints-NoneIn address _ d.breakpoints (peek_bytes d.guest w.base size) clear)))

-- Exactly one entry of the map lies in a range: `a`, with the byte `b`.
abbrev pub OnlyIn : ℕ → ℕ → ℕ → ℕ → BreakpointMap → Type 0
OnlyIn lo hi a b [] = ⊥
OnlyIn lo hi a b ((a', b') ∷ bps) =
    ((in_range lo hi a' ≡ false) × OnlyIn lo hi a b bps)
    ⊎ ((in_range lo hi a' ≡ true) × (a' ≡ a) × (b' ≡ b) × NoneIn lo hi bps)

mask_breakpoints-OnlyIn :
    (lo hi a b : ℕ) (bps : BreakpointMap) (mem : Bytes) (r : Option Bytes)
    → OnlyIn lo hi a b bps
    → store_u16 mem (a - lo) b ≡ r
    → mask_breakpoints lo hi bps mem ≡ r
unfolding mask_breakpoints
mask_breakpoints-OnlyIn lo hi a b [] mem r h e = absurd h
mask_breakpoints-OnlyIn lo hi a b ((a', b') ∷ bps) mem r (inl (out, h)) e =
    rw (mask_one_out lo hi a' b' mem out, mask_breakpoints)
      (mask_breakpoints-OnlyIn lo hi a b bps mem r h e)
mask_breakpoints-OnlyIn lo hi a b ((a', b') ∷ bps) mem none (inr (here, ea, eb, h)) e =
    rw (mask_one_in lo hi a' b' mem here, ea, eb, e, mask_breakpoints)
mask_breakpoints-OnlyIn lo hi a b ((a', b') ∷ bps) mem (some mem') (inr (here, ea, eb, h)) e =
    rw (mask_one_in lo hi a' b' mem here, ea, eb, e, mask_breakpoints)
      (mask_breakpoints-NoneIn lo hi bps mem' h)

read_result : Option Bytes → Result Fault Bytes
read_result none = err undefined_behaviour
read_result (some mem) = ok mem

read_memory_masked :
    (address size : ℕ) (d : Debugger) (w : Window) (r : Option Bytes)
    → map_memory d.guest.space address size ≡ some w
    → Covers address size
    → address + size < u64_mod
    → mask_breakpoints address
        (address + size)
        d.breakpoints
        (peek_bytes d.guest (machine d.guest.space address) size)
      ≡ r
    → read_memory_masking_breakpoints address size d ≡ read_result r
unfolding read_memory_masking_breakpoints read_result
read_memory_masked address size d w r mapped covers small e =
    let (base, extent) = window_covers d.guest.space address size mapped in
    let end : (address + size) % u64_mod ≡ address + size = mod-eq_of_lt small in
    rw mapped (read_window-covers address size d w r (omega arith) (rw (end, base) e))

store_u16_fits :
    (mem : Bytes) (dist v : ℕ)
    → dist + 1 < length mem
    → v < 256
    → store_u16 mem dist v ≡ some (set (set mem dist v) (dist + 1) 0)
unfolding store_u16
store_u16_fits mem dist v h b =
    let low : v % 256 ≡ v = mod-eq_of_lt b in
    let high : v / 256 ≡ 0 = omega arith in ground (arith, low, high)

store_u16_overflows :
    (mem : Bytes) (dist v : ℕ) → dist + 1 ≡ length mem → store_u16 mem dist v ≡ none
unfolding store_u16
store_u16_overflows mem dist v h = ground arith

masked-OnlyIn :
    (address size a b : ℕ) (d : Debugger) (w : Window) (r : Option Bytes)
    → map_memory d.guest.space address size ≡ some w
    → Covers address size
    → address + size < u64_mod
    → OnlyIn address (address + size) a b d.breakpoints
    → store_u16 (peek_bytes d.guest (machine d.guest.space address) size) (a - address) b ≡ r
    → read_memory_masking_breakpoints address size d ≡ read_result r
masked-OnlyIn address size a b d w r mapped covers small only e =
    read_memory_masked address size d w r mapped covers small
      (mask_breakpoints-OnlyIn address (address + size) a b d.breakpoints _ r only e)

-- A read of a mappable range that its mapping covers, with exactly one breakpoint in it, which is
-- not at the last address, returns the guest's bytes but for two: the byte that the breakpoint
-- replaced at its address, and 0 at the address behind it.
pub read_memory-OnlyIn :
    (address size a b : ℕ) (d : Debugger) (w : Window)
    → map_memory d.guest.space address size ≡ some w
    → Covers address size
    → address + size < u64_mod
    → address ≤ a
    → a + 1 < address + size
    → b < 256
    → OnlyIn address (address + size) a b d.breakpoints
    → read_memory_masking_breakpoints address size d
      ≡ ok (
          set
            (set (peek_bytes d.guest (machine d.guest.space address) size) (a - address) b)
            (a - address + 1)
            0)
unfolding read_result
read_memory-OnlyIn address size a b d w mapped covers small low high byte only =
    let bytes = peek_bytes d.guest (machine d.guest.space address) size in
    let sized = length-peek_bytes d.guest (machine d.guest.space address) size in
    masked-OnlyIn address size a b d w (some (set (set bytes (a - address) b) (a - address + 1) 0))
      mapped covers small only (store_u16_fits bytes (a - address) b (omega (arith, sized)) byte)

-- A read of such a range whose only breakpoint is at the last address is undefined: it writes
-- behind the end of its buffer.
pub read_memory_last-OnlyIn :
    (address size a b : ℕ) (d : Debugger) (w : Window)
    → map_memory d.guest.space address size ≡ some w
    → Covers address size
    → address + size < u64_mod
    → address ≤ a
    → a + 1 ≡ address + size
    → OnlyIn address (address + size) a b d.breakpoints
    → read_memory_masking_breakpoints address size d ≡ err undefined_behaviour
unfolding read_result
read_memory_last-OnlyIn address size a b d w mapped covers small low last only =
    let sized = length-peek_bytes d.guest (machine d.guest.space address) size in
    masked-OnlyIn address size a b d w none mapped covers small only
      (store_u16_overflows _ (a - address) b (omega (arith, sized)))
