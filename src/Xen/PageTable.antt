-- ===== src/Xen/PageTable.antt =====
-- `PageTableEntry` (include/Xen/PageTableEntry.hpp, src/Xen/PageTableEntry.cpp), and the walk of
-- `Domain::get_page_table_entry` (src/Xen/Domain.cpp). Bits are written with division and remainder;
-- an `|` of values without common bits is a sum.
use xendbg.Prelude.{
  ℕ, zero, suc, ◌+◌, ◌-◌, ◌*◌, ◌/◌, ◌%◌, ◌^◌, ◌<◌, ◌≡◌, Bool, ◌&&◌, ◌||◌, Option, none, some, ltb,
  ◌==◌, if◌then◌else◌, [], ◌∷◌, Bytes, Result, ok, err, ◌>>=◌, arith,
}
use xendbg.Text.{codes}
use xendbg.Registers.{RegistersAny, Context, context_of, get}
use xendbg.Debugger.Guest.{Guest, Window, page_size, map_memory, peek_bytes}
use xendbg.Debugger.Base.{Fault, xen_exception, undefined_behaviour}

pub data Level : Type 0 where
  l1 l2 l3 l4 : Level

-- PAGETABLE_SHIFTS.
abbrev pub get_pagetable_shift : Level → ℕ
get_pagetable_shift l1 = 12
get_pagetable_shift l2 = 21
get_pagetable_shift l3 = 30
get_pagetable_shift l4 = 39

unfoldable pub get_pte_offset : ℕ → Level → ℕ
get_pte_offset address level = address / 2 ^ get_pagetable_shift level % 512

unfoldable pub get_flags : ℕ → ℕ
get_flags pte = pte / 2 ^ 40 / 4096 * 4096 + pte % 4096

-- The bits from PAGE_SHIFT to PADDR_BITS.
unfoldable pub get_mfn : ℕ → ℕ
get_mfn pte = pte % 2 ^ 52 / 4096

abbrev pub has_flag : ℕ → ℕ → Bool
has_flag bit flags = flags / 2 ^ bit % 2 == 1

unfoldable pub is_present : ℕ → Bool
unfolding get_flags
is_present pte = has_flag 0 (get_flags pte)

unfoldable pub is_rw : ℕ → Bool
unfolding get_flags
is_rw pte = has_flag 1 (get_flags pte)

unfoldable pub is_user : ℕ → Bool
unfolding get_flags
is_user pte = has_flag 2 (get_flags pte)

unfoldable pub is_nx : ℕ → Bool
unfolding get_flags
is_nx pte = has_flag 23 (get_flags pte)

-- The 8 bytes of an entry, on a little-endian host.
unfoldable pub word_at : Bytes → ℕ
word_at [] = 0
word_at (b ∷ bytes) = b + 256 * word_at bytes

-- `memcpy` from the mapping: the mapping begins at the address itself, and the offset in the page is
-- added once more. The bits of the entry that are not copied stay.
unfoldable pub read_mapped : Guest → ℕ → ℕ → ℕ → Option Window → Result Fault ℕ
unfolding peek_bytes word_at
read_mapped g paddr size pte none = err xen_exception
read_mapped g paddr size pte (some w) =
    if ltb w.extent (paddr % page_size + size)
    then err undefined_behaviour
    else ok
        (pte / 256 ^ size * 256 ^ size + word_at (peek_bytes g (w.base + paddr % page_size) size))

unfoldable pub read_pte : Guest → ℕ → ℕ → ℕ → Result Fault ℕ
unfolding read_mapped map_memory
read_pte g paddr size pte = read_mapped g paddr size pte (map_memory g.space paddr page_size)

-- `pte & 0x000ffffffffff000`.
abbrev pub frame_of : ℕ → ℕ
frame_of pte = pte % 2 ^ 52 / 4096 * 4096

-- A large page: PTE_PSE, bit 7, on the levels that know it.
abbrev pub is_large : ℕ → ℕ → ℕ → Bool
is_large pt_levels level pte = (level == 2 || (level == 3 && pt_levels == 4)) && has_flag 7 pte

-- The walk from a level down. `shift` is the position of the mask, which has `width` bits.
unfoldable pub walk : Guest → ℕ → ℕ → ℕ → ℕ → ℕ → ℕ → ℕ → Result Fault (Option ℕ)
unfolding read_pte
walk g pt_levels vaddr width zero shift paddr pte = ok (some pte)
walk g pt_levels vaddr width (suc level) shift paddr pte = do
  let at = (paddr + vaddr / 2 ^ shift % 2 ^ width * (if pt_levels == 2 then 4 else 8)) % 2 ^ 64
  pte' ← read_pte g at (if pt_levels == 2 then 4 else 8) pte
  if has_flag 0 pte'
      then (if is_large pt_levels (suc level) pte'
          then ok (some ((frame_of pte' / 2 ^ shift * 2 ^ shift + vaddr % 2 ^ shift) / 4096))
          else walk g pt_levels vaddr width level (shift - width) (frame_of pte') pte')
      else ok none

-- The level at the top, and the address of its table, from the registers.
pub record Root : Type 0 where
  pub pt_levels : ℕ
  pub paddr : ℕ

-- `none`: paging is off. CR0_PG is bit 31, CR4_PAE bit 5, EFER_LMA bit 10.
unfoldable pub hvm_root : Context → Option Root
unfolding get
hvm_root regs =
    let cr3 = get (codes "cr3") regs in
    if has_flag 31 (get (codes "cr0") regs)
    then (if has_flag 10 (get (codes "msr_efer") regs)
        then some (record { pt_levels = 4; paddr = cr3 / 4096 * 4096 })
        else if has_flag 5 (get (codes "cr4") regs)
        then some (record { pt_levels = 3; paddr = cr3 / 32 * 32 })
        else some (record { pt_levels = 2; paddr = cr3 / 4096 * 4096 }))
    else none

unfoldable pub walk_from : Guest → ℕ → ℕ → Root → Result Fault (Option ℕ)
unfolding walk
walk_from g vaddr pte root =
    if root.pt_levels == 4
    then walk g 4 (vaddr % 2 ^ 48) 9 4 39 root.paddr pte
    else if root.pt_levels == 3
    then walk g 3 (vaddr % 2 ^ 32) 9 3 30 root.paddr pte
    else walk g 2 (vaddr % 2 ^ 32) 10 2 22 root.paddr pte

-- `get_page_table_entry` of an HVM domain; `pte` is what the variable holds before the first entry is
-- read.
unfoldable pub get_page_table_entry : Guest → RegistersAny → ℕ → ℕ → Result Fault (Option ℕ)
unfolding hvm_root walk_from
get_page_table_entry g regs vaddr pte = elim (hvm_root (context_of regs)) [
  | none ↦ ok (some (vaddr / 4096))
  | some root ↦ walk_from g vaddr pte root
]

-- The offsets of an address of 48 bits in the tables of the four levels are below 512, and make up
-- the address with its offset in the page.
pub get_pte_offset-bounds :
    (address : ℕ)
    → address < 2 ^ 48
    → (get_pte_offset address l1 < 512)
      × (get_pte_offset address l2 < 512)
      × (get_pte_offset address l3 < 512)
      × (get_pte_offset address l4 < 512)
      × (get_pte_offset address l4 * 2 ^ 39
            + get_pte_offset address l3 * 2 ^ 30
            + get_pte_offset address l2 * 2 ^ 21
            + get_pte_offset address l1 * 2 ^ 12
            + address % 2 ^ 12
          ≡ address)
unfolding get_pte_offset
get_pte_offset-bounds address h = (omega arith, omega arith, omega arith, omega arith, omega arith)
