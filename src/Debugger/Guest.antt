-- ===== src/Debugger/Guest.antt =====
-- Guest memory as the debugger reaches it: `Domain::map_memory` (include/Xen/Domain.hpp) over
-- `XenForeignMemory::map_by_mfn_raw` (src/Xen/XenForeignMemory.cpp). The hypervisor's calls are
-- parameters: `translate` is xc_translate_foreign_address, `mappable` says which machine frames
-- xenforeignmemory_map maps without an error.
use xendbg.Prelude.{
  ℕ, zero, suc, ◌+◌, ◌-◌, ◌*◌, ◌/◌, ◌%◌, Bool, true, ◌&&◌, Option, none, some, ◌==◌, if◌then◌else◌,
  [], ◌∷◌, Bytes,
}

abbrev pub page_size : ℕ
page_size = 4096

pub record AddressSpace : Type 0 where
  pub translate : ℕ → ℕ
  pub mappable : ℕ → Bool

pub record Guest : Type 0 where
  pub space : AddressSpace
  pub memory : ℕ → ℕ  -- the byte at a machine address

-- `(size + XC_PAGE_SIZE - 1) >> XC_PAGE_SHIFT`. (The sum does not wrap for a size that a process
-- can allocate.)
unfoldable pub num_pages : ℕ → ℕ
num_pages size = (size + page_size - 1) / page_size

unfoldable pub all_mappable : AddressSpace → ℕ → ℕ → Bool
all_mappable s base zero = true
all_mappable s base (suc n) = s.mappable base && all_mappable s (base + 1) n

-- A mapping: the machine address at its start, and how many bytes may be reached from there.
pub record Window : Type 0 where
  pub base : ℕ
  pub extent : ℕ

-- `none` is the XenException for a page that cannot be mapped.
unfoldable pub map_by_mfn_raw : AddressSpace → ℕ → ℕ → ℕ → Option Window
unfolding all_mappable num_pages
map_by_mfn_raw s base_mfn offset size =
    if all_mappable s base_mfn (num_pages size)
    then some (record {
      base = base_mfn * page_size + offset;
      extent = num_pages size * page_size - offset;
    })
    else none

unfoldable pub map_memory : AddressSpace → ℕ → ℕ → Option Window
unfolding map_by_mfn_raw
map_memory s address size = map_by_mfn_raw s (s.translate address) (address % page_size) size

-- Where a byte of the guest's address space lies.
unfoldable pub machine : AddressSpace → ℕ → ℕ
machine s address = s.translate address * page_size + address % page_size

-- `*mem = value`.
unfoldable pub poke : Guest → ℕ → ℕ → Guest
poke g at value = record g { memory = λ a. if at == a then value else g.memory a }

unfoldable pub peek_bytes : Guest → ℕ → ℕ → Bytes
peek_bytes g at zero = []
peek_bytes g at (suc n) = g.memory at ∷ peek_bytes g (at + 1) n

-- `memcpy` into the guest.
unfoldable pub poke_bytes : Guest → ℕ → Bytes → Guest
unfolding poke
poke_bytes g at [] = g
poke_bytes g at (b ∷ bs) = poke_bytes (poke g at b) (at + 1) bs
