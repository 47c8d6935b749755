-- ===== src/Registers/Tests.antt =====
-- Lookups in the registers of a 64-bit guest.
use xendbg.Prelude.{◌≡◌, refl, true}
use xendbg.Text.{codes}
use xendbg.Registers.{
  Context, Metadata, cleared, types_of, find_by_id, find_metadata_by_id, assign_by_id, set_register,
}
use xendbg.Registers.Layouts.{registers_64}
use xendbg.Registers.Lookup.{
  metadata_only, reassigned, find_by_id-find_metadata_by_id, find_by_id-assign_by_id,
}

abbrev regs : Context
regs = set_register (codes "rip") 100 (cleared registers_64)

find_by_id-find_metadata_by_id_example :
    metadata_only (find_by_id 16 regs) ≡ find_metadata_by_id 16 (types_of regs)
find_by_id-find_metadata_by_id_example = find_by_id-find_metadata_by_id regs 16

-- `rip`.
abbrev rip : Metadata
rip = record { id = 16; width = 8; offset = 128; name = codes "rip"; gcc_id = 16 }

abbrev moved : Context
moved = set_register (codes "rip") 200 (cleared registers_64)

find_by_id-assign_by_id_example : find_by_id 16 moved ≡ reassigned true 200 (find_by_id 16 regs)
find_by_id-assign_by_id_example =
    find_by_id-assign_by_id regs moved 200 16 16 (unfold assign_by_id cleared set_register in refl)
