-- ===== src/Xen/DomainPv.antt =====
-- `DomainPV` (src/Xen/DomainPV.cpp): writing a register context, and single stepping by the trap
-- flag in it.
use xendbg.Prelude.{
  ℕ, ◌+◌, ◌-◌, ◌/◌, ◌%◌, Bool, true, false, Option, none, some, ◌==◌, if◌then◌else◌, err,
}
use xendbg.Text.{codes}
use xendbg.Registers.{RegistersAny, x86_32, x86_64, get, set_register}
use xendbg.Xen.Hypervisor.{cpu_context, Hypervisor, set_context}
use xendbg.Xen.Conversion.{Fields, fields, convert_regs_to_pv64, convert_regs_to_pv32}
use xendbg.Xen.Domain.{Domain, DomainResult, call_failed, perform}

-- X86_EFLAGS_TF, bit 8.
abbrev pub trap_flag : ℕ
trap_flag = 256

-- `flags |= X86_EFLAGS_TF` and `flags &= ~X86_EFLAGS_TF`.
unfoldable pub with_trap_flag : Bool → ℕ → ℕ
with_trap_flag true flags = if flags / trap_flag % 2 == 1 then flags else flags + trap_flag
with_trap_flag false flags = if flags / trap_flag % 2 == 1 then flags - trap_flag else flags

unfoldable pub step_flags : Bool → RegistersAny → RegistersAny
unfolding with_trap_flag get set_register
step_flags enable (x86_64 regs) =
    x86_64 (set_register (codes "rflags") (with_trap_flag enable (get (codes "rflags") regs)) regs)
step_flags enable (x86_32 regs) =
    x86_32 (set_register (codes "eflags") (with_trap_flag enable (get (codes "eflags") regs)) regs)

module _ (x : Hypervisor) where
  -- `set_cpu_context`, behind the reading of the old context.
  abbrev written_over : RegistersAny → ℕ → Domain → Option Fields → DomainResult
  written_over regs vcpu_id d none = err (call_failed, d)
  written_over (x86_64 regs) vcpu_id d (some old) =
      if x.word_size d.issued == 8
      then perform x (set_context vcpu_id (convert_regs_to_pv64 (fields x.field_width) regs old)) d
      else err (call_failed, d)
  written_over (x86_32 regs) vcpu_id d (some old) =
      if x.word_size d.issued == 4
      then perform x (set_context vcpu_id (convert_regs_to_pv32 (fields x.field_width) regs old)) d
      else err (call_failed, d)

  unfoldable pub set_cpu_context : RegistersAny → ℕ → Domain → DomainResult
  unfolding perform convert_regs_to_pv64 convert_regs_to_pv32
  set_cpu_context regs vcpu_id d = written_over regs vcpu_id d (x.raw_context d.issued vcpu_id)

  -- A context that is read, changed and written back.
  unfoldable pub change_cpu_context : (RegistersAny → RegistersAny) → ℕ → Domain → DomainResult
  unfolding set_cpu_context
  change_cpu_context change vcpu_id d = elim (cpu_context x d.issued vcpu_id) [
    | none ↦ err (call_failed, d)
    | some regs ↦ set_cpu_context (change regs) vcpu_id d
  ]

  unfoldable pub set_singlestep : Bool → ℕ → Domain → DomainResult
  unfolding change_cpu_context step_flags
  set_singlestep enable vcpu_id d = change_cpu_context (step_flags enable) vcpu_id d
