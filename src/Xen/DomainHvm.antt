-- ===== src/Xen/DomainHvm.antt =====
-- `DomainHVM` (src/Xen/DomainHVM.cpp): single stepping, and writing a register context.
use xendbg.Prelude.{ℕ, Bool, Option, none, some, ltb, if◌then◌else◌, ok, err}
use xendbg.Registers.{Context, RegistersAny, x86_32, x86_64}
use xendbg.Xen.Hypervisor.{Hypervisor, debug_control, set_context}
use xendbg.Xen.Domain.{
  Domain, DomainResult, call_failed, wrong_variant, context_not_set, perform, with_dominfo,
}
use xendbg.Xen.Conversion.{Fields, fields, convert_regs_to_hvm}

module _ (x : Hypervisor) where
  unfoldable pub set_singlestep : Bool → ℕ → Domain → DomainResult
  unfolding perform
  set_singlestep enable vcpu_id d = with_dominfo x d (
      if ltb (x.max_vcpu_id d.issued) vcpu_id
      then err (call_failed, d)
      else perform x (debug_control enable vcpu_id) d)

  -- `set_cpu_context_raw` throws std::runtime_error.
  abbrev pub runtime_error : DomainResult → DomainResult
  runtime_error (ok d) = ok d
  runtime_error (err (f, d)) = err (context_not_set, d)

  -- `set_cpu_context`, behind the reading of the old context.
  abbrev written_over : Context → ℕ → Domain → Option Fields → DomainResult
  written_over regs vcpu_id d none = err (call_failed, d)
  written_over regs vcpu_id d (some old) =
      runtime_error
        (perform x (set_context vcpu_id (convert_regs_to_hvm (fields x.field_width) regs old)) d)

  unfoldable pub set_cpu_context : RegistersAny → ℕ → Domain → DomainResult
  unfolding perform convert_regs_to_hvm
  set_cpu_context (x86_32 regs) vcpu_id d = err (wrong_variant, d)
  set_cpu_context (x86_64 regs) vcpu_id d =
      written_over regs vcpu_id d (x.raw_context d.issued vcpu_id)
