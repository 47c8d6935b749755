-- ===== src/Xen/Hypervisor.antt =====
-- The hypervisor calls of the debugger, and what they answer. Xen is not part of the repository: a
-- `Hypervisor` is a parameter, and says what is answered after which calls.
use xendbg.Prelude.{ℕ, Bool, Option, none, some, List, Bytes, ◌==◌, if◌then◌else◌}
use xendbg.Registers.{RegistersAny, x86_32, x86_64}
use xendbg.Xen.Conversion.{
  Fields, fields, convert_regs_from_hvm, convert_regs_from_pv64, convert_regs_from_pv32,
}

-- `xenmem_access_t`, as far as it is used.
pub data MemAccess : Type 0 where
  access_n access_wx access_rx access_rwx : MemAccess

pub data Call : Type 0 where
  domain_pause domain_unpause domain_shutdown domain_destroy : Call
  gdbsx_pausevcpu gdbsx_unpausevcpu : ℕ → Call
  setdebugging : Bool → Call
  debug_control : Bool → ℕ → Call
  set_context : ℕ → Fields → Call  -- the structure of Xen
  set_mem_access : MemAccess → ℕ → ℕ → Call

-- Calls that took effect, the last one in front.
abbrev pub History : Type 0
History = List Call

-- What the guest itself does between two calls shows in the answers only.
pub record Hypervisor : Type 0 where
  pub has_dominfo : History → Bool  -- whether the question for dominfo is answered
  pub paused : History → Bool  -- dominfo.paused
  pub max_vcpu_id : History → ℕ  -- dominfo.max_vcpu_id
  pub word_size : History → ℕ
  pub is_hvm : Bool  -- dominfo.hvm
  pub field_width : Bytes → ℕ  -- the sizes of the fields of a context
  pub raw_context : History → ℕ → Option Fields  -- `none`: the call failed
  pub accepts : Call → History → Bool

-- `get_cpu_context` of either class, behind the reading of the context; a PV domain has one for the
-- two word sizes only.
unfoldable pub converted : Hypervisor → History → Fields → Option RegistersAny
unfolding convert_regs_from_hvm convert_regs_from_pv64 convert_regs_from_pv32
converted x issued raw =
    let structure = fields x.field_width in
    if x.is_hvm
    then some (x86_64 (convert_regs_from_hvm structure raw))
    else if x.word_size issued == 8
    then some (x86_64 (convert_regs_from_pv64 structure raw))
    else if x.word_size issued == 4
    then some (x86_32 (convert_regs_from_pv32 structure raw))
    else none

unfoldable pub cpu_context : Hypervisor → History → ℕ → Option RegistersAny
unfolding converted
cpu_context x issued vcpu_id = elim (x.raw_context issued vcpu_id) [
  | none ↦ none
  | some raw ↦ converted x issued raw
]
