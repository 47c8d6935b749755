-- ===== src/Xen/Conversion.antt =====
-- The conversions between the register contexts and the structures of Xen (src/Xen/DomainPV.cpp,
-- src/Xen/DomainHVM.cpp). The structures are declared by Xen: a `Structure` is a parameter, with the
-- laws of fields that do not overlap.
pub mod WriteBack
use xendbg.Prelude.{
  ℕ, zero, suc, ◌-◌, ◌*◌, ◌+◌, ◌%◌, ◌^◌, Bool, true, false, ◌≡◌, refl, ap, ◌∙◌, Option, none, some,
  List, [], ◌∷◌, ◌++◌, ◌==◌, if◌then◌else◌, Bytes, Bool-cases, ◌⊎◌, inl, inr, arith,
}
use Prim.Native.String.{String}
use xendbg.Text.{codes}
use xendbg.Registers.{
  RegistersAny, x86_32, x86_64, Context, cleared, get, set_register, same_text, assign,
}
use xendbg.Registers.Layouts.{registers_32, registers_64}

-- A C structure of unsigned fields, which are written and read by name.
pub record Structure (C : Type 0) : Type 0 where
  pub width : Bytes → ℕ
  pub read : Bytes → C → ℕ
  pub write : Bytes → ℕ → C → C
  pub read-write :
      (f g : Bytes) (v : ℕ) (c : C)
      → read f (write g v c) ≡ (if same_text g f then v % 2 ^ (8 * width g) else read f c)

-- A structure as the values of its fields, with the width of each.
abbrev pub Fields : Type 0
Fields = Bytes → ℕ

abbrev pub fields : (Bytes → ℕ) → Structure Fields
fields width = record {
  width = width;
  read = λ f c. c f;
  write = λ g v c f. if same_text g f then v % 2 ^ (8 * width g) else c f;
  read-write = λ f g v c. refl;
}

-- A register and the field that it is copied from and to.
abbrev pub Pairs : Type 0
Pairs = List (Bytes × Bytes)

-- GET_HVM and GET_PV_USER for a register whose field has its name.
abbrev same_name : List String → Pairs → Pairs
same_name [] pairs = pairs
same_name (name ∷ names) pairs = (codes name, codes name) ∷ same_name names pairs

-- GET_HVM2.
abbrev pair : String → String → Bytes × Bytes
pair name field = (codes name, codes field)

abbrev general_64 : List String
general_64 =
    "rax" ∷ "rbx" ∷ "rcx" ∷ "rdx" ∷ "rsp" ∷ "rbp" ∷ "rsi" ∷ "rdi" ∷ "r8" ∷ "r9" ∷ "r10" ∷ "r11"
    ∷ "r12" ∷ "r13" ∷ "r14" ∷ "r15" ∷ "rip" ∷ "rflags" ∷ []

abbrev pub hvm_pairs : Pairs
hvm_pairs = same_name general_64 (
    pair "fs" "fs_base"
    ∷ pair "gs" "gs_base"
    ∷ pair "cs" "cs_base"
    ∷ pair "ds" "ds_base"
    ∷ pair "ss" "ss_base"
    ∷ same_name ("cr0" ∷ "cr3" ∷ "cr4" ∷ "msr_efer" ∷ []) [])

abbrev control_pairs : Pairs
control_pairs = pair "cr0" "ctrlreg[0]" ∷ pair "cr3" "ctrlreg[3]" ∷ pair "cr4" "ctrlreg[4]" ∷ []

abbrev pub pv_pairs_64 : Pairs
pv_pairs_64 = same_name general_64 (same_name ("fs" ∷ "gs" ∷ "cs" ∷ "ds" ∷ "ss" ∷ []) control_pairs)

abbrev pub pv_pairs_32 : Pairs
pv_pairs_32 =
    same_name
      ("eax" ∷ "ebx" ∷ "ecx" ∷ "edx" ∷ "edi" ∷ "esi" ∷ "ebp" ∷ "esp" ∷ "ss" ∷ "eip" ∷ "eflags"
        ∷ "cs" ∷ "ds" ∷ "es" ∷ "fs" ∷ "gs" ∷ [])
      control_pairs

module _ {C : Type 0} (x : Structure C) where
  unfoldable pub convert_from : Pairs → C → Context → Context
  unfolding set_register
  convert_from [] c regs = regs
  convert_from ((name, field) ∷ pairs) c regs =
      convert_from pairs c (set_register name (x.read field c) regs)

  unfoldable pub convert_to : Pairs → Context → C → C
  unfolding get
  convert_to [] regs c = c
  convert_to ((name, field) ∷ pairs) regs c =
      convert_to pairs regs (x.write field (get name regs) c)

  unfoldable pub convert_regs_from_hvm : C → Context
  unfolding convert_from cleared
  convert_regs_from_hvm c = convert_from hvm_pairs c (cleared registers_64)

  unfoldable pub convert_regs_to_hvm : Context → C → C
  unfolding convert_to
  convert_regs_to_hvm regs c = convert_to hvm_pairs regs c

  -- `msr_efer` is set to 0.
  unfoldable pub convert_regs_from_pv64 : C → Context
  unfolding convert_from cleared set_register
  convert_regs_from_pv64 c =
      set_register (codes "msr_efer") 0 (convert_from pv_pairs_64 c (cleared registers_64))

  unfoldable pub convert_regs_to_pv64 : Context → C → C
  unfolding convert_to
  convert_regs_to_pv64 regs c = convert_to pv_pairs_64 regs c

  unfoldable pub convert_regs_from_pv32 : C → Context
  unfolding convert_from cleared set_register
  convert_regs_from_pv32 c =
      set_register (codes "msr_efer") 0 (convert_from pv_pairs_32 c (cleared registers_32))

  unfoldable pub convert_regs_to_pv32 : Context → C → C
  unfolding convert_to
  convert_regs_to_pv32 regs c = convert_to pv_pairs_32 regs c
