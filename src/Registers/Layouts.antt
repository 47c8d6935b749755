-- ===== src/Registers/Layouts.antt =====
-- include/Registers/RegistersX86_64.hpp, RegistersX86_32.hpp and RegistersX86.hpp.
use xendbg.Prelude.{ℕ, ◌-◌, ◌^◌, List, [], ◌∷◌}
use xendbg.Text.{codes}
use xendbg.Registers.{RegisterType}
use Prim.Native.String.{String}

-- The GCC id -1, as a size_t.
abbrev pub no_gcc_id : ℕ
no_gcc_id = 2 ^ 64 - 1

-- DECLARE_REGISTER.
abbrev pub declare_register : String → ℕ → ℕ → RegisterType
declare_register name width gcc_id = record { name = codes name; width = width; gcc_id = gcc_id }

abbrev control_registers : List RegisterType
control_registers =
    declare_register "cr0" 8 no_gcc_id
    ∷ declare_register "cr3" 8 no_gcc_id
    ∷ declare_register "cr4" 8 no_gcc_id
    ∷ declare_register "msr_efer" 8 no_gcc_id
    ∷ []

abbrev pub registers_64 : List RegisterType
registers_64 =
    declare_register "rax" 8 0
    ∷ declare_register "rbx" 8 3
    ∷ declare_register "rcx" 8 2
    ∷ declare_register "rdx" 8 1
    ∷ declare_register "rsp" 8 7
    ∷ declare_register "rbp" 8 6
    ∷ declare_register "rsi" 8 4
    ∷ declare_register "rdi" 8 5
    ∷ declare_register "r8" 8 8
    ∷ declare_register "r9" 8 9
    ∷ declare_register "r10" 8 10
    ∷ declare_register "r11" 8 11
    ∷ declare_register "r12" 8 12
    ∷ declare_register "r13" 8 13
    ∷ declare_register "r14" 8 14
    ∷ declare_register "r15" 8 15
    ∷ declare_register "rip" 8 16
    ∷ declare_register "rflags" 8 17
    ∷ declare_register "cs" 2 no_gcc_id
    ∷ declare_register "fs" 2 no_gcc_id
    ∷ declare_register "gs" 2 no_gcc_id
    ∷ declare_register "ds" 2 no_gcc_id
    ∷ declare_register "ss" 2 no_gcc_id
    ∷ control_registers

abbrev pub registers_32 : List RegisterType
registers_32 =
    declare_register "eax" 4 0
    ∷ declare_register "ebx" 4 2
    ∷ declare_register "ecx" 4 2
    ∷ declare_register "edx" 4 1
    ∷ declare_register "esp" 4 7
    ∷ declare_register "ss" 4 no_gcc_id
    ∷ declare_register "ebp" 4 6
    ∷ declare_register "esi" 4 4
    ∷ declare_register "edi" 4 5
    ∷ declare_register "eip" 4 8
    ∷ declare_register "eflags" 2 9
    ∷ declare_register "cs" 2 no_gcc_id
    ∷ declare_register "ds" 2 no_gcc_id
    ∷ declare_register "es" 2 no_gcc_id
    ∷ declare_register "fs" 2 no_gcc_id
    ∷ declare_register "gs" 2 no_gcc_id
    ∷ control_registers
