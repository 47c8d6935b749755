-- ===== src/Xen/Tests.antt =====
-- Runs of a domain at concrete inputs.
use xendbg.Prelude.{
  Bytes, ok, if◌then◌else◌, ℕ, ◌+◌, ◌*◌, ◌%◌, ◌^◌, ◌<◌, ◌≡◌, refl, true, false, some, List, [], ◌∷◌,
  arith,
}
use xendbg.Text.{codes, stoul}
use xendbg.Registers.{same_text}
use xendbg.Xen.Guests.{Answers, DomainAny, init_domain, get_domains, get_domains-IsRising}
use xendbg.Xen.Conversion.{Structure, convert_regs_from_hvm, convert_regs_to_hvm}
use xendbg.Xen.Conversion.WriteBack.{
  field_for, register_for, width_of, convert_regs_to_hvm-convert_regs_from_hvm,
}
use xendbg.Xen.Hypervisor.{domain_pause, domain_unpause, gdbsx_pausevcpu, gdbsx_unpausevcpu}
use xendbg.Xen.Domain.{Domain, make_domain}
use xendbg.Xen.Domain.Balance.{
  Operation, pause_domain, unpause_domain, pause_every, unpause_one, run_operations, IsBalanced,
  run_operations-IsBalanced,
}
use xendbg.Xen.Sample.{accepting}
use xendbg.Xen.PageTable.{get_pte_offset, l1, l2, l3, l4, get_pte_offset-bounds}

abbrev operations : List Operation
operations = pause_domain ∷ pause_every ∷ unpause_one 0 ∷ pause_every ∷ unpause_domain ∷ []

-- Virtual CPU 0 was paused, unpaused and paused again, virtual CPU 1 was paused once.
abbrev after : Domain
after = record {
  vcpu_pause_state = true ∷ true ∷ [];
  issued =
      domain_unpause
      ∷ gdbsx_pausevcpu 0
      ∷ gdbsx_unpausevcpu 0
      ∷ gdbsx_pausevcpu 1
      ∷ gdbsx_pausevcpu 0
      ∷ domain_pause
      ∷ [];
}

run_operations-IsBalanced_example : IsBalanced after
run_operations-IsBalanced_example =
    run_operations-IsBalanced accepting operations {d = after}
      (unfold run_operations make_domain in refl)

-- An address in the upper half of a user's space.
abbrev address : ℕ
address = 0x7FFF12345678

get_pte_offset-bounds_example :
    (get_pte_offset address l1 < 512)
    × (get_pte_offset address l2 < 512)
    × (get_pte_offset address l3 < 512)
    × (get_pte_offset address l4 < 512)
    × (get_pte_offset address l4 * 2 ^ 39
          + get_pte_offset address l3 * 2 ^ 30
          + get_pte_offset address l2 * 2 ^ 21
          + get_pte_offset address l1 * 2 ^ 12
          + address % 2 ^ 12
        ≡ address)
get_pte_offset-bounds_example = get_pte_offset-bounds address (omega arith)

-- Domains 5 and 9, both PV.
abbrev answers : Answers
answers = record {
  entries = codes "0" ∷ codes "5" ∷ codes "9" ∷ [];
  hvm = λ domid. some false;
  name = λ domid. codes "vm";
}

abbrev pv_guest : ℕ → DomainAny
pv_guest domid = record { domid = domid; is_hvm = false }

get_domains-IsRising_example : get_domains answers ≡ ok (pv_guest 9 ∷ [])
unfolding init_domain
get_domains-IsRising_example =
    get_domains-IsRising answers (codes "5" ∷ codes "9" ∷ []) (pv_guest 5) (pv_guest 9 ∷ []) refl
      (unfold stoul in (refl, omega arith, refl, (refl, omega arith, refl, tt))) (omega arith, tt)

-- A structure whose fields have 8 bytes, as a function.
abbrev fields : Structure (Bytes → ℕ)
fields = record {
  width = λ f. 8;
  read = λ f c. c f;
  write = λ g v c f. if same_text g f then v % 2 ^ 64 else c f;
  read-write = λ f g v c. refl;
}

-- The base of fs is cut to 16 bits.
convert_regs_to_hvm-convert_regs_from_hvm_example :
    fields.read (codes "fs_base") (
      convert_regs_to_hvm fields
        (convert_regs_from_hvm fields (λ f. 0x7F0012345678))
        (λ f. 0x7F0012345678))
    ≡ 0x5678
convert_regs_to_hvm-convert_regs_from_hvm_example =
    convert_regs_to_hvm-convert_regs_from_hvm fields (codes "fs") (codes "fs_base") 2
      (λ f. 0x7F0012345678) (unfold register_for same_text in refl)
      (unfold field_for same_text in refl) (unfold width_of same_text in refl)
