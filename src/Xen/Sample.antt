-- ===== src/Xen/Sample.antt =====
-- A hypervisor for the runs at concrete inputs: it accepts every call, and the guest does nothing.
use xendbg.Prelude.{ℕ, Bool, true, false, Option, some, ◌==◌, if◌then◌else◌, ◌≡◌, refl, [], ◌∷◌}
use xendbg.Text.{codes}
use xendbg.Registers.{Context, same_text, cleared, set_register}
use xendbg.Registers.Layouts.{registers_64}
use xendbg.Xen.Hypervisor.{
  Call, domain_pause, domain_unpause, domain_shutdown, domain_destroy, gdbsx_pausevcpu,
  gdbsx_unpausevcpu, setdebugging, debug_control, set_context, set_mem_access, History, Hypervisor,
}
use xendbg.Xen.Conversion.{Fields}
use xendbg.Xen.Domain.Order.{IsLawful, is_domain_call}

-- Stopped at 100.
abbrev pub at_100 : Context
at_100 = set_register (codes "rip") 100 (cleared registers_64)

abbrev pub raw_at_100 : Fields
raw_at_100 field = if same_text field (codes "rip") then 100 else 0

abbrev is_paused : History → Bool
is_paused [] = false
is_paused (domain_pause ∷ h) = true
is_paused (domain_unpause ∷ h) = false
is_paused (_ ∷ h) = is_paused h

abbrev context_in : History → ℕ → Option Fields
context_in [] v = some raw_at_100
context_in (set_context u raw ∷ h) v = if u == v then some raw else context_in h v
context_in (_ ∷ h) v = context_in h v

-- Two virtual CPUs; the fields of a context have eight bytes.
abbrev pub accepting : Hypervisor
accepting = record {
  has_dominfo = λ h. true;
  paused = is_paused;
  max_vcpu_id = λ h. 1;
  word_size = λ h. 8;
  is_hvm = true;
  field_width = λ field. 8;
  raw_context = context_in;
  accepts = λ c h. true;
}

abbrev pub accepting_pv : Hypervisor
accepting_pv = record accepting { is_hvm = false }

pub accepting-IsLawful : IsLawful accepting
accepting-IsLawful = record { pauses = λ h. refl; stays = stays }
  where
    stays :
        (c : Call) (h : History)
        → is_domain_call c ≡ false
        → is_paused h ≡ true
        → is_paused (c ∷ h) ≡ true
    stays domain_pause h n p = refl
    stays domain_unpause h n p = cc
    stays domain_shutdown h n p = p
    stays domain_destroy h n p = p
    stays (gdbsx_pausevcpu v) h n p = p
    stays (gdbsx_unpausevcpu v) h n p = p
    stays (setdebugging enable) h n p = p
    stays (debug_control enable v) h n p = p
    stays (set_context v regs) h n p = p
    stays (set_mem_access _ a size) h n p = p
