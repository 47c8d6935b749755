-- ===== src/Xen/Domain.antt =====
-- `Domain` (include/Xen/Domain.hpp, src/Xen/Domain.cpp): pausing a domain and its virtual CPUs, and
-- the register contexts, over the calls of the hypervisor.
pub mod Balance
pub mod Pausing
pub mod Order
use xendbg.Prelude.{
  ℕ, zero, suc, ◌+◌, Bool, true, false, not, Option, none, some, ltb, ◌==◌, if◌then◌else◌, List, [],
  ◌∷◌, get_elem?, set, replicate, Result, ok, err, ◌>>=◌,
}
use xendbg.Registers.{RegistersAny}
use xendbg.Xen.Hypervisor.{
  Call, domain_pause, domain_unpause, domain_shutdown, domain_destroy, gdbsx_pausevcpu,
  gdbsx_unpausevcpu, setdebugging, set_context, set_mem_access, MemAccess, History, Hypervisor,
}

pub record Domain : Type 0 where
  pub vcpu_pause_state : List Bool
  pub issued : History

-- A XenException, an access to `_vcpu_pause_state` out of range, std::bad_variant_access, or the
-- std::runtime_error of a context that cannot be set.
pub data DomainFault : Type 0 where
  call_failed out_of_range wrong_variant context_not_set : DomainFault

-- A call that fails leaves the state that it had reached.
abbrev pub DomainResult : Type 0
DomainResult = Result (DomainFault × Domain) Domain

module _ (x : Hypervisor) where
  -- A call of the hypervisor; it throws where the call is not accepted.
  unfoldable pub perform : Call → Domain → DomainResult
  perform call d =
      if x.accepts call d.issued
      then ok (record d { issued = call ∷ d.issued })
      else err (call_failed, d)

  -- What follows `get_dominfo`, which throws where the hypervisor does not answer.
  abbrev pub with_dominfo : Domain → DomainResult → DomainResult
  with_dominfo d r = if x.has_dominfo d.issued then r else err (call_failed, d)

  -- The constructor, where it returns.
  unfoldable pub make_domain : Domain
  make_domain = record { vcpu_pause_state = replicate (x.max_vcpu_id [] + 1) false; issued = [] }

  unfoldable pub set_debugging : Bool → ℕ → Domain → DomainResult
  unfolding perform
  set_debugging enable vcpu_id d = with_dominfo d (
      if ltb (x.max_vcpu_id d.issued) vcpu_id
      then err (call_failed, d)
      else perform (setdebugging enable) d)

  -- The flag says whether to pause. `_vcpu_pause_state` is changed before the call is made.
  unfoldable pub vcpu_call : Bool → ℕ → Call
  vcpu_call true vcpu_id = gdbsx_pausevcpu vcpu_id
  vcpu_call false vcpu_id = gdbsx_unpausevcpu vcpu_id

  unfoldable pub pause_unpause_at : Bool → ℕ → Domain → Option Bool → DomainResult
  unfolding perform vcpu_call
  pause_unpause_at pausing vcpu_id d none = err (out_of_range, d)
  pause_unpause_at true vcpu_id d (some true) = ok d
  pause_unpause_at true vcpu_id d (some false) =
      perform (vcpu_call true vcpu_id)
        (record d { vcpu_pause_state = set d.vcpu_pause_state vcpu_id true })
  pause_unpause_at false vcpu_id d (some true) =
      perform (vcpu_call false vcpu_id)
        (record d { vcpu_pause_state = set d.vcpu_pause_state vcpu_id false })
  pause_unpause_at false vcpu_id d (some false) = ok d

  unfoldable pub pause_unpause_vcpu : Bool → ℕ → Domain → DomainResult
  unfolding pause_unpause_at
  pause_unpause_vcpu pausing vcpu_id d =
      pause_unpause_at pausing vcpu_id d (get_elem? d.vcpu_pause_state vcpu_id)

  -- The loop over `count` ids from `id` on; `skipped` says which id is passed over.
  unfoldable pub pause_unpause_from : (ℕ → Bool) → Bool → ℕ → ℕ → Domain → DomainResult
  unfolding pause_unpause_vcpu
  pause_unpause_from skipped pausing id zero d = ok d
  pause_unpause_from skipped pausing id (suc count) d = do
    d' ← if skipped id then ok d else pause_unpause_vcpu pausing id d
    pause_unpause_from skipped pausing (id + 1) count d'

  unfoldable pub pause_unpause_vcpus_except : Bool → ℕ → Domain → DomainResult
  unfolding pause_unpause_from
  pause_unpause_vcpus_except pausing vcpu_id d =
      with_dominfo d
        (pause_unpause_from (λ id. id == vcpu_id) pausing 0 (x.max_vcpu_id d.issued + 1) d)

  unfoldable pub pause_unpause_all_vcpus : Bool → Domain → DomainResult
  unfolding pause_unpause_from
  pause_unpause_all_vcpus pausing d =
      with_dominfo d (pause_unpause_from (λ id. false) pausing 0 (x.max_vcpu_id d.issued + 1) d)

  unfoldable pub pause_vcpu : ℕ → Domain → DomainResult
  unfolding pause_unpause_vcpu
  pause_vcpu vcpu_id d = pause_unpause_vcpu true vcpu_id d

  unfoldable pub unpause_vcpu : ℕ → Domain → DomainResult
  unfolding pause_unpause_vcpu
  unpause_vcpu vcpu_id d = pause_unpause_vcpu false vcpu_id d

  unfoldable pub pause_all_vcpus : Domain → DomainResult
  unfolding pause_unpause_all_vcpus
  pause_all_vcpus d = pause_unpause_all_vcpus true d

  unfoldable pub unpause_all_vcpus : Domain → DomainResult
  unfolding pause_unpause_all_vcpus
  unpause_all_vcpus d = pause_unpause_all_vcpus false d

  unfoldable pub pause : Domain → DomainResult
  unfolding perform
  pause d = with_dominfo d (if x.paused d.issued then ok d else perform domain_pause d)

  unfoldable pub unpause : Domain → DomainResult
  unfolding perform
  unpause d = with_dominfo d (if x.paused d.issued then perform domain_unpause d else ok d)

  unfoldable pub shutdown : Domain → DomainResult
  unfolding perform
  shutdown d = perform domain_shutdown d

  unfoldable pub destroy : Domain → DomainResult
  unfolding perform shutdown
  destroy d = do d' ← shutdown d; perform domain_destroy d'

  unfoldable pub set_access : MemAccess → ℕ → ℕ → Domain → DomainResult
  unfolding perform
  set_access access address size d = perform (set_mem_access access address size) d
