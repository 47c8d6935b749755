-- ===== src/Xen/Domain/Balance.antt =====
-- The pauses and unpauses of each virtual CPU that reach the hypervisor alternate, so that the
-- count it keeps for the CPU is 0 or 1.
use mathlib.Core.Path.{subst}
use xendbg.Prelude.{
  ℕ, zero, suc, ◌+◌, ◌≡◌, refl, sym, ap, ◌∙◌, Bool, true, false, not, Option, some, ltb, ◌==◌,
  ==_iff, if◌then◌else◌, Bool-cases, Option-cases, inl, inr, List, [], ◌∷◌, get_elem?, set,
  replicate, ok, err, ◌>>=◌, arith,
}
use xendbg.Xen.Hypervisor.{
  Call, domain_pause, domain_unpause, domain_shutdown, domain_destroy, gdbsx_pausevcpu,
  gdbsx_unpausevcpu, setdebugging, set_mem_access, MemAccess, History, Hypervisor,
}
use xendbg.Xen.Domain.{
  Domain, DomainResult, call_failed, perform, with_dominfo, make_domain, set_debugging, vcpu_call,
  pause_unpause_at, pause_unpause_vcpu, pause_unpause_from, pause_unpause_vcpus_except,
  pause_unpause_all_vcpus, pause, unpause, shutdown, destroy, set_access,
}

-- What a call leaves if it returns.
abbrev pub Keeps : (Domain → Type 0) → DomainResult → Type 0
Keeps P (ok d) = P d
Keeps P (err e) = Unit

pub >>=-Keeps :
    (P Q : Domain → Type 0) (m : DomainResult) (f : Domain → DomainResult)
    → Keeps P m
    → ((d : Domain) → P d → Keeps Q (f d))
    → Keeps Q (m >>= f)
>>=-Keeps P Q (ok d) f h next = next d h
>>=-Keeps P Q (err e) f h next = tt

-- The pauses of a virtual CPU, and its unpauses.
abbrev pub pauses : ℕ → History → ℕ
pauses id [] = 0
pauses id (gdbsx_pausevcpu v ∷ h) = (if v == id then 1 else 0) + pauses id h
pauses id (_ ∷ h) = pauses id h

abbrev pub unpauses : ℕ → History → ℕ
unpauses id [] = 0
unpauses id (gdbsx_unpausevcpu v ∷ h) = (if v == id then 1 else 0) + unpauses id h
unpauses id (_ ∷ h) = unpauses id h

abbrev pub flag : Option Bool → ℕ
flag (some true) = 1
flag _ = 0

abbrev pub IsBalanced : Domain → Type 0
IsBalanced d =
    (id : ℕ) → pauses id d.issued ≡ unpauses id d.issued + flag (get_elem? d.vcpu_pause_state id)

flag-set :
    (states : List Bool) (v id : ℕ) (b : Bool) {old : Bool}
    → get_elem? states v ≡ some old
    → flag (get_elem? (set states v b) id)
      ≡ (if v == id then (if b then 1 else 0) else flag (get_elem? states id))
flag-set [] v id b h = cc
flag-set (s ∷ states) zero zero true h = refl
flag-set (s ∷ states) zero zero false h = refl
flag-set (s ∷ states) zero (suc id) b h = ground arith
flag-set (s ∷ states) (suc v) zero b h = ground arith
flag-set (s ∷ states) (suc v) (suc id) b h = ground (arith, flag-set states v id b h)

-- No call but those on a virtual CPU counts.
abbrev uncounted : Call → Bool
uncounted (gdbsx_pausevcpu v) = false
uncounted (gdbsx_unpausevcpu v) = false
uncounted _ = true

perform-uncounted :
    (x : Hypervisor) (c : Call) (d : Domain)
    → ((id : ℕ)
        → (pauses id (c ∷ d.issued) ≡ pauses id d.issued)
          × (unpauses id (c ∷ d.issued) ≡ unpauses id d.issued))
    → IsBalanced d
    → Keeps IsBalanced (perform x c d)
unfolding perform
perform-uncounted x c d u h = elim (Bool-cases (x.accepts c d.issued)) [
  | inl e ↦
      rw e (λ id.
        (u id).0 ∙ h id ∙ ap (λ n. n + flag (get_elem? d.vcpu_pause_state id)) (sym (u id).1))
  | inr e ↦ rw e tt
]

flag_at :
    (states : List Bool) (v id : ℕ) {b : Bool}
    → get_elem? states v ≡ some b
    → (v == id) ≡ true
    → flag (get_elem? states id) ≡ flag (some b)
flag_at states v id was e =
    ap (λ i. flag (get_elem? states i)) (sym ((==_iff v id).0 e)) ∙ ap flag was

-- The call that changes the state of a CPU which was not, or was, paused.
switched :
    (x : Hypervisor) (pausing : Bool) (v : ℕ) (d : Domain)
    → get_elem? d.vcpu_pause_state v ≡ some (not pausing)
    → IsBalanced d
    → (id : ℕ)
    → pauses id (vcpu_call x pausing v ∷ d.issued)
      ≡ unpauses id (vcpu_call x pausing v ∷ d.issued)
        + flag (get_elem? (set d.vcpu_pause_state v pausing) id)
unfolding vcpu_call
switched x true v d was h id =
    rw (flag-set d.vcpu_pause_state v id true was) (elim (Bool-cases (v == id)) [
      | inl e ↦ rw e (omega (arith, h id, flag_at d.vcpu_pause_state v id was e))
      | inr e ↦ rw e (omega (arith, h id))
    ])
switched x false v d was h id =
    rw (flag-set d.vcpu_pause_state v id false was) (elim (Bool-cases (v == id)) [
      | inl e ↦ rw e (omega (arith, h id, flag_at d.vcpu_pause_state v id was e))
      | inr e ↦ rw e (omega (arith, h id))
    ])

switch-IsBalanced :
    (x : Hypervisor) (pausing : Bool) (v : ℕ) (d : Domain)
    → get_elem? d.vcpu_pause_state v ≡ some (not pausing)
    → IsBalanced d
    → Keeps IsBalanced (
        perform x
          (vcpu_call x pausing v)
          (record d { vcpu_pause_state = set d.vcpu_pause_state v pausing }))
unfolding perform
switch-IsBalanced x pausing v d was h =
    elim (Bool-cases (x.accepts (vcpu_call x pausing v) d.issued)) [
      | inl e ↦ rw e (switched x pausing v d was h)
      | inr e ↦ rw e tt
    ]

pub pause_unpause_vcpu-IsBalanced :
    (x : Hypervisor) (pausing : Bool) (v : ℕ) (d : Domain)
    → IsBalanced d
    → Keeps IsBalanced (pause_unpause_vcpu x pausing v d)
unfolding pause_unpause_vcpu pause_unpause_at
pause_unpause_vcpu-IsBalanced x true v d h = elim (Option-cases (get_elem? d.vcpu_pause_state v)) [
  | inl e ↦ rw e tt
  | inr (true, e) ↦ rw e h
  | inr (false, e) ↦ rw e (switch-IsBalanced x true v d e h)
]
pause_unpause_vcpu-IsBalanced x false v d h = elim (Option-cases (get_elem? d.vcpu_pause_state v)) [
  | inl e ↦ rw e tt
  | inr (true, e) ↦ rw e (switch-IsBalanced x false v d e h)
  | inr (false, e) ↦ rw e h
]

pause_unpause_from-IsBalanced :
    (x : Hypervisor) (skipped : ℕ → Bool) (pausing : Bool) (id count : ℕ) (d : Domain)
    → IsBalanced d
    → Keeps IsBalanced (pause_unpause_from x skipped pausing id count d)
unfolding pause_unpause_from
pause_unpause_from-IsBalanced x skipped pausing id zero d h = h
pause_unpause_from-IsBalanced x skipped pausing id (suc count) d h =
    >>=-Keeps IsBalanced IsBalanced (if skipped id then ok d else pause_unpause_vcpu x pausing id d)
      (pause_unpause_from x skipped pausing (id + 1) count) (one (skipped id))
      (λ d' h'. pause_unpause_from-IsBalanced x skipped pausing (id + 1) count d' h')
  where
    one : (b : Bool) → Keeps IsBalanced (if b then ok d else pause_unpause_vcpu x pausing id d)
    one true = h
    one false = pause_unpause_vcpu-IsBalanced x pausing id d h

-- The operations of a domain.
pub data Operation : Type 0 where
  pause_one unpause_one pause_others unpause_others : ℕ → Operation
  pause_every unpause_every pause_domain unpause_domain shut_down destroy_domain : Operation
  debugging : Bool → ℕ → Operation
  mem_access : MemAccess → ℕ → ℕ → Operation

unfoldable pub run_operation : Hypervisor → Operation → Domain → DomainResult
unfolding pause_unpause_vcpu pause_unpause_vcpus_except pause_unpause_all_vcpus pause unpause
    shutdown destroy set_debugging set_access
run_operation x (pause_one v) d = pause_unpause_vcpu x true v d
run_operation x (unpause_one v) d = pause_unpause_vcpu x false v d
run_operation x (pause_others v) d = pause_unpause_vcpus_except x true v d
run_operation x (unpause_others v) d = pause_unpause_vcpus_except x false v d
run_operation x pause_every d = pause_unpause_all_vcpus x true d
run_operation x unpause_every d = pause_unpause_all_vcpus x false d
run_operation x pause_domain d = pause x d
run_operation x unpause_domain d = unpause x d
run_operation x shut_down d = shutdown x d
run_operation x destroy_domain d = destroy x d
run_operation x (debugging enable v) d = set_debugging x enable v d
run_operation x (mem_access access address size) d = set_access x access address size d

unfoldable pub run_operations : Hypervisor → List Operation → Domain → DomainResult
unfolding run_operation
run_operations x [] d = ok d
run_operations x (o ∷ os) d = do d' ← run_operation x o d; run_operations x os d'

pub with_dominfo-Keeps :
    (x : Hypervisor) (P : Domain → Type 0) (d : Domain) (r : DomainResult)
    → Keeps P r
    → Keeps P (with_dominfo x d r)
with_dominfo-Keeps x P d r h = elim (Bool-cases (x.has_dominfo d.issued)) [
  | inl e ↦ rw e h
  | inr e ↦ rw e tt
]

run_operation-IsBalanced :
    (x : Hypervisor) (o : Operation) (d : Domain)
    → IsBalanced d
    → Keeps IsBalanced (run_operation x o d)
unfolding run_operation pause_unpause_vcpus_except pause_unpause_all_vcpus pause unpause shutdown
    destroy set_debugging set_access
run_operation-IsBalanced x (pause_one v) d h = pause_unpause_vcpu-IsBalanced x true v d h
run_operation-IsBalanced x (unpause_one v) d h = pause_unpause_vcpu-IsBalanced x false v d h
run_operation-IsBalanced x (pause_others v) d h =
    let n = x.max_vcpu_id d.issued + 1 in
    with_dominfo-Keeps x IsBalanced d (pause_unpause_from x (λ id. id == v) true 0 n d)
      (pause_unpause_from-IsBalanced x (λ id. id == v) true 0 n d h)
run_operation-IsBalanced x (unpause_others v) d h =
    let n = x.max_vcpu_id d.issued + 1 in
    with_dominfo-Keeps x IsBalanced d (pause_unpause_from x (λ id. id == v) false 0 n d)
      (pause_unpause_from-IsBalanced x (λ id. id == v) false 0 n d h)
run_operation-IsBalanced x pause_every d h =
    let n = x.max_vcpu_id d.issued + 1 in
    with_dominfo-Keeps x IsBalanced d (pause_unpause_from x (λ id. false) true 0 n d)
      (pause_unpause_from-IsBalanced x (λ id. false) true 0 n d h)
run_operation-IsBalanced x unpause_every d h =
    let n = x.max_vcpu_id d.issued + 1 in
    with_dominfo-Keeps x IsBalanced d (pause_unpause_from x (λ id. false) false 0 n d)
      (pause_unpause_from-IsBalanced x (λ id. false) false 0 n d h)
run_operation-IsBalanced x pause_domain d h =
    with_dominfo-Keeps x IsBalanced d (if x.paused d.issued then ok d else perform x domain_pause d)
      (elim (Bool-cases (x.paused d.issued)) [
        | inl e ↦ rw e h
        | inr e ↦ rw e (perform-uncounted x domain_pause d (λ id. (refl, refl)) h)
      ])
run_operation-IsBalanced x unpause_domain d h =
    with_dominfo-Keeps x IsBalanced d
      (if x.paused d.issued then perform x domain_unpause d else ok d)
      (elim (Bool-cases (x.paused d.issued)) [
        | inl e ↦ rw e (perform-uncounted x domain_unpause d (λ id. (refl, refl)) h)
        | inr e ↦ rw e h
      ])
run_operation-IsBalanced x shut_down d h =
    perform-uncounted x domain_shutdown d (λ id. (refl, refl)) h
run_operation-IsBalanced x destroy_domain d h =
    >>=-Keeps IsBalanced IsBalanced (perform x domain_shutdown d) (perform x domain_destroy)
      (perform-uncounted x domain_shutdown d (λ id. (refl, refl)) h)
      (λ d' h'. perform-uncounted x domain_destroy d' (λ id. (refl, refl)) h')
run_operation-IsBalanced x (debugging enable v) d h =
    with_dominfo-Keeps x IsBalanced d
      (if ltb (x.max_vcpu_id d.issued) v
        then err (call_failed, d)
        else perform x (setdebugging enable) d)
      (elim (Bool-cases (ltb (x.max_vcpu_id d.issued) v)) [
        | inl e ↦ rw e tt
        | inr e ↦ rw e (perform-uncounted x (setdebugging enable) d (λ id. (refl, refl)) h)
      ])
run_operation-IsBalanced x (mem_access access address size) d h =
    perform-uncounted x (set_mem_access access address size) d (λ id. (refl, refl)) h

run_operations_keep :
    (x : Hypervisor) (os : List Operation) (d : Domain)
    → IsBalanced d
    → Keeps IsBalanced (run_operations x os d)
unfolding run_operations
run_operations_keep x [] d h = h
run_operations_keep x (o ∷ os) d h =
    >>=-Keeps IsBalanced IsBalanced (run_operation x o d) (run_operations x os)
      (run_operation-IsBalanced x o d h) (λ d' h'. run_operations_keep x os d' h')

flag-replicate : (n id : ℕ) → flag (get_elem? (replicate n false) id) ≡ 0
flag-replicate zero id = refl
flag-replicate (suc n) zero = refl
flag-replicate (suc n) (suc id) = flag-replicate n id

-- After any operations on a new domain that all returned normally, each virtual CPU was paused by
-- the hypervisor exactly as often as it was unpaused, and once more if its state says that it is
-- paused: the count that the hypervisor keeps for it is 0 or 1.
pub run_operations-IsBalanced :
    (x : Hypervisor) (os : List Operation) {d : Domain}
    → run_operations x os (make_domain x) ≡ ok d
    → IsBalanced d
unfolding make_domain
run_operations-IsBalanced x os e =
    subst (Keeps IsBalanced) e (run_operations_keep x os (make_domain x) start)
  where
    start : IsBalanced (make_domain x)
    start id = omega (arith, flag-replicate (x.max_vcpu_id [] + 1) id)
