-- ===== src/Xen/Domain/Pausing.antt =====
-- What pausing and unpausing all virtual CPUs comes to.
use mathlib.Core.Path.{subst}
use xendbg.Prelude.{
  ℕ, zero, suc, ◌+◌, ◌≤◌, ◌<◌, ◌≡◌, ◌≢◌, refl, ◌∙◌, ap, Bool, true, false, some, ◌==◌, ==_iff,
  Bool-cases, Option-cases, inl, inr, List, [], ◌∷◌, get_elem?, set, ok, err, arith,
}
use xendbg.Xen.Hypervisor.{Call, Hypervisor}
use xendbg.Xen.Domain.{
  Domain, DomainResult, perform, vcpu_call, pause_unpause_at, pause_unpause_vcpu,
  pause_unpause_from, pause_unpause_all_vcpus,
}
use xendbg.Xen.Domain.Balance.{Keeps, >>=-Keeps, with_dominfo-Keeps}

get_elem?-set :
    (s : List Bool) (v : ℕ) (b : Bool) {old : Bool}
    → get_elem? s v ≡ some old
    → get_elem? (set s v b) v ≡ some b
get_elem?-set [] v b h = cc
get_elem?-set (c ∷ s) zero b h = refl
get_elem?-set (c ∷ s) (suc v) b h = get_elem?-set s v b h

get_elem?-set_other :
    (s : List Bool) (v i : ℕ) (b : Bool) → i ≢ v → get_elem? (set s v b) i ≡ get_elem? s i
get_elem?-set_other [] v i b h = refl
get_elem?-set_other (c ∷ s) zero zero b h = absurd (h refl)
get_elem?-set_other (c ∷ s) zero (suc i) b h = refl
get_elem?-set_other (c ∷ s) (suc v) zero b h = refl
get_elem?-set_other (c ∷ s) (suc v) (suc i) b h = get_elem?-set_other s v i b (λ e. h (ap suc e))

-- The state of `v` is `b`, and that of the others is as in `d`.
abbrev Switched : Domain → ℕ → Bool → Domain → Type 0
Switched d v b d' =
    (get_elem? d'.vcpu_pause_state v ≡ some b)
    × ((i : ℕ) → i ≢ v → get_elem? d'.vcpu_pause_state i ≡ get_elem? d.vcpu_pause_state i)

perform-Switched :
    (x : Hypervisor) (c : Call) (d : Domain) (v : ℕ) (b : Bool) {old : Bool}
    → get_elem? d.vcpu_pause_state v ≡ some old
    → Keeps
        (Switched d v b)
        (perform x c (record d { vcpu_pause_state = set d.vcpu_pause_state v b }))
unfolding perform
perform-Switched x c d v b h = elim (Bool-cases (x.accepts c d.issued)) [
  | inl e ↦ rw e (
    get_elem?-set d.vcpu_pause_state v b h,
    λ i n. get_elem?-set_other d.vcpu_pause_state v i b n,
  )
  | inr e ↦ rw e tt
]

pause_unpause_vcpu-Switched :
    (x : Hypervisor) (b : Bool) (v : ℕ) (d : Domain)
    → Keeps (Switched d v b) (pause_unpause_vcpu x b v d)
unfolding pause_unpause_vcpu pause_unpause_at
pause_unpause_vcpu-Switched x true v d = elim (Option-cases (get_elem? d.vcpu_pause_state v)) [
  | inl e ↦ rw e tt
  | inr (true, e) ↦ rw e (e, λ i n. refl)
  | inr (false, e) ↦ rw e (perform-Switched x (vcpu_call x true v) d v true e)
]
pause_unpause_vcpu-Switched x false v d = elim (Option-cases (get_elem? d.vcpu_pause_state v)) [
  | inl e ↦ rw e tt
  | inr (true, e) ↦ rw e (perform-Switched x (vcpu_call x false v) d v false e)
  | inr (false, e) ↦ rw e (e, λ i n. refl)
]

-- The ids from `id` on, `count` of them, have the state `b`; those below `id` are as in `d`.
abbrev Swept : Domain → ℕ → ℕ → Bool → Domain → Type 0
Swept d id count b d' =
    ((i : ℕ) → id ≤ i → i < id + count → get_elem? d'.vcpu_pause_state i ≡ some b)
    × ((i : ℕ) → i < id → get_elem? d'.vcpu_pause_state i ≡ get_elem? d.vcpu_pause_state i)

weaken-Keeps :
    (P Q : Domain → Type 0) (r : DomainResult) → ((d : Domain) → P d → Q d) → Keeps P r → Keeps Q r
weaken-Keeps P Q (ok d) f h = f d h
weaken-Keeps P Q (err e) f h = tt

above : (i id : ℕ) → id ≤ i → (i == id) ≡ false → id + 1 ≤ i
above i id h e = ground arith

pause_unpause_from-Swept :
    (x : Hypervisor) (b : Bool) (id count : ℕ) (d : Domain)
    → Keeps (Swept d id count b) (pause_unpause_from x (λ i. false) b id count d)
unfolding pause_unpause_from
pause_unpause_from-Swept x b id zero d =
    (λ i low high. absurd (omega (arith, low, high)), λ i low. refl)
pause_unpause_from-Swept x b id (suc count) d =
    >>=-Keeps (Switched d id b) (Swept d id (suc count) b) (pause_unpause_vcpu x b id d)
      (pause_unpause_from x (λ i. false) b (id + 1) count) (pause_unpause_vcpu-Switched x b id d)
      (λ d' (now, others).
        weaken-Keeps (Swept d' (id + 1) count b) (Swept d id (suc count) b)
          (pause_unpause_from x (λ i. false) b (id + 1) count d')
          (λ d'' (after, before). (
            (λ i low high. elim (Bool-cases (i == id)) [
              | inl e ↦
                  before i (omega (arith, (==_iff i id).0 e))
                  ∙ ap (get_elem? d'.vcpu_pause_state) ((==_iff i id).0 e)
                  ∙ now
              | inr e ↦ after i (above i id low e) (omega (arith, high))
            ]),
            (λ i low.
                before i (omega (arith, low)) ∙ others i (λ e. absurd (omega (arith, low, e)))),
          ))
          (pause_unpause_from-Swept x b (id + 1) count d'))

-- Where pausing, or unpausing, all virtual CPUs returns normally, the state of every CPU up to the
-- last one says that it is paused, or that it is not.
pub pause_unpause_all_vcpus-get_elem? :
    (x : Hypervisor) (pausing : Bool) (d : Domain) (id : ℕ) {d' : Domain}
    → pause_unpause_all_vcpus x pausing d ≡ ok d'
    → id ≤ x.max_vcpu_id d.issued
    → get_elem? d'.vcpu_pause_state id ≡ some pausing
unfolding pause_unpause_all_vcpus
pause_unpause_all_vcpus-get_elem? x pausing d id e low =
    let n = x.max_vcpu_id d.issued + 1 in
    let swept = subst (Keeps (Swept d 0 n pausing)) e (
      with_dominfo-Keeps x (Swept d 0 n pausing) d (pause_unpause_from x (λ i. false) pausing 0 n d)
        (pause_unpause_from-Swept x pausing 0 n d)) in
    swept.0 id (omega arith) (omega (arith, low))
