-- ===== src/Xen/Domain/Order.antt =====
-- Virtual CPUs are paused and unpaused only while the domain is paused: the calls of a domain.
use xendbg.Prelude.{
  ℕ, zero, suc, ◌+◌, ◌≡◌, refl, Bool, true, false, Bool-cases, Option-cases, inl, inr,
  if◌then◌else◌, [], ◌∷◌, get_elem?, set, Result, ok, err, ◌>>=◌,
}
use xendbg.Xen.Hypervisor.{
  Call, domain_pause, domain_unpause, gdbsx_pausevcpu, gdbsx_unpausevcpu, History, Hypervisor,
}
use xendbg.Xen.Domain.{
  Domain, DomainResult, perform, with_dominfo, pause_unpause_at, vcpu_call, pause_unpause_vcpu,
  pause_unpause_from, pause_unpause_all_vcpus, pause, unpause,
}

abbrev pub is_vcpu_call : Call → Bool
is_vcpu_call (gdbsx_pausevcpu v) = true
is_vcpu_call (gdbsx_unpausevcpu v) = true
is_vcpu_call _ = false

abbrev pub is_domain_call : Call → Bool
is_domain_call domain_pause = true
is_domain_call domain_unpause = true
is_domain_call _ = false

-- What Xen documents: a paused domain stays paused until it is unpaused.
pub record IsLawful (x : Hypervisor) : Type 0 where
  pub pauses : (h : History) → x.paused (domain_pause ∷ h) ≡ true
  pub stays :
      (c : Call) (h : History)
      → is_domain_call c ≡ false
      → x.paused h ≡ true
      → x.paused (c ∷ h) ≡ true

-- Each call on a virtual CPU came while the domain was paused.
abbrev pub IsOrdered : Hypervisor → History → Type 0
IsOrdered x [] = Unit
IsOrdered x (c ∷ h) = (is_vcpu_call c ≡ true → x.paused h ≡ true) × IsOrdered x h

-- The domain is paused besides.
abbrev pub IsReady : Hypervisor → History → Type 0
IsReady x h = IsOrdered x h × (x.paused h ≡ true)

-- A call that returns leaves a state that satisfies `P`, and one that throws, one that satisfies `Q`.
abbrev pub Leaves : {E S : Type 0} → (S → Type 0) → (S → Type 0) → Result (E × S) S → Type 0
Leaves P Q (ok s) = P s
Leaves P Q (err (e, s)) = Q s

pub >>=-Leaves :
    {E S : Type 0} (P P' Q : S → Type 0) (m : Result (E × S) S) (f : S → Result (E × S) S)
    → Leaves P Q m
    → ((s : S) → P s → Leaves P' Q (f s))
    → Leaves P' Q (m >>= f)
>>=-Leaves P P' Q (ok s) f h next = next s h
>>=-Leaves P P' Q (err (e, s)) f h next = h

abbrev pub Ordered : Hypervisor → Domain → Type 0
Ordered x d = IsOrdered x d.issued

abbrev pub Ready : Hypervisor → Domain → Type 0
Ready x d = IsReady x d.issued

-- What an operation on a paused domain leaves.
abbrev pub StaysReady : Hypervisor → DomainResult → Type 0
StaysReady x r = Leaves (Ready x) (Ordered x) r

pub with_dominfo-Leaves :
    (x : Hypervisor) (P Q : Domain → Type 0) (d : Domain) (r : DomainResult)
    → Q d
    → Leaves P Q r
    → Leaves P Q (with_dominfo x d r)
with_dominfo-Leaves x P Q d r q h = elim (Bool-cases (x.has_dominfo d.issued)) [
  | inl e ↦ rw e h
  | inr e ↦ rw e q
]

module _ (x : Hypervisor) (l : IsLawful x) where
  pub perform-Ready :
      (c : Call) (d : Domain) → is_domain_call c ≡ false → Ready x d → StaysReady x (perform x c d)
  unfolding perform
  perform-Ready c d n (h, p) = elim (Bool-cases (x.accepts c d.issued)) [
    | inl e ↦ rw e (((λ v. p), h), l.stays c d.issued n p)
    | inr e ↦ rw e h
  ]

  -- A call that is not on a virtual CPU may be made at any time.
  pub perform-Ordered :
      (c : Call) (d : Domain)
      → is_vcpu_call c ≡ false
      → Ordered x d
      → Leaves (Ordered x) (Ordered x) (perform x c d)
  unfolding perform
  perform-Ordered c d n h = elim (Bool-cases (x.accepts c d.issued)) [
    | inl e ↦ rw e ((λ v. cc), h)
    | inr e ↦ rw e h
  ]

  pub pause-Ready : (d : Domain) → Ordered x d → StaysReady x (pause x d)
  unfolding pause perform
  pause-Ready d h =
      with_dominfo-Leaves x (Ready x) (Ordered x) d
        (if x.paused d.issued then ok d else perform x domain_pause d) h
        (elim (Bool-cases (x.paused d.issued)) [
          | inl p ↦ rw p (h, p)
          | inr p ↦ rw p (elim (Bool-cases (x.accepts domain_pause d.issued)) [
            | inl e ↦ rw e (((λ v. cc), h), l.pauses d.issued)
            | inr e ↦ rw e h
          ])
        ])

  pub unpause-Ordered : (d : Domain) → Ready x d → Leaves (Ordered x) (Ordered x) (unpause x d)
  unfolding unpause perform
  unpause-Ordered d (h, p) =
      with_dominfo-Leaves x (Ordered x) (Ordered x) d
        (if x.paused d.issued then perform x domain_unpause d else ok d) h
        (rw p (elim (Bool-cases (x.accepts domain_unpause d.issued)) [
          | inl e ↦ rw e ((λ v. p), h)
          | inr e ↦ rw e h
        ]))

  pub vcpu-Ready :
      (b : Bool) (v : ℕ) (d : Domain) → Ready x d → StaysReady x (pause_unpause_vcpu x b v d)
  unfolding pause_unpause_vcpu pause_unpause_at vcpu_call
  vcpu-Ready true v d h = elim (Option-cases (get_elem? d.vcpu_pause_state v)) [
    | inl e ↦ rw e h.0
    | inr (true, e) ↦ rw e h
    | inr (false, e) ↦ rw e (
        perform-Ready (gdbsx_pausevcpu v)
          (record d { vcpu_pause_state = set d.vcpu_pause_state v true }) refl h)
  ]
  vcpu-Ready false v d h = elim (Option-cases (get_elem? d.vcpu_pause_state v)) [
    | inl e ↦ rw e h.0
    | inr (true, e) ↦ rw e (
        perform-Ready (gdbsx_unpausevcpu v)
          (record d { vcpu_pause_state = set d.vcpu_pause_state v false }) refl h)
    | inr (false, e) ↦ rw e h
  ]

  from-Ready :
      (b : Bool) (id count : ℕ) (d : Domain)
      → Ready x d
      → StaysReady x (pause_unpause_from x (λ i. false) b id count d)
  unfolding pause_unpause_from
  from-Ready b id zero d h = h
  from-Ready b id (suc count) d h =
      >>=-Leaves (Ready x) (Ready x) (Ordered x) (pause_unpause_vcpu x b id d)
        (pause_unpause_from x (λ i. false) b (id + 1) count) (vcpu-Ready b id d h)
        (from-Ready b (id + 1) count)

  pub all-Ready : (b : Bool) (d : Domain) → Ready x d → StaysReady x (pause_unpause_all_vcpus x b d)
  unfolding pause_unpause_all_vcpus
  all-Ready b d h =
      let n = x.max_vcpu_id d.issued + 1 in
      with_dominfo-Leaves x (Ready x) (Ordered x) d (pause_unpause_from x (λ i. false) b 0 n d) h.0
        (from-Ready b 0 n d h)
