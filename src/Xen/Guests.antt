-- ===== src/Xen/Guests.antt =====
-- `Xen` (src/Xen/Xen.cpp): the list of the guests. What Xenstore and the hypervisor answer is a
-- parameter.
use xendbg.Prelude.{
  ℕ, ◌%◌, ◌^◌, ◌<◌, Bool, ◌≡◌, refl, ap, ◌∙◌, Option, none, some, ltb, ◌==◌, if◌then◌else◌, List,
  [], ◌∷◌, ◌++◌, Bytes, Result, ok, err, ◌>>=◌, arith,
}
use xendbg.Text.{codes, stoul, StoulError}
use xendbg.Registers.{same_text}

-- `DomainAny`: the flag tells a DomainHVM from a DomainPV.
pub record DomainAny : Type 0 where
  pub domid : ℕ
  pub is_hvm : Bool

pub record Answers : Type 0 where
  pub entries : List Bytes  -- the directory /local/domain
  pub hvm : ℕ → Option Bool  -- dominfo.hvm, `none` where get_domain_info throws
  pub name : ℕ → Bytes

-- `undefined` is the erasure of an element that is not there.
pub data GuestsFault : Type 0 where
  undefined : GuestsFault
  not_a_number : StoulError → GuestsFault

-- `init_domain`. A DomID has 16 bits.
unfoldable pub init_domain : Answers → ℕ → Option DomainAny
init_domain a domid = elim (a.hvm domid) [
  | none ↦ none
  | some hvm ↦ some (record { domid = domid; is_hvm = hvm })
]

-- The entries without "0". A directory lists a name once.
unfoldable pub without_zero : List Bytes → Result GuestsFault (List Bytes)
unfolding same_text
without_zero [] = err undefined
without_zero (s ∷ entries) =
    let rest = without_zero entries in
    if same_text s (codes "0") then ok entries else (rest >>= (λ others. ok (s ∷ others)))

-- The first domain with a lower id is taken out.
unfoldable pub erase_lower : ℕ → List DomainAny → List DomainAny
erase_lower domid [] = []
erase_lower domid (d ∷ domains) =
    let rest = erase_lower domid domains in if ltb d.domid domid then domains else d ∷ rest

-- One round of the loop: a domain that cannot be asked is passed over.
unfoldable pub add_guest : ℕ → Option DomainAny → List DomainAny → List DomainAny
unfolding erase_lower
add_guest domid none domains = domains
add_guest domid (some d) domains = erase_lower domid domains ++ (d ∷ [])

unfoldable pub collect : Answers → List Bytes → List DomainAny → Result GuestsFault (List DomainAny)
unfolding init_domain add_guest
collect a [] domains = ok domains
collect a (s ∷ entries) domains = elim (stoul 10 s) [
  | ok (domid, rest) ↦ collect a entries (add_guest domid (init_domain a (domid % 2 ^ 16)) domains)
  | err e ↦ err (not_a_number e)
]

unfoldable pub get_domains : Answers → Result GuestsFault (List DomainAny)
unfolding without_zero collect
get_domains a = do entries ← without_zero a.entries; collect a entries []

unfoldable pub find_domid : ℕ → List DomainAny → Option DomainAny
find_domid domid [] = none
find_domid domid (d ∷ domains) =
    let rest = find_domid domid domains in if d.domid == domid then some d else rest

unfoldable pub find_named : Answers → Bytes → List DomainAny → Option DomainAny
unfolding same_text
find_named a name [] = none
find_named a name (d ∷ domains) =
    let rest = find_named a name domains in if same_text (a.name d.domid) name then some d else rest

unfoldable pub get_domain_from_domid : Answers → ℕ → Result GuestsFault (Option DomainAny)
unfolding get_domains find_domid
get_domain_from_domid a domid = do domains ← get_domains a; ok (find_domid domid domains)

unfoldable pub get_domain_from_name : Answers → Bytes → Result GuestsFault (Option DomainAny)
unfolding get_domains find_named
get_domain_from_name a name = do domains ← get_domains a; ok (find_named a name domains)

-- Entries that name guests which can be asked.
abbrev pub IsListed : Answers → List Bytes → List DomainAny → Type 0
IsListed a [] [] = Unit
IsListed a (s ∷ entries) (d ∷ domains) =
    (stoul 10 s ≡ ok (d.domid, []))
    × (d.domid < 2 ^ 16)
    × (init_domain a d.domid ≡ some d)
    × IsListed a entries domains
IsListed a _ _ = ⊥

-- Each id is above the one before it.
abbrev pub IsRising : ℕ → List DomainAny → Type 0
IsRising low [] = Unit
IsRising low (d ∷ domains) = (low < d.domid) × IsRising d.domid domains

abbrev pub last_of : DomainAny → List DomainAny → DomainAny
last_of d [] = d
last_of d (e ∷ domains) = last_of e domains

collect_nil : (a : Answers) (domains : List DomainAny) → collect a [] domains ≡ ok domains
unfolding collect
collect_nil a domains = refl

collect_step :
    (a : Answers) (s : Bytes) (entries : List Bytes) (domains : List DomainAny) (d : DomainAny)
    → stoul 10 s ≡ ok (d.domid, [])
    → d.domid < 2 ^ 16
    → init_domain a d.domid ≡ some d
    → collect a (s ∷ entries) domains ≡ collect a entries (erase_lower d.domid domains ++ (d ∷ []))
unfolding collect
collect_step a s entries domains d number small found =
    let fits : d.domid % 2 ^ 16 ≡ d.domid = omega arith in
    let here : init_domain a (d.domid % 2 ^ 16) ≡ some d = rw fits found in
    rw (number, collect) (rw here)

erase_lower-one : (d : DomainAny) (domid : ℕ) → d.domid < domid → erase_lower domid (d ∷ []) ≡ []
unfolding erase_lower
erase_lower-one d domid below = ground arith

collect-rising :
    (a : Answers) (entries : List Bytes) (d : DomainAny) (domains : List DomainAny)
    → IsListed a entries domains
    → IsRising d.domid domains
    → collect a entries (d ∷ []) ≡ ok (last_of d domains ∷ [])
collect-rising a [] d [] listed rising = collect_nil a (d ∷ [])
collect-rising a [] d (e ∷ domains) listed rising = absurd listed
collect-rising a (s ∷ entries) d [] listed rising = absurd listed
collect-rising a (s ∷ entries) d (e ∷ domains) (number, small, found, listed) (above, rising) =
    collect_step a s entries (d ∷ []) e number small found
    ∙ rw (erase_lower-one d e.domid above) (collect-rising a entries e domains listed rising)

-- Where the directory lists domain 0 and then guests that can be asked, with rising ids of 16 bits,
-- `get_domains` has only the last of them.
pub get_domains-IsRising :
    (a : Answers) (entries : List Bytes) (d : DomainAny) (domains : List DomainAny)
    → a.entries ≡ codes "0" ∷ entries
    → IsListed a entries (d ∷ domains)
    → IsRising d.domid domains
    → get_domains a ≡ ok (last_of d domains ∷ [])
unfolding get_domains without_zero
get_domains-IsRising a [] d domains e listed rising = absurd listed
get_domains-IsRising a (s ∷ entries) d domains e (number, small, found, listed) rising =
    ap (λ es. without_zero es >>= (λ rest. collect a rest [])) e
    ∙ collect_step a s entries [] d number small found
    ∙ collect-rising a entries d domains listed rising
