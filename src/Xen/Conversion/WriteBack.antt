-- ===== src/Xen/Conversion/WriteBack.antt =====
-- A register context that is read and written back: what becomes of each field.
use xendbg.Prelude.{
  some_injective, ℕ, ◌*◌, ◌%◌, ◌^◌, Bool, true, false, ◌≡◌, refl, ap, ◌∙◌, Option, none, some, List,
  [], ◌∷◌, if◌then◌else◌, Bytes, Bool-cases, ◌⊎◌, inl, inr, arith,
}
use xendbg.Registers.{
  RegisterType, Context, cleared, types_of, get, set_register, same_text, assign,
}
use xendbg.Registers.Layouts.{registers_64}
use xendbg.Xen.Conversion.{
  Structure, Pairs, convert_from, convert_to, hvm_pairs, convert_regs_from_hvm, convert_regs_to_hvm,
}

same_text-eq : (s t : Bytes) → same_text s t ≡ true → s ≡ t
unfolding same_text
same_text-eq [] [] h = refl
same_text-eq [] (d ∷ t) h = cc
same_text-eq (c ∷ s) [] h = cc
same_text-eq (c ∷ s) (d ∷ t) h = ground (arith, same_text-eq s t)

-- The last pair with a register, or with a field.
unfoldable pub field_for : Bytes → Pairs → Option Bytes
field_for name [] = none
field_for name ((n, field) ∷ pairs) =
    let later = field_for name pairs in
    elim later [ some f ↦ some f | none ↦ if same_text n name then some field else none ]

unfoldable pub register_for : Bytes → Pairs → Option Bytes
register_for field [] = none
register_for field ((name, f) ∷ pairs) =
    let later = register_for field pairs in
    elim later [ some n ↦ some n | none ↦ if same_text f field then some name else none ]

unfoldable pub width_of : Bytes → List RegisterType → Option ℕ
width_of name [] = none
width_of name (t ∷ ts) =
    let rest = width_of name ts in if same_text t.name name then some t.width else rest

types_of-set_register :
    (name : Bytes) (v : ℕ) (regs : Context) → types_of (set_register name v regs) ≡ types_of regs
unfolding types_of set_register assign
types_of-set_register name v [] = refl
types_of-set_register name v (r ∷ regs) = ground (arith, types_of-set_register name v regs)

get-set_register :
    (name : Bytes) (v : ℕ) (regs : Context) {w : ℕ}
    → width_of name (types_of regs) ≡ some w
    → get name (set_register name v regs) ≡ v % 2 ^ (8 * w)
unfolding types_of set_register assign get width_of
get-set_register name v [] h = cc
get-set_register name v (r ∷ regs) {w} h = elim (Bool-cases (same_text r.type.name name)) [
  | inl e ↦ rw e (rw e (ap (λ (k : ℕ). v % 2 ^ (8 * k)) (some_injective (rw e at h))))
  | inr e ↦ rw (e, set_register) (rw (e, get) (get-set_register name v regs (rw e at h)))
]

get-set_register_other :
    (name other : Bytes) (v : ℕ) (regs : Context)
    → same_text other name ≡ false
    → get name (set_register other v regs) ≡ get name regs
unfolding set_register assign get
get-set_register_other name other v [] h = refl
get-set_register_other name other v (r ∷ regs) h = elim (Bool-cases (same_text r.type.name other)) [
  | inl e ↦
      let apart : same_text r.type.name name ≡ false =
        ap (λ t. same_text t name) (same_text-eq r.type.name other e) ∙ h in
      rw e (rw apart)
  | inr e ↦ rw e (ground (arith, get-set_register_other name other v regs h))
]

types_of-cleared : (ts : List RegisterType) → types_of (cleared ts) ≡ ts
unfolding types_of cleared
types_of-cleared [] = refl
types_of-cleared (t ∷ ts) = rw (types_of-cleared ts)

-- What a search that prefers a later pair comes to.
later_none :
    (later : Option Bytes) (test : Bool) (n : Bytes)
    → (elim later [ some f ↦ some f | none ↦ if test then some n else none ]) ≡ none
    → (later ≡ none) × (test ≡ false)
later_none none true n h = cc
later_none none false n h = (refl, refl)
later_none (some f) test n h = cc

later_some :
    (later : Option Bytes) (test : Bool) (n : Bytes) {m : Bytes}
    → (elim later [ some f ↦ some f | none ↦ if test then some n else none ]) ≡ some m
    → (later ≡ some m) ⊎ ((later ≡ none) × (test ≡ true) × (n ≡ m))
later_some none true n h = inr (refl, refl, some_injective h)
later_some none false n h = cc
later_some (some f) test n h = inl h

module _ {C : Type 0} (x : Structure C) where
  read-convert_to-none :
      (field : Bytes) (pairs : Pairs) (regs : Context) (c : C)
      → register_for field pairs ≡ none
      → x.read field (convert_to x pairs regs c) ≡ x.read field c
  unfolding convert_to register_for
  read-convert_to-none field [] regs c h = refl
  read-convert_to-none field ((name, f) ∷ pairs) regs c h =
      let (later, apart) = later_none (register_for field pairs) (same_text f field) name h in
      read-convert_to-none field pairs regs _ later
      ∙ x.read-write field f (get name regs) c
      ∙ rw apart

  read-convert_to :
      (field name : Bytes) (pairs : Pairs) (regs : Context) (c : C)
      → register_for field pairs ≡ some name
      → x.read field (convert_to x pairs regs c) ≡ get name regs % 2 ^ (8 * x.width field)
  unfolding convert_to register_for
  read-convert_to field name [] regs c h = cc
  read-convert_to field name ((n, f) ∷ pairs) regs c h =
      elim (later_some (register_for field pairs) (same_text f field) n h) [
        | inl later ↦ read-convert_to field name pairs regs _ later
        | inr (later, same, here) ↦
            read-convert_to-none field pairs regs _ later
            ∙ x.read-write field f (get n regs) c
            ∙ rw same (rw here (rw (same_text-eq f field same)))
      ]

  get-convert_from-none :
      (name : Bytes) (pairs : Pairs) (c : C) (regs : Context)
      → field_for name pairs ≡ none
      → get name (convert_from x pairs c regs) ≡ get name regs
  unfolding convert_from field_for
  get-convert_from-none name [] c regs h = refl
  get-convert_from-none name ((n, f) ∷ pairs) c regs h =
      let (later, apart) = later_none (field_for name pairs) (same_text n name) f h in
      get-convert_from-none name pairs c _ later
      ∙ get-set_register_other name n (x.read f c) regs apart

  get-convert_from :
      (name field : Bytes) (pairs : Pairs) (c : C) (regs : Context) {w : ℕ}
      → field_for name pairs ≡ some field
      → width_of name (types_of regs) ≡ some w
      → get name (convert_from x pairs c regs) ≡ x.read field c % 2 ^ (8 * w)
  unfolding convert_from field_for
  get-convert_from name field [] c regs h wide = cc
  get-convert_from name field ((n, f) ∷ pairs) c regs {w} h wide =
      elim (later_some (field_for name pairs) (same_text n name) f h) [
        | inl later ↦
            get-convert_from name field pairs c _ later
              (ap (width_of name) (types_of-set_register n (x.read f c) regs) ∙ wide)
        | inr (later, same, here) ↦
            get-convert_from-none name pairs c _ later
            ∙ ap (λ m. get name (set_register m (x.read f c) regs)) (same_text-eq n name same)
            ∙ get-set_register name (x.read f c) regs wide
            ∙ ap (λ g. x.read g c % 2 ^ (8 * w)) here
      ]

  -- Once a context of an HVM domain is read and written back, a field that goes with a register has
  -- its value cut to the width of that register, and to its own.
  pub convert_regs_to_hvm-convert_regs_from_hvm :
      (name field : Bytes) (w : ℕ) (c : C)
      → register_for field hvm_pairs ≡ some name
      → field_for name hvm_pairs ≡ some field
      → width_of name registers_64 ≡ some w
      → x.read field (convert_regs_to_hvm x (convert_regs_from_hvm x c) c)
        ≡ x.read field c % 2 ^ (8 * w) % 2 ^ (8 * x.width field)
  unfolding convert_regs_to_hvm convert_regs_from_hvm
  convert_regs_to_hvm-convert_regs_from_hvm name field w c to from wide =
      read-convert_to field name hvm_pairs (convert_from x hvm_pairs c (cleared registers_64)) c to
      ∙ ap (λ (v : ℕ). v % 2 ^ (8 * x.width field))
          (get-convert_from name field hvm_pairs c (cleared registers_64) from
            (ap (width_of name) (types_of-cleared registers_64) ∙ wide))
