-- ===== src/Registers/Lookup.antt =====
-- The ways to look up a register by its id agree, and what is assigned is read back.
use xendbg.Prelude.{
  ℕ, zero, suc, ◌+◌, ◌*◌, ◌%◌, ◌^◌, ◌≤◌, ◌≡◌, ◌≢◌, refl, ◌∙◌, Bool, true, false, Option, none, some,
  ◌==◌, ==_iff, ne_of_false, sym, Bool-cases, Option-cases, inl, inr, [], ◌∷◌, arith,
}
use xendbg.Registers.{
  Metadata, Context, metadata_of, assign, types_of, size_of, find, find_and_assign, has_id,
  find_by_id, assign_by_id, find_metadata_from, find_metadata_by_id,
}

abbrev pub metadata_only : Option (Metadata × ℕ) → Option Metadata
metadata_only none = none
metadata_only (some (md, value)) = some md

eq_false : (a b : ℕ) → a ≢ b → (a == b) ≡ false
eq_false a b h = ground arith

eq_true : (a b : ℕ) → a ≡ b → (a == b) ≡ true
eq_true a b h = ground arith

find-find_metadata_from :
    (regs : Context) (id base target sought : ℕ)
    → sought ≡ id + target
    → metadata_only (find (has_id sought) id base regs)
      ≡ find_metadata_from target id base (types_of regs)
unfolding find find_metadata_from types_of
find-find_metadata_from [] id base target sought e = refl
find-find_metadata_from (r ∷ regs) id base zero sought e = rw (eq_true id sought (omega arith)) refl
find-find_metadata_from (r ∷ regs) id base (suc target) sought e =
    rw (eq_false id sought (omega arith))
      (find-find_metadata_from regs (id + 1) (base + r.type.width) target sought (omega arith))

-- Looking a register up by its id in a context and looking up its metadata in the list of the
-- registers, which counts the id down, find the same metadata, or both find nothing.
pub find_by_id-find_metadata_by_id :
    (regs : Context) (id : ℕ)
    → metadata_only (find_by_id id regs) ≡ find_metadata_by_id id (types_of regs)
unfolding find_by_id find_metadata_by_id
find_by_id-find_metadata_by_id regs id = find-find_metadata_from regs 0 0 id id (omega arith)

find-bounds :
    (regs : Context) (sought id base : ℕ) {md : Metadata} {value : ℕ}
    → find (has_id sought) id base regs ≡ some (md, value)
    → (md.id ≡ sought) × (md.offset + md.width ≤ base + size_of (types_of regs))
unfolding find types_of size_of
find-bounds [] sought id base h = cc
find-bounds (r ∷ regs) sought id base {md} {value} h = elim (Bool-cases (id == sought)) [
  | inl e ↦
      let here : metadata_of id base r.type ≡ md = cc (rw e at h) in
      rw (← here) ((==_iff id sought).0 e, omega arith)
  | inr e ↦
      let (same, fits) = find-bounds regs sought (id + 1) (base + r.type.width) (rw e at h) in
      (same, omega (arith, fits))
]

-- What an id finds lies in the context: it has that id, and its bytes end within the size of the
-- context.
pub find_by_id-bounds :
    (regs : Context) (id : ℕ) {md : Metadata} {value : ℕ}
    → find_by_id id regs ≡ some (md, value)
    → (md.id ≡ id) × (md.offset + md.width ≤ size_of (types_of regs))
unfolding find_by_id
find_by_id-bounds regs id h =
    let (same, fits) = find-bounds regs id 0 0 h in (same, omega (arith, fits))

-- What a lookup finds after an assignment, from what it found before.
abbrev pub reassigned : Bool → ℕ → Option (Metadata × ℕ) → Option (Metadata × ℕ)
reassigned same value none = none
reassigned true value (some (md, old)) = some (md, value % 2 ^ (8 * md.width))
reassigned false value (some (md, old)) = some (md, old)

reassigned-false : (value : ℕ) (o : Option (Metadata × ℕ)) → reassigned false value o ≡ o
reassigned-false value none = refl
reassigned-false value (some (md, old)) = refl

assign-find :
    (regs regs' : Context) (value sought other id base : ℕ)
    → find_and_assign (has_id sought) value id base regs ≡ some regs'
    → find (has_id other) id base regs'
      ≡ reassigned (other == sought) value (find (has_id other) id base regs)
unfolding find find_and_assign assign
assign-find [] regs' value sought other id base h = cc
assign-find (r ∷ regs) regs' value sought other id base h = elim (Bool-cases (id == sought)) [
  | inl e ↦
      let now : (assign value r ∷ regs) ≡ regs' = cc (rw e at h) in
      let here : id ≡ sought = (==_iff id sought).0 e in
      rw (← now) (elim (Bool-cases (id == other)) [
        | inl f ↦ rw (f, eq_true other sought (sym ((==_iff id other).0 f) ∙ here)) refl
        | inr f ↦
            rw (f, eq_false other sought (λ x. ne_of_false id other f (here ∙ sym x)))
              (sym (reassigned-false value _))
      ])
  | inr e ↦
      elim (Option-cases
        (find_and_assign (has_id sought) value (id + 1) (base + r.type.width) regs)) [
          | inl g ↦ cc (rw (e, g) at h)
          | inr (rs', g) ↦
              let now : (r ∷ rs') ≡ regs' = cc (rw (e, g) at h) in
              rw (← now) (elim (Bool-cases (id == other)) [
                | inl f ↦
                    rw
                      (
                        f,
                        eq_false other sought
                            (λ x. ne_of_false id sought e ((==_iff id other).0 f ∙ x)),
                      )
                      refl
                | inr f ↦
                    rw f (assign-find regs rs' value sought other (id + 1) (base + r.type.width) g)
              ])
        ]
]

-- Where an assignment by id finds its register, a lookup by that id then finds the value, cut to
-- the width of the register, and a lookup by another id finds what it found before.
pub find_by_id-assign_by_id :
    (regs regs' : Context) (value id other : ℕ)
    → assign_by_id id value regs ≡ some regs'
    → find_by_id other regs' ≡ reassigned (other == id) value (find_by_id other regs)
unfolding find_by_id assign_by_id
find_by_id-assign_by_id regs regs' value id other h = assign-find regs regs' value id other 0 0 h
