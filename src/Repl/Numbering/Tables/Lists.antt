-- ===== src/Repl/Numbering/Tables/Lists.antt =====
-- Tables of numbers: which numbers stand in them.
use xendbg.Prelude.{◌<◌, ℕ, ◌≤◌, ◌≡◌, refl, none, Bool-cases, ◌==◌, inl, inr, [], ◌∷◌, All, arith}
use xendbg.Repl.Wrapper.{Table, get_number, erase_number, assign_number}

module _ {V : Type 0} where
  abbrev pub IsBelow : ℕ → Table V → Type 0
  IsBelow n table = All (λ e. e.0 ≤ n) table

  -- No number stands twice.
  abbrev pub IsDistinct : Table V → Type 0
  IsDistinct [] = Unit
  IsDistinct ((id, v) ∷ table) = (get_number id table ≡ none) × IsDistinct table

  IsBelow-le : (n m : ℕ) (table : Table V) → n ≤ m → IsBelow n table → IsBelow m table
  IsBelow-le n m [] le h = tt
  IsBelow-le n m ((id, v) ∷ table) le (below, h) = (omega arith, IsBelow-le n m table le h)

  get_number-above :
      (n id : ℕ) (table : Table V) → n < id → IsBelow n table → get_number id table ≡ none
  get_number-above n id [] lt h = refl
  get_number-above n id ((i, v) ∷ table) lt (le, h) =
      ground (arith, get_number-above n id table lt h)

  pub erase_number-IsBelow :
      (n id : ℕ) (table : Table V) → IsBelow n table → IsBelow n (erase_number id table)
  erase_number-IsBelow n id [] h = tt
  erase_number-IsBelow n id ((i, v) ∷ table) (le, h) = elim (Bool-cases (i == id)) [
    | inl e ↦ rw e h
    | inr e ↦ rw e (le, erase_number-IsBelow n id table h)
  ]

  pub get_number-erase_number :
      (j id : ℕ) (table : Table V)
      → get_number j table ≡ none
      → get_number j (erase_number id table) ≡ none
  get_number-erase_number j id [] h = refl
  get_number-erase_number j id ((i, v) ∷ table) h =
      ground (arith, get_number-erase_number j id table)

  pub erase_number-IsDistinct :
      (id : ℕ) (table : Table V) → IsDistinct table → IsDistinct (erase_number id table)
  erase_number-IsDistinct id [] h = tt
  erase_number-IsDistinct id ((i, v) ∷ table) (apart, h) = elim (Bool-cases (i == id)) [
    | inl e ↦ rw e h
    | inr e ↦ rw e (get_number-erase_number i id table apart, erase_number-IsDistinct id table h)
  ]

  -- A new number with its entry.
  pub assign_number-IsBelow :
      (n id : ℕ) (v : V) (table : Table V)
      → n < id
      → IsBelow n table
      → IsDistinct table
      → IsBelow id (assign_number id v table) × IsDistinct (assign_number id v table)
  assign_number-IsBelow n id v table new below distinct = (
    (omega arith, erase_number-IsBelow id id table (IsBelow-le n id table (omega arith) below)),
    (
      get_number-erase_number id id table (get_number-above n id table new below),
      erase_number-IsDistinct id table distinct,
    ),
  )
