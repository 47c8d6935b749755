-- ===== src/Registers.antt =====
-- `RegisterContext` (include/Registers/RegisterContext.hpp) and the registers that are declared with
-- DECLARE_REGISTER. A context is the list of its registers with their values; the ids and the
-- offsets are counted along the list, as the template does.
pub mod Layouts
pub mod Lookup
mod Tests
use xendbg.Prelude.{
  ◌≡◌, refl, arith, ℕ, zero, suc, ◌+◌, ◌-◌, ◌*◌, ◌%◌, ◌^◌, Bool, true, false, Option, none, some,
  ◌==◌, if◌then◌else◌, List, [], ◌∷◌, Bytes,
}

-- The static members of a register; `width` is `sizeof(Value)`.
pub record RegisterType : Type 0 where
  pub name : Bytes
  pub width : ℕ
  pub gcc_id : ℕ

-- `RegisterMetadataReference`.
pub record Metadata : Type 0 where
  pub id : ℕ
  pub width : ℕ
  pub offset : ℕ
  pub name : Bytes
  pub gcc_id : ℕ

pub record Register : Type 0 where
  pub type : RegisterType
  pub value : ℕ

abbrev pub Context : Type 0
Context = List Register

abbrev pub metadata_of : ℕ → ℕ → RegisterType → Metadata
metadata_of id base t = record {
  id = id;
  width = t.width;
  offset = base;
  name = t.name;
  gcc_id = t.gcc_id;
}

-- `reg = value`, and `clear`: a register keeps the low bits that it has room for.
unfoldable pub assign : ℕ → Register → Register
assign value r = record r { value = value % 2 ^ (8 * r.type.width) }

unfoldable pub types_of : Context → List RegisterType
types_of [] = []
types_of (r ∷ rs) = r.type ∷ types_of rs

-- The member `size`.
unfoldable pub size_of : List RegisterType → ℕ
size_of [] = 0
size_of (t ∷ ts) = t.width + size_of ts

-- The default constructor, which clears each register.
unfoldable pub cleared : List RegisterType → Context
cleared [] = []
cleared (t ∷ ts) = record { type = t; value = 0 } ∷ cleared ts

-- `find`, from the register with this id and offset on: what is handed to `ff`, `none` for `nff`.
unfoldable pub find : (Metadata → Bool) → ℕ → ℕ → Context → Option (Metadata × ℕ)
find matches id base [] = none
find matches id base (r ∷ rs) =
    let rest = find matches (id + 1) (base + r.type.width) rs in
    if matches (metadata_of id base r.type)
    then some (metadata_of id base r.type, r.value)
    else rest

-- `find` with an `ff` that assigns to the register.
unfoldable pub find_and_assign : (Metadata → Bool) → ℕ → ℕ → ℕ → Context → Option Context
unfolding assign
find_and_assign matches value id base [] = none
find_and_assign matches value id base (r ∷ rs) =
    let rest = find_and_assign matches value (id + 1) (base + r.type.width) rs in
    if matches (metadata_of id base r.type)
    then some (assign value r ∷ rs)
    else elim rest [ none ↦ none | some rs' ↦ some (r ∷ rs') ]

abbrev pub has_id : ℕ → Metadata → Bool
has_id id md = md.id == id

unfoldable pub find_by_id : ℕ → Context → Option (Metadata × ℕ)
unfolding find
find_by_id id regs = find (has_id id) 0 0 regs

unfoldable pub assign_by_id : ℕ → ℕ → Context → Option Context
unfolding find_and_assign
assign_by_id id value regs = find_and_assign (has_id id) value 0 0 regs

-- `find_metadata_by_id`: the id that is looked for counts down.
unfoldable pub find_metadata_from : ℕ → ℕ → ℕ → List RegisterType → Option Metadata
find_metadata_from target id base [] = none
find_metadata_from zero id base (t ∷ ts) = some (metadata_of id base t)
find_metadata_from (suc target) id base (t ∷ ts) =
    find_metadata_from target (id + 1) (base + t.width) ts

unfoldable pub find_metadata_by_id : ℕ → List RegisterType → Option Metadata
unfolding find_metadata_from
find_metadata_by_id target ts = find_metadata_from target 0 0 ts

-- `is_valid_id`, where the id that is looked for counts down and the id of the register counts up.
unfoldable pub is_valid_from : ℕ → ℕ → List RegisterType → Bool
is_valid_from target id [] = false
is_valid_from target id (t ∷ ts) =
    let rest = is_valid_from ((target + 2 ^ 64 - 1) % 2 ^ 64) (id + 1) ts in
    if id == target then true else rest

unfoldable pub is_valid_id : ℕ → List RegisterType → Bool
unfolding is_valid_from
is_valid_id target ts = is_valid_from target 0 ts

unfoldable pub same_text : Bytes → Bytes → Bool
same_text [] [] = true
same_text (c ∷ s) (d ∷ t) = let rest = same_text s t in if c == d then rest else false
same_text _ _ = false

pub same_text_refl : (s : Bytes) → same_text s s ≡ true
unfolding same_text
same_text_refl [] = refl
same_text_refl (c ∷ s) = ground (arith, same_text_refl s)

abbrev pub has_name : Bytes → Metadata → Bool
has_name name md = same_text md.name name

-- `get<Reg_t>()`. (The compiler rejects a register that the context lacks.)
unfoldable pub get : Bytes → Context → ℕ
unfolding same_text
get name [] = 0
get name (r ∷ rs) = let rest = get name rs in if same_text r.type.name name then r.value else rest

-- An assignment to `get<Reg_t>()`.
unfoldable pub set_register : Bytes → ℕ → Context → Context
unfolding same_text assign
set_register name value [] = []
set_register name value (r ∷ rs) =
    let rest = set_register name value rs in
    if same_text r.type.name name then assign value r ∷ rs else r ∷ rest

-- `RegistersX86Any`.
pub data RegistersAny : Type 0 where
  x86_32 : Context → RegistersAny
  x86_64 : Context → RegistersAny

abbrev pub context_of : RegistersAny → Context
context_of (x86_32 regs) = regs
context_of (x86_64 regs) = regs

abbrev pub with_context : RegistersAny → Context → RegistersAny
with_context (x86_32 _) regs = x86_32 regs
with_context (x86_64 _) regs = x86_64 regs

-- `read_register<Reg32_t, Reg64_t>`.
unfoldable pub read_register : Bytes → Bytes → RegistersAny → ℕ
unfolding get
read_register name_32 name_64 (x86_32 regs) = get name_32 regs
read_register name_32 name_64 (x86_64 regs) = get name_64 regs
