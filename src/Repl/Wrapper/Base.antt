-- ===== src/Repl/Wrapper/Base.antt =====
-- The state of `DebuggerWrapper`, its tables, and the arithmetic of expressions.
use xendbg.Prelude.{
  ℕ, zero, suc, ◌+◌, ◌-◌, ◌*◌, ◌/◌, ◌%◌, ◌^◌, Option, none, some, ◌==◌, if◌then◌else◌, List, [],
  ◌∷◌, Bytes, Result, ok, err, ◌>>=◌,
}
use xendbg.Registers.{same_text}
use xendbg.Debugger.Target.{TargetFault, WatchpointType}
use xendbg.Expr.Syntax.{BinaryOperator, add, equals, divide, multiply, subtract}

-- Numbers of breakpoints with addresses, and names with values.
abbrev pub Table : Type 0 → Type 0
Table V = List (ℕ × V)

abbrev pub Names : Type 0
Names = List (Bytes × ℕ)

pub record Watchpoint : Type 0 where
  pub address : ℕ
  pub length : ℕ
  pub type : WatchpointType

pub record Wrapper (D : Type 0) : Type 0 where
  pub debugger : Option D
  pub vcpu_id : ℕ
  pub breakpoint_id : ℕ
  pub watchpoint_id : ℕ
  pub breakpoints : Table ℕ
  pub watchpoints : Table Watchpoint
  pub symbols : Names
  pub variables : Names

pub data WrapperFault : Type 0 where
  no_such_breakpoint no_such_watchpoint no_such_symbol no_such_variable : WrapperFault
  invalid_expression no_guest_attached null_debugger division_by_zero : WrapperFault
  debugger_fault : TargetFault → WrapperFault

-- A call that fails leaves the state that it had reached.
abbrev pub Wrapped : Type 0 → Type 0
Wrapped D = Result (WrapperFault × Wrapper D) (Wrapper D)

-- `count` and `at` of a map, `operator[]` and `erase`.
unfoldable pub get_entry : Bytes → Names → Option ℕ
unfolding same_text
get_entry name [] = none
get_entry name ((n, v) ∷ names) =
    let rest = get_entry name names in if same_text n name then some v else rest

unfoldable pub set_entry : Bytes → ℕ → Names → Names
unfolding same_text
set_entry name value [] = (name, value) ∷ []
set_entry name value ((n, v) ∷ names) =
    let rest = set_entry name value names in
    if same_text n name then (n, value) ∷ names else (n, v) ∷ rest

unfoldable pub erase_entry : Bytes → Names → Names
unfolding same_text
erase_entry name [] = []
erase_entry name ((n, v) ∷ names) =
    let rest = erase_entry name names in if same_text n name then names else (n, v) ∷ rest

abbrev pub get_number : {V : Type 0} → ℕ → Table V → Option V
get_number id [] = none
get_number id ((i, v) ∷ table) = let rest = get_number id table in if i == id then some v else rest

abbrev pub erase_number : {V : Type 0} → ℕ → Table V → Table V
erase_number id [] = []
erase_number id ((i, v) ∷ table) =
    let rest = erase_number id table in if i == id then table else (i, v) ∷ rest

-- `table[id] = v`: an entry with this number is replaced.
abbrev pub assign_number : {V : Type 0} → ℕ → V → Table V → Table V
assign_number id v table = (id, v) ∷ erase_number id table

-- The bytes of a value in memory, and the value of bytes.
unfoldable pub le_bytes : ℕ → ℕ → Bytes
le_bytes zero value = []
le_bytes (suc n) value = value % 256 ∷ le_bytes n (value / 256)

unfoldable pub le_value : Bytes → ℕ
le_value [] = 0
le_value (b ∷ bytes) = b + 256 * le_value bytes

abbrev pub found_or : {A : Type 0} → WrapperFault → Option A → Result WrapperFault A
found_or e none = err e
found_or e (some v) = ok v

unfoldable pub arithmetic : BinaryOperator → ℕ → ℕ → Result WrapperFault ℕ
arithmetic equals x y = err invalid_expression
arithmetic add x y = ok ((x + y) % 2 ^ 64)
arithmetic subtract x y = ok ((x + (2 ^ 64 - y)) % 2 ^ 64)
arithmetic multiply x y = ok ((x * y) % 2 ^ 64)
arithmetic divide x y = if y == 0 then err division_by_zero else ok (x / y)

-- The left operand is evaluated first here; the source leaves the order open.
unfoldable pub evaluate_binary :
    BinaryOperator → Result WrapperFault ℕ → Result WrapperFault ℕ → Result WrapperFault ℕ
unfolding arithmetic
evaluate_binary equals rx ry = err invalid_expression
evaluate_binary op rx ry = do x ← rx; y ← ry; arithmetic op x y

-- A debugger's state, where a guest is attached.
abbrev pub attached :
    {A D : Type 0} → Option D → (D → Result WrapperFault A) → Result WrapperFault A
attached none next = err no_guest_attached
attached (some d) next = next d
