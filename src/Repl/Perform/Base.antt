-- ===== src/Repl/Perform/Base.antt =====
-- What the actions compute apart from the state (src/REPL/DebuggerREPL.cpp).
use xendbg.Prelude.{
  ℕ, ◌-◌, ◌^◌, zero, suc, ◌==◌, if◌then◌else◌, Option, none, some, List, [], ◌∷◌, Bytes, take, drop,
}
use xendbg.Debugger.Target.{WatchpointType, read_watchpoint, write_watchpoint, access_watchpoint}
use xendbg.Repl.Wrapper.{Table, Names}

abbrev reversed : Bytes → Bytes → Bytes
reversed [] acc = acc
reversed (c ∷ cs) acc = reversed cs (c ∷ acc)

unfoldable pub words_from : ℕ → ℕ → Bytes → List Bytes
words_from zero size bytes = []
words_from (suc n) size bytes = reversed (take size bytes) [] ∷ words_from n size (drop size bytes)

unfoldable pub names_at : ℕ → Names → List Bytes
names_at address [] = []
names_at address ((name, a) ∷ names) =
    let rest = names_at address names in if a == address then name ∷ rest else rest

unfoldable pub number_at : ℕ → Table ℕ → Option ℕ
number_at address [] = none
number_at address ((id, a) ∷ table) =
    let rest = number_at address table in if a == address then some id else rest

-- The type of a watchpoint by its letter.
unfoldable pub type_of : Bytes → Option WatchpointType
type_of (c ∷ []) =
    if c == b'r'
    then some read_watchpoint
    else if c == b'w'
    then some write_watchpoint
    else if c == b'a'
    then some access_watchpoint
    else none
type_of _ = none

-- `std::regex_replace(filename, std::regex(" +$"), "")`.
abbrev kept_space : ℕ → Bytes → Bytes
kept_space c [] = if c == b' ' then [] else c ∷ []
kept_space c (d ∷ cs) = c ∷ d ∷ cs

unfoldable pub without_trailing : Bytes → Bytes
without_trailing [] = []
without_trailing (c ∷ cs) = kept_space c (without_trailing cs)

abbrev pub no_domid : ℕ
no_domid = 2 ^ 16 - 1
