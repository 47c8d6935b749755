-- ===== src/Repl/Actions/Base.antt =====
-- The actions of the commands (src/REPL/DebuggerREPL.cpp), and how they are made of flags and arguments.
use xendbg.Prelude.{
  ℕ, Option, none, some, ◌==◌, if◌then◌else◌, List, [], ◌∷◌, Bytes, Result, ok, err, ◌>>=◌,
}
use xendbg.Text.{codes, stoul, StoulError, invalid_argument, out_of_range}
use xendbg.Repl.Scan.{Matcher, make_match_one_of}
use xendbg.Repl.Command.{
  Argument, make_argument, Flag, CommandFault, number_out_of_range, not_a_number, ArgsHandle,
  get_at, get_named, FlagsHandle, get_flag,
}
use xendbg.Repl.Command.Verb.{Verb, Command, group}
use Prim.Native.String.{String}

-- The printers of `print`.
pub data Format : Type 0 where
  decimal hexadecimal binary : Format

pub data Action : Type 0 where
  cpu_get print_help quit symbol_list symbol_clear : Action
  guest_list guest_detach guest_pause guest_unpause : Action
  info_guest info_registers info_variables info_xen : Action
  breakpoint_list continue_ step watchpoint_list : Action
  cpu_set breakpoint_delete watchpoint_delete : ℕ → Action
  symbol_load guest_attach unset breakpoint_create : Bytes → Action
  print_value : Format → Bytes → Action
  set_value : Bytes → ℕ → Action
  disassemble_at : Bytes → Bytes → Action
  examine_at : Bytes → ℕ → ℕ → Action  -- expression, word size, number of words
  watchpoint_create : Bytes → Bytes → Bytes → Action

abbrev pub argument : String → Matcher → Argument
argument name matcher = make_argument (codes name) [] matcher none

abbrev pub one_of : String → List Bytes → Argument
one_of name options =
    make_argument (codes name) [] (make_match_one_of options) (some (λ begin. some options))

abbrev pub verb : String → List Argument → (ArgsHandle → Result CommandFault Action) → Verb Action
verb name args make = record {
  name = codes name;
  description = [];
  flags = [];
  args = args;
  make_action = λ flags handle. make handle;
}

abbrev pub simple : String → Action → Verb Action
simple name action = verb name [] (λ handle. ok action)

abbrev pub commands_of : String → List (Verb Action) → Command Action
commands_of name verbs = group (codes name) [] verbs

-- `std::stoul`, where nothing catches its exceptions.
abbrev number_or_fault : Result StoulError (ℕ × Bytes) → Result CommandFault ℕ
number_or_fault (ok (value, rest)) = ok value
number_or_fault (err invalid_argument) = err not_a_number
number_or_fault (err out_of_range) = err number_out_of_range

unfoldable pub stoul_of : Bytes → Result CommandFault ℕ
unfolding stoul
stoul_of text = number_or_fault (stoul 10 text)

abbrev pub with_number : (ℕ → Action) → ArgsHandle → Result CommandFault Action
with_number action handle = do text ← get_at 0 handle; id ← stoul_of text; ok (action id)

abbrev pub with_text : (Bytes → Action) → ArgsHandle → Result CommandFault Action
with_text action handle = do text ← get_at 0 handle; ok (action text)

-- The first letter of the value of a flag.
abbrev letter_of : Option ArgsHandle → Result CommandFault ℕ
letter_of none = ok 0
letter_of (some handle) = do text ← get_at 0 handle; ok (elim text [ [] ↦ 0 | c ∷ s ↦ c ])

unfoldable pub format_of : ℕ → Format
format_of c = if c == b'b' then binary else if c == b'd' then decimal else hexadecimal

-- 0 stands for the word size of the guest.
unfoldable pub word_size_of : ℕ → ℕ
word_size_of c =
    if c == b'b'
    then 1
    else if c == b'h'
    then 2
    else if c == b'w'
    then 4
    else if c == b'g'
    then 8
    else 0

abbrev pub flag : ℕ → String → Argument → Flag
flag short_name long_name arg = record {
  short_name = short_name;
  long_name = codes long_name;
  description = [];
  args = arg ∷ [];
}

abbrev singletons : Bytes → List Bytes
singletons [] = []
singletons (c ∷ cs) = (c ∷ []) ∷ singletons cs

abbrev pub letters : String → List Bytes
letters s = singletons (codes s)

unfoldable pub make_print : FlagsHandle → ArgsHandle → Result CommandFault Action
unfolding get_flag get_named get_at format_of
make_print flags handle = do
  c ← letter_of (get_flag b'f' flags)
  text ← get_named (codes "expr") handle
  ok (print_value (format_of c) text)

abbrev pub word_size_flag : Flag
word_size_flag = flag b'w' "word-size" (one_of "size" (letters "bhwg"))

unfoldable pub make_set : FlagsHandle → ArgsHandle → Result CommandFault Action
unfolding get_flag get_at word_size_of
make_set flags handle = do
  text ← get_at 0 handle
  c ← letter_of (get_flag b'w' flags)
  ok (set_value text (word_size_of c))

abbrev words_of : Option ArgsHandle → Result CommandFault ℕ
words_of none = ok 1
words_of (some handle) = do text ← get_at 0 handle; stoul_of text

unfoldable pub make_examine : FlagsHandle → ArgsHandle → Result CommandFault Action
unfolding get_flag get_at word_size_of stoul_of
make_examine flags handle = do
  text ← get_at 0 handle
  c ← letter_of (get_flag b'w' flags)
  num_words ← words_of (get_flag b'n' flags)
  ok (examine_at text (word_size_of c) num_words)
