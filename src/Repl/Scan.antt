-- ===== src/Repl/Scan.antt =====
-- include/Util/string.hpp, and the matchers of src/REPL/Command/MatchHelper.hpp. An iterator into a
-- line is the rest of the line from there on; the end of the line is the empty rest.
use xendbg.Prelude.{
  ℕ, ◌-◌, Bool, true, false, ◌||◌, ◌==◌, if◌then◌else◌, List, [], ◌∷◌, Bytes, length, take, drop,
  Result, ok, err,
}
use xendbg.Text.{is_space, skip_spaces, stoul, StoulError, invalid_argument, out_of_range}
use xendbg.Registers.{same_text}

-- Two iterators into one line are equal, and `std::string(begin, end)`.
abbrev pub same_place : Bytes → Bytes → Bool
same_place it it' = length it == length it'

abbrev pub text_between : Bytes → Bytes → Bytes
text_between begin end = take (length begin - length end) begin

unfoldable pub next_char : ℕ → Bytes → Bytes
next_char c [] = []
next_char c (d ∷ s) = if d == c then d ∷ s else next_char c s

unfoldable pub next_not_char : ℕ → Bytes → Bytes
next_not_char c [] = []
next_not_char c (d ∷ s) = if d == c then next_not_char c s else d ∷ s

unfoldable pub next_whitespace : Bytes → Bytes
unfolding is_space
next_whitespace [] = []
next_whitespace (c ∷ s) = if is_space c then c ∷ s else next_whitespace s

abbrev pub is_quote : ℕ → Bool
is_quote c = c == 34 || c == 39

-- What `std::find` came to: the end of the line, or a delimiter that is passed.
abbrev pub behind_delimiter : Bytes → Bytes → Bytes
behind_delimiter begin [] = begin
behind_delimiter begin (_ ∷ rest) = rest

-- The search for the closing delimiter starts at the opening one.
unfoldable pub match_optionally_quoted_string : Bytes → Bytes
unfolding next_char next_whitespace
match_optionally_quoted_string [] = []
match_optionally_quoted_string (c ∷ s) =
    if is_quote c then behind_delimiter (c ∷ s) (next_char c (c ∷ s)) else next_whitespace (c ∷ s)

unfoldable pub is_prefix : Bytes → Bytes → Bool
is_prefix [] s = true
is_prefix (c ∷ target) [] = false
is_prefix (c ∷ target) (d ∷ s) = let rest = is_prefix target s in if c == d then rest else false

-- The end of the first word, if that word is the target, else the iterator itself.
unfoldable pub expect : Bytes → Bytes → Bytes
unfolding skip_spaces next_whitespace same_text
expect target begin =
    let first = skip_spaces begin in
    let next = next_whitespace first in
    if same_text target (text_between first next) then next else begin

-- A matcher throws where std::stoul finds a number that is too large.
abbrev pub Matcher : Type 0
Matcher = Bytes → Result StoulError Bytes

abbrev pub match_everything : Matcher
match_everything begin = ok []

abbrev pub match_word : Matcher
match_word begin = ok (next_whitespace begin)

abbrev pub match_quoted : Matcher
match_quoted begin = ok (match_optionally_quoted_string begin)

abbrev number_end : Bytes → Bytes → Result StoulError (ℕ × Bytes) → Result StoulError Bytes
number_end begin ws (ok found) = ok ws
number_end begin ws (err invalid_argument) = ok begin
number_end begin ws (err out_of_range) = err out_of_range

unfoldable pub match_number_unsigned : Matcher
unfolding next_whitespace stoul
match_number_unsigned begin =
    number_end begin (next_whitespace begin) (stoul 10 (text_between begin (next_whitespace begin)))

-- Past the first option that the rest of the line starts with.
unfoldable pub make_match_one_of : List Bytes → Matcher
unfolding is_prefix
make_match_one_of [] begin = ok begin
make_match_one_of (opt ∷ options) begin =
    let rest = make_match_one_of options begin in
    if is_prefix opt begin then ok (drop (length opt) begin) else rest
