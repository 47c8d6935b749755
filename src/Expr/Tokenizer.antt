-- ===== src/Expr/Tokenizer.antt =====
-- src/REPL/Parser/Tokenizer.hpp and the `match` functions of src/REPL/Parser/Token.
pub mod Numbers
pub mod Total
use xendbg.Prelude.{
  ℕ, zero, suc, ◌-◌, Bool, ◌&&◌, ◌||◌, Option, none, some, ◌==◌, if◌then◌else◌, List, [], ◌∷◌,
  Bytes, length, Result, ok, err,
}
use xendbg.Text.{is_alpha, is_digit, skip_spaces, stoul, StoulError, invalid_argument, out_of_range}
use xendbg.Expr.Syntax.{
  SymbolType, plus, minus, star, slash, paren_left, paren_right, equals_sign, Token,
}

-- A token and the text behind it, no match, or the std::out_of_range that nobody catches.
pub data TokenMatch : Type 0 where
  matched : Token → Bytes → TokenMatch
  unmatched : TokenMatch
  number_out_of_range : TokenMatch

-- `skip`: past `0b` or `0x`.
unfoldable pub base_of : Bytes → ℕ × Bytes
base_of (z ∷ c ∷ cs) =
    if z == b'0' && c == b'b'
    then (2, cs)
    else if z == b'0' && c == b'x'
    then (16, cs)
    else (10, z ∷ c ∷ cs)
base_of s = (10, s)

unfoldable pub constant_of : Result StoulError (ℕ × Bytes) → TokenMatch
constant_of (ok (value, rest)) = matched (Token.constant value) rest
constant_of (err invalid_argument) = unmatched
constant_of (err out_of_range) = number_out_of_range

unfoldable pub match_number : ℕ × Bytes → TokenMatch
unfolding constant_of stoul
match_number (base, s) = constant_of (stoul base s)

unfoldable pub match_constant : Bytes → TokenMatch
unfolding match_number base_of
match_constant [] = unmatched
match_constant (c ∷ cs) =
    if c == b'-' || c == b'+' then unmatched else match_number (base_of (c ∷ cs))

unfoldable pub is_word : ℕ → Bool
unfolding is_alpha is_digit
is_word c = is_alpha c || is_digit c || c == b'_'

-- The longest run of `[A-Za-z0-9_]`, and the rest.
unfoldable pub span_word : Bytes → Bytes × Bytes
unfolding is_word
span_word [] = ([], [])
span_word (c ∷ cs) =
    let (word, rest) = span_word cs in if is_word c then (c ∷ word, rest) else ([], c ∷ cs)

unfoldable pub match_name : (Bytes → Token) → Bytes → TokenMatch
unfolding span_word
match_name token s = let (word, rest) = span_word s in matched (token word) rest

-- `^\&[A-Za-z_][A-Za-z0-9_]*`.
unfoldable pub match_label : Bytes → TokenMatch
unfolding match_name is_alpha
match_label (m ∷ c ∷ cs) =
    if m == b'&' && (is_alpha c || c == b'_') then match_name Token.label (c ∷ cs) else unmatched
match_label _ = unmatched

-- `^\$[A-Za-z][A-Za-z0-9_]*`.
unfoldable pub match_variable : Bytes → TokenMatch
unfolding match_name is_alpha
match_variable (m ∷ c ∷ cs) =
    if m == b'$' && is_alpha c then match_name Token.variable (c ∷ cs) else unmatched
match_variable _ = unmatched

unfoldable pub symbol_of : ℕ → Option SymbolType
symbol_of c =
    if c == b'+'
    then some plus
    else if c == b'-'
    then some minus
    else if c == b'*'
    then some star
    else if c == b'/'
    then some slash
    else if c == b'('
    then some paren_left
    else if c == b')'
    then some paren_right
    else if c == b'='
    then some equals_sign
    else none

unfoldable pub match_symbol : Bytes → TokenMatch
unfolding symbol_of
match_symbol [] = unmatched
match_symbol (c ∷ cs) = elim (symbol_of c) [
  | none ↦ unmatched
  | some type ↦ matched (Token.symbol type) cs
]

-- `if (result.first) return result; else ...`.
abbrev pub or_else : TokenMatch → TokenMatch → TokenMatch
or_else (matched token rest) next = matched token rest
or_else unmatched next = next
or_else number_out_of_range next = number_out_of_range

unfoldable pub match_tokens : Bytes → TokenMatch
unfolding match_constant match_label match_symbol match_variable
match_tokens s =
    or_else (match_constant s)
      (or_else (match_label s) (or_else (match_symbol s) (match_variable s)))

pub data TokenizeError : Type 0 where
  invalid_input : ℕ → TokenizeError
  uncaught_out_of_range : TokenizeError
  out_of_fuel : TokenizeError

-- The tokens, and the position of each in the input.
abbrev pub Tokens : Type 0
Tokens = List Token × List ℕ

abbrev pub push_token : Token → ℕ → Result TokenizeError Tokens → Result TokenizeError Tokens
push_token token pos (ok (tokens, positions)) = ok (token ∷ tokens, pos ∷ positions)
push_token token pos (err e) = err e

-- `while (pos != end)`; `total` is the length of the input.
unfoldable pub tokenize_from : ℕ → ℕ → Bytes → Result TokenizeError Tokens
unfolding match_tokens skip_spaces
tokenize_from fuel total [] = ok ([], [])
tokenize_from zero total (c ∷ cs) = err out_of_fuel
tokenize_from (suc fuel) total (c ∷ cs) =
    let pos = total - length (c ∷ cs) in
    elim (match_tokens (c ∷ cs)) [
      | matched token rest ↦ push_token token pos (tokenize_from fuel total (skip_spaces rest))
      | unmatched ↦ err (invalid_input pos)
      | number_out_of_range ↦ err uncaught_out_of_range
    ]

unfoldable pub tokenize : Bytes → Result TokenizeError Tokens
unfolding tokenize_from
tokenize input = tokenize_from (length input) (length input) (skip_spaces input)
