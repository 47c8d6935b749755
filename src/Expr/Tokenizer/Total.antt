-- ===== src/Expr/Tokenizer/Total.antt =====
-- The tokenizer's loop ends: each token takes a character or more.
use xendbg.Prelude.{
  ℕ, zero, suc, ◌-◌, ◌≤◌, ◌<◌, ◌≢◌, Bool-cases, Option-cases, inl, inr, ◌&&◌, ◌||◌, ◌==◌, [], ◌∷◌,
  Bytes, length, Result, ok, err, arith,
}
use xendbg.Text.{skip_spaces, is_alpha, StoulError, invalid_argument, out_of_range}
use xendbg.Expr.Syntax.{Token}
use xendbg.Expr.Tokenizer.{
  TokenMatch, matched, unmatched, number_out_of_range, base_of, constant_of, match_number,
  match_constant, is_word, span_word, match_name, match_label, match_variable, symbol_of,
  match_symbol, or_else, match_tokens, TokenizeError, Tokens, out_of_fuel, invalid_input,
  uncaught_out_of_range, push_token, tokenize_from, tokenize,
}
use xendbg.Expr.Tokenizer.Numbers.{skip_spaces_le, ReadsSome, weaken-ReadsSome, stoul-ReadsSome}

-- A token that is found leaves less than `n` characters.
abbrev TakesSome : ℕ → TokenMatch → Type 0
TakesSome n (matched token rest) = length rest < n
TakesSome n _ = Unit

constant_of-TakesSome :
    (n : ℕ) (r : Result StoulError (ℕ × Bytes)) → ReadsSome n r → TakesSome n (constant_of r)
unfolding constant_of
constant_of-TakesSome n (ok (v, rest)) h = h
constant_of-TakesSome n (err invalid_argument) h = tt
constant_of-TakesSome n (err out_of_range) h = tt

base_of_le : (s : Bytes) → length (base_of s).1 ≤ length s
unfolding base_of
base_of_le [] = omega arith
base_of_le (c ∷ []) = omega arith
base_of_le (z ∷ c ∷ cs) = elim (Bool-cases (z == b'0' && c == b'b')) [
  | inl e ↦ rw e (omega arith)
  | inr e ↦ rw e (elim (Bool-cases (z == b'0' && c == b'x')) [
    | inl p ↦ rw p (omega arith)
    | inr p ↦ rw p (omega arith)
  ])
]

match_constant-TakesSome : (s : Bytes) → TakesSome (length s) (match_constant s)
unfolding match_constant match_number
match_constant-TakesSome [] = tt
match_constant-TakesSome (c ∷ cs) = elim (Bool-cases (c == b'-' || c == b'+')) [
  | inl e ↦ rw e tt
  | inr e ↦ rw e (
      constant_of-TakesSome (suc (length cs)) _ (
        weaken-ReadsSome (length (base_of (c ∷ cs)).1) (suc (length cs)) _ (base_of_le (c ∷ cs))
          (stoul-ReadsSome (base_of (c ∷ cs)).0 (base_of (c ∷ cs)).1)))
]

span_word_le : (s : Bytes) → length (span_word s).1 ≤ length s
unfolding span_word
span_word_le [] = omega arith
span_word_le (c ∷ cs) = elim (Bool-cases (is_word c)) [
  | inl e ↦ rw e (omega (arith, span_word_le cs))
  | inr e ↦ rw e (omega arith)
]

match_name-TakesSome :
    (token : Bytes → Token) (s : Bytes) (n : ℕ) → length s < n → TakesSome n (match_name token s)
unfolding match_name
match_name-TakesSome token s n h = omega (arith, h, span_word_le s)

match_label-TakesSome : (s : Bytes) → TakesSome (length s) (match_label s)
unfolding match_label
match_label-TakesSome [] = tt
match_label-TakesSome (m ∷ []) = tt
match_label-TakesSome (m ∷ c ∷ cs) = elim (Bool-cases (m == b'&' && (is_alpha c || c == b'_'))) [
  | inl e ↦ rw e (match_name-TakesSome Token.label (c ∷ cs) (length (m ∷ c ∷ cs)) (omega arith))
  | inr e ↦ rw e tt
]

match_variable-TakesSome : (s : Bytes) → TakesSome (length s) (match_variable s)
unfolding match_variable
match_variable-TakesSome [] = tt
match_variable-TakesSome (m ∷ []) = tt
match_variable-TakesSome (m ∷ c ∷ cs) = elim (Bool-cases (m == b'$' && is_alpha c)) [
  | inl e ↦ rw e (match_name-TakesSome Token.variable (c ∷ cs) (length (m ∷ c ∷ cs)) (omega arith))
  | inr e ↦ rw e tt
]

match_symbol-TakesSome : (s : Bytes) → TakesSome (length s) (match_symbol s)
unfolding match_symbol
match_symbol-TakesSome [] = tt
match_symbol-TakesSome (c ∷ cs) = elim (Option-cases (symbol_of c)) [
  | inl e ↦ rw (e, match_symbol) tt
  | inr (type, e) ↦ rw (e, match_symbol) (omega arith)
]

or_else-TakesSome :
    (n : ℕ) (m next : TokenMatch) → TakesSome n m → TakesSome n next → TakesSome n (or_else m next)
or_else-TakesSome n (matched token rest) next h k = h
or_else-TakesSome n unmatched next h k = k
or_else-TakesSome n number_out_of_range next h k = tt

match_tokens-TakesSome : (s : Bytes) → TakesSome (length s) (match_tokens s)
unfolding match_tokens
match_tokens-TakesSome s =
    or_else-TakesSome (length s) (match_constant s) _ (match_constant-TakesSome s) (
      or_else-TakesSome (length s) (match_label s) _ (match_label-TakesSome s) (
        or_else-TakesSome (length s) (match_symbol s) _ (match_symbol-TakesSome s)
          (match_variable-TakesSome s)))

push_token-ne :
    (token : Token) (pos : ℕ) (r : Result TokenizeError Tokens)
    → r ≢ err out_of_fuel
    → push_token token pos r ≢ err out_of_fuel
push_token-ne token pos (ok t) h = λ x. cc
push_token-ne token pos (err e) h = h

tokenize_from-ne :
    (fuel total : ℕ) (s : Bytes) → length s ≤ fuel → tokenize_from fuel total s ≢ err out_of_fuel
unfolding tokenize_from
tokenize_from-ne fuel total [] h = λ x. cc
tokenize_from-ne zero total (c ∷ cs) h = absurd (omega (arith, h))
tokenize_from-ne (suc fuel) total (c ∷ cs) h =
    go (match_tokens (c ∷ cs)) (match_tokens-TakesSome (c ∷ cs)) (λ rest shorter.
      tokenize_from-ne fuel total (skip_spaces rest)
        (omega (arith, skip_spaces_le rest, shorter, h)))
  where
    go :
        (m : TokenMatch)
        → TakesSome (suc (length cs)) m
        → ((rest : Bytes)
            → length rest < suc (length cs)
            → tokenize_from fuel total (skip_spaces rest) ≢ err out_of_fuel)
        → elim m as (λ _. Result TokenizeError Tokens) [
          | matched token rest ↦
              push_token token
                (total - suc (length cs))
                (tokenize_from fuel total (skip_spaces rest))
          | unmatched ↦ err (invalid_input (total - suc (length cs)))
          | number_out_of_range ↦ err uncaught_out_of_range
        ]
          ≢ err out_of_fuel
    go (matched token rest) shorter ih =
        push_token-ne token (total - suc (length cs)) _ (ih rest shorter)
    go unmatched shorter ih = λ x. cc
    go number_out_of_range shorter ih = λ x. cc

-- On any input the tokenizer comes to an end within one round for each character, with the tokens
-- or with an error of its own.
pub tokenize-ne-out_of_fuel : (input : Bytes) → tokenize input ≢ err out_of_fuel
unfolding tokenize
tokenize-ne-out_of_fuel input =
    tokenize_from-ne (length input) (length input) (skip_spaces input) (skip_spaces_le input)
