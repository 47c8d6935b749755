-- ===== src/Expr/Parser.antt =====
-- src/REPL/Parser/Parser.hpp and src/REPL/Parser/Parser.cpp: operator precedence over two stacks.
-- The recursion of `parse_expression` and `parse_unit` takes fuel.
pub mod Print
pub mod Chains
pub mod Ends
pub mod Total
use xendbg.Prelude.{
  ℕ, zero, suc, ◌+◌, ◌*◌, Bool, true, false, ◌||◌, Option, none, some, if◌then◌else◌, ltb, List, [],
  ◌∷◌, ◌++◌, Bytes, length, Result, ok, err, ◌>>=◌,
}
use xendbg.Expr.Syntax.{
  SymbolType, plus, minus, star, slash, paren_left, paren_right, equals_sign, Token, UnaryOperator,
  dereference, negate, BinaryOperator, add, equals, divide, multiply, subtract, Operator, sentinel,
  unary, binary, Expression, unex, binex, precedence_of,
}
use xendbg.Expr.Tokenizer.{TokenizeError, Tokens, tokenize}

-- The exceptions, with the position that each names. `undefined` is `front` or `top` of an empty
-- container.
pub data ParseError : Type 0 where
  tokenize_error : TokenizeError → ParseError
  missing_expression : ℕ → ParseError
  missing_operand : ℕ → ParseError
  extra_token : ℕ → ParseError
  expect_missing_token : ParseError
  expect_wrong_token : ℕ → ParseError
  no_such_binary_operator : SymbolType → ParseError
  no_such_unary_operator : SymbolType → ParseError
  sentinel_merge : ParseError
  undefined : ParseError
  out_of_fuel : ParseError

pub record Parser : Type 0 where
  pub input_size : ℕ  -- `_input.size()`
  pub tokens : List Token
  pub tokens_pos : List ℕ
  pub operators : List Operator
  pub operands : List Expression

abbrev pub Parsed : Type 0
Parsed = Result ParseError Parser

unfoldable pub symbol_to_binop : SymbolType → Result ParseError BinaryOperator
symbol_to_binop plus = ok add
symbol_to_binop minus = ok subtract
symbol_to_binop star = ok multiply
symbol_to_binop slash = ok divide
symbol_to_binop equals_sign = ok equals
symbol_to_binop symbol = err (no_such_binary_operator symbol)

unfoldable pub symbol_to_unop : SymbolType → Result ParseError UnaryOperator
symbol_to_unop minus = ok negate
symbol_to_unop star = ok dereference
symbol_to_unop symbol = err (no_such_unary_operator symbol)

unfoldable pub tail_of {ℓ} : {A : Type ℓ} → List A → List A
tail_of [] = []
tail_of (x ∷ xs) = xs

-- Both queues are popped. The tokenizer gives each token a position, so neither is empty where a
-- token was seen; what C++ leaves undefined there does not come up.
unfoldable pub consume : Parser → Parser
unfolding tail_of
consume p = record p { tokens = tail_of p.tokens; tokens_pos = tail_of p.tokens_pos }

-- `_tokens_pos.front()` where the code does not test for emptiness.
unfoldable pub front_pos : (ℕ → ParseError) → List ℕ → ParseError
front_pos error [] = undefined
front_pos error (pos ∷ _) = error pos

-- `_tokens_pos.empty() ? _input.size() : _tokens_pos.front()`.
unfoldable pub pos_or_end : Parser → List ℕ → ℕ
pos_or_end p [] = p.input_size
pos_or_end p (pos ∷ _) = pos

-- The two cases of `pop_operator_and_merge` that need operands.
unfoldable pub merge_unary : UnaryOperator → Parser → List Expression → Parsed
merge_unary op p [] = err (missing_operand (pos_or_end p p.tokens_pos))
merge_unary op p (x ∷ xs) = ok (record p { operands = unex op x ∷ xs })

unfoldable pub merge_binary : BinaryOperator → Parser → List Expression → Parsed
merge_binary op p (y ∷ x ∷ xs) = ok (record p { operands = binex op x y ∷ xs })
merge_binary op p _ = err (missing_operand (pos_or_end p p.tokens_pos))

-- `pop_operator_and_merge` of an operator that was popped.
unfoldable pub merge_operator : Operator → Parser → Parsed
unfolding merge_unary merge_binary pos_or_end
merge_operator sentinel p = err sentinel_merge
merge_operator (unary op) p = merge_unary op p p.operands
merge_operator (binary op) p = merge_binary op p p.operands

-- The loop of `push_operator_and_merge` and the push; the list is the stack of operators.
unfoldable pub push_operator_and_merge : Operator → List Operator → Parser → Parsed
unfolding merge_operator
push_operator_and_merge op [] p = err undefined
push_operator_and_merge op (top ∷ rest) p =
    if ltb (precedence_of op) (precedence_of top)
    then (do
      p' ← merge_operator top (record p { operators = rest })
      push_operator_and_merge op rest p')
    else ok (record p { operators = op ∷ top ∷ rest })

-- `while (!is_sentinel(_operators.top())) pop_operator_and_merge();`.
unfoldable pub merge_to_sentinel : List Operator → Parser → Parsed
unfolding merge_operator
merge_to_sentinel [] p = err undefined
merge_to_sentinel (sentinel ∷ rest) p = ok p
merge_to_sentinel (unary op ∷ rest) p = do
  p' ← merge_operator (unary op) (record p { operators = rest })
  merge_to_sentinel rest p'
merge_to_sentinel (binary op ∷ rest) p = do
  p' ← merge_operator (binary op) (record p { operators = rest })
  merge_to_sentinel rest p'

abbrev pub push_operand : Expression → Parser → Parser
push_operand e p = record p { operands = e ∷ p.operands }

-- `expect` of a close-paren, and the pop of the sentinel behind it.
unfoldable pub expect_close : Parser → List Token → Parsed
unfolding consume front_pos
expect_close p [] = err expect_missing_token
expect_close p (Token.symbol paren_right ∷ _) =
    ok (consume (record p { operators = tail_of p.operators }))
expect_close p _ = err (front_pos expect_wrong_token p.tokens_pos)

-- The body of `parse_unit`, given the next token and the recursive calls.
unfoldable pub unit_body : (Parser → Parsed) → (Parser → Parsed) → Parser → List Token → Parsed
unfolding consume front_pos expect_close symbol_to_unop
unit_body unit expression p [] = err (missing_expression p.input_size)
unit_body unit expression p (Token.constant value ∷ _) =
    ok (consume (push_operand (Expression.constant value) p))
unit_body unit expression p (Token.label name ∷ _) =
    ok (consume (push_operand (Expression.label name) p))
unit_body unit expression p (Token.variable name ∷ _) =
    ok (consume (push_operand (Expression.variable name) p))
unit_body unit expression p (Token.symbol paren_left ∷ _) = do
  p' ← expression (record (consume p) { operators = sentinel ∷ p.operators })
  expect_close p' p'.tokens
unit_body unit expression p (Token.symbol minus ∷ _) = do
  op ← symbol_to_unop minus
  p' ← push_operator_and_merge (unary op) p.operators p
  unit (consume p')
unit_body unit expression p (Token.symbol star ∷ _) = do
  op ← symbol_to_unop star
  p' ← push_operator_and_merge (unary op) p.operators p
  unit (consume p')
unit_body unit expression p (Token.symbol _ ∷ _) = err (front_pos missing_expression p.tokens_pos)

-- `if (_tokens.empty()) throw ...; parse_unit();` behind an operator.
unfoldable pub operand_body : (Parser → Parsed) → Parser → List Token → Parsed
operand_body unit p [] = err (missing_expression p.input_size)
operand_body unit p (_ ∷ _) = unit p

-- One round of the loop of `parse_expression` for a binary operator symbol.
unfoldable pub round_body : (Parser → Parsed) → (Parser → Parsed) → Parser → SymbolType → Parsed
unfolding symbol_to_binop consume
round_body unit loop p symbol = do
  op ← symbol_to_binop symbol
  p' ← push_operator_and_merge (binary op) p.operators p
  p'' ← operand_body unit (consume p') (consume p').tokens
  loop p''

unfoldable pub loop_body : (Parser → Parsed) → (Parser → Parsed) → Parser → List Token → Parsed
unfolding round_body
loop_body unit loop p (Token.symbol paren_left ∷ _) = ok p
loop_body unit loop p (Token.symbol paren_right ∷ _) = ok p
loop_body unit loop p (Token.symbol symbol ∷ _) = round_body unit loop p symbol
loop_body unit loop p _ = ok p

-- What is being run: `parse_unit`, `parse_expression`, or the first loop of the latter.
pub data Mode : Type 0 where
  unit expression loop : Mode

unfoldable pub run : ℕ → Mode → Parser → Parsed
run zero mode p = err out_of_fuel
run (suc fuel) unit p = unit_body (run fuel unit) (run fuel expression) p p.tokens
run (suc fuel) expression p = do
  p' ← run fuel unit p
  p'' ← run fuel loop p'
  merge_to_sentinel p''.operators p''
run (suc fuel) loop p = loop_body (run fuel unit) (run fuel loop) p p.tokens

abbrev pub enough : ℕ → ℕ
enough n = n * 3 + 2

-- The end of `parse`: `_operands.top()`.
unfoldable pub result_of : Parser → List Expression → Result ParseError Expression
result_of p [] = err undefined
result_of p (e ∷ _) = ok e

unfoldable pub finish : Parser → List Token → Result ParseError Expression
unfolding result_of front_pos
finish p [] = result_of p p.operands
finish p (_ ∷ _) = err (front_pos extra_token p.tokens_pos)

-- `parse` after `tokenize`. `_tokens_pos` is not cleared: `stale` is what an earlier call left.
unfoldable pub parse_tokens : List ℕ → ℕ → Tokens → Result ParseError Expression
unfolding run finish unit_body loop_body operand_body push_operator_and_merge merge_to_sentinel
parse_tokens stale input_size (tokens, positions) = do
  p ← run (enough (length tokens)) expression (record {
    input_size = input_size;
    tokens = tokens;
    tokens_pos = stale ++ positions;
    operators = sentinel ∷ [];
    operands = [];
  })
  finish p p.tokens

unfoldable pub parse_after : List ℕ → ℕ → Result TokenizeError Tokens → Result ParseError Expression
unfolding parse_tokens
parse_after stale input_size (ok tokens) = parse_tokens stale input_size tokens
parse_after stale input_size (err e) = err (tokenize_error e)

unfoldable pub parse : List ℕ → Bytes → Result ParseError Expression
unfolding parse_after tokenize
parse stale input = parse_after stale (length input) (tokenize input)
