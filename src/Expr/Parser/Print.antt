-- ===== src/Expr/Parser/Print.antt =====
-- Every expression has tokens that parse as it: those that put each operation in parentheses.
use native.Mathlib.Numerals.{add-two}
use xendbg.Prelude.{
  ℕ, zero, suc, ◌+◌, ◌*◌, ◌≤◌, ◌≡◌, refl, ap, ◌∙◌, List, [], ◌∷◌, ◌++◌, length, ok, ◌>>=◌, arith,
}
use xendbg.Expr.Syntax.{
  SymbolType, plus, minus, star, slash, paren_left, paren_right, equals_sign, Token, UnaryOperator,
  dereference, negate, BinaryOperator, add, equals, divide, multiply, subtract, Operator, sentinel,
  unary, binary, Expression, unex, binex,
}
use xendbg.Expr.Parser.{
  Parser, Parsed, unit, expression, loop, run, unit_body, loop_body, operand_body,
  merge_to_sentinel, push_operator_and_merge, tail_of, finish, parse_tokens,
}

abbrev pub unop_symbol : UnaryOperator → SymbolType
unop_symbol dereference = star
unop_symbol negate = minus

abbrev pub binop_symbol : BinaryOperator → SymbolType
binop_symbol add = plus
binop_symbol equals = equals_sign
binop_symbol divide = slash
binop_symbol multiply = star
binop_symbol subtract = minus

abbrev pub open_paren : Token
open_paren = Token.symbol paren_left

abbrev pub close_paren : Token
close_paren = Token.symbol paren_right

-- The tokens of an expression, with `rest` behind them.
unfoldable pub print_onto : Expression → List Token → List Token
print_onto (Expression.constant value) rest = Token.constant value ∷ rest
print_onto (Expression.label name) rest = Token.label name ∷ rest
print_onto (Expression.variable name) rest = Token.variable name ∷ rest
print_onto (unex op x) rest =
    open_paren ∷ Token.symbol (unop_symbol op) ∷ print_onto x (close_paren ∷ rest)
print_onto (binex op x y) rest =
    open_paren ∷ print_onto x (Token.symbol (binop_symbol op) ∷ print_onto y (close_paren ∷ rest))

unfoldable pub print : Expression → List Token
unfolding print_onto
print e = print_onto e []

-- The calls that stand one in another while the tokens of an expression are read.
unfoldable pub need : Expression → ℕ
need (unex op x) = need x + 3
need (binex op x y) = need x + need y + 3
need _ = 1

abbrev pub state : ℕ → List Token → List ℕ → List Operator → List Expression → Parser
state size tokens tokens_pos operators operands = record {
  input_size = size;
  tokens = tokens;
  tokens_pos = tokens_pos;
  operators = operators;
  operands = operands;
}

-- `parse_unit` reads the tokens of `e`, and leaves `e` on the operands and the operators alone.
unfoldable pub Reads : ℕ → Expression → Type 0
Reads fuel e =
    (size : ℕ) (rest : List Token) (pos : List ℕ) (ops : List Operator) (vals : List Expression)
    → (pos' : List ℕ) × (run fuel unit (state size (print_onto e rest) pos ops vals)
        ≡ ok (state size rest pos' ops (e ∷ vals)))

-- An operator that follows the sentinel is pushed.
pub push_first :
    (op : Operator) (ops : List Operator) (p : Parser)
    → push_operator_and_merge op (sentinel ∷ ops) p
      ≡ ok (record p { operators = op ∷ sentinel ∷ ops })
unfolding push_operator_and_merge
push_first sentinel ops p = refl
push_first (unary dereference) ops p = refl
push_first (unary negate) ops p = refl
push_first (binary op) ops p = ground arith

unary_Reads :
    (fuel : ℕ) (op : UnaryOperator) (x : Expression)
    → Reads fuel x
    → Reads (suc (suc (suc fuel))) (unex op x)
unfolding Reads print_onto run unit_body loop_body merge_to_sentinel push_operator_and_merge
unary_Reads fuel negate x h size rest pos ops vals =
    let (pos', e) =
      h size (close_paren ∷ rest) (tail_of (tail_of pos)) (unary negate ∷ sentinel ∷ ops) vals in
    (tail_of pos', rw e refl)
unary_Reads fuel dereference x h size rest pos ops vals =
    let (pos', e) =
      h size (close_paren ∷ rest) (tail_of (tail_of pos)) (unary dereference ∷ sentinel ∷ ops)
        vals in
    (tail_of pos', rw e refl)

operand_body-print_onto :
    (next : Parser → Parsed) (p : Parser) (y : Expression) (rest : List Token)
    → operand_body next p (print_onto y rest) ≡ next p
unfolding operand_body print_onto
operand_body-print_onto next p (Expression.constant v) rest = refl
operand_body-print_onto next p (Expression.label v) rest = refl
operand_body-print_onto next p (Expression.variable v) rest = refl
operand_body-print_onto next p (unex op x) rest = refl
operand_body-print_onto next p (binex op x y) rest = refl

-- A round of the loop at a binary operator, once its operator is pushed.
pub run_loop-binop :
    (fuel : ℕ) (op : BinaryOperator) (size : ℕ) (y : Expression) (rest : List Token) (pos : List ℕ)
    (ops ops' : List Operator) (vals vals' : List Expression)
    → push_operator_and_merge
        (binary op)
        ops
        (state size (Token.symbol (binop_symbol op) ∷ print_onto y rest) pos ops vals)
      ≡ ok (state size (Token.symbol (binop_symbol op) ∷ print_onto y rest) pos ops' vals')
    → run
        (suc fuel)
        loop
        (state size (Token.symbol (binop_symbol op) ∷ print_onto y rest) pos ops vals)
      ≡ (run fuel unit (state size (print_onto y rest) (tail_of pos) ops' vals') >>= run fuel loop)
unfolding run loop_body
run_loop-binop fuel add size y rest pos ops ops' vals vals' e = rw e (rw operand_body-print_onto)
run_loop-binop fuel equals size y rest pos ops ops' vals vals' e = rw e (rw operand_body-print_onto)
run_loop-binop fuel divide size y rest pos ops ops' vals vals' e = rw e (rw operand_body-print_onto)
run_loop-binop fuel multiply size y rest pos ops ops' vals vals' e =
    rw e (rw operand_body-print_onto)
run_loop-binop fuel subtract size y rest pos ops ops' vals vals' e =
    rw e (rw operand_body-print_onto)

pub run_expression :
    (fuel : ℕ) (p p' p'' : Parser)
    → run fuel unit p ≡ ok p'
    → run fuel loop p' ≡ ok p''
    → run (suc fuel) expression p ≡ merge_to_sentinel p''.operators p''
unfolding run
run_expression fuel p p' p'' e e' = rw e (rw e')

run_unit_paren :
    (fuel size : ℕ) (ts rest : List Token) (pos pos' : List ℕ) (ops : List Operator)
    (vals vals' : List Expression)
    → run fuel expression (state size ts (tail_of pos) (sentinel ∷ ops) vals)
      ≡ ok (state size (close_paren ∷ rest) pos' (sentinel ∷ ops) vals')
    → run (suc fuel) unit (state size (open_paren ∷ ts) pos ops vals)
      ≡ ok (state size rest (tail_of pos') ops vals')
unfolding run unit_body
run_unit_paren fuel size ts rest pos pos' ops vals vals' e = rw e refl

run_loop_close :
    (fuel size : ℕ) (rest : List Token) (pos : List ℕ) (ops : List Operator)
    (vals : List Expression)
    → run (suc fuel) loop (state size (close_paren ∷ rest) pos ops vals)
      ≡ ok (state size (close_paren ∷ rest) pos ops vals)
unfolding run loop_body
run_loop_close fuel size rest pos ops vals = refl

merge_one_binary :
    (op : BinaryOperator) (size : ℕ) (ts : List Token) (pos : List ℕ) (ops : List Operator)
    (x y : Expression) (vals : List Expression)
    → merge_to_sentinel
        (binary op ∷ sentinel ∷ ops)
        (state size ts pos (binary op ∷ sentinel ∷ ops) (y ∷ x ∷ vals))
      ≡ ok (state size ts pos (sentinel ∷ ops) (binex op x y ∷ vals))
unfolding merge_to_sentinel
merge_one_binary op size ts pos ops x y vals = refl

-- Two printed operands with an operator between them, behind a sentinel.
binary_inside :
    (fuel : ℕ) (op : BinaryOperator) (x y : Expression) (size : ℕ) (rest : List Token)
    (pos : List ℕ) (ops : List Operator) (vals : List Expression)
    → Reads (suc (suc fuel)) x
    → Reads (suc fuel) y
    → (pos' : List ℕ) × (run (suc (suc (suc fuel))) expression (
          state size
            (print_onto x (Token.symbol (binop_symbol op) ∷ print_onto y (close_paren ∷ rest)))
            pos
            (sentinel ∷ ops)
            vals)
        ≡ ok (state size (close_paren ∷ rest) pos' (sentinel ∷ ops) (binex op x y ∷ vals)))
unfolding Reads
binary_inside fuel op x y size rest pos ops vals hx hy =
    let (pos1, ex) =
      hx size (Token.symbol (binop_symbol op) ∷ print_onto y (close_paren ∷ rest)) pos
        (sentinel ∷ ops) vals in
    let (pos2, ey) =
      hy size (close_paren ∷ rest) (tail_of pos1) (binary op ∷ sentinel ∷ ops) (x ∷ vals) in
    let pushed =
      run_loop-binop (suc fuel) op size y (close_paren ∷ rest) pos1 (sentinel ∷ ops)
        (binary op ∷ sentinel ∷ ops) (x ∷ vals) (x ∷ vals) (push_first (binary op) ops _) in
    (
      pos2,
      run_expression (suc (suc fuel)) _ _ _ ex
            (pushed ∙ rw ey (run_loop_close fuel size rest pos2 _ _))
          ∙ merge_one_binary op size (close_paren ∷ rest) pos2 ops x y vals,
    )

binary_Reads :
    (fuel : ℕ) (op : BinaryOperator) (x y : Expression)
    → Reads (suc (suc fuel)) x
    → Reads (suc fuel) y
    → Reads (suc (suc (suc (suc fuel)))) (binex op x y)
unfolding Reads print_onto
binary_Reads fuel op x y hx hy size rest pos ops vals =
    let (pos', e) = binary_inside fuel op x y size rest (tail_of pos) ops vals hx hy in
    (
      tail_of pos',
      run_unit_paren (suc (suc (suc fuel))) size _ rest pos pos' ops vals (binex op x y ∷ vals) e,
    )

pos_need : (e : Expression) → 1 ≤ need e
unfolding need
pos_need (Expression.constant v) = omega arith
pos_need (Expression.label v) = omega arith
pos_need (Expression.variable v) = omega arith
pos_need (unex op x) = omega arith
pos_need (binex op x y) = omega arith

needs_unex :
    (op : UnaryOperator) (x : Expression) (fuel : ℕ)
    → need (unex op x) ≤ suc (suc (suc fuel))
    → need x ≤ fuel
unfolding need
needs_unex op x fuel h = omega arith

needs_binex :
    (op : BinaryOperator) (x y : Expression) (fuel : ℕ)
    → need (binex op x y) ≤ suc (suc (suc (suc fuel)))
    → (need x ≤ suc (suc fuel)) × (need y ≤ suc fuel)
unfolding need
needs_binex op x y fuel h = omega (arith, pos_need x, pos_need y)

-- Enough fuel is given by `need`.
pub Reads-need : (fuel : ℕ) (e : Expression) → need e ≤ fuel → Reads fuel e
Reads-need zero e h = absurd (omega (arith, pos_need e))
Reads-need (suc fuel) (Expression.constant v) h =
    unfold Reads run unit_body print_onto in λ size rest pos ops vals. (tail_of pos, refl)
Reads-need (suc fuel) (Expression.label v) h =
    unfold Reads run unit_body print_onto in λ size rest pos ops vals. (tail_of pos, refl)
Reads-need (suc fuel) (Expression.variable v) h =
    unfold Reads run unit_body print_onto in λ size rest pos ops vals. (tail_of pos, refl)
Reads-need (suc zero) (unex op x) h = absurd (unfold need in omega arith)
Reads-need (suc (suc zero)) (unex op x) h = absurd (unfold need in omega arith)
Reads-need (suc (suc (suc fuel))) (unex op x) h =
    unary_Reads fuel op x (Reads-need fuel x (needs_unex op x fuel h))
Reads-need (suc zero) (binex op x y) h = absurd (unfold need in omega arith)
Reads-need (suc (suc zero)) (binex op x y) h = absurd (unfold need in omega arith)
Reads-need (suc (suc (suc zero))) (binex op x y) h =
    absurd (unfold need in omega (arith, pos_need x, pos_need y))
Reads-need (suc (suc (suc (suc fuel)))) (binex op x y) h =
    binary_Reads fuel op x y (Reads-need (suc (suc fuel)) x (needs_binex op x y fuel h).0)
      (Reads-need (suc fuel) y (needs_binex op x y fuel h).1)

pub need-length :
    (e : Expression) (rest : List Token) → need e + length rest * 3 ≤ length (print_onto e rest) * 3
unfolding need print_onto
need-length (Expression.constant v) rest = omega arith
need-length (Expression.label v) rest = omega arith
need-length (Expression.variable v) rest = omega arith
need-length (unex op x) rest = omega (arith, need-length x (close_paren ∷ rest))
need-length (binex op x y) rest = omega (
  arith,
  need-length x (Token.symbol (binop_symbol op) ∷ print_onto y (close_paren ∷ rest)),
  need-length y (close_paren ∷ rest),
)

-- The state in which `parse` starts.
abbrev pub initial : List ℕ → ℕ → List Token → List ℕ → Parser
initial stale size tokens pos = state size tokens (stale ++ pos) (sentinel ∷ []) []

pub parse_tokens-run :
    (stale pos : List ℕ) (size : ℕ) (tokens : List Token) (r : Parsed)
    → run (suc (suc (length tokens * 3))) expression (initial stale size tokens pos) ≡ r
    → parse_tokens stale size (tokens, pos) ≡ (r >>= λ p. finish p p.tokens)
parse_tokens-run stale pos size tokens r e =
    unfold parse_tokens in rw add-two (ap (λ (m : Parsed). m >>= λ p. finish p p.tokens) e)

pub run_loop_end :
    (fuel size : ℕ) (pos : List ℕ) (ops : List Operator) (vals : List Expression)
    → run (suc fuel) loop (state size [] pos ops vals) ≡ ok (state size [] pos ops vals)
unfolding run loop_body
run_loop_end fuel size pos ops vals = refl

-- Every expression is what `parse` makes of its printed tokens, whatever positions they have and
-- whatever positions an earlier call left behind.
pub parse_tokens-print :
    (e : Expression) (stale pos : List ℕ) (size : ℕ) → parse_tokens stale size (print e, pos) ≡ ok e
unfolding print Reads merge_to_sentinel finish
parse_tokens-print e stale pos size =
    let n = length (print_onto e []) * 3 in
    let (pos', read) =
      Reads-need (suc n) e (omega (arith, need-length e [])) size [] (stale ++ pos) (sentinel ∷ [])
        [] in
    parse_tokens-run stale pos size (print_onto e []) _
      (run_expression (suc n) _ _ _ read (run_loop_end n size pos' (sentinel ∷ []) (e ∷ [])))
