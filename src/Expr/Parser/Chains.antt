-- ===== src/Expr/Parser/Chains.antt =====
-- How the precedences of two operators decide what an unparenthesised input means.
use mathlib.Core.Path.{subst}
use xendbg.Prelude.{
  ℕ, suc, ◌-◌, ◌*◌, ◌≡◌, refl, sym, ap, ◌∙◌, Bool, true, false, List, [], ◌∷◌, ◌++◌, length, ltb,
  ok, ◌>>=◌, arith,
}
use xendbg.Expr.Syntax.{
  Token, BinaryOperator, Operator, sentinel, binary, Expression, binex, precedence_of,
  binary_precedence,
}
use xendbg.Expr.Parser.{
  Parser, Parsed, expression, run, push_operator_and_merge, merge_operator, merge_to_sentinel,
  tail_of, parse_tokens, finish,
}
use xendbg.Expr.Parser.Print.{
  binop_symbol, print_onto, need-length, Reads, Reads-need, state, push_first, run_expression,
  run_loop-binop, run_loop_end, initial, parse_tokens-run,
}

-- The tokens of three printed operands with operators between them.
abbrev pub chain :
    Expression → BinaryOperator → Expression → BinaryOperator → Expression → List Token
chain x op y op' z = print_onto x (
    Token.symbol (binop_symbol op)
    ∷ print_onto y (Token.symbol (binop_symbol op') ∷ print_onto z []))

-- What the second operator finds and leaves on the two stacks.
grouped :
    Bool
    → Expression
    → BinaryOperator
    → Expression
    → BinaryOperator
    → List Operator × List Expression
grouped true x op y op' = (binary op' ∷ sentinel ∷ [], binex op x y ∷ [])
grouped false x op y op' = (binary op' ∷ binary op ∷ sentinel ∷ [], y ∷ x ∷ [])

push_merges :
    (op top : Operator) (rest : List Operator) (p : Parser)
    → ltb (precedence_of op) (precedence_of top) ≡ true
    → push_operator_and_merge op (top ∷ rest) p
      ≡ (merge_operator top (record p { operators = rest }) >>= push_operator_and_merge op rest)
unfolding push_operator_and_merge
push_merges op top rest p lower = rw lower

push_stays :
    (op top : Operator) (rest : List Operator) (p : Parser)
    → ltb (precedence_of op) (precedence_of top) ≡ false
    → push_operator_and_merge op (top ∷ rest) p ≡ ok (record p { operators = op ∷ top ∷ rest })
unfolding push_operator_and_merge
push_stays op top rest p not_lower = rw not_lower

merge_operator-binary :
    (op : BinaryOperator) (p : Parser) (x y : Expression) (vals : List Expression)
    → p.operands ≡ y ∷ x ∷ vals
    → merge_operator (binary op) p ≡ ok (record p { operands = binex op x y ∷ vals })
unfolding merge_operator
merge_operator-binary op p x y vals e = rw e

push_second :
    (op op' : BinaryOperator) (x y : Expression) (size : ℕ) (ts : List Token) (pos : List ℕ)
    (b : Bool)
    → ltb (binary_precedence op') (binary_precedence op) ≡ b
    → push_operator_and_merge
        (binary op')
        (binary op ∷ sentinel ∷ [])
        (state size ts pos (binary op ∷ sentinel ∷ []) (y ∷ x ∷ []))
      ≡ ok (state size ts pos (grouped b x op y op').0 (grouped b x op y op').1)
unfolding grouped
push_second op op' x y size ts pos true lower =
    push_merges (binary op') (binary op) (sentinel ∷ []) _ lower
    ∙ rw (merge_operator-binary op (state size ts pos (sentinel ∷ []) (y ∷ x ∷ [])) x y [] refl)
        (push_first (binary op') [] _)
push_second op op' x y size ts pos false not_lower =
    push_stays (binary op') (binary op) (sentinel ∷ []) _ not_lower

-- The value of a chain, by whether the second operator binds less tightly than the first.
abbrev pub chained :
    Bool → Expression → BinaryOperator → Expression → BinaryOperator → Expression → Expression
chained true x op y op' z = binex op' (binex op x y) z
chained false x op y op' z = binex op x (binex op' y z)

merge_chain :
    (b : Bool) (x : Expression) (op : BinaryOperator) (y : Expression) (op' : BinaryOperator)
    (z : Expression) (size : ℕ) (pos : List ℕ)
    → let (ops, vals) = grouped b x op y op' in
      (merge_to_sentinel ops (state size [] pos ops (z ∷ vals)) >>= λ p. finish p p.tokens)
      ≡ ok (chained b x op y op' z)
unfolding grouped merge_to_sentinel finish
merge_chain true x op y op' z size pos = refl
merge_chain false x op y op' z size pos = refl

chain-run :
    (k : ℕ) (x : Expression) (op : BinaryOperator) (y : Expression) (op' : BinaryOperator)
    (z : Expression) (size : ℕ) (pos : List ℕ) (b : Bool)
    → ltb (binary_precedence op') (binary_precedence op) ≡ b
    → Reads (suc (suc (suc k))) x
    → Reads (suc (suc k)) y
    → Reads (suc k) z
    → (run
          (suc (suc (suc (suc k))))
          expression
          (state size (chain x op y op' z) pos (sentinel ∷ []) [])
        >>= λ p. finish p p.tokens)
      ≡ ok (chained b x op y op' z)
unfolding Reads
chain-run k x op y op' z size pos b e hx hy hz =
    let ts2 = Token.symbol (binop_symbol op') ∷ print_onto z [] in
    let (pos1, ex) =
      hx size (Token.symbol (binop_symbol op) ∷ print_onto y ts2) pos (sentinel ∷ []) [] in
    let (pos2, ey) = hy size ts2 (tail_of pos1) (binary op ∷ sentinel ∷ []) (x ∷ []) in
    let g = grouped b x op y op' in
    let (pos3, ez) = hz size [] (tail_of pos2) g.0 g.1 in
    let first =
      run_loop-binop (suc (suc k)) op size y ts2 pos1 (sentinel ∷ []) (binary op ∷ sentinel ∷ [])
        (x ∷ []) (x ∷ []) (push_first (binary op) [] _) in
    let second =
      run_loop-binop (suc k) op' size z [] pos2 (binary op ∷ sentinel ∷ []) g.0 (y ∷ x ∷ []) g.1
        (push_second op op' x y size ts2 pos2 b e) in
    let looped = first ∙ rw ey (second ∙ rw ez (run_loop_end k size pos3 g.0 (z ∷ g.1))) in
    ap (λ (m : Parsed). m >>= λ p. finish p p.tokens)
      (run_expression (suc (suc (suc k))) _ _ _ ex looped)
    ∙ merge_chain b x op y op' z size pos3

-- Two operators between three printed operands, with no parentheses: the first operation is the
-- left operand of the second exactly where the second operator's precedence is lower; where it is
-- equal or higher, the second operation is the right operand of the first.
pub parse_tokens-chain :
    (x : Expression) (op : BinaryOperator) (y : Expression) (op' : BinaryOperator) (z : Expression)
    (stale pos : List ℕ) (size : ℕ)
    → parse_tokens stale size (chain x op y op' z, pos)
      ≡ ok (chained (ltb (binary_precedence op') (binary_precedence op)) x op y op' z)
parse_tokens-chain x op y op' z stale pos size =
    let ts = chain x op y op' z in
    let k = length ts * 3 - 2 in
    let ts2 = Token.symbol (binop_symbol op') ∷ print_onto z [] in
    let nx = need-length x (Token.symbol (binop_symbol op) ∷ print_onto y ts2) in
    let ny = need-length y ts2 in
    let nz = need-length z [] in
    let n : length ts * 3 ≡ suc (suc k) = omega arith in
    parse_tokens-run stale pos size ts _ refl
    ∙ subst
        (λ m.
          (run (suc (suc m)) expression (initial stale size ts pos) >>= λ p. finish p p.tokens)
          ≡ ok (chained (ltb (binary_precedence op') (binary_precedence op)) x op y op' z))
        (sym n)
        (chain-run k x op y op' z size (stale ++ pos) _ refl (Reads-need _ x (omega arith))
          (Reads-need _ y (omega arith)) (Reads-need _ z (omega arith)))
