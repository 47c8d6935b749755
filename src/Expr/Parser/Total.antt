-- ===== src/Expr/Parser/Total.antt =====
-- The parser's recursion ends: each call stands in at most two others before a token is passed.
use xendbg.Prelude.{
  ℕ, zero, suc, ◌+◌, ◌*◌, ◌≤◌, ◌≡◌, ◌≢◌, refl, List, [], ◌∷◌, length, ok, err, ◌>>=◌, arith,
}
use xendbg.Expr.Syntax.{
  plus, minus, star, slash, paren_left, paren_right, equals_sign, Token, dereference, negate, add,
  subtract, multiply, divide, equals, sentinel, unary, binary, Expression,
}
use xendbg.Expr.Parser.{
  Parser, Parsed, missing_expression, extra_token, out_of_fuel, Mode, unit, expression, loop, run,
  unit_body, round_body, loop_body, merge_to_sentinel, expect_close, consume, symbol_to_unop,
  symbol_to_binop, finish, result_of, enough, parse_tokens,
}
use xendbg.Expr.Parser.Print.{initial}
use xendbg.Expr.Parser.Ends.{
  Ends, >>=-Ends, merge_to_sentinel-Ends, front_pos-ne, EndsBelow, consume-length,
  expect_close-Ends, prefix-Ends, round-Ends,
}

unit_body-Ends :
    (u e : Parser → Parsed) (p : Parser) (ts : List Token)
    → length p.tokens ≡ length ts
    → EndsBelow (length ts) u
    → EndsBelow (length ts) e
    → Ends (length ts) (unit_body u e p ts)
unfolding unit_body symbol_to_unop
unit_body-Ends u e p [] h hu he = λ x. cc
unit_body-Ends u e p (Token.constant v ∷ ts) h hu he =
    consume-length (record p { operands = Expression.constant v ∷ p.operands }) (suc (length ts))
      (omega (arith, h))
unit_body-Ends u e p (Token.label v ∷ ts) h hu he =
    consume-length (record p { operands = Expression.label v ∷ p.operands }) (suc (length ts))
      (omega (arith, h))
unit_body-Ends u e p (Token.variable v ∷ ts) h hu he =
    consume-length (record p { operands = Expression.variable v ∷ p.operands }) (suc (length ts))
      (omega (arith, h))
unit_body-Ends u e p (Token.symbol paren_left ∷ ts) h hu he =
    let inner = record (consume p) { operators = sentinel ∷ p.operators } in
    let fewer = consume-length p (length ts) (omega (arith, h)) in
    >>=-Ends (length inner.tokens) (suc (length ts)) (e inner) (λ q. expect_close q q.tokens)
      (he inner (omega (arith, fewer)))
      (λ q small. expect_close-Ends q q.tokens (suc (length ts)) (omega (arith, small, fewer)))
unit_body-Ends u e p (Token.symbol minus ∷ ts) h hu he =
    prefix-Ends u (unary negate) p (length ts) h hu
unit_body-Ends u e p (Token.symbol star ∷ ts) h hu he =
    prefix-Ends u (unary dereference) p (length ts) h hu
unit_body-Ends u e p (Token.symbol plus ∷ ts) h hu he =
    front_pos-ne missing_expression p.tokens_pos (λ k x. cc)
unit_body-Ends u e p (Token.symbol slash ∷ ts) h hu he =
    front_pos-ne missing_expression p.tokens_pos (λ k x. cc)
unit_body-Ends u e p (Token.symbol paren_right ∷ ts) h hu he =
    front_pos-ne missing_expression p.tokens_pos (λ k x. cc)
unit_body-Ends u e p (Token.symbol equals_sign ∷ ts) h hu he =
    front_pos-ne missing_expression p.tokens_pos (λ k x. cc)

loop_body-Ends :
    (u l : Parser → Parsed) (p : Parser) (ts : List Token)
    → length p.tokens ≡ length ts
    → EndsBelow (length ts) u
    → EndsBelow (length ts) l
    → Ends (length ts) (loop_body u l p ts)
unfolding loop_body round_body symbol_to_binop
loop_body-Ends u l p [] h hu hl = omega (arith, h)
loop_body-Ends u l p (Token.constant v ∷ ts) h hu hl = omega (arith, h)
loop_body-Ends u l p (Token.label v ∷ ts) h hu hl = omega (arith, h)
loop_body-Ends u l p (Token.variable v ∷ ts) h hu hl = omega (arith, h)
loop_body-Ends u l p (Token.symbol paren_left ∷ ts) h hu hl = omega (arith, h)
loop_body-Ends u l p (Token.symbol paren_right ∷ ts) h hu hl = omega (arith, h)
loop_body-Ends u l p (Token.symbol plus ∷ ts) h hu hl =
    round-Ends u l (binary add) p (length ts) h hu hl
loop_body-Ends u l p (Token.symbol minus ∷ ts) h hu hl =
    round-Ends u l (binary subtract) p (length ts) h hu hl
loop_body-Ends u l p (Token.symbol star ∷ ts) h hu hl =
    round-Ends u l (binary multiply) p (length ts) h hu hl
loop_body-Ends u l p (Token.symbol slash ∷ ts) h hu hl =
    round-Ends u l (binary divide) p (length ts) h hu hl
loop_body-Ends u l p (Token.symbol equals_sign ∷ ts) h hu hl =
    round-Ends u l (binary equals) p (length ts) h hu hl

-- The fuel that a call on `n` tokens needs.
abbrev need_of : Mode → ℕ → ℕ
need_of unit n = n * 3 + 1
need_of expression n = n * 3 + 2
need_of loop n = n * 3 + 1

run-Ends :
    (fuel : ℕ) (mode : Mode) (p : Parser)
    → need_of mode (length p.tokens) ≤ fuel
    → Ends (length p.tokens) (run fuel mode p)
unfolding run
run-Ends zero unit p h = absurd (omega (arith, h))
run-Ends zero expression p h = absurd (omega (arith, h))
run-Ends zero loop p h = absurd (omega (arith, h))
run-Ends (suc fuel) unit p h =
    unit_body-Ends (run fuel unit) (run fuel expression) p p.tokens refl
      (λ q fewer. run-Ends fuel unit q (omega (arith, fewer, h)))
      (λ q fewer. run-Ends fuel expression q (omega (arith, fewer, h)))
run-Ends (suc fuel) loop p h =
    loop_body-Ends (run fuel unit) (run fuel loop) p p.tokens refl
      (λ q fewer. run-Ends fuel unit q (omega (arith, fewer, h)))
      (λ q fewer. run-Ends fuel loop q (omega (arith, fewer, h)))
run-Ends (suc fuel) expression p h =
    let n = length p.tokens in
    >>=-Ends n n (run fuel unit p)
      (λ p'. run fuel loop p' >>= (λ p''. merge_to_sentinel p''.operators p''))
      (run-Ends fuel unit p (omega (arith, h)))
      (λ q small.
        >>=-Ends (length q.tokens) n (run fuel loop q) (λ p''. merge_to_sentinel p''.operators p'')
          (run-Ends fuel loop q (omega (arith, small, h)))
          (λ r fewer. merge_to_sentinel-Ends r.operators r n (omega (arith, fewer, small))))

result_of-ne : (p : Parser) (es : List Expression) → result_of p es ≢ err out_of_fuel
unfolding result_of
result_of-ne p [] = λ h. cc
result_of-ne p (e ∷ es) = λ h. cc

finish-ne : (p : Parser) (ts : List Token) → finish p ts ≢ err out_of_fuel
unfolding finish
finish-ne p [] = result_of-ne p p.operands
finish-ne p (t ∷ ts) = λ h. front_pos-ne extra_token p.tokens_pos (λ k x. cc) (cc h)

finished-ne : (n : ℕ) (r : Parsed) → Ends n r → (r >>= (λ p. finish p p.tokens)) ≢ err out_of_fuel
finished-ne n (ok p) h = finish-ne p p.tokens
finished-ne n (err e) h = λ x. h (cc x)

-- On any tokens, with any positions and any that an earlier call left behind, the parser comes to
-- an end within the fuel that it is given, with an expression or with an error of its own.
pub parse_tokens-ne-out_of_fuel :
    (stale : List ℕ) (size : ℕ) (ts : List Token) (pos : List ℕ)
    → parse_tokens stale size (ts, pos) ≢ err out_of_fuel
unfolding parse_tokens
parse_tokens-ne-out_of_fuel stale size ts pos =
    finished-ne (length ts) (run (enough (length ts)) expression (initial stale size ts pos))
      (run-Ends (enough (length ts)) expression (initial stale size ts pos) (omega arith))
