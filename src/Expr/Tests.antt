-- ===== src/Expr/Tests.antt =====
-- Runs of the expression parser at concrete inputs.
use xendbg.Prelude.{ℕ, ◌≡◌, [], ◌∷◌, ok}
use xendbg.Prelude.{List, ◌≢◌, err}
use xendbg.Expr.Syntax.{
  Token, paren_right, minus, Expression, unex, binex, negate, add, subtract, multiply,
}
use xendbg.Expr.Tokenizer.{tokenize}
use xendbg.Expr.Tokenizer.Total.{tokenize-ne-out_of_fuel}
use xendbg.Text.{codes}
use xendbg.Expr.Tokenizer
use xendbg.Expr.Parser.{parse_tokens, out_of_fuel}
use xendbg.Expr.Parser.Print.{print, parse_tokens-print}
use xendbg.Expr.Parser.Total.{parse_tokens-ne-out_of_fuel}
use xendbg.Expr.Parser.Chains.{chain, parse_tokens-chain}

-- ((-1)*(2+3))
abbrev product : Expression
product =
    binex multiply (unex negate (Expression.constant 1))
      (binex add (Expression.constant 2) (Expression.constant 3))

abbrev product_pos : List ℕ
product_pos = 0 ∷ 1 ∷ 2 ∷ 3 ∷ 4 ∷ 5 ∷ 6 ∷ 7 ∷ 8 ∷ 9 ∷ 10 ∷ 11 ∷ []

parse_tokens-print_example : parse_tokens (4 ∷ []) 12 (print product, product_pos) ≡ ok product
parse_tokens-print_example = parse_tokens-print product (4 ∷ []) product_pos 12

-- 10 - 5 - 2 is 10 - (5 - 2).
parse_tokens-chain_example :
    parse_tokens [] 10 (
      chain
          (Expression.constant 10)
          subtract
          (Expression.constant 5)
          subtract
          (Expression.constant 2),
      0 ∷ 3 ∷ 5 ∷ 7 ∷ 9 ∷ [],
    )
    ≡ ok (
        binex subtract
          (Expression.constant 10)
          (binex subtract (Expression.constant 5) (Expression.constant 2)))
parse_tokens-chain_example =
    parse_tokens-chain (Expression.constant 10) subtract (Expression.constant 5) subtract
      (Expression.constant 2) [] (0 ∷ 3 ∷ 5 ∷ 7 ∷ 9 ∷ []) 10

-- `) 1 -`
abbrev nonsense : List Token
nonsense = Token.symbol paren_right ∷ Token.constant 1 ∷ Token.symbol minus ∷ []

parse_tokens-ne-out_of_fuel_example : parse_tokens [] 5 (nonsense, 0 ∷ 2 ∷ 4 ∷ []) ≢ err out_of_fuel
parse_tokens-ne-out_of_fuel_example = parse_tokens-ne-out_of_fuel [] 5 nonsense (0 ∷ 2 ∷ 4 ∷ [])

tokenize-ne-out_of_fuel_example : tokenize (codes "0x1F+ $rax") ≢ err Tokenizer.out_of_fuel
tokenize-ne-out_of_fuel_example = tokenize-ne-out_of_fuel (codes "0x1F+ $rax")
