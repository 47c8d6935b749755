-- ===== src/Expr/Syntax.antt =====
-- src/REPL/Parser/Token, src/REPL/Parser/Expression and src/REPL/Parser/Sentinel.hpp.
use xendbg.Prelude.{ℕ, ◌+◌, ◌^◌, Bytes}

pub data SymbolType : Type 0 where
  plus minus star slash paren_left paren_right equals_sign : SymbolType

pub data Token : Type 0 where
  constant : ℕ → Token
  label : Bytes → Token
  symbol : SymbolType → Token
  variable : Bytes → Token

pub data UnaryOperator : Type 0 where
  dereference negate : UnaryOperator

pub data BinaryOperator : Type 0 where
  add equals divide multiply subtract : BinaryOperator

pub data Operator : Type 0 where
  sentinel : Operator
  unary : UnaryOperator → Operator
  binary : BinaryOperator → Operator

pub data Expression : Type 0 where
  constant : ℕ → Expression
  label : Bytes → Expression
  variable : Bytes → Expression
  unex : UnaryOperator → Expression → Expression
  binex : BinaryOperator → Expression → Expression → Expression

-- `Precedence` is `int`, here raised by 2^31: the sentinel has the least value.
abbrev pub int_bias : ℕ
int_bias = 2 ^ 31

abbrev pub unary_precedence : UnaryOperator → ℕ
unary_precedence negate = int_bias + 10
unary_precedence dereference = int_bias + 50

abbrev pub binary_precedence : BinaryOperator → ℕ
binary_precedence equals = int_bias + 1
binary_precedence add = int_bias + 20
binary_precedence subtract = int_bias + 20
binary_precedence multiply = int_bias + 30
binary_precedence divide = int_bias + 30

abbrev pub precedence_of : Operator → ℕ
precedence_of sentinel = 0
precedence_of (unary op) = unary_precedence op
precedence_of (binary op) = binary_precedence op
