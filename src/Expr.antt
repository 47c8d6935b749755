-- ===== src/Expr.antt =====
-- The expressions of the REPL (src/REPL/Parser): operators, tokens, the tokenizer, the parser and
-- their evaluation.
pub mod Syntax
pub mod Tokenizer
pub mod Parser
mod Tests
