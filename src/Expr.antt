-- ===== src/Expr.antt =====
-- The expression crate (crates/expr).
pub mod Syntax
pub mod Builtin
pub mod Program
pub mod Eval
pub mod Num
pub mod Tokens
pub mod Literals
pub mod Escapes
pub mod Lexer
pub mod Parser
pub mod Analyze
pub mod Tests
