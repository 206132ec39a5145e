-- ===== src/Toolkit.antt =====
-- toolkit/: the tokenizer that the DSLs share, and functions on strings.
pub mod Lexer
pub mod Str
pub mod Parser
mod Tests
