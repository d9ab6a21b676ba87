-- ===== src/Golexer.antt =====
-- The package under server/src/github.com/davyxu/golexer: a lexer made of matchers.
pub mod Tokenizer
pub mod Matchers
pub mod Quoted
pub mod Lexer
mod Examples
