-- ===== src/Parser.antt =====
-- engine/parser: the lexer, which cuts a text into tokens, and the parser, which makes declaration
-- trees of them.
pub mod Token
pub mod Match
pub mod Lexer
pub mod Tree
pub mod Terms
pub mod Statements
pub mod Select
pub mod Create
pub mod Program
pub mod Tame
