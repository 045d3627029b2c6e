-- ===== src/QueryScope.antt =====
-- The relations that the query around the cursor reads from
-- (crates/search/completion/src/analyzer/scope.rs).
pub mod Identifier
pub mod Keywords
pub mod Lexer
pub mod Scope
pub mod Total
pub mod Quoted
pub mod Relations
pub mod Stars
mod Examples
