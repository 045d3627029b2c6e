-- ===== src/WithClause.antt =====
-- Completion inside a WITH clause (crates/search/completion/src/start_keywords/with).
pub mod Token
pub mod Lexer
pub mod Analyzer
mod Examples
