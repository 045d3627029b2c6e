-- ===== src/Context.antt =====
-- What the completion offers at the cursor: the clause of the statement, and the word and the text
-- before the cursor (crates/search/completion/src/analyzer/context.rs and its neighbours).
pub mod Clause
pub mod Before
pub mod Detect
pub mod Opened
pub mod Offered
mod Examples
