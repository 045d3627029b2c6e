-- ===== src/Scanner.antt =====
-- The scan of a statement up to the cursor, which finds the words for the completion and whether the
-- cursor stands in a text or a comment (crates/search/completion/src/analyzer/scan.rs).
pub mod Machine
pub mod Pieces
pub mod Rounds
pub mod Texts
pub mod Print
pub mod Total
mod Examples
