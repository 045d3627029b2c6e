-- ===== src/SchemaTree.antt =====
-- The tree of schemas and relations, and what is previewed (crates/ui/src/state/schema.rs).
pub mod Tree
pub mod State
pub mod Rows
pub mod Valid
pub mod Moves
pub mod Drill
pub mod Sequence
pub mod Preview
mod Examples
