-- ===== src/Catalog.antt =====
-- The names of relations, as SQL and as the interface shows them (crates/catalog).
pub mod Identifier
pub mod Quoting
pub mod Display
mod Examples
