-- ===== src/Cancellation.antt =====
-- Cancellation of database operations (crates/db/src/cancellation.rs, and its use by
-- crates/db/src/database.rs and crates/db/src/client.rs).
pub mod Registry
pub mod System
pub mod Safety
pub mod Pending
mod Examples
