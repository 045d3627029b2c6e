-- ===== src/Download.antt =====
-- Downloads of the semantic runtime (crates/ui/src/runtime/bootstrap/download/policy.rs).
pub mod Policy
pub mod Transfer
pub mod Cleanup
pub mod Start
pub mod Outcome
pub mod Copy
mod Examples
