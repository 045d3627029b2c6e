-- ===== src/Results.antt =====
-- The results grid (crates/ui/src/state/results_state): the children define its data and
-- operations, and prove what holds of them.
pub mod Data
pub mod Presentation
pub mod Grid
pub mod Selection
pub mod Scroll
pub mod Editing
pub mod Mutation
pub mod Session
pub mod Fits
pub mod Visible
pub mod Update
pub mod Valid
mod Examples
