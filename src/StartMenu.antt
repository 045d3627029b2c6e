-- ===== src/StartMenu.antt =====
-- The start menu: choosing a profile, and the form of a new one (crates/app/src/bootstrap/start_menu).
pub mod Field
pub mod Offsets
pub mod Form
pub mod Menu
pub mod Editing
pub mod Valid
pub mod Submit
pub mod Locked
pub mod Fields
mod Examples
