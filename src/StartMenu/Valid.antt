-- ===== src/StartMenu/Valid.antt =====
-- Whatever the user does in the start menu, its state stays valid.
pub mod Inputs
pub mod Rows
pub mod Events
