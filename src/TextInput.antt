-- ===== src/TextInput.antt =====
-- The multi-line text input of the terminal UI (crates/ui/src/state/text_input).
pub mod Utf8
pub mod Utils
pub mod State
pub mod Cursor
pub mod Selection
pub mod Lines
pub mod View
pub mod Editing
pub mod Indent
pub mod Scroll
mod Examples
