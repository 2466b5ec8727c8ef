-- ===== src/Tui.antt =====
-- internal/tui: what the terminal client shows, and its state machine.
pub mod Pieces
pub mod Layout
pub mod Model
pub mod Visible
pub mod Sidebar
pub mod Targets
pub mod Find
pub mod Details
pub mod Themes
pub mod Palette
pub mod Bindings
pub mod Prompt
pub mod Complete
pub mod Keys
pub mod Mouse
pub mod Update
pub mod Tests
