-- ===== src/Installer.antt =====
-- The installer, apps/api/src/installer: the state and what lies outside it, the commands that it
-- sends, its steps, and its operations; then what they guarantee.
pub mod State
pub mod Commands
pub mod Steps
pub mod Pipeline
pub mod Entry
pub mod Frame
pub mod Rounds
pub mod Outcome
pub mod Execute
pub mod Running
pub mod Rollback
pub mod Rebuild
mod Tests
