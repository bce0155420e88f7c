-- ===== src/Workspace.antt =====
-- The logic of the web application's pages: frontend/src/App.tsx, but for what is drawn.
pub mod Capability
pub mod Languages
pub mod Policy
pub mod Lines
pub mod Rules
pub mod RulesKept
pub mod ThreeCx
pub mod Stored
pub mod Dashboard
pub mod GoogleCard
mod Tests
