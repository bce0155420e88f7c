-- ===== src/Sandbox.antt =====
-- The voice testing sandbox of the web application:
-- frontend/src/components/sandbox/TestingSandboxPage.tsx, but for its canvas and its markup.
pub mod State
pub mod Connect
pub mod Packets
pub mod Events
pub mod Lock
pub mod Keeps
pub mod Tabs
pub mod Call
pub mod Moves
pub mod Refine
pub mod Stale
pub mod Duration
pub mod Transcript
mod Tests
