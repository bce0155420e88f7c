-- ===== src/LiveKit.antt =====
-- The browser's voice session: frontend/src/lib/livekitSessionRuntime.ts and
-- frontend/src/hooks/useLiveKitSession.ts.
pub mod Runtime
pub mod State
pub mod Audio
pub mod Packets
pub mod Connect
pub mod Events
pub mod Invariant
pub mod Tidy
pub mod Disconnect
pub mod Speech
pub mod Tasks
pub mod Lifecycle
mod Tests
