-- ===== src/GeminiLive.antt =====
-- The browser-direct voice hook: frontend/src/hooks/useGeminiLiveSession.ts.
pub mod State
pub mod Pcm
pub mod Encoding
pub mod Playback
pub mod Calls
pub mod Connect
pub mod Events
pub mod Frame
pub mod Order
pub mod Guard
pub mod Answers
pub mod Mute
pub mod Context
mod Tests
