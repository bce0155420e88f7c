-- ===== src/VoiceBot.antt =====
-- The mobile client's voice call: mobile/src/hooks/useVoiceBot.ts, the packets of
-- mobile/src/services/voicePackets.ts, and the badge of mobile/src/types/voiceBot.ts.
pub mod Packets
pub mod State
pub mod Calls
pub mod Room
pub mod Controls
pub mod Events
pub mod Tidy
pub mod Interrupt
mod Tests
