-- ===== src/GeminiLive/Order.antt =====
-- The chunks of audio of a whole session are in order.
use ai_voice_assistants.Common.Json.{Json}
