-- ===== src/Policy.antt =====
-- The calendar assistant's policy: frontend/src/lib/assistantPolicy.ts, the tool calls of
-- frontend/src/lib/tools.ts, and the safe logging of frontend/src/lib/safeLogging.ts.
pub mod Turns
pub mod Conversation
pub mod Tools
pub mod Logging
mod Tests
