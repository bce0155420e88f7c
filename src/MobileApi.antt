-- ===== src/MobileApi.antt =====
-- The mobile client's service for everything but the voice: mobile/src/services/api.ts.
pub mod Assistant
pub mod Calls
pub mod Operations
pub mod Replies
pub mod Integrations
pub mod Account
pub mod SetUp
pub mod Origin
pub mod Laws
mod Tests
