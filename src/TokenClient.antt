-- ===== src/TokenClient.antt =====
-- The mobile client's token service: mobile/src/services/livekitApi.ts.
pub mod Requests
pub mod Laws
mod Tests
