-- ===== src/Web.antt =====
-- The web application's server side: frontend/src/lib/sessionContext.ts,
-- frontend/src/lib/backendProxy.ts, frontend/src/lib/mockMode.ts, and the route handlers under
-- frontend/src/app/api.
pub mod Context
pub mod CompanyId
pub mod Verified
pub mod Request
pub mod Proxy
pub mod Forwarding
pub mod Gate
pub mod ToolRoute
mod Tests
pub mod UriComponent
pub mod Paths
pub mod Routes
pub mod Safety
pub mod Identity
