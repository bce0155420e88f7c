-- ===== src/Capabilities.antt =====
-- What a company's assistant may do: frontend/src/lib/capabilityRegistry.ts.
pub mod Sets
pub mod Registry
pub mod Compile
pub mod Grants
pub mod Languages
mod Tests
