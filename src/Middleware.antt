-- ===== src/Middleware.antt =====
-- The HTTP middleware, pkg/middleware.
pub mod Scope
pub mod Auth
pub mod Tenant
pub mod Dpop
pub mod DebugWrite
