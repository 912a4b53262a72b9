-- ===== src/Admin.antt =====
-- The administration of tenants, internal/adminapi: the policies.
pub mod Access
pub mod Tenant
pub mod Policies
pub mod Connectors
pub mod AuthConfigs
pub mod Actions
