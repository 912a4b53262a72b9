-- ===== src/Connectors.antt =====
-- Operations of the tenants' connectors, pkg/connectors.
pub mod Registry
