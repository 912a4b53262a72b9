-- ===== src/Orchestrator.antt =====
-- The orchestrator, internal/orchestrator/service.go: from an action key to a connector's operation,
-- from its template to a request, and the row that records the execution.
pub mod Select
pub mod Escape
pub mod Template
pub mod Execute
