-- ===== src/Policy.antt =====
-- Decisions, internal/policy: evaluation of the published policy, decisions that bind to their
-- inputs, and the two endpoints that use them.
pub mod Evaluate
pub mod Decisions
pub mod Binding
pub mod Http
pub mod Lifetime
