-- ===== src/Facts.antt =====
-- The facts engine, internal/facts/engine.go: resolvers give sample responses, mappings read facts
-- from them by JMESPath and transform them.
pub mod Transforms
pub mod Resolve
pub mod Laws
pub mod Timeless
