-- ===== src/Core.antt =====
-- The core of the node: src/core.
pub mod ServiceRegistry
mod Examples
