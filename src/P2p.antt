-- ===== src/P2p.antt =====
-- The network side of the node: src/p2p.
pub mod Gorpc
pub mod ForkWatchdog
pub mod ErrorHandler
