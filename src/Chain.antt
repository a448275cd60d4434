-- ===== src/Chain.antt =====
-- src/koinos/chain: the parts of block application that keep state of their own.
pub mod ResourceMeter
mod Examples
