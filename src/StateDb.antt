-- ===== src/StateDb.antt =====
-- src/koinos/state_db: the versioned key-value store under the chain and the mempool.
pub mod Backend
pub mod Delta
pub mod MergeIterator
pub mod Node
pub mod ObjectCache
pub mod Database
mod Examples
