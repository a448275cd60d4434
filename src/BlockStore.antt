-- ===== src/BlockStore.antt =====
-- src/block_store: the blocks of every fork by id, with skip-list pointers to ancestors.
pub mod SkipList
pub mod Store
mod Examples
