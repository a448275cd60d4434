-- ===== src/Stores.antt =====
-- The stores that index accepted blocks over a RocksDB column family each: transaction_store,
-- contract_meta_store and account_history.
pub mod Messages
pub mod Transactions
pub mod Contracts
pub mod Accounts
mod Examples
