-- ===== src/Lib.antt =====
-- A model of the core of teleno, the monolithic Koinos node: its state database, its block store,
-- its mempool, its resource meter, the messages between peers, and the start and stop of its
-- components, the stores that index accepted blocks, and the watch for forks.
--
-- The node keeps the state of the chain in a tree of state nodes. Each node holds a delta over its
-- parent; a read goes up the chain of deltas, and a node that becomes irreversible is written to
-- the backend of the root. A block is applied on a node through anonymous nodes, one for each call
-- that may be reverted, whose changes are committed into the node below or dropped. While it is
-- applied a resource meter charges disk, network and compute use to the session of the payer or to
-- the system. Accepted blocks go to the block store, which finds ancestors by a skip list. The
-- mempool has a state database of its own: under each block a writable node keeps the transactions
-- that are pending after it, with the credits that they reserve and their nonces. Peers ask each
-- other for blocks by calls in MessagePack.
--
-- Files:
-- - Base and Base/: Boolean tests, lists over the native numbers, keys (byte strings in the order
--   of std::string), results, integers, insertion sort. StdMap: std::map as a sorted list.
-- - StateDb/Backend: src/koinos/state_db/backends (backend.hpp, map/map_backend.cpp).
-- - StateDb/Delta: src/koinos/state_db/state_delta.cpp; a delta is the value of what its `_parent`
--   reaches. Delta/Find, Valid, Squash, Commit and Merkle are its operations and their theorems.
-- - StateDb/Node: object access, anonymous nodes and `operator<` of
--   src/koinos/state_db/state_db.cpp; Node/Anonymous has the commit of anonymous nodes, which keep
--   the deltas that `reset` leaves between their own and that of their parent.
-- - BlockStore/SkipList: src/block_store/skip_list.hpp. BlockStore/Store: src/block_store/
--   block_store.cpp over two maps; Store/Rpc has the RPC methods, Linked the invariant of the
--   pointers, Grow and Add what `add_block` keeps, Ancestors the end of the traversal, Edges the
--   cases at the borders.
-- - StateDb/Database: the node index, the head, the fork heads and the comparators of
--   src/koinos/state_db/state_db.cpp. Database/Grow has the tree invariant and the creation of
--   nodes, Revision the search by revision, Finalize the finalization, Priority the order of forks;
--   Database/Discard has the removal and the commit of nodes, its Queue, Rounds and Ends the removal
--   queue, Kept what discarding leaves, Commit and Committed what committing leaves; Sound, Shrink
--   and Reach have sequences of operations.
-- - StateDb/ObjectCache: src/koinos/state_db/backends/rocksdb/object_cache.cpp; ObjectCache/Laws
--   has its invariant, Room the loop of `put`, Put and Touch its operations.
-- - Core/ServiceRegistry: src/core/service_registry.hpp.
-- - Chain/ResourceMeter: src/koinos/chain/resource_meter.cpp and the credits of session.cpp. The
--   overflow of a counter of what the system used, undefined in C++, is the error
--   `signed_overflow` of the model.
-- - Mempool: the operations on a node of src/koinos/mempool/mempool.cpp. Mempool/Valid has the
--   invariant, Totals and Accounts the credits, Add, Admit and Preserved what adding does, Remove
--   and Batch what taking out does, Prune what pruning does. Mempool/Nodes: the requests over all
--   nodes, with the loop of `add_pending_transaction` in Nodes/Steps. Mempool/Requests: the
--   listings.
-- - P2p/Gorpc: the writer of src/p2p/gorpc_codec.cpp; Gorpc/Reader has its class `Reader`,
--   Gorpc/Messages the requests and responses, Gorpc/Name the names of their fields.
-- - P2p/ForkWatchdog: src/p2p/fork_watchdog.hpp and its calls in src/p2p/p2p_node.cpp; Counts and
--   Flags have what it flags.
-- - P2p/ErrorHandler: src/p2p/error_handler.hpp; ErrorHandler/Blocked has who may connect.
-- - StateDb/MergeIterator: src/koinos/state_db/merge_iterator.hpp and .cpp, forwards, and
--   `get_next_object` of state_db.cpp. MergeIterator/First has the wrapper that comes first,
--   Invariant, Steps and Advance the invariant and what a step does to it, Resolve the loop over
--   dirty entries, Laws and Start what an iterator stands at, Traversal the walk from begin to end,
--   NextObject the request.
-- - Stores: the stores over a RocksDB column family each. Stores/Transactions:
--   src/transaction_store/transaction_store.cpp; Stores/Contracts: src/contract_meta_store/
--   contract_meta_store.cpp; Stores/Accounts: src/account_history/account_history.cpp, with Seq and
--   Keys for the bytes of numbers and keys, Query for the scan, Push and History for the records
--   after accepted blocks, Requests for the answers. Stores/Messages: what they read of messages.
-- - The files named Examples apply the theorems to concrete values.
--
-- Numbers of the program are natural numbers with their wrap-around written out, or integers where
-- the program's are signed. A multihash, a key and a serialised value are lists of bytes. Hashes,
-- the Merkle tree, the serialisation of protobuf messages and RocksDB are not part of this
-- repository: they are parameters (`Crypto`, `encode`, `parse`, `Codec`) or maps. An exception is
-- an error value. The bytes of a nonce (`nonce_bytes`) are a parameter of the mempool; its pending
-- transactions are kept by sequence number, whose bytes are in the order of the numbers.
--
-- Seven loops are on fuel. The traversal of the block store (`walk`) has the height of the first
-- record and two more; every hop but the first goes down. The loop of `object_cache::put`
-- (`make_room`) has the length of the list and one more; every round takes a key off the list. The
-- search for a revision (`down_to`) has the revision of its first node and one more; every step
-- goes down. The loop of `prune` (`prune_rounds`) has the number of pending transactions and one
-- more; every round takes one out. The loop over the removal queue (`discard_rounds`) has the size
-- of the index and two more; no node comes into the queue twice. The recursion of `Reader::skip`
-- (`skip_at`) has the length of the message and one more; every level reads a byte. The loop of
-- `resolve_conflicts` has the number of entries that the wrappers have left (`remaining`); every
-- round passes one.
--
-- Not modelled: locks and condition variables, failures of RocksDB, log output, opening and
-- closing the database, the merge iterator backwards, what the mempool does with blocks
-- and its walks over nonces, the network, the servers, backups and the system calls.
pub mod Base
pub mod StdMap
pub mod StateDb
pub mod BlockStore
pub mod Chain
pub mod Core
pub mod Mempool
pub mod P2p
pub mod Stores
