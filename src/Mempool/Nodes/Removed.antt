-- ===== src/Mempool/Nodes/Removed.antt =====
-- What removing transactions does on all nodes.
use teleno.Base.{
  Bytes, List, [], arith, bytes_key, if◌then◌else◌, nat_key, none, ok, refl, ℕ, ◌==◌, ◌∷◌, ◌≡◌,
}
use teleno.StdMap.{lookup}
use teleno.Mempool.{Pool, remove_pending_transactions_on_node}
use teleno.Mempool.Batch.{is_listed, remove_pending_transactions_on_node-IsValid}
use teleno.Mempool.Nodes.{PoolNode, remove_pending_transactions}
use teleno.Mempool.Nodes.Checks.{AllValid}

-- The nodes, in their order, without the transactions of the list, and with every other one.
abbrev pub Removed : List Bytes → List PoolNode → List PoolNode → Type 0
Removed ids [] [] = Unit
Removed ids [] (m ∷ ms) = ⊥
Removed ids (n ∷ ns) [] = ⊥
Removed ids (n ∷ ns) (m ∷ ms) =
    (m.id ≡ n.id)
    × ((id : Bytes)
        → lookup id m.pool.index ≡ (if is_listed id ids then none else lookup id n.pool.index))
    × Removed ids ns ms

module _ (nonce_bytes : ℕ → Bytes) where
  remove_step :
      (ids : List Bytes) (head : Bytes) (count removed total : ℕ) (n : PoolNode) (p : Pool)
      (ns ms : List PoolNode)
      → remove_pending_transactions_on_node nonce_bytes ids n.pool ≡ ok (removed, p)
      → remove_pending_transactions nonce_bytes ids head
          (if n.id == head then removed else count)
          ns
        ≡ ok (total, ms)
      → remove_pending_transactions nonce_bytes ids head count (n ∷ ns)
        ≡ ok (total, record n { pool = p } ∷ ms)
  unfolding remove_pending_transactions
  remove_step ids head count removed total n p ns ms one rest = ground (arith, one, rest)

  -- From valid pools any list of transactions can be removed: the pools stay valid, on every node no
  -- transaction of the list is found any more and every other one is found as before.
  pub remove_pending_transactions-AllValid :
      (ids : List Bytes) (head : Bytes) (count : ℕ) (nodes : List PoolNode)
      → AllValid nonce_bytes nodes
      → (total : ℕ) × (left : List PoolNode) × (remove_pending_transactions nonce_bytes ids head
            count nodes
          ≡ ok (total, left))
        × AllValid nonce_bytes left
        × Removed ids nodes left
  remove_pending_transactions-AllValid ids head count [] w =
      (count, [], unfold remove_pending_transactions in refl, tt, tt)
  remove_pending_transactions-AllValid ids head count (n ∷ ns) w =
      let (removed, p, one, valid, counted, found) =
        remove_pending_transactions_on_node-IsValid nonce_bytes ids n.pool w.0 in
      let (total, ms, rest, valid_rest, found_rest) =
        remove_pending_transactions-AllValid ids head (if n.id == head then removed else count) ns
          w.1 in
      (
        total,
        record n { pool = p } ∷ ms,
        remove_step ids head count removed total n p ns ms one rest,
        (valid, valid_rest),
        (refl, found, found_rest),
      )
