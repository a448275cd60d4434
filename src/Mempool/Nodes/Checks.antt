-- ===== src/Mempool/Nodes/Checks.antt =====
-- What the requests over all nodes keep, and what their checks say of adding.
use teleno.Base.{
  Bool, Bool-cases, Bytes, List, Result, Result-cases, [], bytes_key, err, false, if◌then◌else◌,
  inl, inr, koinos_assert, nat_key, ok, subst, sym, true, ℕ, ◌+◌, ◌<◌, ◌==◌, ◌>>=◌, ◌>>◌, ◌^◌, ◌∷◌,
  ◌≡◌,
}
use teleno.Mempool.{nonce_conflict, Pending, Pool, Error, add_pending_transaction_to_node, next_seq}
use teleno.Mempool.Preserved.{add_pending_transaction_to_node-IsValid}
use teleno.Mempool.Valid.{IsValid}
use teleno.Mempool.Nodes.{PoolNode, add_to_nodes, add_pending_transaction}
use teleno.Mempool.Nodes.Steps.{Added, with_node, add_finalized, add_added, add_refused}

-- Every node has sequence numbers left.
abbrev pub AllNumbered : List PoolNode → Type 0
AllNumbered [] = Unit
AllNumbered (n ∷ ns) = (next_seq n.pool + 1 < 2 ^ 64) × AllNumbered ns

module _ (nonce_bytes : ℕ → Bytes) where
  -- Every node keeps a valid pool.
  abbrev pub AllValid : List PoolNode → Type 0
  AllValid [] = Unit
  AllValid (n ∷ ns) = IsValid nonce_bytes n.pool × AllValid ns

  abbrev LoopKept : Added → Type 0
  LoopKept (err e) = Unit
  LoopKept (ok (added, used, nodes)) = AllValid nodes

  abbrev pub Kept : Result Error (ℕ × List PoolNode) → Type 0
  Kept (err e) = Unit
  Kept (ok (used, nodes)) = AllValid nodes

  LoopKept-with_node :
      (n : PoolNode) (x : Added)
      → IsValid nonce_bytes n.pool
      → LoopKept x
      → LoopKept (with_node n x)
  LoopKept-with_node n (err e) w k = tt
  LoopKept-with_node n (ok x) w k = (w, k)

  module _ (r : Pending) (max_payer : ℕ) (fits : max_payer < 2 ^ 64)
      (positive : 0 < r.transaction.rc_limit) (head : Bytes) where
    node_kept :
        (n : PoolNode) (rc : ℕ) (p : Pool)
        → IsValid nonce_bytes n.pool
        → next_seq n.pool + 1 < 2 ^ 64
        → add_pending_transaction_to_node nonce_bytes r max_payer n.pool ≡ ok (rc, p)
        → IsValid nonce_bytes p
    node_kept n rc p w numbered e =
        add_pending_transaction_to_node-IsValid nonce_bytes r max_payer rc n.pool p w fits positive
          numbered e

    add_to_nodes-LoopKept :
        (added : Bool) (used : ℕ) (nodes : List PoolNode)
        → AllValid nodes
        → AllNumbered nodes
        → LoopKept (add_to_nodes nonce_bytes r max_payer head added used nodes)
    add_to_nodes-LoopKept added used [] w s = unfold add_to_nodes in tt
    add_to_nodes-LoopKept added used (n ∷ ns) w s =
        let rest = add_to_nodes-LoopKept added used ns w.1 s.1 in
        elim (Bool-cases n.is_finalized) [
          | inl final ↦
              subst LoopKept
                (sym (add_finalized nonce_bytes r max_payer head added used n ns final))
                (LoopKept-with_node n _ w.0 rest)
          | inr open_node ↦
              elim (Result-cases (add_pending_transaction_to_node nonce_bytes r max_payer n.pool)) [
                | inl ((rc, p), put) ↦
                    subst LoopKept
                      (sym
                        (add_added nonce_bytes r max_payer head added used rc n p ns open_node put))
                      (LoopKept-with_node (record n { pool = p }) _ (node_kept n rc p w.0 s.0 put)
                        (add_to_nodes-LoopKept true (if n.id == head then rc else used) ns w.1 s.1))
                | inr (e, refused) ↦
                    elim (add_refused nonce_bytes r max_payer head added used n ns e open_node
                      refused) [
                        | inl next ↦ subst LoopKept (sym next) (LoopKept-with_node n _ w.0 rest)
                        | inr stop ↦ subst LoopKept (sym stop) tt
                      ]
              ]
        ]

    LoopKept-Kept :
        (x : Added)
        → LoopKept x
        → Kept (do
          (trx_added, used, added) ← x
          koinos_assert trx_added nonce_conflict
          ok (used, added))
    LoopKept-Kept (err e) k = tt
    LoopKept-Kept (ok (true, used, nodes)) k = k
    LoopKept-Kept (ok (false, used, nodes)) k = tt

    -- Adding a transaction of a positive limit to all nodes, with the payer's credits within a
    -- machine word, leaves on every node a valid pool, if it does not throw and the pools were
    -- valid and have sequence numbers left.
    pub add_pending_transaction-AllValid :
        (nodes : List PoolNode)
        → AllValid nodes
        → AllNumbered nodes
        → Kept (add_pending_transaction nonce_bytes r max_payer head nodes)
    unfolding add_pending_transaction
    add_pending_transaction-AllValid nodes w s =
        LoopKept-Kept (add_to_nodes nonce_bytes r max_payer head false 0 nodes)
          (add_to_nodes-LoopKept false 0 nodes w s)
