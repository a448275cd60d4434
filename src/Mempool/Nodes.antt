-- ===== src/Mempool/Nodes.antt =====
-- koinos/mempool/mempool.cpp over all state nodes: what a request without a block does. A finalized
-- node is a block's; each other node is the writable child in which the pool after a block is kept,
-- and `head` is the id of the head's. The list of the nodes is what the state database answers.
pub mod Steps
pub mod Checks
pub mod Accepted
pub mod Removed
use teleno.Base.{
  Bool, Bytes, List, Result, [], bytes_key, err, false, if◌then◌else◌, koinos_assert, nat_key, ok,
  true, ℕ, ◌==◌, ◌>>=◌, ◌>>◌, ◌∷◌,
}
use teleno.StdMap.{lookup}
use Prim.Native.Nat.{max}
use teleno.Mempool.{
  exceeds_resources, insertion_failure, null_object, out_of_fuel, Pending, Pool, Error,
  get_reserved_account_rc, check_pending_account_resources, check_account_nonce, nonce_key,
  add_pending_transaction_to_node, remove_pending_transactions_on_node, nonce_conflict,
}

pub record PoolNode : Type 0 where
  pub id : Bytes
  pub is_finalized : Bool
  pub pool : Pool

unfoldable pub get_reserved_account_rc_from_nodes : Bytes → List PoolNode → ℕ
get_reserved_account_rc_from_nodes account [] = 0
get_reserved_account_rc_from_nodes account (n ∷ ns) =
    max (get_reserved_account_rc account n.pool) (get_reserved_account_rc_from_nodes account ns)

unfoldable pub check_pending_account_resources_on_nodes : Bytes → ℕ → ℕ → List PoolNode → Bool
check_pending_account_resources_on_nodes payer max_payer limit [] = true
check_pending_account_resources_on_nodes payer max_payer limit (n ∷ ns) =
    let rest = check_pending_account_resources_on_nodes payer max_payer limit ns in
    if n.is_finalized
    then rest
    else if check_pending_account_resources payer max_payer limit n.pool
    then rest
    else false

unfoldable pub check_account_nonce_on_nodes : Bytes → List PoolNode → Bool
check_account_nonce_on_nodes key [] = false
check_account_nonce_on_nodes key (n ∷ ns) =
    let rest = check_account_nonce_on_nodes key ns in
    if n.is_finalized then rest else if check_account_nonce key n.pool then true else rest

module _ (nonce_bytes : ℕ → Bytes) where
  -- The loop over the nodes: whether the transaction was added, the credits used at the head, and the
  -- nodes once the anonymous ones are committed. A nonce conflict leaves its node as it is.
  unfoldable pub add_to_nodes :
      Pending → ℕ → Bytes → Bool → ℕ → List PoolNode → Result Error (Bool × ℕ × List PoolNode)
  add_to_nodes r max_payer head trx_added used [] = ok (trx_added, used, [])
  add_to_nodes r max_payer head trx_added used (n ∷ ns) = elim n.is_finalized [
    | true ↦ do
      (added, rc_used, rest) ← add_to_nodes r max_payer head trx_added used ns
      ok (added, rc_used, n ∷ rest)
    | false ↦ elim (add_pending_transaction_to_node nonce_bytes r max_payer n.pool) [
      | err e ↦ elim e [
        | nonce_conflict ↦ do
          (added, rc_used, rest) ← add_to_nodes r max_payer head trx_added used ns
          ok (added, rc_used, n ∷ rest)
        | exceeds_resources ↦ err exceeds_resources
        | insertion_failure ↦ err insertion_failure
        | null_object ↦ err null_object
        | out_of_fuel ↦ err out_of_fuel
      ]
      | ok (rc, p) ↦ do
        (added, rc_used, rest) ←
            add_to_nodes r max_payer head true (if n.id == head then rc else used) ns
        ok (added, rc_used, record n { pool = p } ∷ rest)
    ]
  ]

  unfoldable pub add_pending_transaction :
      Pending → ℕ → Bytes → List PoolNode → Result Error (ℕ × List PoolNode)
  add_pending_transaction r max_payer head nodes = do
    (trx_added, used, added) ← add_to_nodes r max_payer head false 0 nodes
    koinos_assert trx_added nonce_conflict
    ok (used, added)

  -- The nodes are those that keep the pools after the fork heads.
  unfoldable pub remove_pending_transactions :
      List Bytes → Bytes → ℕ → List PoolNode → Result Error (ℕ × List PoolNode)
  remove_pending_transactions ids head count [] = ok (count, [])
  remove_pending_transactions ids head count (n ∷ ns) = do
    (removed, p) ← remove_pending_transactions_on_node nonce_bytes ids n.pool
    (total, rest) ←
        remove_pending_transactions ids head (if n.id == head then removed else count) ns
    ok (total, record n { pool = p } ∷ rest)
