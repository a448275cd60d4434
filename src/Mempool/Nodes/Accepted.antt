-- ===== src/Mempool/Nodes/Accepted.antt =====
-- What the checks over all nodes say of adding, and what removing does on all nodes.
use teleno.StdMap.{lookup}
use teleno.Base.{
  Bool, Bool-cases, Bytes, List, Option, Result, [], arith, bytes_key, err, false, if◌then◌else◌,
  inl, inr, koinos_assert, nat_key, none, ok, some, subst, sym, true, ℕ, ◌==◌, ◌>>=◌, ◌>>◌, ◌∷◌,
  ◌≡◌, ◌⊎◌,
}
use teleno.Mempool.{
  nonce_conflict, Pending, Pool, Error, nonce_key, has_pending_transaction, check_account_nonce,
  check_pending_account_resources, add_pending_transaction_to_node, rc_used, put_pending,
}
use teleno.Mempool.Admit.{add_pending_transaction_to_node_steps}
use teleno.Mempool.Nodes.{
  PoolNode, add_to_nodes, add_pending_transaction, check_account_nonce_on_nodes,
  check_pending_account_resources_on_nodes, lookup,
}
use teleno.Mempool.Nodes.Steps.{Added, with_node, add_finalized, add_added, add_conflict}

abbrev pub error_of : Result Error (ℕ × List PoolNode) → Option Error
error_of (err e) = some e
error_of (ok x) = none

module _ (nonce_bytes : ℕ → Bytes) where
  -- No open node has a pending transaction of this id.
  abbrev AllNew : Bytes → List PoolNode → Type 0
  AllNew id [] = Unit
  AllNew id (n ∷ ns) =
      ((if n.is_finalized then false else has_pending_transaction id n.pool) ≡ false) × AllNew id ns

  open_node :
      (r : Pending) (max_payer : ℕ) (pool : Pool)
      → check_pending_account_resources r.transaction.payer max_payer r.transaction.rc_limit pool
        ≡ true
      → has_pending_transaction r.transaction.id pool ≡ false
      → ((rc : ℕ) × (p : Pool) × (add_pending_transaction_to_node nonce_bytes r max_payer pool
            ≡ ok (rc, p))
          × (check_account_nonce (nonce_key nonce_bytes r.transaction) pool ≡ true))
        ⊎ (add_pending_transaction_to_node nonce_bytes r max_payer pool ≡ err nonce_conflict)
          × (check_account_nonce (nonce_key nonce_bytes r.transaction) pool ≡ false)
  open_node r max_payer pool enough new =
      let steps = add_pending_transaction_to_node_steps nonce_bytes r max_payer pool in
      elim (Bool-cases (check_account_nonce (nonce_key nonce_bytes r.transaction) pool)) [
        | inl free ↦ inl (
          rc_used (lookup r.transaction.payer pool.resources) max_payer r.transaction.rc_limit,
          put_pending nonce_bytes r max_payer pool,
          ground (arith, steps, enough, new, free),
          free,
        )
        | inr used ↦ inr (ground (arith, steps, enough, new, used), used)
      ]

  -- What the loop answers when no node throws.
  abbrev Answers : Bool → Added → Type 0
  Answers expected (err e) = ⊥
  Answers expected (ok (added, used, nodes)) = added ≡ expected

  Answers-with_node :
      (expected : Bool) (n : PoolNode) (x : Added)
      → Answers expected x
      → Answers expected (with_node n x)
  Answers-with_node expected n (err e) a = a
  Answers-with_node expected n (ok x) a = a

  answered : (b c : Bool) (x y : Added) → b ≡ c → x ≡ y → Answers c y → Answers b x
  answered b c x y same run a =
      subst (λ z. Answers b z) (sym run) (subst (λ d. Answers d y) (sym same) a)

  add_to_nodes-Answers :
      (r : Pending) (max_payer : ℕ) (head : Bytes) (added : Bool) (used : ℕ) (nodes : List PoolNode)
      → check_pending_account_resources_on_nodes r.transaction.payer max_payer
          r.transaction.rc_limit nodes
        ≡ true
      → AllNew r.transaction.id nodes
      → Answers
          (if added
            then true
            else check_account_nonce_on_nodes (nonce_key nonce_bytes r.transaction) nodes)
          (add_to_nodes nonce_bytes r max_payer head added used nodes)
  unfolding check_account_nonce_on_nodes check_pending_account_resources_on_nodes
  add_to_nodes-Answers r max_payer head added used [] c new = unfold add_to_nodes in ground arith
  add_to_nodes-Answers r max_payer head added used (n ∷ ns) c new =
      let key = nonce_key nonce_bytes r.transaction in
      let rest_free = check_account_nonce_on_nodes key ns in
      let rest = λ (a : Bool) (u : ℕ). add_to_nodes nonce_bytes r max_payer head a u ns in
      let next = λ (a : Bool) (u : ℕ).
        add_to_nodes-Answers r max_payer head a u ns (ground (arith, c)) new.1 in
      elim (Bool-cases n.is_finalized) [
        | inl final ↦
            answered _ (if added then true else rest_free) _ (with_node n (rest added used))
              (ground (arith, final))
              (add_finalized nonce_bytes r max_payer head added used n ns final)
              (Answers-with_node _ n (rest added used) (next added used))
        | inr open_one ↦
            elim (open_node r max_payer n.pool (ground (arith, c, open_one))
              (ground (arith, new.0, open_one))) [
                | inl (rc, p, put, free) ↦
                    let u = if n.id == head then rc else used in
                    answered _ true _ (with_node (record n { pool = p }) (rest true u))
                      (ground (arith, open_one, free))
                      (add_added nonce_bytes r max_payer head added used rc n p ns open_one put)
                      (Answers-with_node _ (record n { pool = p }) (rest true u) (next true u))
                | inr (conflict, taken) ↦
                    answered _ (if added then true else rest_free) _ (with_node n (rest added used))
                      (ground (arith, open_one, taken))
                      (add_conflict nonce_bytes r max_payer head added used n ns open_one conflict)
                      (Answers-with_node _ n (rest added used) (next added used))
              ]
      ]

  error_of-Answers :
      (free : Bool) (x : Added)
      → Answers free x
      → error_of (do
        (trx_added, used, added) ← x
        koinos_assert trx_added nonce_conflict
        ok (used, added))
        ≡ (if free then none else some nonce_conflict)
  error_of-Answers free (err e) a = absurd a
  error_of-Answers free (ok (true, used, nodes)) a = rw⁻¹ a
  error_of-Answers free (ok (false, used, nodes)) a = rw⁻¹ a

  -- If the credits of the payer suffice on all open nodes and none of them has the id, a transaction
  -- is added just when the check of its nonce key over all nodes has found a node that is free of it,
  -- and otherwise the answer is a nonce conflict.
  pub add_pending_transaction-check_account_nonce :
      (r : Pending) (max_payer : ℕ) (head : Bytes) (nodes : List PoolNode)
      → check_pending_account_resources_on_nodes r.transaction.payer max_payer
          r.transaction.rc_limit nodes
        ≡ true
      → AllNew r.transaction.id nodes
      → error_of (add_pending_transaction nonce_bytes r max_payer head nodes) ≡ (
          if check_account_nonce_on_nodes (nonce_key nonce_bytes r.transaction) nodes
          then none
          else some nonce_conflict)
  unfolding add_pending_transaction
  add_pending_transaction-check_account_nonce r max_payer head nodes c new =
      error_of-Answers (check_account_nonce_on_nodes (nonce_key nonce_bytes r.transaction) nodes)
        (add_to_nodes nonce_bytes r max_payer head false 0 nodes)
        (add_to_nodes-Answers r max_payer head false 0 nodes c new)
