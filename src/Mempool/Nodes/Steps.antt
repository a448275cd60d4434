-- ===== src/Mempool/Nodes/Steps.antt =====
-- The cases of the loop of `add_pending_transaction` over the nodes.
use teleno.Base.{
  Bool, Bytes, List, Result, arith, bytes_key, err, false, if◌then◌else◌, inl, inr, nat_key, ok,
  refl, true, ℕ, ◌==◌, ◌>>=◌, ◌∷◌, ◌≡◌, ◌⊎◌,
}
use teleno.Mempool.{
  exceeds_resources, insertion_failure, null_object, out_of_fuel, nonce_conflict, Pending, Pool,
  Error, add_pending_transaction_to_node,
}
use teleno.Mempool.Nodes.{PoolNode, add_to_nodes}

abbrev pub Added : Type 0
Added = Result Error (Bool × ℕ × List PoolNode)

abbrev pub with_node : PoolNode → Added → Added
with_node n (err e) = err e
with_node n (ok (added, used, rest)) = ok (added, used, n ∷ rest)

with_node_bind :
    (n : PoolNode) (x : Added)
    → (do (added, rc_used, rest) ← x; ok (added, rc_used, n ∷ rest)) ≡ with_node n x
with_node_bind n (err e) = refl
with_node_bind n (ok x) = refl

module _ (nonce_bytes : ℕ → Bytes) (r : Pending) (max_payer : ℕ) (head : Bytes) where
  pub add_finalized :
      (added : Bool) (used : ℕ) (n : PoolNode) (ns : List PoolNode)
      → n.is_finalized ≡ true
      → add_to_nodes nonce_bytes r max_payer head added used (n ∷ ns)
        ≡ with_node n (add_to_nodes nonce_bytes r max_payer head added used ns)
  unfolding add_to_nodes
  add_finalized added used n ns e =
      ground (arith, e, with_node_bind n (add_to_nodes nonce_bytes r max_payer head added used ns))

  pub add_conflict :
      (added : Bool) (used : ℕ) (n : PoolNode) (ns : List PoolNode)
      → n.is_finalized ≡ false
      → add_pending_transaction_to_node nonce_bytes r max_payer n.pool ≡ err nonce_conflict
      → add_to_nodes nonce_bytes r max_payer head added used (n ∷ ns)
        ≡ with_node n (add_to_nodes nonce_bytes r max_payer head added used ns)
  unfolding add_to_nodes
  add_conflict added used n ns e c =
      ground
        (arith, e, c, with_node_bind n (add_to_nodes nonce_bytes r max_payer head added used ns))

  pub add_added :
      (added : Bool) (used rc : ℕ) (n : PoolNode) (p : Pool) (ns : List PoolNode)
      → n.is_finalized ≡ false
      → add_pending_transaction_to_node nonce_bytes r max_payer n.pool ≡ ok (rc, p)
      → add_to_nodes nonce_bytes r max_payer head added used (n ∷ ns)
        ≡ with_node
            (record n { pool = p })
            (add_to_nodes nonce_bytes r max_payer head true (if n.id == head then rc else used) ns)
  unfolding add_to_nodes
  add_added added used rc n p ns e c = ground (
    arith,
    e,
    c,
    with_node_bind (record n { pool = p })
        (add_to_nodes nonce_bytes r max_payer head true (if n.id == head then rc else used) ns),
  )

  pub add_refused :
      (added : Bool) (used : ℕ) (n : PoolNode) (ns : List PoolNode) (e : Error)
      → n.is_finalized ≡ false
      → add_pending_transaction_to_node nonce_bytes r max_payer n.pool ≡ err e
      → (add_to_nodes nonce_bytes r max_payer head added used (n ∷ ns)
          ≡ with_node n (add_to_nodes nonce_bytes r max_payer head added used ns))
        ⊎ (add_to_nodes nonce_bytes r max_payer head added used (n ∷ ns) ≡ err e)
  unfolding add_to_nodes
  add_refused added used n ns nonce_conflict f c = inl (add_conflict added used n ns f c)
  add_refused added used n ns exceeds_resources f c = inr (ground (arith, f, c))
  add_refused added used n ns insertion_failure f c = inr (ground (arith, f, c))
  add_refused added used n ns null_object f c = inr (ground (arith, f, c))
  add_refused added used n ns out_of_fuel f c = inr (ground (arith, f, c))
