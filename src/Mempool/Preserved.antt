-- ===== src/Mempool/Preserved.antt =====
-- What `add_pending_transaction_to_node` keeps of a valid pool.
use teleno.Base.{Bytes, arith, bytes_key, nat_key, none, ok, subst, true, ℕ, ◌+◌, ◌<◌, ◌^◌, ◌≡◌}
use teleno.StdMap.{lookup}
use teleno.Mempool.{
  Pending, Pool, nonce_key, next_seq, put_pending, add_pending_transaction_to_node,
  has_pending_transaction, check_account_nonce, check_pending_account_resources,
}
use teleno.Mempool.Valid.{IsValid}
use teleno.Mempool.Add.{Fits, put_pending-IsValid}
use teleno.Mempool.Admit.{
  add_pending_transaction_to_node_steps, check_pending_account_resources-reserved,
}

module _ (nonce_bytes : ℕ → Bytes) where
  -- What the three tests of a transaction that was put in have found.
  passed :
      (r : Pending) (max_payer total : ℕ) (pool p : Pool)
      → add_pending_transaction_to_node nonce_bytes r max_payer pool ≡ ok (total, p)
      → (check_pending_account_resources r.transaction.payer max_payer r.transaction.rc_limit pool
          ≡ true)
        × (lookup r.transaction.id pool.index ≡ none)
        × (lookup (nonce_key nonce_bytes r.transaction) pool.nonces ≡ none)
        × (put_pending nonce_bytes r max_payer pool ≡ p)
  unfolding has_pending_transaction check_account_nonce
  passed r max_payer total pool p e =
      ground (arith, add_pending_transaction_to_node_steps nonce_bytes r max_payer pool, e)

  passed-Fits :
      (r : Pending) (max_payer total : ℕ) (pool p : Pool)
      → IsValid nonce_bytes pool
      → max_payer < 2 ^ 64
      → 0 < r.transaction.rc_limit
      → next_seq pool + 1 < 2 ^ 64
      → add_pending_transaction_to_node nonce_bytes r max_payer pool ≡ ok (total, p)
      → Fits nonce_bytes r max_payer pool
  passed-Fits r max_payer total pool p w fits positive numbered e =
      let (enough, id, nonce, same) = passed r max_payer total pool p e in
      record {
        enough = ground (
          arith,
          enough,
          (check_pending_account_resources-reserved nonce_bytes r.transaction.payer max_payer
              r.transaction.rc_limit pool w).0,
        );
        machine = fits;
        new_id = id;
        new_nonce = nonce;
        positive = positive;
        numbered = numbered;
      }

  -- Whenever a transaction of a positive limit is put into a valid pool, with sequence numbers left
  -- and the payer's credits within a machine word, the pool stays valid: index, nonce keys and the
  -- records of the accounts agree with the pending transactions, each with a sequence number of its
  -- own.
  pub add_pending_transaction_to_node-IsValid :
      (r : Pending) (max_payer total : ℕ) (pool p : Pool)
      → IsValid nonce_bytes pool
      → max_payer < 2 ^ 64
      → 0 < r.transaction.rc_limit
      → next_seq pool + 1 < 2 ^ 64
      → add_pending_transaction_to_node nonce_bytes r max_payer pool ≡ ok (total, p)
      → IsValid nonce_bytes p
  add_pending_transaction_to_node-IsValid r max_payer total pool p w fits positive numbered e =
      let (enough, id, nonce, same) = passed r max_payer total pool p e in
      subst (λ q. IsValid nonce_bytes q) same
        (put_pending-IsValid nonce_bytes r max_payer pool w
          (passed-Fits r max_payer total pool p w fits positive numbered e))
