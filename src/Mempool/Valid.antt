-- ===== src/Mempool/Valid.antt =====
-- What holds of the spaces of a node between the operations of the mempool.
use teleno.Base.{Bytes, Option, bytes_key, nat_key, none, some, ℕ, ◌+◌, ◌<◌, ◌^◌, ◌≡◌}
use teleno.StdMap.{lookup, IsSorted}
use teleno.Mempool.{Pending, Resources, Pool, nonce_key, next_seq}
use teleno.Mempool.Totals.{reserved}

-- The record of an account that has reserved `n` credits: none is kept for 0 credits.
abbrev pub Account : ℕ → Option Resources → Type 0
Account n none = n ≡ 0
Account n (some arr) = (arr.current_rc + n ≡ arr.max_rc) × (arr.max_rc < 2 ^ 64)

module _ (nonce_bytes : ℕ → Bytes) where
  -- Index and nonces name the pending transactions, each nonce key just one; sequence numbers are
  -- below the next one; limits are positive; and the record of each account holds what is reserved.
  pub record IsValid (pool : Pool) : Type 0 where
    pub sorted : IsSorted pool.pending
    pub indexed :
        (id : Bytes) (seq : ℕ)
        → lookup id pool.index ≡ some seq
        → (r : Pending) × (lookup seq pool.pending ≡ some r) × (r.transaction.id ≡ id)
    pub listed :
        (seq : ℕ) (r : Pending)
        → lookup seq pool.pending ≡ some r
        → (lookup r.transaction.id pool.index ≡ some seq)
          × (seq < next_seq pool)
          × (0 < r.transaction.rc_limit)
    pub nonces :
        (seq : ℕ) (r : Pending)
        → lookup seq pool.pending ≡ some r
        → lookup (nonce_key nonce_bytes r.transaction) pool.nonces ≡ some tt
    pub used :
        (key : Bytes)
        → lookup key pool.nonces ≡ some tt
        → (seq : ℕ) × (r : Pending) × (lookup seq pool.pending ≡ some r)
          × (nonce_key nonce_bytes r.transaction ≡ key)
    pub distinct :
        (i j : ℕ) (r s : Pending)
        → lookup i pool.pending ≡ some r
        → lookup j pool.pending ≡ some s
        → nonce_key nonce_bytes r.transaction ≡ nonce_key nonce_bytes s.transaction
        → i ≡ j
    pub accounts :
        (payer : Bytes) → Account (reserved payer pool.pending) (lookup payer pool.resources)
