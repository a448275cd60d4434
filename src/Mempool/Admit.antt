-- ===== src/Mempool/Admit.antt =====
-- The answer of `add_pending_transaction_to_node`, and the state that it leaves.
use teleno.Mempool.Totals.{reserved}
use teleno.Base.{
  Bool, Bool-cases, Bytes, Option-cases, Result, [], ap, arith, bytes_beq_iff, bytes_key, err,
  false, if◌then◌else◌, inl, inr, leb, nat_beq_iff, nat_key, not, ok, some, true, ℕ, ◌+◌, ◌<◌, ◌==◌,
  ◌^◌, ◌∷◌, ◌≡◌,
}
use teleno.StdMap.{Map, lookup, IsSorted, lookup-Above}
use teleno.Mempool.{
  Pending, Pool, nonce_key, put_pending, add_pending_transaction_to_node,
  check_pending_account_resources, has_pending_transaction, insertion_failure, check_account_nonce,
  rc_used, nonce_conflict, exceeds_resources, get_reserved_account_rc, Error,
}
use teleno.Mempool.Valid.{IsValid}
use teleno.Mempool.Totals.{reserved}
use teleno.Mempool.Accounts.{check_resources-Account, rc_used-Account, reserved_of-Account}

-- Whether some pending transaction passes the test.
unfoldable pub any_pending : (Pending → Bool) → Map ℕ Pending → Bool
any_pending test [] = false
any_pending test ((seq, r) ∷ m) = if test r then true else any_pending test m

any_pending-lookup :
    (test : Pending → Bool) (seq : ℕ) (r : Pending) (m : Map ℕ Pending)
    → lookup seq m ≡ some r
    → test r ≡ true
    → any_pending test m ≡ true
unfolding any_pending lookup
any_pending-lookup test seq r [] e h = absurd (ground arith)
any_pending-lookup test seq r ((j, s) ∷ m) e h =
    ground (arith, any_pending-lookup test seq r m, ap test)

any_pending_inv :
    (test : Pending → Bool) (m : Map ℕ Pending)
    → IsSorted m
    → any_pending test m ≡ true
    → (seq : ℕ) × (r : Pending) × (lookup seq m ≡ some r) × (test r ≡ true)
unfolding any_pending lookup
any_pending_inv test [] h e = absurd (ground arith)
any_pending_inv test ((j, v) ∷ m) h e = elim (Bool-cases (test v)) [
  | inl passed ↦ (j, v, ground (arith, nat_beq_iff j j), passed)
  | inr failed ↦
      let (seq, r, at, passed) = any_pending_inv test m h.1 (ground (arith, e, failed)) in
      (seq, r, ground (arith, at, lookup-Above j m h.0, nat_beq_iff j seq), passed)
]

module _ (nonce_bytes : ℕ → Bytes) where
  pub add_pending_transaction_to_node_steps :
      (r : Pending) (max_payer : ℕ) (pool : Pool)
      → add_pending_transaction_to_node nonce_bytes r max_payer pool ≡ (
          if check_pending_account_resources r.transaction.payer max_payer r.transaction.rc_limit
            pool
          then if has_pending_transaction r.transaction.id pool
            then err insertion_failure
            else if check_account_nonce (nonce_key nonce_bytes r.transaction) pool
            then ok (
              rc_used (lookup r.transaction.payer pool.resources) max_payer r.transaction.rc_limit,
              put_pending nonce_bytes r max_payer pool,
            )
            else err nonce_conflict
          else err exceeds_resources)
  unfolding add_pending_transaction_to_node
  add_pending_transaction_to_node_steps r max_payer pool = ground arith

  has_pending_transaction-any :
      (id : Bytes) (pool : Pool)
      → IsValid nonce_bytes pool
      → has_pending_transaction id pool ≡ any_pending (λ r. r.transaction.id == id) pool.pending
  unfolding has_pending_transaction
  has_pending_transaction-any id pool w = elim (Option-cases (lookup id pool.index)) [
    | inl absent ↦ elim (Bool-cases (any_pending (λ r. r.transaction.id == id) pool.pending)) [
      | inl found ↦
          let (seq, r, at, named) =
            any_pending_inv (λ r. r.transaction.id == id) pool.pending w.sorted found in
          absurd (
            ground (
              arith,
              absent,
              (w.listed seq r at).0,
              ap (λ k. lookup k pool.index) ((bytes_beq_iff r.transaction.id id).0 named),
            ))
      | inr missing ↦ ground (arith, absent, missing)
    ]
    | inr (seq, present) ↦
        let (r, at, named) = w.indexed id seq present in
        ground (
          arith,
          present,
          any_pending-lookup (λ r. r.transaction.id == id) seq r pool.pending at
              ((bytes_beq_iff r.transaction.id id).1 named),
        )
  ]

  check_account_nonce-any :
      (key : Bytes) (pool : Pool)
      → IsValid nonce_bytes pool
      → check_account_nonce key pool
        ≡ not (any_pending (λ r. nonce_key nonce_bytes r.transaction == key) pool.pending)
  unfolding check_account_nonce
  check_account_nonce-any key pool w = elim (Option-cases (lookup key pool.nonces)) [
    | inl absent ↦
        elim (Bool-cases
          (any_pending (λ r. nonce_key nonce_bytes r.transaction == key) pool.pending)) [
            | inl found ↦
                let (seq, r, at, named) =
                  any_pending_inv (λ r. nonce_key nonce_bytes r.transaction == key) pool.pending
                    w.sorted found in
                absurd (
                  ground (
                    arith,
                    absent,
                    w.nonces seq r at,
                    ap (λ k. lookup k pool.nonces)
                        ((bytes_beq_iff (nonce_key nonce_bytes r.transaction) key).0 named),
                  ))
            | inr missing ↦ ground (arith, absent, missing)
          ]
    | inr (u, present) ↦
        let (seq, r, at, named) = w.used key present in
        ground (
          arith,
          present,
          any_pending-lookup (λ r. nonce_key nonce_bytes r.transaction == key) seq r pool.pending at
              ((bytes_beq_iff (nonce_key nonce_bytes r.transaction) key).1 named),
        )
  ]

  -- In a valid pool, the check of a payer's credits answers whether the limits of the payer's pending
  -- transactions, summed, leave room for the new limit; and `get_reserved_account_rc` is that sum.
  pub check_pending_account_resources-reserved :
      (payer : Bytes) (max_payer limit : ℕ) (pool : Pool)
      → IsValid nonce_bytes pool
      → (check_pending_account_resources payer max_payer limit pool
          ≡ leb (reserved payer pool.pending + limit) max_payer)
        × (get_reserved_account_rc payer pool ≡ reserved payer pool.pending)
  unfolding check_pending_account_resources get_reserved_account_rc
  check_pending_account_resources-reserved payer max_payer limit pool w = (
    check_resources-Account (reserved payer pool.pending) max_payer limit
        (lookup payer pool.resources) (w.accounts payer),
    reserved_of-Account (reserved payer pool.pending) (lookup payer pool.resources)
        (w.accounts payer),
  )

  -- What is to be answered, by the list of pending transactions alone.
  abbrev admitted : Pending → ℕ → Pool → Result Error (ℕ × Pool)
  admitted r max_payer pool =
      let t = r.transaction in
      let total = reserved t.payer pool.pending + t.rc_limit in
      if leb total max_payer
      then if any_pending (λ s. s.transaction.id == t.id) pool.pending
        then err insertion_failure
        else if any_pending (λ s. nonce_key nonce_bytes s.transaction == nonce_key nonce_bytes t)
            pool.pending
        then err nonce_conflict
        else ok (total, put_pending nonce_bytes r max_payer pool)
      else err exceeds_resources

  -- In a valid pool, with a payer's credits within a machine word, a transaction is refused if the
  -- limits of the payer's pending transactions and its own, summed, exceed those credits, else if a
  -- pending transaction has its id, else if one has its nonce key, each with its error; otherwise it
  -- is put in and the sum is the answer.
  pub add_pending_transaction_to_node-admitted :
      (r : Pending) (max_payer : ℕ) (pool : Pool)
      → IsValid nonce_bytes pool
      → max_payer < 2 ^ 64
      → add_pending_transaction_to_node nonce_bytes r max_payer pool ≡ admitted r max_payer pool
  add_pending_transaction_to_node-admitted r max_payer pool w fits =
      let t = r.transaction in
      let account = w.accounts t.payer in
      ground (
        arith,
        add_pending_transaction_to_node_steps r max_payer pool,
        (check_pending_account_resources-reserved t.payer max_payer t.rc_limit pool w).0,
        has_pending_transaction-any t.id pool w,
        check_account_nonce-any (nonce_key nonce_bytes t) pool w,
        rc_used-Account (reserved t.payer pool.pending) max_payer t.rc_limit
            (lookup t.payer pool.resources) account,
      )
