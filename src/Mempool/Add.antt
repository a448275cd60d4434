-- ===== src/Mempool/Add.antt =====
-- What `add_pending_transaction_to_node` does to the spaces of a node.
use teleno.Base.{
  Bool-cases, Bytes, Option-cases, ap, arith, beq_refl, bytes_beq_iff, bytes_key, false, inl, inr,
  nat_beq_iff, nat_key, none, some, subst, sym, ℕ, ◌+◌, ◌<◌, ◌==◌, ◌^◌, ◌∙◌, ◌≡◌, ◌≤◌,
}
use teleno.StdMap.{Map, IsSorted-insert, lookup, insert_or_assign, lookup-insert, lookup-insert_inv}
use teleno.Mempool.{Pending, Resources, Pool, nonce_key, next_seq, put_pending, charged}
use teleno.Mempool.Totals.{reserved, reserved-insert, share_own, share_other}
use teleno.Mempool.Valid.{IsValid, Account}
use teleno.Mempool.Accounts.{charged-Account}

module _ (nonce_bytes : ℕ → Bytes) where
  -- A transaction that may be put in: the credits of its payer are enough, and its id and its nonce
  -- key are new.
  pub record Fits (r : Pending) (max_payer : ℕ) (pool : Pool) : Type 0 where
    pub enough : reserved r.transaction.payer pool.pending + r.transaction.rc_limit ≤ max_payer
    pub machine : max_payer < 2 ^ 64
    pub new_id : lookup r.transaction.id pool.index ≡ none
    pub new_nonce : lookup (nonce_key nonce_bytes r.transaction) pool.nonces ≡ none
    pub positive : 0 < r.transaction.rc_limit
    pub numbered : next_seq pool + 1 < 2 ^ 64

  seq_fresh : (pool : Pool) → IsValid nonce_bytes pool → lookup (next_seq pool) pool.pending ≡ none
  seq_fresh pool w = elim (Option-cases (lookup (next_seq pool) pool.pending)) [
    | inl e ↦ e
    | inr (r, e) ↦ absurd (omega (arith, (w.listed (next_seq pool) r e).1))
  ]

  next_seq-put_pending :
      (r : Pending) (max_payer : ℕ) (pool : Pool)
      → next_seq pool + 1 < 2 ^ 64
      → next_seq (put_pending nonce_bytes r max_payer pool) ≡ next_seq pool + 1
  next_seq-put_pending r max_payer pool h = unfold put_pending next_seq in omega arith

  abbrev next_pending : Pending → Pool → Map ℕ Pending
  next_pending r pool = insert_or_assign (next_seq pool) r pool.pending

  abbrev next_resources : Pending → ℕ → Pool → Map Bytes Resources
  next_resources r max_payer pool =
      insert_or_assign r.transaction.payer
        (charged (lookup r.transaction.payer pool.resources) max_payer r.transaction.rc_limit)
        pool.resources

  lookup_insert_self :
      {V : Type 0}
      → (k : Bytes) (v : V) (m : Map Bytes V) → lookup k (insert_or_assign k v m) ≡ some v
  lookup_insert_self k v m = lookup-insert k k v m ∙ rw (beq_refl k)

  Account-own :
      (r : Pending) (max_payer : ℕ) (pool : Pool)
      → IsValid nonce_bytes pool
      → Fits r max_payer pool
      → Account
          (reserved r.transaction.payer (next_pending r pool))
          (lookup r.transaction.payer (next_resources r max_payer pool))
  Account-own r max_payer pool w f =
      let t = r.transaction in
      let o = lookup t.payer pool.resources in
      let sum = reserved-insert t.payer (next_seq pool) r pool.pending (seq_fresh pool w) in
      subst (λ n. Account n (lookup t.payer (next_resources r max_payer pool)))
        (omega (arith, sum, share_own r))
        (subst (λ x. Account (reserved t.payer pool.pending + t.rc_limit) x)
          (sym (lookup_insert_self t.payer (charged o max_payer t.rc_limit) pool.resources))
          (charged-Account (reserved t.payer pool.pending) max_payer t.rc_limit o
            (w.accounts t.payer) f.enough f.machine))

  abbrev next_nonces : Pending → Pool → Map Bytes (Unit {0})
  next_nonces r pool = insert_or_assign (nonce_key nonce_bytes r.transaction) tt pool.nonces

  Account-other :
      (r : Pending) (max_payer : ℕ) (pool : Pool) (payer : Bytes)
      → IsValid nonce_bytes pool
      → (r.transaction.payer == payer) ≡ false
      → Account
          (reserved payer (next_pending r pool))
          (lookup payer (next_resources r max_payer pool))
  Account-other r max_payer pool payer w ne =
      let sum = reserved-insert payer (next_seq pool) r pool.pending (seq_fresh pool w) in
      subst (λ n. Account n (lookup payer (next_resources r max_payer pool)))
        (omega (arith, sum, share_other r payer ne))
        (subst (λ x. Account (reserved payer pool.pending) x)
          (sym (
            lookup-insert r.transaction.payer payer
              (charged (lookup r.transaction.payer pool.resources) max_payer r.transaction.rc_limit)
              pool.resources
            ∙ rw ne))
          (w.accounts payer))

  accounts-put_pending :
      (r : Pending) (max_payer : ℕ) (pool : Pool)
      → IsValid nonce_bytes pool
      → Fits r max_payer pool
      → (payer : Bytes)
      → Account
          (reserved payer (next_pending r pool))
          (lookup payer (next_resources r max_payer pool))
  accounts-put_pending r max_payer pool w f payer =
      elim (Bool-cases (r.transaction.payer == payer)) [
        | inl same ↦
            subst
              (λ p.
                Account (reserved p (next_pending r pool))
                  (lookup p (next_resources r max_payer pool)))
              ((bytes_beq_iff r.transaction.payer payer).0 same) (Account-own r max_payer pool w f)
        | inr ne ↦ Account-other r max_payer pool payer w ne
      ]

  kept_pending :
      (r s : Pending) (seq : ℕ) (pool : Pool)
      → IsValid nonce_bytes pool
      → lookup seq pool.pending ≡ some s
      → lookup seq (next_pending r pool) ≡ some s
  kept_pending r s seq pool w e = ground (
    arith,
    lookup-insert (next_seq pool) seq r pool.pending,
    seq_fresh pool w,
    nat_beq_iff (next_seq pool) seq,
  )

  lookup_next : (r : Pending) (pool : Pool) → lookup (next_seq pool) (next_pending r pool) ≡ some r
  lookup_next r pool = ground (
    arith,
    lookup-insert (next_seq pool) (next_seq pool) r pool.pending,
    nat_beq_iff (next_seq pool) (next_seq pool),
  )

  indexed-put_pending :
      (r : Pending) (pool : Pool) (id : Bytes) (seq : ℕ)
      → IsValid nonce_bytes pool
      → lookup id (insert_or_assign r.transaction.id (next_seq pool) pool.index) ≡ some seq
      → (s : Pending) × (lookup seq (next_pending r pool) ≡ some s) × (s.transaction.id ≡ id)
  indexed-put_pending r pool id seq w e =
      elim (lookup-insert_inv r.transaction.id id (next_seq pool) seq pool.index e) [
        | inl (same, new) ↦
            (r, subst (λ i. lookup i (next_pending r pool) ≡ some r) new (lookup_next r pool), same)
        | inr (ne, old) ↦
            let (s, es, named) = w.indexed id seq old in (s, kept_pending r s seq pool w es, named)
      ]

  listed-put_pending :
      (r s : Pending) (pool : Pool) (seq : ℕ)
      → IsValid nonce_bytes pool
      → lookup r.transaction.id pool.index ≡ none
      → 0 < r.transaction.rc_limit
      → lookup seq (next_pending r pool) ≡ some s
      → (lookup s.transaction.id (insert_or_assign r.transaction.id (next_seq pool) pool.index)
          ≡ some seq)
        × (seq < next_seq pool + 1)
        × (0 < s.transaction.rc_limit)
  listed-put_pending r s pool seq w new positive e =
      elim (lookup-insert_inv (next_seq pool) seq r s pool.pending e) [
        | inl (at, same) ↦
            subst
              (λ x.
                (lookup x.transaction.id
                    (insert_or_assign r.transaction.id (next_seq pool) pool.index)
                  ≡ some seq)
                × (seq < next_seq pool + 1)
                × (0 < x.transaction.rc_limit))
              same
              (
                lookup-insert r.transaction.id r.transaction.id (next_seq pool) pool.index
                    ∙ rw (beq_refl r.transaction.id) (ap some at),
                omega arith,
                positive,
              )
        | inr (ne, old) ↦
            let (at, below, limit) = w.listed seq s old in
            (
              ground (
                arith,
                lookup-insert r.transaction.id s.transaction.id (next_seq pool) pool.index,
                bytes_beq_iff r.transaction.id s.transaction.id,
                ap (λ x. lookup x pool.index),
              ),
              omega arith,
              limit,
            )
      ]

  nonces-put_pending :
      (r s : Pending) (pool : Pool) (seq : ℕ)
      → IsValid nonce_bytes pool
      → lookup seq (next_pending r pool) ≡ some s
      → lookup (nonce_key nonce_bytes s.transaction) (next_nonces r pool) ≡ some tt
  nonces-put_pending r s pool seq w e =
      elim (lookup-insert_inv (next_seq pool) seq r s pool.pending e) [
        | inl (at, same) ↦
            subst (λ x. lookup (nonce_key nonce_bytes x.transaction) (next_nonces r pool) ≡ some tt)
              same (lookup_insert_self (nonce_key nonce_bytes r.transaction) tt pool.nonces)
        | inr (ne, old) ↦ ground (
          arith,
          lookup-insert (nonce_key nonce_bytes r.transaction) (nonce_key nonce_bytes s.transaction)
              tt pool.nonces,
          w.nonces seq s old,
        )
      ]

  used-put_pending :
      (r : Pending) (pool : Pool) (key : Bytes)
      → IsValid nonce_bytes pool
      → lookup key (next_nonces r pool) ≡ some tt
      → (seq : ℕ) × (s : Pending) × (lookup seq (next_pending r pool) ≡ some s)
        × (nonce_key nonce_bytes s.transaction ≡ key)
  used-put_pending r pool key w e =
      elim (lookup-insert_inv (nonce_key nonce_bytes r.transaction) key tt tt pool.nonces e) [
        | inl (same, new) ↦ (next_seq pool, r, lookup_next r pool, same)
        | inr (ne, old) ↦
            let (seq, s, at, key_at) = w.used key old in
            (seq, s, kept_pending r s seq pool w at, key_at)
      ]

  -- The new nonce key is that of no pending transaction.
  nonce_apart :
      (r s : Pending) (pool : Pool) (seq : ℕ)
      → IsValid nonce_bytes pool
      → lookup (nonce_key nonce_bytes r.transaction) pool.nonces ≡ none
      → lookup seq pool.pending ≡ some s
      → ¬ (nonce_key nonce_bytes r.transaction ≡ nonce_key nonce_bytes s.transaction)
  nonce_apart r s pool seq w new e same =
      ground (arith, w.nonces seq s e, new, ap (λ k. lookup k pool.nonces) same)

  distinct-put_pending :
      (r s t : Pending) (pool : Pool) (i j : ℕ)
      → IsValid nonce_bytes pool
      → lookup (nonce_key nonce_bytes r.transaction) pool.nonces ≡ none
      → lookup i (next_pending r pool) ≡ some s
      → lookup j (next_pending r pool) ≡ some t
      → nonce_key nonce_bytes s.transaction ≡ nonce_key nonce_bytes t.transaction
      → i ≡ j
  distinct-put_pending r s t pool i j w new ei ej same =
      elim (lookup-insert_inv (next_seq pool) i r s pool.pending ei) [
        | inl (ai, es) ↦ elim (lookup-insert_inv (next_seq pool) j r t pool.pending ej) [
          | inl (aj, et) ↦ sym ai ∙ aj
          | inr (nj, oj) ↦ absurd (
              nonce_apart r t pool j w new oj
                (ap (λ x. nonce_key nonce_bytes x.transaction) es ∙ same))
        ]
        | inr (ni, oi) ↦ elim (lookup-insert_inv (next_seq pool) j r t pool.pending ej) [
          | inl (aj, et) ↦ absurd (
              nonce_apart r s pool i w new oi
                (ap (λ x. nonce_key nonce_bytes x.transaction) et ∙ sym same))
          | inr (nj, oj) ↦ w.distinct i j s t oi oj same
        ]
      ]

  pub put_pending-IsValid :
      (r : Pending) (max_payer : ℕ) (pool : Pool)
      → IsValid nonce_bytes pool
      → Fits r max_payer pool
      → IsValid nonce_bytes (put_pending nonce_bytes r max_payer pool)
  unfolding put_pending
  put_pending-IsValid r max_payer pool w f = record {
    sorted = IsSorted-insert (next_seq pool) r pool.pending w.sorted;
    indexed = λ id seq e. indexed-put_pending r pool id seq w e;
    listed = λ seq s e.
        let (at, below, limit) = listed-put_pending r s pool seq w f.new_id f.positive e in
        (at, omega (arith, next_seq-put_pending r max_payer pool f.numbered), limit);
    nonces = λ seq s e. nonces-put_pending r s pool seq w e;
    used = λ key e. used-put_pending r pool key w e;
    distinct = λ i j s t ei ej same. distinct-put_pending r s t pool i j w f.new_nonce ei ej same;
    accounts = accounts-put_pending r max_payer pool w f;
  }
