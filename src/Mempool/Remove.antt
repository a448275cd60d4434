-- ===== src/Mempool/Remove.antt =====
-- What taking a pending transaction out of the spaces of a node keeps.
use teleno.Base.{
  Bool-cases, Bytes, Option, Option-cases, ap, arith, bytes_beq_iff, bytes_key, false,
  if◌then◌else◌, inl, inr, nat_beq_iff, nat_key, none, ok, refl, some, some_inj, subst, sym, ℕ, ◌+◌,
  ◌-◌, ◌==◌, ◌∙◌, ◌≡◌,
}
use teleno.StdMap.{
  Map, IsSorted-erase, erase, insert_or_assign, lookup, lookup-erase, lookup-erase_inv,
  lookup-insert,
}
use teleno.Mempool.{
  Pending, Resources, Pool, nonce_key, next_seq, take_out, refunded, cleanup_account_resources,
}
use teleno.Mempool.Totals.{share_own, share_other, reserved, reserved-erase, share}
use teleno.Mempool.Valid.{IsValid, Account}
use teleno.Mempool.Accounts.{refunded-Account}

-- The records of the accounts once one of them is settled.
abbrev settle : Bytes → Option Resources → Map Bytes Resources → Map Bytes Resources
settle payer o m = elim o [ none ↦ erase payer m | some left ↦ insert_or_assign payer left m ]

lookup-settle :
    (payer p : Bytes) (o : Option Resources) (m : Map Bytes Resources)
    → lookup p (settle payer o m) ≡ (if payer == p then o else lookup p m)
lookup-settle payer p none m = lookup-erase payer p m
lookup-settle payer p (some left) m = lookup-insert payer p left m

module _ (nonce_bytes : ℕ → Bytes) where
  abbrev without : ℕ → Pending → Resources → Pool → Pool
  without seq r arr pool = record pool {
    pending = erase seq pool.pending;
    index = erase r.transaction.id pool.index;
    resources = settle r.transaction.payer (refunded arr r.transaction.rc_limit) pool.resources;
    nonces = erase (nonce_key nonce_bytes r.transaction) pool.nonces;
  }

  take_out-without :
      (seq : ℕ) (r : Pending) (arr : Resources) (pool : Pool)
      → lookup r.transaction.payer pool.resources ≡ some arr
      → take_out nonce_bytes r.transaction.id seq r pool ≡ ok (without seq r arr pool)
  unfolding take_out cleanup_account_resources
  take_out-without seq r arr pool e = rw e

  share_at_most :
      (payer : Bytes) (seq : ℕ) (r : Pending) (pool : Pool)
      → IsValid nonce_bytes pool
      → lookup seq pool.pending ≡ some r
      → share payer r + reserved payer (erase seq pool.pending) ≡ reserved payer pool.pending
  share_at_most payer seq r pool w e = reserved-erase payer seq r pool.pending w.sorted e

  -- The payer of a pending transaction has a record.
  payer_record :
      (seq : ℕ) (r : Pending) (pool : Pool)
      → IsValid nonce_bytes pool
      → lookup seq pool.pending ≡ some r
      → (arr : Resources) × (lookup r.transaction.payer pool.resources ≡ some arr)
  payer_record seq r pool w e = elim (Option-cases (lookup r.transaction.payer pool.resources)) [
    | inl absent ↦
        let zero_reserved : reserved r.transaction.payer pool.pending ≡ 0 =
          subst (λ o. Account (reserved r.transaction.payer pool.pending) o) absent
            (w.accounts r.transaction.payer) in
        absurd (
          omega (
            arith,
            zero_reserved,
            share_own r,
            (w.listed seq r e).2,
            share_at_most r.transaction.payer seq r pool w e,
          ))
    | inr present ↦ present
  ]

  Account-own :
      (seq : ℕ) (r : Pending) (arr : Resources) (pool : Pool)
      → IsValid nonce_bytes pool
      → lookup seq pool.pending ≡ some r
      → lookup r.transaction.payer pool.resources ≡ some arr
      → Account
          (reserved r.transaction.payer (erase seq pool.pending))
          (refunded arr r.transaction.rc_limit)
  Account-own seq r arr pool w e a =
      let t = r.transaction in
      let n = reserved t.payer pool.pending in
      let sum = share_at_most t.payer seq r pool w e in
      subst (λ k. Account k (refunded arr t.rc_limit)) {x = n - t.rc_limit}
        (omega (arith, sum, share_own r))
        (refunded-Account n t.rc_limit arr (subst (λ o. Account n o) a (w.accounts t.payer))
          (omega (arith, sum, share_own r)))

  Account-settled :
      (seq : ℕ) (r : Pending) (arr : Resources) (pool : Pool) (payer : Bytes)
      → IsValid nonce_bytes pool
      → lookup seq pool.pending ≡ some r
      → lookup r.transaction.payer pool.resources ≡ some arr
      → Account (reserved payer (erase seq pool.pending)) (
          lookup payer
            (settle r.transaction.payer (refunded arr r.transaction.rc_limit) pool.resources))
  Account-settled seq r arr pool payer w e a =
      let t = r.transaction in
      let after = lookup-settle t.payer payer (refunded arr t.rc_limit) pool.resources in
      elim (Bool-cases (t.payer == payer)) [
        | inl same ↦
            let here = (bytes_beq_iff t.payer payer).0 same in
            subst (λ o. Account (reserved payer (erase seq pool.pending)) o)
              {x = refunded arr t.rc_limit} (ground (arith, after, same))
              (subst (λ p. Account (reserved p (erase seq pool.pending)) (refunded arr t.rc_limit))
                here (Account-own seq r arr pool w e a))
        | inr other ↦
            subst (λ o. Account (reserved payer (erase seq pool.pending)) o)
              {x = lookup payer pool.resources} (ground (arith, after, other))
              (subst (λ k. Account k (lookup payer pool.resources))
                {x = reserved payer pool.pending}
                (omega (arith, share_at_most payer seq r pool w e, share_other r payer other))
                (w.accounts payer))
      ]

  kept_erase :
      (seq i : ℕ) (r s : Pending) (pool : Pool)
      → (seq == i) ≡ false
      → lookup i pool.pending ≡ some s
      → lookup i (erase seq pool.pending) ≡ some s
  kept_erase seq i r s pool ne e = ground (arith, lookup-erase seq i pool.pending)

  -- A pending transaction of another sequence number has another nonce key and another id.
  key_apart :
      (seq i : ℕ) (r s : Pending) (pool : Pool)
      → IsValid nonce_bytes pool
      → lookup seq pool.pending ≡ some r
      → lookup i (erase seq pool.pending) ≡ some s
      → (lookup i pool.pending ≡ some s)
        × ((r.transaction.id == s.transaction.id) ≡ false)
        × ((nonce_key nonce_bytes r.transaction == nonce_key nonce_bytes s.transaction) ≡ false)
  key_apart seq i r s pool w e es =
      let (ne, old) = lookup-erase_inv seq i s pool.pending es in
      (
        old,
        ground (
          arith,
          ne,
          nat_beq_iff seq i,
          bytes_beq_iff r.transaction.id s.transaction.id,
          ap (λ k. lookup k pool.index),
          (w.listed seq r e).0,
          (w.listed i s old).0,
        ),
        ground (
          arith,
          ne,
          nat_beq_iff seq i,
          bytes_beq_iff (nonce_key nonce_bytes r.transaction) (nonce_key nonce_bytes s.transaction),
          w.distinct seq i r s e old,
        ),
      )

  next_seq-without :
      (seq : ℕ) (r : Pending) (arr : Resources) (pool : Pool)
      → next_seq (without seq r arr pool) ≡ next_seq pool
  unfolding next_seq
  next_seq-without seq r arr pool = refl

  indexed-without :
      (seq : ℕ) (r : Pending) (pool : Pool) (id : Bytes) (i : ℕ)
      → IsValid nonce_bytes pool
      → lookup seq pool.pending ≡ some r
      → lookup id (erase r.transaction.id pool.index) ≡ some i
      → (s : Pending) × (lookup i (erase seq pool.pending) ≡ some s) × (s.transaction.id ≡ id)
  indexed-without seq r pool id i w e h =
      let (ne, old) = lookup-erase_inv r.transaction.id id i pool.index h in
      let (s, at, named) = w.indexed id i old in
      let found : (seq ≡ i) → s ≡ r =
        λ same. some_inj s r (sym at ∙ ap (λ k. lookup k pool.pending) (sym same) ∙ e) in
      let apart : (seq == i) ≡ false = ground (
        arith,
        nat_beq_iff seq i,
        found,
        ap (λ (x : Pending). x.transaction.id),
        named,
        ne,
        bytes_beq_iff r.transaction.id id,
      ) in
      (s, kept_erase seq i r s pool apart at, named)

  used-without :
      (seq : ℕ) (r : Pending) (pool : Pool) (key : Bytes)
      → IsValid nonce_bytes pool
      → lookup seq pool.pending ≡ some r
      → lookup key (erase (nonce_key nonce_bytes r.transaction) pool.nonces) ≡ some tt
      → (i : ℕ) × (s : Pending) × (lookup i (erase seq pool.pending) ≡ some s)
        × (nonce_key nonce_bytes s.transaction ≡ key)
  used-without seq r pool key w e h =
      let (ne, old) = lookup-erase_inv (nonce_key nonce_bytes r.transaction) key tt pool.nonces h in
      let (i, s, at, named) = w.used key old in
      let found : (seq ≡ i) → s ≡ r =
        λ same. some_inj s r (sym at ∙ ap (λ k. lookup k pool.pending) (sym same) ∙ e) in
      let apart : (seq == i) ≡ false = ground (
        arith,
        nat_beq_iff seq i,
        found,
        ap (λ (x : Pending). nonce_key nonce_bytes x.transaction),
        named,
        ne,
        bytes_beq_iff (nonce_key nonce_bytes r.transaction) key,
      ) in
      (i, s, kept_erase seq i r s pool apart at, named)

  without-IsValid :
      (seq : ℕ) (r : Pending) (arr : Resources) (pool : Pool)
      → IsValid nonce_bytes pool
      → lookup seq pool.pending ≡ some r
      → lookup r.transaction.payer pool.resources ≡ some arr
      → IsValid nonce_bytes (without seq r arr pool)
  without-IsValid seq r arr pool w e a = record {
    sorted = IsSorted-erase seq pool.pending w.sorted;
    indexed = λ id i h. indexed-without seq r pool id i w e h;
    listed = λ i s h.
        let (old, id_apart, k) = key_apart seq i r s pool w e h in
        let (at, below, positive) = w.listed i s old in
        (
          ground (arith, lookup-erase r.transaction.id s.transaction.id pool.index),
          omega (arith, next_seq-without seq r arr pool),
          positive,
        );
    nonces = λ i s h.
        let (old, id_apart, k) = key_apart seq i r s pool w e h in
        ground (
          arith,
          w.nonces i s old,
          lookup-erase (nonce_key nonce_bytes r.transaction) (nonce_key nonce_bytes s.transaction)
              pool.nonces,
        );
    used = λ key h. used-without seq r pool key w e h;
    distinct = λ i j s t ei ej same.
        w.distinct i j s t (key_apart seq i r s pool w e ei).0 (key_apart seq j r t pool w e ej).0
          same;
    accounts = λ payer. Account-settled seq r arr pool payer w e a;
  }

  -- A pending transaction of a valid pool can be taken out.
  pub take_out-IsValid :
      (seq : ℕ) (r : Pending) (pool : Pool)
      → IsValid nonce_bytes pool
      → lookup seq pool.pending ≡ some r
      → (p : Pool) × (take_out nonce_bytes r.transaction.id seq r pool ≡ ok p)
        × IsValid nonce_bytes p
        × (p.pending ≡ erase seq pool.pending)
        × (p.index ≡ erase r.transaction.id pool.index)
  take_out-IsValid seq r pool w e =
      let (arr, a) = payer_record seq r pool w e in
      (
        without seq r arr pool,
        take_out-without seq r arr pool a,
        without-IsValid seq r arr pool w e a,
        refl,
        refl,
      )
