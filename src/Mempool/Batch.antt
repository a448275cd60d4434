-- ===== src/Mempool/Batch.antt =====
-- `remove_pending_transactions_on_node`: a list of transactions is taken out.
use teleno.Base.{
  Bool, Bytes, List, Option-cases, [], ap, arith, bytes_beq_iff, bytes_key, false, if◌then◌else◌,
  inl, inr, length, nat_key, none, ok, pair_key, refl, some, subst, suc, true, ℕ, ◌+◌, ◌==◌, ◌∙◌,
  ◌∷◌, ◌≡◌,
}
use teleno.StdMap.{lookup, erase, lookup-erase, length-erase}
use teleno.Mempool.{Pending, Pool, take_out, remove_pending_transactions_on_node}
use teleno.Mempool.Valid.{IsValid}
use teleno.Mempool.Remove.{take_out-IsValid}

abbrev pub is_listed : Bytes → List Bytes → Bool
is_listed id [] = false
is_listed id (j ∷ ids) = if j == id then true else is_listed id ids

module _ (nonce_bytes : ℕ → Bytes) where
  take_out_indexed :
      (id : Bytes) (seq : ℕ) (pool : Pool)
      → IsValid nonce_bytes pool
      → lookup id pool.index ≡ some seq
      → (r : Pending) × (p : Pool) × (lookup seq pool.pending ≡ some r)
        × (take_out nonce_bytes id seq r pool ≡ ok p)
        × IsValid nonce_bytes p
        × (length p.pending + 1 ≡ length pool.pending)
        × ((j : Bytes) → lookup j p.index ≡ (if id == j then none else lookup j pool.index))
  take_out_indexed id seq pool w e =
      let (r, at, named) = w.indexed id seq e in
      let (p, out, valid, pending, index) = take_out-IsValid nonce_bytes seq r pool w at in
      (
        r,
        p,
        at,
        subst (λ k. take_out nonce_bytes k seq r pool ≡ ok p) named out,
        valid,
        ap (λ m. length m + 1) pending ∙ length-erase seq r pool.pending w.sorted at,
        λ j.
            ap (λ m. lookup j m) index
            ∙ ap (λ k. lookup j (erase k pool.index)) named
            ∙ lookup-erase id j pool.index,
      )

  remove_absent :
      (id : Bytes) (ids : List Bytes) (pool : Pool)
      → lookup id pool.index ≡ none
      → remove_pending_transactions_on_node nonce_bytes (id ∷ ids) pool
        ≡ remove_pending_transactions_on_node nonce_bytes ids pool
  unfolding remove_pending_transactions_on_node
  remove_absent id ids pool e = ground (arith, e)

  remove_present :
      (id : Bytes) (ids : List Bytes) (seq count : ℕ) (r : Pending) (pool p q : Pool)
      → lookup id pool.index ≡ some seq
      → lookup seq pool.pending ≡ some r
      → take_out nonce_bytes id seq r pool ≡ ok p
      → remove_pending_transactions_on_node nonce_bytes ids p ≡ ok (count, q)
      → remove_pending_transactions_on_node nonce_bytes (id ∷ ids) pool ≡ ok (suc count, q)
  unfolding remove_pending_transactions_on_node
  remove_present id ids seq count r pool p q ei er et eq = ground (arith, ei, er, et, eq)

  -- Of a valid pool any list of transactions can be removed: the pool stays valid, the transactions
  -- of the list are no longer found, every other one is found as before, and the answer counts those
  -- that were taken out.
  pub remove_pending_transactions_on_node-IsValid :
      (ids : List Bytes) (pool : Pool)
      → IsValid nonce_bytes pool
      → (count : ℕ) × (p : Pool) × (remove_pending_transactions_on_node nonce_bytes ids pool
          ≡ ok (count, p))
        × IsValid nonce_bytes p
        × (count + length p.pending ≡ length pool.pending)
        × ((id : Bytes)
            → lookup id p.index ≡ (if is_listed id ids then none else lookup id pool.index))
  remove_pending_transactions_on_node-IsValid [] pool w =
      (0, pool, unfold remove_pending_transactions_on_node in refl, w, omega arith, λ id. refl)
  remove_pending_transactions_on_node-IsValid (id ∷ ids) pool w =
      elim (Option-cases (lookup id pool.index)) [
        | inl absent ↦
            let (count, p, run, valid, counted, found) =
              remove_pending_transactions_on_node-IsValid ids pool w in
            (
              count,
              p,
              remove_absent id ids pool absent ∙ run,
              valid,
              counted,
              λ j.
                  ground
                    (arith, found j, absent, bytes_beq_iff id j, ap (λ k. lookup k pool.index)),
            )
        | inr (seq, present) ↦
            let (r, p, at, out, valid, shorter, left) = take_out_indexed id seq pool w present in
            let (count, q, run, valid_q, counted, found) =
              remove_pending_transactions_on_node-IsValid ids p valid in
            (
              suc count,
              q,
              remove_present id ids seq count r pool p q present at out run,
              valid_q,
              omega (arith, counted, shorter),
              λ j. ground (arith, found j, left j),
            )
      ]
