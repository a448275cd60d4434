-- ===== src/Stores/Accounts/History.antt =====
-- The records of each address after a history of accepted blocks, and the queries for them.
use teleno.Base.{
  Bool-cases, Bytes, List, Option, Option-cases, [], ap, arith, beq_refl, bytes_beq_iff, bytes_key,
  false, fun_ext, inl, inr, length, length-append, nat_key, none, refl, some, subst, sym, ℕ, ◌%◌,
  ◌++◌, ◌+◌, ◌<◌, ◌==◌, ◌^◌, ◌∙◌, ◌∷◌, ◌≡◌, ◌≤◌,
}
use teleno.StdMap
use teleno.StdMap.{Map, IsSorted, IsSorted-insert, lookup-Above}
use teleno.Stores.Messages.{
  Operation, call_contract, upload_contract, other_operation, TransactionHeader, Transaction, Block,
  Codec,
}
use teleno.Stores.Accounts.{
  Item, next_sequence, store_record, addresses, insert_address, insert_operations, insert_header,
  insert_transactions, index_addresses,
}
use teleno.Stores.Accounts.Keys.{IsAddress}
use teleno.Stores.Accounts.Push.{IsLog, push, push-IsLog}

-- The record of a block under a number.
abbrev pub entry : Block → ℕ → Item
entry block n = record { seq_num = n; height = block.height; block_id = block.id }

-- The records after a block that concerns these addresses.
abbrev pub log_with : Block → Map Bytes (Unit {0}) → (Bytes → List Item) → Bytes → List Item
log_with block s log b = elim (StdMap.lookup b s) [
  | none ↦ log b
  | some _ ↦ log b ++ entry block (length (log b)) ∷ []
]

-- Of a history, newest block first: for each address the blocks that concern it, in their order.
abbrev pub history : List Block → Bytes → List Item
history [] b = []
history (k ∷ ks) b = log_with k (addresses k) (history ks) b

-- Every address of these blocks is one that the keys keep apart.
abbrev pub AllAddresses : ℕ → List Block → Type 0
AllAddresses size [] = Unit
AllAddresses size (k ∷ ks) =
    ((a : Bytes) → StdMap.lookup a (addresses k) ≡ some tt → IsAddress size a)
    × AllAddresses size ks

pub length-history : (ks : List Block) (b : Bytes) → length (history ks b) ≤ length ks
length-history [] b = omega arith
length-history (k ∷ ks) b = elim (Option-cases (StdMap.lookup b (addresses k))) [
  | inl e ↦ rw (history, log_with, e) (omega (arith, length-history ks b))
  | inr (_, e) ↦
      rw (history, log_with, e)
        (omega (
          arith,
          length-history ks b,
          length-append (history ks b) (entry k (length (history ks b)) ∷ []),
        ))
]

insert_address-IsSorted :
    (a : Bytes) (s : Map Bytes (Unit {0})) → IsSorted s → IsSorted (insert_address a s)
unfolding insert_address
insert_address-IsSorted a s h = ground (arith, IsSorted-insert a tt s h)

insert_operations-IsSorted :
    (ops : List Operation) (s : Map Bytes (Unit {0}))
    → IsSorted s
    → IsSorted (insert_operations ops s)
unfolding insert_operations
insert_operations-IsSorted [] s h = h
insert_operations-IsSorted (call_contract i ∷ ops) s h =
    insert_operations-IsSorted ops _ (insert_address-IsSorted i s h)
insert_operations-IsSorted (upload_contract i abi ∷ ops) s h =
    insert_operations-IsSorted ops _ (insert_address-IsSorted i s h)
insert_operations-IsSorted (other_operation ∷ ops) s h = insert_operations-IsSorted ops s h

insert_header-IsSorted :
    (o : Option TransactionHeader) (s : Map Bytes (Unit {0}))
    → IsSorted s
    → IsSorted (insert_header o s)
unfolding insert_header
insert_header-IsSorted none s h = h
insert_header-IsSorted (some x) s h =
    insert_address-IsSorted x.payee _ (insert_address-IsSorted x.payer s h)

insert_transactions-IsSorted :
    (txs : List Transaction) (s : Map Bytes (Unit {0}))
    → IsSorted s
    → IsSorted (insert_transactions txs s)
unfolding insert_transactions
insert_transactions-IsSorted [] s h = h
insert_transactions-IsSorted (tx ∷ txs) s h =
    insert_transactions-IsSorted txs _
      (insert_operations-IsSorted tx.operations _ (insert_header-IsSorted tx.header s h))

pub addresses-IsSorted : (k : Block) → IsSorted (addresses k)
unfolding addresses
addresses-IsSorted k =
    insert_transactions-IsSorted k.transactions _ (insert_address-IsSorted k.signer [] tt)

module _ (codec : Codec Item Bytes) (size : ℕ) where
  index_step-IsLog :
      (log : Bytes → List Item) (db : Map Bytes Bytes) (a : Bytes) (k : Block)
      → IsLog codec size log db
      → IsAddress size a
      → length (log a) + 1 < 2 ^ 64
      → IsLog codec size
          (push codec size a (entry k (length (log a))) log)
          (store_record codec a (next_sequence a db).0 k.id k.height (next_sequence a db).1)
  unfolding next_sequence store_record
  index_step-IsLog log db a k l h room =
      let next : (length (log a) + 1) % 2 ^ 64 ≡ length (log a) + 1 = omega (arith, room) in
      rw (l.counts a h, next) (push-IsLog codec size log db l a (entry k (length (log a))) h room)

  push-other :
      (a b : Bytes) (x : Item) (log : Bytes → List Item)
      → (a == b) ≡ false
      → push codec size a x log b ≡ log b
  push-other a b x log other = rw other refl

  log_with-push :
      (log : Bytes → List Item) (a : Bytes) (s : Map Bytes (Unit {0})) (k : Block) (b : Bytes)
      → StdMap.lookup a s ≡ none
      → log_with k s (push codec size a (entry k (length (log a))) log) b
        ≡ log_with k ((a, tt) ∷ s) log b
  unfolding StdMap.lookup
  log_with-push log a s k b fresh = elim (Bool-cases (a == b)) [
    | inl same ↦
        let e = (bytes_beq_iff a b).0 same in
        let gone = subst (λ c. StdMap.lookup c s ≡ none) e fresh in
        rw (log_with, gone, push, same) (ap (λ c. log b ++ entry k (length (log c)) ∷ []) e)
    | inr other ↦
        ap
          (λ (ys : List Item). elim (StdMap.lookup b s) [
            | none ↦ ys
            | some _ ↦ ys ++ entry k (length ys) ∷ []
          ])
          (push-other a b (entry k (length (log a))) log other)
        ∙ sym (rw (log_with, other) refl)
  ]

  lookup-behind :
      (a b : Bytes) (u : Unit {0}) (s : Map Bytes (Unit {0}))
      → StdMap.lookup a s ≡ none
      → StdMap.lookup b s ≡ some tt
      → ((a == b) ≡ false) × (StdMap.lookup b ((a, u) ∷ s) ≡ some tt)
  unfolding StdMap.lookup
  lookup-behind a b u s fresh e = elim (Bool-cases (a == b)) [
    | inl same ↦
        let gone = subst (λ c. StdMap.lookup c s ≡ none) ((bytes_beq_iff a b).0 same) fresh in
        absurd (ground (arith, e, gone))
    | inr other ↦ (other, rw other e)
  ]

  pub index_addresses-IsLog :
      (s : Map Bytes (Unit {0})) (log : Bytes → List Item) (db : Map Bytes Bytes) (k : Block)
      → IsSorted s
      → IsLog codec size log db
      → ((a : Bytes) → StdMap.lookup a s ≡ some tt → IsAddress size a)
      → ((a : Bytes) → StdMap.lookup a s ≡ some tt → length (log a) + 1 < 2 ^ 64)
      → IsLog codec size (log_with k s log) (index_addresses codec s k db)
  unfolding index_addresses StdMap.lookup
  index_addresses-IsLog [] log db k so l h room = l
  index_addresses-IsLog ((a, u) ∷ s) log db k so l h room =
      let fresh = lookup-Above a s so.0 in
      let first : StdMap.lookup a ((a, u) ∷ s) ≡ some tt = rw (beq_refl a) refl in
      let l' = index_step-IsLog log db a k l (h a first) (room a first) in
      subst (λ g. IsLog codec size g (index_addresses codec ((a, u) ∷ s) k db))
        (fun_ext (λ b. log_with-push log a s k b fresh))
        (index_addresses-IsLog s _ _ k so.1 l' (λ b e. h b (lookup-behind a b u s fresh e).1)
          (λ b e.
            let (other, at) = lookup-behind a b u s fresh e in
            subst (λ (ys : List Item). length ys + 1 < 2 ^ 64) (sym (push-other a b _ log other))
              (room b at)))
