-- ===== src/Stores/Contracts/Laws.antt =====
-- What is stored of a history of accepted blocks.
use teleno.Base.{
  Bool-cases, Bytes, List, Option, Option-cases, [], ap, arith, bytes_key, err, false,
  if◌then◌else◌, inl, inr, nat_key, none, ok, or_else, pair_key, refl, some, ◌==◌, ◌∙◌, ◌∷◌, ◌≡◌,
}
use teleno.StdMap
use teleno.StdMap.{Map, lookup-insert}
use teleno.Stores.Messages.{
  Operation, call_contract, upload_contract, other_operation, Transaction, Block, runtime_error,
}
use teleno.Stores.Transactions.{is_nil}
use teleno.Stores.Contracts.{
  Item, MetaCodec, get_contract_meta, put_operation, put_operations, put_transactions,
  handle_block_accepted,
}

abbrev pub upload_of : Bytes → Operation → Option Bytes
upload_of i (call_contract j) = none
upload_of i other_operation = none
upload_of i (upload_contract j abi) = if j == i then some abi else none

-- The ABI of the last upload of a contract: in a list of operations, of transactions, and in a
-- history of blocks, newest first.
abbrev pub last_of : Bytes → List Operation → Option Bytes
last_of i [] = none
last_of i (op ∷ ops) = or_else (last_of i ops) (upload_of i op)

abbrev pub last_in : Bytes → List Transaction → Option Bytes
last_in i [] = none
last_in i (tx ∷ txs) = or_else (last_in i txs) (last_of i tx.operations)

abbrev pub latest : Bytes → List Block → Option Bytes
latest i [] = none
latest i (b ∷ bs) = or_else (last_in i b.transactions) (latest i bs)

module _ {Raw : Type 0} (codec : MetaCodec Raw) where
  abbrev raw : Option Bytes → Option Raw
  raw none = none
  raw (some abi) = some (codec.serialize (record { abi = abi }))

  lookup-put_operation :
      (i : Bytes) (op : Operation) (db : Map Bytes Raw)
      → is_nil i ≡ false
      → StdMap.lookup i (put_operation codec op db)
        ≡ or_else (raw (upload_of i op)) (StdMap.lookup i db)
  unfolding put_operation is_nil
  lookup-put_operation i (call_contract j) db n = refl
  lookup-put_operation i other_operation db n = refl
  lookup-put_operation i (upload_contract [] abi) db n = ground (arith, n)
  lookup-put_operation i (upload_contract (x ∷ j) abi) db n = elim (Bool-cases (x ∷ j == i)) [
    | inl same ↦ lookup-insert (x ∷ j) i _ db ∙ rw (same) refl
    | inr other ↦ lookup-insert (x ∷ j) i _ db ∙ rw (other) refl
  ]

  raw-or_else :
      (o p : Option Bytes) (r : Option Raw)
      → or_else (raw o) (or_else (raw p) r) ≡ or_else (raw (or_else o p)) r
  raw-or_else none p r = refl
  raw-or_else (some x) p r = refl

  lookup-put_operations :
      (i : Bytes) (ops : List Operation) (db : Map Bytes Raw)
      → is_nil i ≡ false
      → StdMap.lookup i (put_operations codec ops db)
        ≡ or_else (raw (last_of i ops)) (StdMap.lookup i db)
  unfolding put_operations
  lookup-put_operations i [] db n = refl
  lookup-put_operations i (op ∷ ops) db n =
      lookup-put_operations i ops (put_operation codec op db) n
      ∙ ap (or_else (raw (last_of i ops))) (lookup-put_operation i op db n)
      ∙ raw-or_else (last_of i ops) (upload_of i op) (StdMap.lookup i db)

  lookup-put_transactions :
      (i : Bytes) (txs : List Transaction) (db : Map Bytes Raw)
      → is_nil i ≡ false
      → StdMap.lookup i (put_transactions codec txs db)
        ≡ or_else (raw (last_in i txs)) (StdMap.lookup i db)
  unfolding put_transactions
  lookup-put_transactions i [] db n = refl
  lookup-put_transactions i (tx ∷ txs) db n =
      lookup-put_transactions i txs (put_operations codec tx.operations db) n
      ∙ ap (or_else (raw (last_in i txs))) (lookup-put_operations i tx.operations db n)
      ∙ raw-or_else (last_in i txs) (last_of i tx.operations) (StdMap.lookup i db)

  -- The database after a history, newest block first.
  abbrev pub run : List Block → Map Bytes Raw
  run [] = []
  run (b ∷ bs) = handle_block_accepted codec (record { block = some b }) (run bs)

  lookup-run :
      (i : Bytes) (bs : List Block)
      → is_nil i ≡ false
      → StdMap.lookup i (run bs) ≡ raw (latest i bs)
  unfolding handle_block_accepted StdMap.lookup
  lookup-run i [] n = refl
  lookup-run i (b ∷ bs) n =
      lookup-put_transactions i b.transactions (run bs) n
      ∙ ap (or_else (raw (last_in i b.transactions))) (lookup-run i bs n)
      ∙ step (last_in i b.transactions) (latest i bs)
    where
      step : (o p : Option Bytes) → or_else (raw o) (raw p) ≡ raw (or_else o p)
      step none p = refl
      step (some x) p = refl

  -- An empty ABI is answered as none.
  abbrev pub meta_of : Option Bytes → Option Item
  meta_of none = none
  meta_of (some abi) = if is_nil abi then none else some (record { abi = abi })

  read_raw :
      (abi : Bytes)
      → (if codec.is_empty (codec.serialize (record { abi = abi }))
          then none
          else codec.parse (codec.serialize (record { abi = abi })))
        ≡ meta_of (some abi)
  read_raw abi =
      let item : Item = record { abi = abi } in
      rw (codec.is_empty-serialize item, codec.parse-serialize item) refl

  -- After any history of accepted blocks, a request for a contract whose id is not empty is answered
  -- by the ABI of its last upload, in the order of blocks, transactions and operations, or by nothing
  -- if that ABI is empty or the contract was never uploaded; a request for the empty id is refused.
  pub get_contract_meta-latest :
      (i : Bytes) (bs : List Block)
      → get_contract_meta codec i (run bs)
        ≡ (if is_nil i then err runtime_error else ok (meta_of (latest i bs)))
  unfolding get_contract_meta
  get_contract_meta-latest i bs = elim (Bool-cases (is_nil i)) [
    | inl nil ↦ rw (get_contract_meta, nil) refl
    | inr full ↦ elim (Option-cases (latest i bs)) [
      | inl never ↦ rw (get_contract_meta, full, lookup-run i bs full, never) refl
      | inr (abi, once) ↦
          rw (get_contract_meta, full, lookup-run i bs full, once) (ap ok (read_raw abi))
    ]
  ]
