-- ===== src/Stores/Contracts.antt =====
-- contract_meta_store/contract_meta_store.cpp: the ABI of each contract as it was uploaded last. The
-- column family is a map of serialised items.
pub mod Laws
use teleno.Base.{
  Bool, Bytes, List, Option, Result, [], bytes_key, if◌then◌else◌, koinos_assert, nat_key, none,
  not, ok, pair_key, some, ◌>>=◌, ◌>>◌, ◌∷◌, ◌≡◌,
}
use teleno.StdMap
use teleno.StdMap.{Map}
use teleno.Stores.Messages.{
  Operation, call_contract, upload_contract, other_operation, Transaction, Block, BlockAccepted,
  Codec, Error, runtime_error,
}
use teleno.Stores.Transactions.{is_nil}

pub record Item : Type 0 where
  pub abi : Bytes

-- `SerializeToString`, `ParseFromString` and `empty` for an item, with what the store relies on. An
-- item with an empty ABI is serialised to no bytes, as a message without any field is.
pub record MetaCodec (Raw : Type 0) : Type 0 where
  pub is_empty : Raw → Bool
  pub serialize : Item → Raw
  pub parse : Raw → Option Item
  pub parse-serialize : (x : Item) → parse (serialize x) ≡ some x
  pub is_empty-serialize : (x : Item) → is_empty (serialize x) ≡ is_nil x.abi

module _ {Raw : Type 0} (codec : MetaCodec Raw) where
  unfoldable pub get_contract_meta : Bytes → Map Bytes Raw → Result Error (Option Item)
  unfolding is_nil
  get_contract_meta contract_id db = do
    koinos_assert (not (is_nil contract_id)) runtime_error
    ok (elim (StdMap.lookup contract_id db) [
      | none ↦ none
      | some value ↦ if codec.is_empty value then none else codec.parse value
    ])

  unfoldable pub put_operation : Operation → Map Bytes Raw → Map Bytes Raw
  unfolding is_nil
  put_operation (call_contract i) db = db
  put_operation other_operation db = db
  put_operation (upload_contract i abi) db =
      if is_nil i then db else StdMap.insert_or_assign i (codec.serialize (record { abi = abi })) db

  unfoldable pub put_operations : List Operation → Map Bytes Raw → Map Bytes Raw
  unfolding put_operation
  put_operations [] db = db
  put_operations (op ∷ ops) db = put_operations ops (put_operation op db)

  unfoldable pub put_transactions : List Transaction → Map Bytes Raw → Map Bytes Raw
  unfolding put_operations
  put_transactions [] db = db
  put_transactions (tx ∷ txs) db = put_transactions txs (put_operations tx.operations db)

  unfoldable pub handle_block_accepted : BlockAccepted → Map Bytes Raw → Map Bytes Raw
  unfolding put_transactions
  handle_block_accepted ba db = elim ba.block [
    | none ↦ db
    | some block ↦ put_transactions block.transactions db
  ]
