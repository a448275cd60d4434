-- ===== src/Stores/Transactions.antt =====
-- transaction_store/transaction_store.cpp: the transactions of the accepted blocks by their ids, each
-- with the ids of the blocks that contain it. The column family is a map of serialised items.
pub mod Laws
pub mod History
use teleno.Base.{
  Bool, Bytes, List, Option, Result, [], bytes_key, err, false, if◌then◌else◌, nat_key, none, ok,
  some, true, ◌++◌, ◌==◌, ◌||◌, ◌∷◌,
}
use teleno.StdMap
use teleno.StdMap.{Map}
use teleno.Stores.Messages.{Transaction, Block, BlockAccepted, Codec, Error, runtime_error}

pub record Item : Type 0 where
  pub transaction : Transaction
  pub containing_blocks : List Bytes

-- `empty()` of a string.
unfoldable pub is_nil : Bytes → Bool
is_nil [] = true
is_nil (x ∷ xs) = false

-- The loop of the duplicate check.
unfoldable pub contains : Bytes → List Bytes → Bool
contains block_id [] = false
contains block_id (bid ∷ bids) = bid == block_id || contains block_id bids

module _ {Raw : Type 0} (codec : Codec Item Raw) where
  unfoldable pub put_new : Transaction → Bytes → Map Bytes Raw → Map Bytes Raw
  put_new tx block_id db =
      StdMap.insert_or_assign tx.id
        (codec.serialize (record { transaction = tx; containing_blocks = block_id ∷ [] })) db

  unfoldable pub append_block : Transaction → Bytes → Item → Map Bytes Raw → Map Bytes Raw
  unfolding contains
  append_block tx block_id item db =
      if contains block_id item.containing_blocks
      then db
      else StdMap.insert_or_assign tx.id
          (codec.serialize
            (record item { containing_blocks = item.containing_blocks ++ block_id ∷ [] }))
          db

  unfoldable pub add_included_transaction : Transaction → Bytes → Map Bytes Raw → Map Bytes Raw
  unfolding put_new append_block
  add_included_transaction tx block_id db = elim (StdMap.lookup tx.id db) [
    | none ↦ put_new tx block_id db
    | some existing_value ↦
        if codec.is_empty existing_value
        then put_new tx block_id db
        else elim (codec.parse existing_value) [
          | none ↦ db
          | some item ↦ append_block tx block_id item db
        ]
  ]

  unfoldable pub add_transactions : List Transaction → Bytes → Map Bytes Raw → Map Bytes Raw
  unfolding is_nil add_included_transaction
  add_transactions [] block_id db = db
  add_transactions (tx ∷ txs) block_id db =
      add_transactions txs block_id
        (if is_nil tx.id then db else add_included_transaction tx block_id db)

  unfoldable pub handle_block_accepted : BlockAccepted → Map Bytes Raw → Map Bytes Raw
  unfolding add_transactions
  handle_block_accepted ba db = elim ba.block [
    | none ↦ db
    | some block ↦ add_transactions block.transactions block.id db
  ]

  -- What the loop adds to the response for one id.
  unfoldable pub item_of : Map Bytes Raw → Bytes → Option Item
  unfolding is_nil
  item_of db tx_id = if is_nil tx_id then none else elim (StdMap.lookup tx_id db) [
    | none ↦ none
    | some value ↦ if codec.is_empty value then none else codec.parse value
  ]

  unfoldable pub collect : Map Bytes Raw → List Bytes → List Item
  unfolding item_of
  collect db [] = []
  collect db (tx_id ∷ ids) =
      let rest = collect db ids in elim (item_of db tx_id) [ none ↦ rest | some item ↦ item ∷ rest ]

  unfoldable pub get_transactions_by_id : List Bytes → Map Bytes Raw → Result Error (List Item)
  unfolding collect
  get_transactions_by_id [] db = err runtime_error
  get_transactions_by_id (tx_id ∷ ids) db = ok (collect db (tx_id ∷ ids))
