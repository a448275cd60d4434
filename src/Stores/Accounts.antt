-- ===== src/Stores/Accounts.antt =====
-- account_history/account_history.cpp: for each address a numbered record of every accepted block
-- that it takes part in. One column family, in byte order of its keys, holds the records under
-- `address + encode_seq( seq )` and the next number of an address under `"meta:" + address`. `Seek`
-- leads to the first key that is not below its argument (`lower_bound_of`).
pub mod Seq
pub mod Keys
pub mod Query
pub mod Push
pub mod History
pub mod Requests
mod Examples
use teleno.Base.{
  Bool, Bytes, List, Option, [], bytes_key, false, if◌then◌else◌, length, ltb, min, nat_beq,
  nat_key, none, pair_key, some, suc, true, zero, ℕ, ◌%◌, ◌&&◌, ◌*◌, ◌++◌, ◌+◌, ◌/◌, ◌<?◌, ◌^◌,
  ◌||◌, ◌∷◌,
}
use teleno.StdMap
use teleno.StdMap.{Map}
use teleno.StateDb.MergeIterator.{lower_bound_of}
use teleno.Stores.Messages.{
  Operation, call_contract, upload_contract, other_operation, TransactionHeader, Transaction, Block,
  BlockAccepted, Codec,
}
use teleno.Stores.Transactions.{is_nil}

-- `account_history_entry` as `store_record` fills it: the number, and the height and the id of the
-- block.
pub record Item : Type 0 where
  pub seq_num : ℕ
  pub height : ℕ
  pub block_id : Bytes

pub record Request : Type 0 where
  pub address : Bytes
  pub limit : ℕ
  pub seq_num : ℕ
  pub ascending : Bool

abbrev pub max_records_per_query : ℕ
max_records_per_query = 500

-- The low `n` bytes of a number, the highest first.
unfoldable pub encode_bytes : ℕ → ℕ → Bytes
encode_bytes zero seq = []
encode_bytes (suc n) seq = encode_bytes n (seq / 256) ++ seq % 256 ∷ []

unfoldable pub encode_seq : ℕ → Bytes
unfolding encode_bytes
encode_seq seq = encode_bytes 8 seq

unfoldable pub decode_bytes : ℕ → ℕ → Bytes → ℕ
decode_bytes zero v s = v
decode_bytes (suc n) v [] = v
decode_bytes (suc n) v (x ∷ s) = decode_bytes n ((v * 256) % 2 ^ 64 + x) s

unfoldable pub decode_seq : Bytes → ℕ
unfolding decode_bytes
decode_seq s = if ltb (length s) 8 then 0 else decode_bytes 8 0 s

abbrev pub meta_key : Bytes → Bytes
meta_key address = b'm' ∷ b'e' ∷ b't' ∷ b'a' ∷ b':' ∷ address

unfoldable pub current_sequence : Bytes → Map Bytes Bytes → ℕ
unfolding decode_seq
current_sequence address db = elim (StdMap.lookup (meta_key address) db) [
  | none ↦ 0
  | some value ↦ if nat_beq (length value) 8 then decode_seq value else 0
]

unfoldable pub next_sequence : Bytes → Map Bytes Bytes → ℕ × Map Bytes Bytes
unfolding current_sequence encode_seq
next_sequence address db =
    let seq = current_sequence address db in
    (seq, StdMap.insert_or_assign (meta_key address) (encode_seq ((seq + 1) % 2 ^ 64)) db)

-- `key.size() > prefix.size()`, and the key starts with it.
unfoldable pub in_prefix : Bytes → Bytes → Bool
in_prefix [] [] = false
in_prefix [] (x ∷ key) = true
in_prefix (p ∷ prefix) [] = false
in_prefix (p ∷ prefix) (x ∷ key) = nat_beq p x && in_prefix prefix key

-- The entries up to a key, the last first: `SeekForPrev` and `Prev`.
unfoldable pub down_from : Bytes → Map Bytes Bytes → Map Bytes Bytes
down_from k [] = []
down_from k ((j, v) ∷ m) = let rest = down_from k m in if k <? j then rest else rest ++ (j, v) ∷ []

-- `addresses.insert`, unless the address is empty: a `std::set`.
unfoldable pub insert_address : Bytes → Map Bytes (Unit {0}) → Map Bytes (Unit {0})
unfolding is_nil
insert_address a s = if is_nil a then s else StdMap.insert_or_assign a tt s

unfoldable pub insert_operations : List Operation → Map Bytes (Unit {0}) → Map Bytes (Unit {0})
unfolding insert_address
insert_operations [] s = s
insert_operations (call_contract i ∷ ops) s = insert_operations ops (insert_address i s)
insert_operations (upload_contract i abi ∷ ops) s = insert_operations ops (insert_address i s)
insert_operations (other_operation ∷ ops) s = insert_operations ops s

unfoldable pub insert_header :
    Option TransactionHeader → Map Bytes (Unit {0}) → Map Bytes (Unit {0})
unfolding insert_address
insert_header none s = s
insert_header (some h) s = insert_address h.payee (insert_address h.payer s)

unfoldable pub insert_transactions : List Transaction → Map Bytes (Unit {0}) → Map Bytes (Unit {0})
unfolding insert_operations insert_header
insert_transactions [] s = s
insert_transactions (tx ∷ txs) s =
    insert_transactions txs (insert_operations tx.operations (insert_header tx.header s))

unfoldable pub addresses : Block → Map Bytes (Unit {0})
unfolding insert_transactions insert_address
addresses block = insert_transactions block.transactions (insert_address block.signer [])

module _ (codec : Codec Item Bytes) where
  unfoldable pub store_record : Bytes → ℕ → Bytes → ℕ → Map Bytes Bytes → Map Bytes Bytes
  unfolding encode_seq
  store_record address seq block_id block_height db =
      StdMap.insert_or_assign (address ++ encode_seq seq)
        (codec.serialize (record { seq_num = seq; height = block_height; block_id = block_id })) db

  unfoldable pub index_addresses : Map Bytes (Unit {0}) → Block → Map Bytes Bytes → Map Bytes Bytes
  unfolding next_sequence store_record
  index_addresses [] block db = db
  index_addresses ((a, _) ∷ s) block db =
      let (seq, db') = next_sequence a db in
      index_addresses s block (store_record a seq block.id block.height db')

  unfoldable pub handle_block_accepted : BlockAccepted → Map Bytes Bytes → Map Bytes Bytes
  unfolding addresses index_addresses
  handle_block_accepted ba db = elim ba.block [
    | none ↦ db
    | some block ↦ index_addresses (addresses block) block db
  ]

  -- Either loop of the query, over the entries that the iterator has before it.
  unfoldable pub scan : ℕ → Bytes → Map Bytes Bytes → List Item
  unfolding in_prefix
  scan zero prefix m = []
  scan (suc n) prefix [] = []
  scan (suc n) prefix ((key, value) ∷ m) =
      let rest = scan n prefix m in
      if in_prefix prefix key
      then elim (codec.parse value) [ none ↦ rest | some item ↦ item ∷ rest ]
      else []

  -- A limit that is not 0 is cast to `uint32_t` before it is compared.
  unfoldable pub get_account_history : Request → Map Bytes Bytes → List Item
  unfolding is_nil encode_seq scan lower_bound_of down_from
  get_account_history req db =
      let limit =
        if ltb 0 req.limit
        then min (req.limit % 2 ^ 32) max_records_per_query
        else max_records_per_query in
      let start_key = req.address ++ encode_seq req.seq_num in
      if is_nil req.address
      then []
      else if req.ascending || nat_beq req.seq_num 0
      then scan limit req.address (lower_bound_of start_key db)
      else scan limit req.address (down_from start_key db)
