-- ===== src/Stores/Messages.antt =====
-- What the stores read of the messages of generated code, and of their serialisation.
use teleno.Base.{Bool, Bytes, List, Option, bytes_key, false, nat_key, some, ℕ, ◌≡◌}

-- The operations that a store reads are those that call or upload a contract.
pub data Operation : Type 0 where
  call_contract : (contract_id : Bytes) → Operation
  upload_contract : (contract_id abi : Bytes) → Operation
  other_operation : Operation

pub record TransactionHeader : Type 0 where
  pub payer : Bytes
  pub payee : Bytes

pub record Transaction : Type 0 where
  pub id : Bytes
  pub header : Option TransactionHeader
  pub operations : List Operation

pub record Block : Type 0 where
  pub id : Bytes
  pub height : ℕ
  pub signer : Bytes
  pub transactions : List Transaction

-- `broadcast::block_accepted`, less its flag `live`, which only log output reads.
pub record BlockAccepted : Type 0 where
  pub block : Option Block

-- `SerializeToString`, `ParseFromString` and `empty` for one kind of item, with what the stores rely
-- on: parsing what was serialised gives it back, and a serialised item is not empty.
pub record Codec (Item Raw : Type 0) : Type 0 where
  pub is_empty : Raw → Bool
  pub serialize : Item → Raw
  pub parse : Raw → Option Item
  pub parse-serialize : (x : Item) → parse (serialize x) ≡ some x
  pub is_empty-serialize : (x : Item) → is_empty (serialize x) ≡ false

-- The errors of the RPC methods.
pub data Error : Type 0 where
  runtime_error : Error
