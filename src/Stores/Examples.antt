-- ===== src/Stores/Examples.antt =====
-- The stores after concrete blocks: the theorems' examples, and tests.
use teleno.Base.{
  Bytes, List, [], bytes_key, err, false, if◌then◌else◌, nat_key, none, ok, pair_key, refl, some,
  ◌∷◌, ◌≡◌,
}
use teleno.Stores.Messages.{
  upload_contract, call_contract, Transaction, Block, Codec, runtime_error,
}
use teleno.Stores.Transactions
use teleno.Stores.Transactions.{get_transactions_by_id, is_nil}
use teleno.Stores.Transactions.History.{answers, indexed, get_transactions_by_id-answers}
use teleno.Stores.Transactions.History
use teleno.Stores.Contracts.{MetaCodec, get_contract_meta}
use teleno.Stores.Contracts.Laws.{latest, meta_of, get_contract_meta-latest}
use teleno.Stores.Contracts.Laws

-- A codec that keeps the item.
abbrev plain : {Item : Type 0} → Codec Item Item
plain = record {
  is_empty = λ x. false;
  serialize = λ x. x;
  parse = λ x. some x;
  parse-serialize = λ x. refl;
  is_empty-serialize = λ x. refl;
}

-- A codec of ABIs by their bytes.
abbrev abi_codec : MetaCodec Bytes
abi_codec = record {
  is_empty = is_nil;
  serialize = λ x. x.abi;
  parse = λ b. some (record { abi = b });
  parse-serialize = λ x. refl;
  is_empty-serialize = λ x. refl;
}

abbrev upload : Transaction
upload = record {
  id = 1 ∷ [];
  header = none;
  operations = upload_contract (7 ∷ []) (10 ∷ []) ∷ upload_contract (7 ∷ []) (11 ∷ []) ∷ [];
}

abbrev call : Transaction
call = record { id = 2 ∷ []; header = none; operations = call_contract (7 ∷ []) ∷ [] }

abbrev block_1 : Block
block_1 = record { id = 21 ∷ []; height = 1; signer = []; transactions = upload ∷ upload ∷ [] }

-- Two blocks of one height, of two forks, with the same transaction.
abbrev block_2 : Block
block_2 = record { id = 22 ∷ []; height = 1; signer = []; transactions = call ∷ upload ∷ [] }

abbrev history : List Block
history = block_2 ∷ block_1 ∷ []

indexed-test :
    indexed history (1 ∷ [])
    ≡ some (record { transaction = upload; containing_blocks = (21 ∷ []) ∷ (22 ∷ []) ∷ [] })
unfolding Transactions.contains
indexed-test = refl

get_transactions_by_id-answers_example :
    get_transactions_by_id plain ((1 ∷ []) ∷ (3 ∷ []) ∷ []) (History.run plain history)
    ≡ ok (answers plain (indexed history) ((1 ∷ []) ∷ (3 ∷ []) ∷ []))
get_transactions_by_id-answers_example =
    get_transactions_by_id-answers plain (1 ∷ []) ((3 ∷ []) ∷ []) history

get_contract_meta-latest_example :
    get_contract_meta abi_codec (7 ∷ []) (Laws.run abi_codec history) ≡ (
      if is_nil (7 ∷ [])
      then err runtime_error
      else ok (meta_of abi_codec (latest (7 ∷ []) history)))
get_contract_meta-latest_example = get_contract_meta-latest abi_codec (7 ∷ []) history
