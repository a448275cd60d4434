-- ===== src/Stores/Accounts/Examples.antt =====
-- The account history after concrete blocks: the theorems' examples, and tests.
use teleno.Base.{
  Bool-cases, Bytes, Option, [], arith, bytes_beq, bytes_beq_iff, bytes_key, false, inl, inr, ltb,
  nat_beq, nat_key, none, pair_key, refl, some, subst, take, true, ◌<?◌, ◌==◌, ◌∷◌, ◌≡◌,
}
use teleno.StdMap.{insert_or_assign, lookup}
use teleno.Stores.Messages.{call_contract, Block, Codec}
use teleno.Stores.Transactions.{is_nil}
use teleno.Stores.Accounts.{Item, addresses, get_account_history, encode_seq, decode_seq, in_prefix}
use teleno.Stores.Accounts.Seq.{encode_seq-lem}
use teleno.Stores.Accounts.Keys.{IsAddress}
use teleno.Stores.Accounts.Query.{drop, limit_of}
use teleno.Stores.Accounts.History.{AllAddresses, history}
use teleno.Stores.Accounts.Requests.{get_account_history-history, run}

abbrev parse_item : Bytes → Option Item
parse_item (n ∷ h ∷ i) = some (record { seq_num = n; height = h; block_id = i })
parse_item bytes = none

item-full : (x : Item) → is_nil (x.seq_num ∷ x.height ∷ x.block_id) ≡ false
unfolding is_nil
item-full x = refl

abbrev item_codec : Codec Item Bytes
item_codec = record {
  is_empty = is_nil;
  serialize = λ x. x.seq_num ∷ x.height ∷ x.block_id;
  parse = parse_item;
  parse-serialize = λ x. refl;
  is_empty-serialize = item-full;
}

abbrev address_1 : Bytes
address_1 = 0 ∷ 1 ∷ []

-- A block that concerns one address twice, as its signer and as a contract that is called.
abbrev block_3 : Block
block_3 = record {
  id = 23 ∷ [];
  height = 5;
  signer = address_1;
  transactions =
      record { id = 3 ∷ []; header = none; operations = call_contract address_1 ∷ [] } ∷ [];
}

address_1-IsAddress : IsAddress 2 address_1
unfolding in_prefix
address_1-IsAddress = record { has_size = refl; plain = λ b. refl }

only_1 : (a : Bytes) → lookup a (addresses block_3) ≡ some tt → IsAddress 2 a
unfolding addresses lookup insert_or_assign
only_1 a h = elim (Bool-cases (bytes_beq address_1 a)) [
  | inl same ↦ subst (IsAddress 2) ((bytes_beq_iff address_1 a).0 same) address_1-IsAddress
  | inr other ↦ absurd (ground (arith, h, other))
]

blocks-AllAddresses : AllAddresses 2 (block_3 ∷ block_3 ∷ [])
blocks-AllAddresses = (only_1, (only_1, tt))

get_account_history-history_example :
    get_account_history item_codec
      (record { address = address_1; limit = 1; seq_num = 1; ascending = true })
      (run item_codec 2 (block_3 ∷ block_3 ∷ []))
    ≡ take (limit_of 1) (drop 1 (history (block_3 ∷ block_3 ∷ []) address_1))
get_account_history-history_example =
    get_account_history-history item_codec 2 (block_3 ∷ block_3 ∷ [])
      (record { address = address_1; limit = 1; seq_num = 1; ascending = true }) blocks-AllAddresses
      (omega arith) address_1-IsAddress (omega arith) refl

history-test :
    history (block_3 ∷ block_3 ∷ []) address_1
    ≡ record { seq_num = 0; height = 5; block_id = 23 ∷ [] }
      ∷ record { seq_num = 1; height = 5; block_id = 23 ∷ [] }
      ∷ []
unfolding addresses lookup insert_or_assign
history-test = refl

encode_seq-lem_example :
    (decode_seq (encode_seq 70000) ≡ 70000)
    × ((encode_seq 70000 <? encode_seq 70001) ≡ ltb 70000 70001)
    × ((encode_seq 70000 == encode_seq 70001) ≡ nat_beq 70000 70001)
encode_seq-lem_example = encode_seq-lem 70000 70001 (omega arith) (omega arith)
